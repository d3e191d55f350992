-- ===== src/Tests/Databases.antt =====
-- Tests of the plan of databases of internal/dbmig.
use c_panel_self_migration.Prelude.{
  true, false, List, [], ◌∷◌, Bytes, lit, eqb, count_p, All, ◌≡◌, refl, map, has_prefix,
}
use c_panel_self_migration.Sorting.{text_less, sort_by}
use c_panel_self_migration.Sorting.Laws.{IsSortedBy}
use c_panel_self_migration.Dbmig.{NameMapping, remap_name}
use c_panel_self_migration.Dbmig.Tables.{
  SiteCreds, collect, text_at, set_first, set_text, has_entry, fill_in, configs_at, add_config,
  collect_one,
}
use c_panel_self_migration.Dbmig.Plan.{
  DatabaseEntry, DbPlanItem, build_plan_with_mapping, plan_item, before, granted, merge_users,
  override_at,
}
use c_panel_self_migration.Dbmig.Plan.{Override, or_old, with_user, with_password}
use c_panel_self_migration.Dbmig.Tables.{Table, no_tables}
use c_panel_self_migration.Dbmig.Plan.Credentials.{
  is_registry_of, first_text, plan_item-credentials,
}
use c_panel_self_migration.Dbmig.Plan.Complete.{is_config_of}
use c_panel_self_migration.Dbmig.Plan.Complete.{IsPlanned, build_plan_with_mapping-IsPlanned}

abbrev renaming : NameMapping
renaming = record {
  source = record { enabled = true; text = lit "old_" };
  destination = record { enabled = true; text = lit "new_" };
}

abbrev databases : List DatabaseEntry
databases =
    record { database = lit "old_wp"; disk_usage = 10; users = lit "old_u" ∷ [] }
    ∷ record { database = lit "old_blog"; disk_usage = 20; users = [] }
    ∷ []

abbrev wp_config : SiteCreds
wp_config = record {
  docroot = lit "/home/a";
  config_path = lit "/home/a/wp-config.php";
  kind = lit "wordpress";
  from_registry = false;
  db_name = lit "old_wp";
  db_user = lit "old_w";
  db_password = lit "pw";
  table_prefix = lit "wp_";
}

abbrev registry : SiteCreds
registry = record wp_config {
  config_path = lit "/home/.softaculous";
  from_registry = true;
  db_name = lit "old_blog";
  db_user = lit "old_b";
  db_password = lit "rpw";
}

abbrev plan : List DbPlanItem
plan = build_plan_with_mapping databases [] (wp_config ∷ registry ∷ []) renaming []

planned : map (λ it. it.dest_user) plan ≡ lit "new_b" ∷ lit "new_w" ∷ []
unfolding build_plan_with_mapping plan_item sort_by text_less granted merge_users override_at
    collect collect_one set_first set_text has_entry fill_in text_at configs_at add_config
    remap_name has_prefix eqb lit
planned = refl

build_plan_with_mapping-IsPlanned_example :
    All (IsPlanned (wp_config ∷ registry ∷ []) renaming) plan
    × IsSortedBy before plan
    × ((name : Bytes)
        → count_p (λ it. eqb it.src_db name) plan ≡ count_p (λ db. eqb db.database name) databases)
build_plan_with_mapping-IsPlanned_example =
    build_plan_with_mapping-IsPlanned databases [] (wp_config ∷ registry ∷ []) renaming []

abbrev blog : DatabaseEntry
blog = record { database = lit "old_blog"; disk_usage = 20; users = [] }

abbrev forced : Table Override
forced = (lit "old_blog", record { user = []; password = lit "set" }) ∷ []

plan_item-credentials_example :
    let it = plan_item (collect no_tables (wp_config ∷ registry ∷ [])) [] forced renaming blog in
    let ov = override_at (lit "old_blog") forced in
    let real = is_config_of (lit "old_blog") in
    let reg = is_registry_of (lit "old_blog") in
    let creds = wp_config ∷ registry ∷ [] in
    (it.password
      ≡ with_password ov (
          or_old
            (first_text real (λ sc. sc.db_password) creds)
            (first_text reg (λ sc. sc.db_password) creds)))
    × (it.src_user
        ≡ with_user ov (
            or_old
              (or_old
                (or_old
                  (first_text real (λ sc. sc.db_user) creds)
                  (first_text reg (λ sc. sc.db_user) creds))
                (text_at (lit "old_blog") []))
              (lit "old_blog")))
plan_item-credentials_example =
    plan_item-credentials (wp_config ∷ registry ∷ []) [] forced renaming blog
