-- ===== src/Dbmig/Plan.antt =====
-- internal/dbmig/plan.go: `BuildPlanWithMapping`. The debug and warning lines are left out.
pub mod Complete
pub mod Credentials
use c_panel_self_migration.Prelude.{
  ℕ, Bool, true, false, not, List, [], ◌∷◌, ◌++◌, map, Bytes, is_empty, eqb, ltb, ◌==◌, ◌||◌, ◌&&◌,
  if◌then◌else◌, Option, none, some,
}
use c_panel_self_migration.Sorting.{text_less, sort_by}
use c_panel_self_migration.Dbmig.{NameMapping, mapping_of, remap_name}
use c_panel_self_migration.Dbmig.Tables.{
  SiteCreds, DbConfigRef, Table, Tables, no_tables, text_at, configs_at, has_entry, set_text,
  collect, fill_in,
}

-- `cpanel.DatabaseEntry` and `cpanel.DBUserEntry`.
pub record DatabaseEntry : Type 0 where
  pub database : Bytes
  pub disk_usage : ℕ
  pub users : List Bytes

pub record DbUserEntry : Type 0 where
  pub user : Bytes
  pub databases : List Bytes

pub record Override : Type 0 where
  pub user : Bytes
  pub password : Bytes

pub record DbPlanItem : Type 0 where
  pub src_db : Bytes
  pub src_user : Bytes
  pub dest_db : Bytes
  pub dest_user : Bytes
  pub password : Bytes
  pub disk_usage : ℕ
  pub configs : List DbConfigRef
  pub orphan : Bool

abbrev grant : Bytes → List Bytes → Table Bytes → Table Bytes
grant db [] t = t
grant db (u ∷ us) t = set_text db u t

-- The first user granted on each database.
unfoldable pub granted : Table Bytes → List DatabaseEntry → Table Bytes
granted t [] = t
granted t (db ∷ dbs) = granted (grant db.database db.users t) dbs

-- The mapping on the side of one user, where no database names an owner.
unfoldable pub merge_user : Bytes → Table Bytes → List Bytes → Table Bytes
merge_user user t [] = t
merge_user user t (d ∷ ds) = merge_user user (if has_entry d t then t else set_text d user t) ds

unfoldable pub merge_users : Table Bytes → List DbUserEntry → Table Bytes
unfolding merge_user
merge_users t [] = t
merge_users t (u ∷ us) = merge_users (merge_user u.user t u.databases) us

unfoldable pub override_at : Bytes → Table Override → Option Override
override_at db [] = none
override_at db ((k, ov) ∷ t) = if eqb k db then some ov else override_at db t

-- `if v != "" { old = v }`
abbrev pub or_old : Bytes → Bytes → Bytes
or_old v old = if is_empty v then old else v

abbrev pub with_user : Option Override → Bytes → Bytes
with_user none owner = owner
with_user (some ov) owner = or_old ov.user owner

abbrev pub with_password : Option Override → Bytes → Bytes
with_password none password = password
with_password (some ov) password = or_old ov.password password

-- The body of the loop over the databases.
unfoldable pub plan_item :
    Tables → (api_owner : Table Bytes) → Table Override → NameMapping → DatabaseEntry → DbPlanItem
unfolding fill_in
plan_item ts api_owner overrides mapping db =
    let owners = fill_in ts.owners ts.registry_owners in
    let passwords = fill_in ts.passwords ts.registry_passwords in
    let ov = override_at db.database overrides in
    let found = or_old (text_at db.database owners) (text_at db.database api_owner) in
    let owner = with_user ov (or_old found db.database) in
    let configs = configs_at db.database ts.configs in
    record {
      src_db = db.database;
      src_user = owner;
      dest_db = remap_name db.database mapping;
      dest_user = remap_name owner mapping;
      password = with_password ov (text_at db.database passwords);
      disk_usage = db.disk_usage;
      configs = configs;
      orphan = (elim configs [ [] ↦ true | _ ∷ _ ↦ false ]);
    }

-- The order of the plan.
abbrev pub before : DbPlanItem → DbPlanItem → Bool
before a b = text_less a.src_db b.src_db

unfoldable pub build_plan_with_mapping :
    List DatabaseEntry
    → List DbUserEntry
    → List SiteCreds
    → NameMapping
    → Table Override
    → List DbPlanItem
unfolding collect granted merge_users
build_plan_with_mapping dbs users creds mapping overrides =
    let api_owner = merge_users (granted [] dbs) users in
    sort_by before (map (plan_item (collect no_tables creds) api_owner overrides mapping) dbs)

unfoldable pub build_plan :
    List DatabaseEntry
    → List DbUserEntry
    → List SiteCreds
    → (src_prefix dest_prefix : Bytes) → Table Override
    → List DbPlanItem
unfolding build_plan_with_mapping mapping_of
build_plan dbs users creds src_prefix dest_prefix overrides =
    build_plan_with_mapping dbs users creds
      (mapping_of (map (λ db. db.database) dbs) src_prefix dest_prefix) overrides
