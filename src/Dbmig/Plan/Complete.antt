-- ===== src/Dbmig/Plan/Complete.antt =====
-- internal/dbmig/plan.go: the items of a plan, their order and their configs.
use c_panel_self_migration.Prelude.{
  ◌+◌, Bool, true, false, not, List, [], ◌∷◌, ◌++◌, map, filter, All, count_p, Bytes, is_empty, eqb,
  eqb_iff, ◌&&◌, if◌then◌else◌, ◌≡◌, refl, sym, ap, ◌∙◌, arith, append-nil, append_assoc,
  Bool-cases, inl, inr,
}
use c_panel_self_migration.Sorting.Laws.{
  text_less_asym, IsSortedBy, sort_by-IsSortedBy, count_p-sort_by, sort_by-All,
}
use c_panel_self_migration.Dbmig.{NameMapping, remap_name}
use c_panel_self_migration.Dbmig.Tables.{
  SiteCreds, DbConfigRef, config_ref, Table, Tables, no_tables, configs_at, add_config, collect_one,
  collect,
}
use c_panel_self_migration.Dbmig.Plan.{
  DatabaseEntry, DbUserEntry, Override, DbPlanItem, plan_item, before, build_plan_with_mapping,
  granted, merge_users,
}

-- A site's own config that names the database.
abbrev pub is_config_of : Bytes → SiteCreds → Bool
is_config_of db sc = not (is_empty sc.db_name) && not sc.from_registry && eqb sc.db_name db

abbrev pub configs_of : Bytes → List SiteCreds → List DbConfigRef
configs_of db creds = map config_ref (filter (is_config_of db) creds)

configs_at-add_config :
    (db key : Bytes) (ref : DbConfigRef) (t : Table (List DbConfigRef))
    → configs_at db (add_config key ref t)
      ≡ (if eqb key db then configs_at db t ++ ref ∷ [] else configs_at db t)
unfolding configs_at add_config
configs_at-add_config db key ref [] = ground arith
configs_at-add_config db key ref ((k, refs) ∷ t) =
    ground (arith, eqb_iff k key, eqb_iff key db, eqb_iff k db, configs_at-add_config db key ref t)

configs_at-collect_one :
    (db : Bytes) (ts : Tables) (sc : SiteCreds)
    → configs_at db (collect_one ts sc).configs ≡ (
        if is_config_of db sc
        then configs_at db ts.configs ++ config_ref sc ∷ []
        else configs_at db ts.configs)
unfolding collect_one
configs_at-collect_one db ts sc =
    ground (arith, configs_at-add_config db sc.db_name (config_ref sc) ts.configs)

configs_at-collect_two :
    (db : Bytes) (ts : Tables) (sc : SiteCreds) (creds : List SiteCreds)
    → configs_at db (collect_one ts sc).configs ++ configs_of db creds
      ≡ configs_at db ts.configs ++ configs_of db (sc ∷ creds)
configs_at-collect_two db ts sc creds = elim (Bool-cases (is_config_of db sc)) [
  | inl own ↦
      rw (configs_at-collect_one db ts sc, own)
        (append_assoc (configs_at db ts.configs) (config_ref sc ∷ []) (configs_of db creds))
  | inr other ↦ rw (configs_at-collect_one db ts sc, other) refl
]

configs_at-collect :
    (db : Bytes) (ts : Tables) (creds : List SiteCreds)
    → configs_at db (collect ts creds).configs ≡ configs_at db ts.configs ++ configs_of db creds
unfolding collect
configs_at-collect db ts [] = sym (append-nil (configs_at db ts.configs))
configs_at-collect db ts (sc ∷ creds) =
    configs_at-collect db (collect_one ts sc) creds ∙ configs_at-collect_two db ts sc creds

-- An item with all and only its configs, and its names renamed.
pub record IsPlanned (creds : List SiteCreds) (mapping : NameMapping) (it : DbPlanItem)
    : Type 0 where
  pub configs_own : it.configs ≡ configs_of it.src_db creds
  pub orphan_none : it.orphan ≡ (elim (configs_of it.src_db creds) [ [] ↦ true | _ ∷ _ ↦ false ])
  pub db_renamed : it.dest_db ≡ remap_name it.src_db mapping
  pub user_renamed : it.dest_user ≡ remap_name it.src_user mapping

plan_item-IsPlanned :
    (creds : List SiteCreds) (api_owner : Table Bytes) (overrides : Table Override)
    (mapping : NameMapping) (db : DatabaseEntry)
    → IsPlanned creds mapping (plan_item (collect no_tables creds) api_owner overrides mapping db)
unfolding plan_item configs_at
plan_item-IsPlanned creds api_owner overrides mapping db =
    let own = configs_at-collect db.database no_tables creds in
    record {
      configs_own = own;
      orphan_none = ap (λ refs. elim refs as (λ _. Bool) [ [] ↦ true | _ ∷ _ ↦ false ]) own;
      db_renamed = refl;
      user_renamed = refl;
    }

module _ (creds : List SiteCreds) (api_owner : Table Bytes) (overrides : Table Override)
    (mapping : NameMapping) where
  abbrev item : DatabaseEntry → DbPlanItem
  item = plan_item (collect no_tables creds) api_owner overrides mapping

  IsPlanned-All : (dbs : List DatabaseEntry) → All (IsPlanned creds mapping) (map item dbs)
  IsPlanned-All [] = tt
  IsPlanned-All (db ∷ dbs) =
      (plan_item-IsPlanned creds api_owner overrides mapping db, IsPlanned-All dbs)

  count_p-planned :
      (name : Bytes) (dbs : List DatabaseEntry)
      → count_p (λ it. eqb it.src_db name) (map item dbs) ≡ count_p (λ db. eqb db.database name) dbs
  unfolding plan_item
  count_p-planned name [] = refl
  count_p-planned name (db ∷ dbs) =
      ap (λ n. (if eqb db.database name then 1 else 0) + n) (count_p-planned name dbs)

-- Whatever databases, users, credentials and overrides are given: each item of the plan lists all
-- and only the sites' own configs that name its database, in the order they were found and none
-- from the registry, is an orphan exactly if there are none, and has its database and user renamed
-- by the mapping; the plan is sorted by source name, and has each name as often as the list of
-- databases has it.
pub build_plan_with_mapping-IsPlanned :
    (dbs : List DatabaseEntry) (users : List DbUserEntry) (creds : List SiteCreds)
    (mapping : NameMapping) (overrides : Table Override)
    → let plan = build_plan_with_mapping dbs users creds mapping overrides in
      All (IsPlanned creds mapping) plan
      × IsSortedBy before plan
      × ((name : Bytes)
          → count_p (λ it. eqb it.src_db name) plan ≡ count_p (λ db. eqb db.database name) dbs)
unfolding build_plan_with_mapping
build_plan_with_mapping-IsPlanned dbs users creds mapping overrides =
    let api_owner = merge_users (granted [] dbs) users in
    let items = map (plan_item (collect no_tables creds) api_owner overrides mapping) dbs in
    (
      sort_by-All before (IsPlanned creds mapping) items
          (IsPlanned-All creds api_owner overrides mapping dbs),
      sort_by-IsSortedBy before (λ a b. text_less_asym a.src_db b.src_db) items,
      λ name.
          count_p-sort_by before (λ it. eqb it.src_db name) items
          ∙ count_p-planned creds api_owner overrides mapping name dbs,
    )
