-- ===== src/Dbmig/Tables.antt =====
-- internal/dbmig/plan.go: the maps that the planner builds from the credentials it is given.
use c_panel_self_migration.Prelude.{
  Bool, true, false, List, [], ◌∷◌, ◌++◌, Bytes, is_empty, eqb, if◌then◌else◌,
}

-- `SiteCreds`, with the embedded `wpconfig.Creds`; `kind` is the name of the `Kind`.
pub record SiteCreds : Type 0 where
  pub docroot : Bytes
  pub config_path : Bytes
  pub kind : Bytes
  pub from_registry : Bool
  pub db_name : Bytes
  pub db_user : Bytes
  pub db_password : Bytes
  pub table_prefix : Bytes

pub record DbConfigRef : Type 0 where
  pub docroot : Bytes
  pub config_path : Bytes
  pub table_prefix : Bytes
  pub kind : Bytes

abbrev pub config_ref : SiteCreds → DbConfigRef
config_ref sc = record {
  docroot = sc.docroot;
  config_path = sc.config_path;
  table_prefix = sc.table_prefix;
  kind = sc.kind;
}

-- A Go map with text keys is the list of its entries, each key once.
abbrev pub Table : Type 0 → Type 0
Table A = List (Bytes × A)

-- `t[key]`, where a missing key reads as the zero value.
unfoldable pub text_at : Bytes → Table Bytes → Bytes
text_at key [] = []
text_at key ((k, v) ∷ t) = if eqb k key then v else text_at key t

unfoldable pub configs_at : Bytes → Table (List DbConfigRef) → List DbConfigRef
configs_at key [] = []
configs_at key ((k, v) ∷ t) = if eqb k key then v else configs_at key t

unfoldable pub has_entry : Bytes → Table Bytes → Bool
has_entry key [] = false
has_entry key ((k, v) ∷ t) = if eqb k key then true else has_entry key t

-- `t[key] = v`
unfoldable pub set_text : Bytes → Bytes → Table Bytes → Table Bytes
set_text key v [] = (key, v) ∷ []
set_text key v ((k, w) ∷ t) = if eqb k key then (k, v) ∷ t else (k, w) ∷ set_text key v t

-- `if _, ok := t[key]; !ok && v != "" { t[key] = v }`
unfoldable pub set_first : Bytes → Bytes → Table Bytes → Table Bytes
unfolding has_entry set_text
set_first key v t = if has_entry key t then t else if is_empty v then t else set_text key v t

-- `t[key] = append(t[key], ref)`
unfoldable pub add_config :
    Bytes → DbConfigRef → Table (List DbConfigRef) → Table (List DbConfigRef)
add_config key ref [] = (key, ref ∷ []) ∷ []
add_config key ref ((k, refs) ∷ t) =
    if eqb k key then (k, refs ++ ref ∷ []) ∷ t else (k, refs) ∷ add_config key ref t

pub record Tables : Type 0 where
  pub configs : Table (List DbConfigRef)
  pub owners : Table Bytes
  pub passwords : Table Bytes
  pub registry_owners : Table Bytes
  pub registry_passwords : Table Bytes

abbrev pub no_tables : Tables
no_tables = record {
  configs = [];
  owners = [];
  passwords = [];
  registry_owners = [];
  registry_passwords = [];
}

-- The body of the loop over the credentials.
unfoldable pub collect_one : Tables → SiteCreds → Tables
unfolding set_first add_config
collect_one ts sc =
    if is_empty sc.db_name
    then ts
    else if sc.from_registry
    then record ts {
      registry_owners = set_first sc.db_name sc.db_user ts.registry_owners;
      registry_passwords = set_first sc.db_name sc.db_password ts.registry_passwords;
    }
    else record ts {
      configs = add_config sc.db_name (config_ref sc) ts.configs;
      owners = set_first sc.db_name sc.db_user ts.owners;
      passwords = set_first sc.db_name sc.db_password ts.passwords;
    }

unfoldable pub collect : Tables → List SiteCreds → Tables
unfolding collect_one
collect ts [] = ts
collect ts (sc ∷ creds) = collect (collect_one ts sc) creds

-- The loops that fold the registry in: an entry that reads as empty is filled.
unfoldable pub fill_in : Table Bytes → Table Bytes → Table Bytes
unfolding text_at set_text
fill_in t [] = t
fill_in t ((k, v) ∷ more) = fill_in (if is_empty (text_at k t) then set_text k v t else t) more
