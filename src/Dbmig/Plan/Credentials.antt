-- ===== src/Dbmig/Plan/Credentials.antt =====
-- internal/dbmig/plan.go: whose credentials a planned database gets.
use mathlib.Core.Path.{ap₂}
use c_panel_self_migration.Prelude.{
  Bool, true, false, not, List, [], ◌∷◌, Bytes, is_empty, eqb, eqb_iff, ◌&&◌, if◌then◌else◌, ◌≡◌,
  refl, ap, ◌∙◌, arith,
}
use c_panel_self_migration.Dbmig.{NameMapping}
use c_panel_self_migration.Dbmig.Tables.{
  SiteCreds, Table, Tables, no_tables, text_at, has_entry, set_text, set_first, collect_one,
  collect, fill_in,
}
use c_panel_self_migration.Dbmig.Plan.{
  DatabaseEntry, Override, plan_item, override_at, or_old, with_user, with_password,
}
use c_panel_self_migration.Dbmig.Plan.Complete.{is_config_of}

-- An entry of the registry that names the database.
abbrev pub is_registry_of : Bytes → SiteCreds → Bool
is_registry_of db sc = not (is_empty sc.db_name) && sc.from_registry && eqb sc.db_name db

-- The first text that is not empty among the credentials that pass the test.
abbrev pub first_text : (SiteCreds → Bool) → (SiteCreds → Bytes) → List SiteCreds → Bytes
first_text p f [] = []
first_text p f (sc ∷ creds) =
    let rest = first_text p f creds in if p sc && not (is_empty (f sc)) then f sc else rest

-- No entry of the table is empty.
abbrev is_full : Table Bytes → Bool
is_full [] = true
is_full ((k, v) ∷ t) = not (is_empty v) && is_full t

text_at-set_text :
    (db k v : Bytes) (t : Table Bytes)
    → text_at db (set_text k v t) ≡ (if eqb k db then v else text_at db t)
unfolding text_at set_text
text_at-set_text db k v [] = ground arith
text_at-set_text db k v ((j, w) ∷ t) =
    ground (arith, eqb_iff j k, eqb_iff k db, eqb_iff j db, text_at-set_text db k v t)

is_full-set_text :
    (k v : Bytes) (t : Table Bytes)
    → is_empty v ≡ false
    → is_full t ≡ true
    → is_full (set_text k v t) ≡ true
unfolding set_text
is_full-set_text k v [] h f = ground arith
is_full-set_text k v ((j, w) ∷ t) h f = ground (arith, is_full-set_text k v t)

has_entry-is_full :
    (db : Bytes) (t : Table Bytes)
    → is_full t ≡ true
    → has_entry db t ≡ not (is_empty (text_at db t))
unfolding has_entry text_at
has_entry-is_full db [] f = refl
has_entry-is_full db ((k, v) ∷ t) f = ground (arith, has_entry-is_full db t)

text_at-set_first :
    (db k v : Bytes) (t : Table Bytes)
    → is_full t ≡ true
    → text_at db (set_first k v t) ≡ or_old (text_at db t) (if eqb k db then v else [])
unfolding set_first
text_at-set_first db k v t f =
    ground (arith, has_entry-is_full k t f, text_at-set_text db k v t, eqb_iff k db)

is_full-set_first :
    (k v : Bytes) (t : Table Bytes) → is_full t ≡ true → is_full (set_first k v t) ≡ true
unfolding set_first
is_full-set_first k v t f = ground (arith, is_full-set_text k v t)

text_at-fill_in :
    (db : Bytes) (t more : Table Bytes)
    → is_full more ≡ true
    → text_at db (fill_in t more) ≡ or_old (text_at db t) (text_at db more)
unfolding fill_in text_at
text_at-fill_in db t [] f = ground arith
text_at-fill_in db t ((k, v) ∷ more) f = ground (
  arith,
  text_at-fill_in db (if is_empty (text_at k t) then set_text k v t else t) more,
  text_at-set_text db k v t,
  eqb_iff k db,
  f,
)

-- What the four tables read for one database, once the credentials are collected.
record Reads (db : Bytes) (ts : Tables) (creds : List SiteCreds) (after : Tables) : Type 0 where
  owner :
      text_at db after.owners
      ≡ or_old (text_at db ts.owners) (first_text (is_config_of db) (λ sc. sc.db_user) creds)
  password :
      text_at db after.passwords
      ≡ or_old (text_at db ts.passwords) (first_text (is_config_of db) (λ sc. sc.db_password) creds)
  registry_owner :
      text_at db after.registry_owners
      ≡ or_old
          (text_at db ts.registry_owners)
          (first_text (is_registry_of db) (λ sc. sc.db_user) creds)
  registry_password :
      text_at db after.registry_passwords
      ≡ or_old
          (text_at db ts.registry_passwords)
          (first_text (is_registry_of db) (λ sc. sc.db_password) creds)
  full_owners : is_full after.registry_owners ≡ true
  full_passwords : is_full after.registry_passwords ≡ true

abbrev all_full : Tables → Bool
all_full ts =
    is_full ts.owners
    && is_full ts.passwords
    && is_full ts.registry_owners
    && is_full ts.registry_passwords

all_full-collect_one :
    (ts : Tables) (sc : SiteCreds) → all_full ts ≡ true → all_full (collect_one ts sc) ≡ true
unfolding collect_one
all_full-collect_one ts sc f = ground (
  arith,
  is_full-set_first sc.db_name sc.db_user ts.owners,
  is_full-set_first sc.db_name sc.db_password ts.passwords,
  is_full-set_first sc.db_name sc.db_user ts.registry_owners,
  is_full-set_first sc.db_name sc.db_password ts.registry_passwords,
)

collect_one-reads :
    (db : Bytes) (ts : Tables) (sc : SiteCreds)
    → all_full ts ≡ true
    → (text_at db (collect_one ts sc).owners
        ≡ or_old (text_at db ts.owners) (if is_config_of db sc then sc.db_user else []))
      × (text_at db (collect_one ts sc).passwords
          ≡ or_old (text_at db ts.passwords) (if is_config_of db sc then sc.db_password else []))
      × (text_at db (collect_one ts sc).registry_owners
          ≡ or_old
              (text_at db ts.registry_owners)
              (if is_registry_of db sc then sc.db_user else []))
      × (text_at db (collect_one ts sc).registry_passwords
          ≡ or_old
              (text_at db ts.registry_passwords)
              (if is_registry_of db sc then sc.db_password else []))
unfolding collect_one
collect_one-reads db ts sc f = ground (
  arith,
  text_at-set_first db sc.db_name sc.db_user ts.owners,
  text_at-set_first db sc.db_name sc.db_password ts.passwords,
  text_at-set_first db sc.db_name sc.db_user ts.registry_owners,
  text_at-set_first db sc.db_name sc.db_password ts.registry_passwords,
)

first_text_step :
    (p : SiteCreds → Bool) (f : SiteCreds → Bytes) (sc : SiteCreds) (creds : List SiteCreds)
    (before : Bytes) {now : Bytes}
    → now ≡ or_old before (if p sc then f sc else [])
    → or_old now (first_text p f creds) ≡ or_old before (first_text p f (sc ∷ creds))
first_text_step p f sc creds before e = ground (arith, e)

collect-Reads :
    (db : Bytes) (ts : Tables) (creds : List SiteCreds)
    → all_full ts ≡ true
    → Reads db ts creds (collect ts creds)
unfolding collect
collect-Reads db ts [] f = record {
  owner = ground arith;
  password = ground arith;
  registry_owner = ground arith;
  registry_password = ground arith;
  full_owners = ground arith;
  full_passwords = ground arith;
}
collect-Reads db ts (sc ∷ creds) f =
    let full = all_full-collect_one ts sc f in
    let (o, p, ro, rp) = collect_one-reads db ts sc f in
    let rest = collect-Reads db (collect_one ts sc) creds full in
    record {
      owner =
          rest.owner
          ∙ first_text_step (is_config_of db) (λ c. c.db_user) sc creds (text_at db ts.owners) o;
      password =
          rest.password
          ∙ first_text_step (is_config_of db) (λ c. c.db_password) sc creds
              (text_at db ts.passwords) p;
      registry_owner =
          rest.registry_owner
          ∙ first_text_step (is_registry_of db) (λ c. c.db_user) sc creds
              (text_at db ts.registry_owners) ro;
      registry_password =
          rest.registry_password
          ∙ first_text_step (is_registry_of db) (λ c. c.db_password) sc creds
              (text_at db ts.registry_passwords) rp;
      full_owners = rest.full_owners;
      full_passwords = rest.full_passwords;
    }

-- A planned database's password is the override's if that is not empty, else the first that is not
-- empty among the sites' own configs that name it, else the first among the entries of the
-- registry; its owner is chosen in the same order, then from the users the API names, then as the
-- name of the database.
pub plan_item-credentials :
    (creds : List SiteCreds) (api_owner : Table Bytes) (overrides : Table Override)
    (mapping : NameMapping) (db : DatabaseEntry)
    → let it = plan_item (collect no_tables creds) api_owner overrides mapping db in
      let ov = override_at db.database overrides in
      let real = is_config_of db.database in
      let reg = is_registry_of db.database in
      (it.password
        ≡ with_password ov (
            or_old
              (first_text real (λ sc. sc.db_password) creds)
              (first_text reg (λ sc. sc.db_password) creds)))
      × (it.src_user
          ≡ with_user ov (
              or_old
                (or_old
                  (or_old
                    (first_text real (λ sc. sc.db_user) creds)
                    (first_text reg (λ sc. sc.db_user) creds))
                  (text_at db.database api_owner))
                db.database))
unfolding plan_item text_at
plan_item-credentials creds api_owner overrides mapping db =
    let ts = collect no_tables creds in
    let reads = collect-Reads db.database no_tables creds refl in
    let password =
      text_at-fill_in db.database ts.passwords ts.registry_passwords reads.full_passwords
      ∙ ap₂ or_old reads.password reads.registry_password in
    let owner =
      text_at-fill_in db.database ts.owners ts.registry_owners reads.full_owners
      ∙ ap₂ or_old reads.owner reads.registry_owner in
    (
      ap (with_password (override_at db.database overrides)) password,
      ap
          (λ o.
            with_user (override_at db.database overrides)
              (or_old (or_old o (text_at db.database api_owner)) db.database))
          owner,
    )
