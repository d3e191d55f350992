-- ===== src/Dbmig.antt =====
-- internal/dbmig/plan.go: how the name of a database or user changes with the account's prefix.
pub mod Names
pub mod Tables
pub mod Plan
use c_panel_self_migration.Prelude.{
  Bool, true, false, not, [], ◌∷◌, ◌++◌, Bytes, lit, is_empty, has_prefix, drop, length, ◌==◌,
  if◌then◌else◌, ◌||◌, contains_byte, List,
}

pub record NamePrefix : Type 0 where
  pub enabled : Bool
  pub text : Bytes

pub record NameMapping : Type 0 where
  pub source : NamePrefix
  pub destination : NamePrefix

-- `name[:i+1]`, for the first underscore at `i`.
unfoldable pub up_to_underscore : Bytes → Bytes
up_to_underscore [] = []
up_to_underscore (c ∷ s) = let rest = up_to_underscore s in if c == b'_' then c ∷ [] else c ∷ rest

unfoldable pub prefix_of : Bytes → Bytes
unfolding up_to_underscore
prefix_of name = if contains_byte b'_' name then up_to_underscore name else []

unfoldable pub remap : Bytes → (src_prefix dest_prefix : Bytes) → Bytes
remap name src_prefix dest_prefix =
    if is_empty src_prefix || not (has_prefix name src_prefix)
    then name
    else dest_prefix ++ drop (length src_prefix) name

-- The last lines of `remapName`.
abbrev pub with_prefix : NamePrefix → Bytes → Bytes
with_prefix p suffix = if p.enabled then p.text ++ suffix else suffix

unfoldable pub remap_name : Bytes → NameMapping → Bytes
remap_name name mapping =
    if mapping.source.enabled
    then (if not (has_prefix name mapping.source.text)
        then name
        else with_prefix mapping.destination (drop (length mapping.source.text) name))
    else with_prefix mapping.destination name

-- The loop of `deriveSrcPrefix`, over the names of the databases.
unfoldable pub derive_src_prefix : List Bytes → Bytes
derive_src_prefix [] = []
derive_src_prefix (db ∷ dbs) =
    let rest = derive_src_prefix dbs in if is_empty (prefix_of db) then rest else prefix_of db

-- The mapping that `BuildPlan` hands on.
unfoldable pub mapping_of : List Bytes → (src_prefix dest_prefix : Bytes) → NameMapping
unfolding derive_src_prefix
mapping_of dbs src_prefix dest_prefix =
    let src = (if is_empty src_prefix then derive_src_prefix dbs else src_prefix) in
    record {
      source = record { enabled = not (is_empty src); text = src };
      destination = record { enabled = not (is_empty dest_prefix); text = dest_prefix };
    }
