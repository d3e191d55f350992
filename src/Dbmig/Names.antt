-- ===== src/Dbmig/Names.antt =====
-- internal/dbmig/plan.go: `remapName` on the names that carry the prefix of the source.
use c_panel_self_migration.Prelude.{
  Bool, true, false, not, Bytes, is_empty, has_prefix, has_prefix_iff, has_prefix-append, drop,
  drop-length-append, length, if◌then◌else◌, ◌||◌, ◌≡◌, sym, ap, ◌∙◌, arith,
}
use c_panel_self_migration.Dbmig.{NamePrefix, NameMapping, remap, with_prefix, remap_name}

-- A name as the source account writes it.
abbrev pub is_carried : NamePrefix → Bytes → Bool
is_carried p name = not p.enabled || has_prefix name p.text

abbrev pub opposite : NameMapping → NameMapping
opposite mapping = record { source = mapping.destination; destination = mapping.source }

-- The name behind the prefix.
abbrev suffix_of : NamePrefix → Bytes → Bytes
suffix_of p name = if p.enabled then drop (length p.text) name else name

with_prefix-suffix_of :
    (p : NamePrefix) (name : Bytes)
    → is_carried p name ≡ true
    → with_prefix p (suffix_of p name) ≡ name
with_prefix-suffix_of p name h = ground (arith, has_prefix_iff name p.text)

suffix_of-with_prefix : (p : NamePrefix) (s : Bytes) → suffix_of p (with_prefix p s) ≡ s
suffix_of-with_prefix p s = ground (arith, drop-length-append p.text s)

carried-with_prefix : (p : NamePrefix) (s : Bytes) → is_carried p (with_prefix p s) ≡ true
carried-with_prefix p s = ground (arith, has_prefix-append p.text s)

remap_name-carried :
    (mapping : NameMapping) (name : Bytes)
    → is_carried mapping.source name ≡ true
    → remap_name name mapping ≡ with_prefix mapping.destination (suffix_of mapping.source name)
unfolding remap_name
remap_name-carried mapping name h = ground arith

-- Renaming a database or user that carries the source prefix (or any name, where the source has no
-- prefix) and renaming the result by the opposite mapping gives the name back, with prefixes
-- enabled or not on either side.
pub remap_name-remap_name :
    (mapping : NameMapping) (name : Bytes)
    → is_carried mapping.source name ≡ true
    → remap_name (remap_name name mapping) (opposite mapping) ≡ name
remap_name-remap_name mapping name h =
    ap (λ n. remap_name n (opposite mapping)) (remap_name-carried mapping name h)
    ∙ remap_name-carried (opposite mapping) (with_prefix mapping.destination suffix)
        (carried-with_prefix mapping.destination suffix)
    ∙ ap (with_prefix mapping.source) (suffix_of-with_prefix mapping.destination suffix)
    ∙ with_prefix-suffix_of mapping.source name h
  where
    suffix : Bytes
    suffix = suffix_of mapping.source name

-- Two names that carry the source prefix (or any two, where the source has none) and are renamed to
-- one name are the same name.
pub remap_name-injective :
    (mapping : NameMapping) (a b : Bytes)
    → is_carried mapping.source a ≡ true
    → is_carried mapping.source b ≡ true
    → remap_name a mapping ≡ remap_name b mapping
    → a ≡ b
remap_name-injective mapping a b h k e =
    sym (remap_name-remap_name mapping a h)
    ∙ ap (λ n. remap_name n (opposite mapping)) e
    ∙ remap_name-remap_name mapping b k

-- Where each side is enabled exactly if its prefix is not empty and the source prefix is not empty,
-- remapName agrees with the older remap on every name.
pub remap_name-remap :
    (mapping : NameMapping) (name : Bytes)
    → mapping.source.enabled ≡ not (is_empty mapping.source.text)
    → mapping.destination.enabled ≡ not (is_empty mapping.destination.text)
    → is_empty mapping.source.text ≡ false
    → remap_name name mapping ≡ remap name mapping.source.text mapping.destination.text
unfolding remap_name remap
remap_name-remap mapping name s d h = ground arith
