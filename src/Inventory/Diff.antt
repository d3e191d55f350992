-- ===== src/Inventory/Diff.antt =====
-- internal/accountinventory/diff.go: the comparison of keyed items. A Go map is the list of its
-- entries; every list that a loop over a map fills is sorted at the end.
pub mod Items
pub mod Dns
pub mod Cron
pub mod Inventories
pub mod Exact
use c_panel_self_migration.Prelude.{
  Bool, true, false, not, ◌||◌, ◌&&◌, List, [], ◌∷◌, ◌++◌, map, filter, any, Bytes, lit, eqb,
  if◌then◌else◌, Option, none, some,
}
use c_panel_self_migration.Sorting.{text_less, sort_by, sort_texts}

pub record DiffEntry : Type 0 where
  pub key : Bytes
  pub detail : Bytes

pub record DiffFieldChange : Type 0 where
  pub key : Bytes
  pub field : Bytes
  pub source : Bytes
  pub destination : Bytes

pub record SectionDiff : Type 0 where
  pub added : List DiffEntry
  pub removed : List DiffEntry
  pub changed : List DiffFieldChange
  pub skipped : List Bytes
  pub warnings : List Bytes

abbrev pub new_section_diff : SectionDiff
new_section_diff = record { added = []; removed = []; changed = []; skipped = []; warnings = [] }

-- `fields` is a map from names to values.
pub record KeyedItem : Type 0 where
  pub key : Bytes
  pub detail : Bytes
  pub fields : List (Bytes × Bytes)

-- `it.fields[f]`
unfoldable pub field_at : Bytes → List (Bytes × Bytes) → Bytes
field_at f [] = []
field_at f ((k, v) ∷ fields) = if eqb k f then v else field_at f fields

abbrev pub field_names : List (Bytes × Bytes) → List Bytes
field_names [] = []
field_names ((k, v) ∷ fields) = k ∷ field_names fields

-- `_, ok := m[key]`, on a map from the keys of items to items.
unfoldable pub has_key : Bytes → List KeyedItem → Bool
has_key key items = any (λ it. eqb it.key key) items

unfoldable pub item_at : Bytes → List KeyedItem → Option KeyedItem
item_at key [] = none
item_at key (it ∷ items) = if eqb it.key key then some it else item_at key items

-- `m[it.key] = it`
unfoldable pub put_item : KeyedItem → List KeyedItem → List KeyedItem
put_item it [] = it ∷ []
put_item it (old ∷ items) =
    let rest = put_item it items in if eqb old.key it.key then it ∷ items else old ∷ rest

-- The loop that fills a map.
unfoldable pub index_items : List KeyedItem → List KeyedItem → List KeyedItem
unfolding put_item
index_items m [] = m
index_items m (it ∷ items) = index_items (put_item it m) items

unfoldable pub entry_before : DiffEntry → DiffEntry → Bool
entry_before a b =
    if not (eqb a.key b.key) then text_less a.key b.key else text_less a.detail b.detail

unfoldable pub change_before : DiffFieldChange → DiffFieldChange → Bool
change_before a b =
    if not (eqb a.key b.key) then text_less a.key b.key else text_less a.field b.field

unfoldable pub sort_section_diff : SectionDiff → SectionDiff
sort_section_diff sec = record {
  added = sort_by entry_before sec.added;
  removed = sort_by entry_before sec.removed;
  changed = sort_by change_before sec.changed;
  skipped = sort_texts sec.skipped;
  warnings = sort_texts sec.warnings;
}

abbrev pub entry_of : KeyedItem → DiffEntry
entry_of it = record { key = it.key; detail = it.detail }

-- The entries of one map whose keys the other lacks.
unfoldable pub only_in : List KeyedItem → List KeyedItem → List DiffEntry
unfolding has_key
only_in items others = map entry_of (filter (λ it. not (has_key it.key others)) items)

-- The loop over the sorted names of the fields.
unfoldable pub changed_fields : KeyedItem → KeyedItem → List Bytes → List DiffFieldChange
unfolding field_at
changed_fields it other [] = []
changed_fields it other (f ∷ names) =
    let rest = changed_fields it other names in
    if not (eqb (field_at f it.fields) (field_at f other.fields))
    then record {
      key = it.key;
      field = f;
      source = field_at f it.fields;
      destination = field_at f other.fields;
    }
      ∷ rest
    else rest

abbrev pub changes_against : KeyedItem → Option KeyedItem → List DiffFieldChange
changes_against it none = []
changes_against it (some other) = changed_fields it other (sort_texts (field_names it.fields))

unfoldable pub changes : List KeyedItem → List KeyedItem → List DiffFieldChange
unfolding item_at changed_fields
changes [] others = []
changes (it ∷ items) others = changes_against it (item_at it.key others) ++ changes items others

-- The texts of `skipUnavailable`, whose dash is the three bytes of U+2014.
abbrev pub dash : Bytes
dash = 226 ∷ 128 ∷ 148 ∷ []

-- `quote` is the verb %q of fmt.
module _ (quote : Bytes → Bytes) where
  -- The warnings of a loop that fills a map.
  unfoldable pub duplicates : (side : Bytes) → List KeyedItem → List KeyedItem → List Bytes
  unfolding has_key put_item
  duplicates side m [] = []
  duplicates side m (it ∷ items) =
      let rest = duplicates side (put_item it m) items in
      if has_key it.key m
      then (lit "duplicate key "
          ++ (quote it.key
              ++ (lit " in " ++ (side ++ (lit " " ++ (dash ++ lit " last occurrence wins"))))))
        ∷ rest
      else rest

  unfoldable pub diff_keyed : List KeyedItem → List KeyedItem → SectionDiff
  unfolding index_items only_in changes sort_section_diff duplicates
  diff_keyed src_items dest_items =
      let src = index_items [] src_items in
      let dest = index_items [] dest_items in
      sort_section_diff (record {
        added = only_in dest src;
        removed = only_in src dest;
        changed = changes src dest;
        skipped = [];
        warnings =
            duplicates (lit "source") [] src_items ++ duplicates (lit "destination") [] dest_items;
      })

-- The first result of `skipUnavailable`, if the comparison is to be skipped.
unfoldable pub skip_unavailable :
    (name : Bytes) → (src_available dest_available : Bool) → Option SectionDiff
skip_unavailable name true true = none
skip_unavailable name true false = some (record new_section_diff {
  skipped =
      (name ++ (lit " unavailable on destination " ++ (dash ++ lit " comparison skipped"))) ∷ [];
})
skip_unavailable name false true = some (record new_section_diff {
  skipped = (name ++ (lit " unavailable on source " ++ (dash ++ lit " comparison skipped"))) ∷ [];
})
skip_unavailable name false false = some (record new_section_diff {
  skipped =
      (name
        ++ (lit " unavailable on source and destination " ++ (dash ++ lit " comparison skipped")))
      ∷ [];
})

abbrev pub or_compared : Option SectionDiff → SectionDiff → SectionDiff
or_compared (some sec) compared = sec
or_compared none compared = compared

unfoldable pub diff_config_keyed :
    (quote : Bytes → Bytes)
    → (name : Bytes) → (src_available dest_available : Bool) → List KeyedItem
    → List KeyedItem
    → SectionDiff
unfolding skip_unavailable
diff_config_keyed quote name src_available dest_available src_items dest_items =
    or_compared (skip_unavailable name src_available dest_available)
      (diff_keyed quote src_items dest_items)
