-- ===== src/Inventory/Diff/Exact.antt =====
-- internal/accountinventory/diff.go, `diffKeyed`: which keys and fields the difference names.
use c_panel_self_migration.Prelude.{
  Bool, true, false, not, ◌||◌, ◌&&◌, List, [], ◌∷◌, any, any-append, Bytes, eqb, eqb_iff,
  if◌then◌else◌, Option, none, some, ◌≡◌, refl, ◌∙◌, arith,
}
use c_panel_self_migration.Sorting.{sort_by, sort_texts, text_less}
use c_panel_self_migration.Sorting.Laws.{any-sort_by}
use c_panel_self_migration.Inventory.Diff.{
  DiffEntry, DiffFieldChange, KeyedItem, field_at, field_names, has_key, item_at, put_item,
  index_items, entry_before, change_before, only_in, changed_fields, changes_against, changes,
  diff_keyed, sort_section_diff,
}

-- The last item with the key: the one that counts.
abbrev pub last_at : Bytes → List KeyedItem → Option KeyedItem
last_at key [] = none
last_at key (it ∷ items) = elim (last_at key items) [
  | some later ↦ some later
  | none ↦ if eqb it.key key then some it else none
]

abbrev pub is_named : Bytes → DiffEntry → Bool
is_named key e = eqb e.key key

abbrev pub is_change : (key field : Bytes) → DiffFieldChange → Bool
is_change key field c = eqb c.key key && eqb c.field field

item_at-put_item :
    (key : Bytes) (it : KeyedItem) (items : List KeyedItem)
    → item_at key (put_item it items) ≡ (if eqb it.key key then some it else item_at key items)
unfolding item_at put_item
item_at-put_item key it [] = refl
item_at-put_item key it (old ∷ items) = ground (
  arith,
  eqb_iff old.key it.key,
  eqb_iff it.key key,
  eqb_iff old.key key,
  item_at-put_item key it items,
)

-- The map holds the last item of each key, or what it held before.
item_at-index_items :
    (key : Bytes) (m items : List KeyedItem)
    → item_at key (index_items m items)
      ≡ (elim (last_at key items) [ some it ↦ some it | none ↦ item_at key m ])
unfolding index_items
item_at-index_items key m [] = refl
item_at-index_items key m (it ∷ items) =
    ground (arith, item_at-index_items key (put_item it m) items, item_at-put_item key it m)

has_key-item_at :
    (key : Bytes) (items : List KeyedItem)
    → has_key key items ≡ (elim (item_at key items) [ some _ ↦ true | none ↦ false ])
unfolding has_key item_at
has_key-item_at key [] = refl
has_key-item_at key (it ∷ items) = ground (arith, has_key-item_at key items)

has_key-last_at :
    (key : Bytes) (items : List KeyedItem)
    → has_key key items ≡ (elim (last_at key items) [ some _ ↦ true | none ↦ false ])
unfolding has_key
has_key-last_at key [] = refl
has_key-last_at key (it ∷ items) = ground (arith, has_key-last_at key items)

has_key-index_items :
    (key : Bytes) (items : List KeyedItem) → has_key key (index_items [] items) ≡ has_key key items
unfolding item_at
has_key-index_items key items = ground (
  arith,
  has_key-item_at key (index_items [] items),
  item_at-index_items key [] items,
  has_key-last_at key items,
)

any-only_in :
    (key : Bytes) (items others : List KeyedItem)
    → any (is_named key) (only_in items others) ≡ (has_key key items && not (has_key key others))
unfolding only_in has_key
any-only_in key [] others = refl
any-only_in key (it ∷ items) others =
    ground (arith, eqb_iff it.key key, any-only_in key items others)

any-changed_fields :
    (key f : Bytes) (it other : KeyedItem) (names : List Bytes)
    → any (is_change key f) (changed_fields it other names) ≡ (
        eqb it.key key
        && any (λ n. eqb n f) names
        && not (eqb (field_at f it.fields) (field_at f other.fields)))
unfolding changed_fields
any-changed_fields key f it other [] = ground arith
any-changed_fields key f it other (n ∷ names) =
    ground (arith, eqb_iff n f, any-changed_fields key f it other names)

-- A field that has changed on an item that both sides have.
abbrev pub is_changed_between : (key field : Bytes) → Option KeyedItem → Option KeyedItem → Bool
is_changed_between key f (some it) (some other) =
    any (λ n. eqb n f) (field_names it.fields)
    && not (eqb (field_at f it.fields) (field_at f other.fields))
is_changed_between key f _ _ = false

any-changes_against :
    (key f : Bytes) (it : KeyedItem) (o : Option KeyedItem)
    → any (is_change key f) (changes_against it o)
      ≡ (eqb it.key key && is_changed_between key f (some it) o)
any-changes_against key f it none = ground arith
any-changes_against key f it (some other) = ground (
  arith,
  any-changed_fields key f it other (sort_texts (field_names it.fields)),
  any-sort_by text_less (λ n. eqb n f) (field_names it.fields),
)

-- A map has each key once.
abbrev are_distinct : List KeyedItem → Bool
are_distinct [] = true
are_distinct (it ∷ items) = not (has_key it.key items) && are_distinct items

has_key-put_item :
    (key : Bytes) (it : KeyedItem) (items : List KeyedItem)
    → has_key key (put_item it items) ≡ (eqb it.key key || has_key key items)
unfolding has_key put_item
has_key-put_item key it [] = refl
has_key-put_item key it (old ∷ items) = ground (
  arith,
  eqb_iff old.key it.key,
  eqb_iff it.key key,
  eqb_iff old.key key,
  has_key-put_item key it items,
)

are_distinct-put_item :
    (it : KeyedItem) (items : List KeyedItem)
    → are_distinct items ≡ true
    → are_distinct (put_item it items) ≡ true
unfolding put_item has_key
are_distinct-put_item it [] h = refl
are_distinct-put_item it (old ∷ items) h = ground (
  arith,
  eqb_iff old.key it.key,
  eqb_iff it.key old.key,
  has_key-put_item old.key it items,
  are_distinct-put_item it items,
  h,
)

are_distinct-index_items :
    (m items : List KeyedItem) → are_distinct m ≡ true → are_distinct (index_items m items) ≡ true
unfolding index_items
are_distinct-index_items m [] h = h
are_distinct-index_items m (it ∷ items) h =
    are_distinct-index_items (put_item it m) items (are_distinct-put_item it m h)

any-changes :
    (key f : Bytes) (items others : List KeyedItem)
    → are_distinct items ≡ true
    → any (is_change key f) (changes items others)
      ≡ is_changed_between key f (item_at key items) (item_at key others)
unfolding changes item_at
any-changes key f [] others h = ground arith
any-changes key f (it ∷ items) others h = ground (
  arith,
  any-append (is_change key f) (changes_against it (item_at it.key others)) (changes items others),
  any-changes_against key f it (item_at it.key others),
  any-changes key f items others,
  eqb_iff it.key key,
  has_key-item_at key items,
  has_key-item_at it.key items,
  h,
)

module _ (quote : Bytes → Bytes) (src dest : List KeyedItem) where
  -- For every key and field: the key is among the removed entries exactly if only the source has
  -- it, among the added ones exactly if only the destination has it, and the field is among the
  -- changes exactly if the last item of the key on each side differs in it; nothing is skipped.
  pub diff_keyed_iff :
      (key f : Bytes)
      → let sec = diff_keyed quote src dest in
        (any (is_named key) sec.removed ≡ (has_key key src && not (has_key key dest)))
        × (any (is_named key) sec.added ≡ (has_key key dest && not (has_key key src)))
        × (any (is_change key f) sec.changed
            ≡ is_changed_between key f (last_at key src) (last_at key dest))
        × (sec.skipped ≡ [])
  unfolding diff_keyed sort_section_diff item_at sort_by
  diff_keyed_iff key f =
      let s = index_items [] src in
      let d = index_items [] dest in
      (
        any-sort_by entry_before (is_named key) (only_in s d)
            ∙ any-only_in key s d
            ∙ ground (arith, has_key-index_items key src, has_key-index_items key dest),
        any-sort_by entry_before (is_named key) (only_in d s)
            ∙ any-only_in key d s
            ∙ ground (arith, has_key-index_items key src, has_key-index_items key dest),
        any-sort_by change_before (is_change key f) (changes s d)
            ∙ any-changes key f s d (are_distinct-index_items [] src refl)
            ∙ ground (arith, item_at-index_items key [] src, item_at-index_items key [] dest),
        refl,
      )
