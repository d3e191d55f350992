-- ===== src/Sorting.antt =====
-- What the code uses of package sort: `sort.Slice`, `sort.SliceStable` and `sort.Strings`, as the
-- insertion of each item in front of the first that does not come before it. Where two items compare
-- neither way, `sort.Slice` leaves their order open; this one keeps it.
pub mod Laws
use c_panel_self_migration.Prelude.{
  Bool, true, false, List, [], ◌∷◌, Bytes, ltb, ◌==◌, ◌&&◌, ◌||◌, if◌then◌else◌,
}

-- `a < b`, on texts.
unfoldable pub text_less : Bytes → Bytes → Bool
text_less s [] = false
text_less [] (c ∷ t) = true
text_less (b ∷ s) (c ∷ t) = ltb b c || (b == c && text_less s t)

module _ {A : Type 0} (less : A → A → Bool) where
  unfoldable pub insert_by : A → List A → List A
  insert_by it [] = it ∷ []
  insert_by it (head ∷ rest) =
      let tail = insert_by it rest in if less head it then head ∷ tail else it ∷ head ∷ rest

  unfoldable pub sort_by : List A → List A
  unfolding insert_by
  sort_by [] = []
  sort_by (it ∷ items) = insert_by it (sort_by items)

-- `sort.Strings`
abbrev pub sort_texts : List Bytes → List Bytes
sort_texts = sort_by text_less
