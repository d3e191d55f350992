-- ===== src/Sorting/Laws.antt =====
-- The laws of the sorting functions: they keep the items, and order them.
use c_panel_self_migration.Prelude.{
  ◌+◌, Bool, true, false, List, [], ◌∷◌, Bytes, any, All, count_p, ◌||◌, if◌then◌else◌, ◌≡◌, refl,
  arith, Bool-cases, inl, inr, ap, ◌∙◌,
}
use c_panel_self_migration.Sorting.{text_less, insert_by, sort_by}

pub text_less_asym : (s t : Bytes) → text_less s t ≡ true → text_less t s ≡ false
unfolding text_less
text_less_asym s [] h = ground arith
text_less_asym [] (c ∷ t) h = ground arith
text_less_asym (b ∷ s) (c ∷ t) h = ground (arith, text_less_asym s t)

module _ {A : Type 0} (less : A → A → Bool) where
  -- None comes before the one in front of it.
  abbrev pub IsSortedBy : List A → Type 0
  IsSortedBy [] = Unit
  IsSortedBy (it ∷ []) = Unit
  IsSortedBy (it ∷ next ∷ items) = (less next it ≡ false) × IsSortedBy (next ∷ items)

  module _ (asym : (a b : A) → less a b ≡ true → less b a ≡ false) where
    insert_by-IsSortedBy :
        (it : A) (items : List A) → IsSortedBy items → IsSortedBy (insert_by less it items)
    unfolding insert_by
    insert_by-IsSortedBy it [] h = tt
    insert_by-IsSortedBy it (head ∷ []) h = ground (arith, asym head it)
    insert_by-IsSortedBy it (head ∷ next ∷ rest) h =
        ground (arith, asym head it, insert_by-IsSortedBy it (next ∷ rest) h.1, h)

    pub sort_by-IsSortedBy : (items : List A) → IsSortedBy (sort_by less items)
    unfolding sort_by
    sort_by-IsSortedBy [] = tt
    sort_by-IsSortedBy (it ∷ items) =
        insert_by-IsSortedBy it (sort_by less items) (sort_by-IsSortedBy items)

  count_p-insert_by :
      (p : A → Bool) (it : A) (items : List A)
      → count_p p (insert_by less it items) ≡ (if p it then 1 else 0) + count_p p items
  unfolding insert_by
  count_p-insert_by p it [] = refl
  count_p-insert_by p it (head ∷ rest) = ground (arith, count_p-insert_by p it rest)

  pub count_p-sort_by :
      (p : A → Bool) (items : List A) → count_p p (sort_by less items) ≡ count_p p items
  unfolding sort_by
  count_p-sort_by p [] = refl
  count_p-sort_by p (it ∷ items) =
      count_p-insert_by p it (sort_by less items)
      ∙ ap (λ n. (if p it then 1 else 0) + n) (count_p-sort_by p items)

  any-insert_by :
      (p : A → Bool) (it : A) (items : List A)
      → any p (insert_by less it items) ≡ (p it || any p items)
  unfolding insert_by
  any-insert_by p it [] = refl
  any-insert_by p it (head ∷ rest) = ground (arith, any-insert_by p it rest)

  pub any-sort_by : (p : A → Bool) (items : List A) → any p (sort_by less items) ≡ any p items
  unfolding sort_by
  any-sort_by p [] = refl
  any-sort_by p (it ∷ items) =
      any-insert_by p it (sort_by less items) ∙ ap (λ b. p it || b) (any-sort_by p items)

  insert_by-All :
      (P : A → Type 0) (it : A) (items : List A)
      → P it
      → All P items
      → All P (insert_by less it items)
  unfolding insert_by
  insert_by-All P it [] p h = (p, tt)
  insert_by-All P it (head ∷ rest) p h = elim (Bool-cases (less head it)) [
    | inl behind ↦ rw behind (h.0, insert_by-All P it rest p h.1)
    | inr here ↦ rw here (p, h)
  ]

  pub sort_by-All : (P : A → Type 0) (items : List A) → All P items → All P (sort_by less items)
  unfolding sort_by
  sort_by-All P [] h = tt
  sort_by-All P (it ∷ items) h =
      insert_by-All P it (sort_by less items) h.0 (sort_by-All P items h.1)
