-- ===== src/DomainName/Identity.antt =====
-- internal/domainname/domainname.go: which names have one key.
use mathlib.Core.Path.{ap₂}
use mathlib.Core.List.{map-append}
use c_panel_self_migration.Prelude.{
  ℕ, zero, suc, true, ◌&&◌, [], ◌∷◌, ◌++◌, map, Bytes, is_empty, ◌==◌, if◌then◌else◌, lower_byte,
  eqb_iff, replicate, ◌≡◌, refl, sym, ◌∙◌, ap, ◌↔◌, arith, append_assoc, append-nil,
}
use c_panel_self_migration.DomainName.{strip_dots, key, equal}

abbrev pub dots : ℕ → Bytes
dots n = replicate n b'.'

abbrev lower : Bytes → Bytes
lower = map lower_byte

strip_dots-dots : (n : ℕ) → strip_dots (dots n) ≡ []
unfolding strip_dots
strip_dots-dots zero = refl
strip_dots-dots (suc n) = rw (strip_dots-dots n)

strip_dots-append : (s : Bytes) (n : ℕ) → strip_dots (s ++ dots n) ≡ strip_dots s
unfolding strip_dots
strip_dots-append [] n = strip_dots-dots n
strip_dots-append (c ∷ s) n = rw (strip_dots-append s n)

is_empty-lower : (s : Bytes) → is_empty (lower s) ≡ is_empty s
is_empty-lower [] = refl
is_empty-lower (c ∷ s) = refl

strip_dots-lower : (s : Bytes) → strip_dots (lower s) ≡ lower (strip_dots s)
unfolding strip_dots
strip_dots-lower [] = refl
strip_dots-lower (c ∷ s) = rw (strip_dots-lower s) (ground (arith, is_empty-lower (strip_dots s)))

-- The number of dots that `strip_dots` takes off.
final_dots : Bytes → ℕ
final_dots [] = 0
final_dots (c ∷ s) =
    let n = final_dots s in if is_empty (strip_dots s) && c == b'.' then suc n else n

strip_dots_splits : (s : Bytes) → s ≡ strip_dots s ++ dots (final_dots s)
unfolding strip_dots final_dots
strip_dots_splits [] = refl
strip_dots_splits (c ∷ s) = ground (arith, strip_dots_splits s)

dots_comm : (n m : ℕ) → dots n ++ dots m ≡ dots m ++ dots n
dots_comm zero m = sym (append-nil (dots m))
dots_comm (suc n) m = ap (◌∷◌ b'.') (dots_comm n m) ∙ dots_middle m n
  where
    dots_middle : (m n : ℕ) → b'.' ∷ (dots m ++ dots n) ≡ dots m ++ (b'.' ∷ dots n)
    dots_middle zero n = refl
    dots_middle (suc m) n = ap (◌∷◌ b'.') (dots_middle m n)

lower-dots : (n : ℕ) → lower (dots n) ≡ dots n
lower-dots zero = refl
lower-dots (suc n) = ap (◌∷◌ b'.') (lower-dots n)

-- A name with `n` dots more, in terms of its key.
lower-append : (s : Bytes) (n : ℕ) → lower (s ++ dots n) ≡ key s ++ dots (final_dots s) ++ dots n
unfolding key
lower-append s n =
    map-append lower_byte s (dots n)
    ∙ ap (λ t. lower t ++ lower (dots n)) (strip_dots_splits s)
    ∙ simp (map-append, lower-dots)

strip_dots-lower-append : (s : Bytes) (n : ℕ) → strip_dots (lower (s ++ dots n)) ≡ key s
unfolding key
strip_dots-lower-append s n = strip_dots-lower (s ++ dots n) ∙ ap lower (strip_dots-append s n)

-- Equal holds of two names exactly when they can be made the same, in ASCII lower case, by adding
-- dots at their ends.
pub equal_iff :
    (a b : Bytes)
    → (equal a b ≡ true)
      ↔ ((n : ℕ) × (m : ℕ) × (map lower_byte (a ++ dots n) ≡ map lower_byte (b ++ dots m)))
unfolding equal
equal_iff a b = (
  (λ e. (final_dots b, final_dots a, same ((eqb_iff (key a) (key b)).0 e))),
  (λ h.
      (eqb_iff (key a) (key b)).1
        (sym (strip_dots-lower-append a h.0) ∙ ap strip_dots h.2 ∙ strip_dots-lower-append b h.1)),
)
  where
    same : key a ≡ key b → lower (a ++ dots (final_dots b)) ≡ lower (b ++ dots (final_dots a))
    same e =
        lower-append a (final_dots b)
        ∙ append_assoc (key a) (dots (final_dots a)) (dots (final_dots b))
        ∙ ap₂ (λ x y. x ++ y) e (dots_comm (final_dots a) (final_dots b))
        ∙ sym (append_assoc (key b) (dots (final_dots b)) (dots (final_dots a)))
        ∙ sym (lower-append b (final_dots a))

lower_idem : (s : Bytes) → lower (lower s) ≡ lower s
lower_idem [] = refl
lower_idem (c ∷ s) = ground (arith, lower_idem s)

strip_dots_idem : (s : Bytes) → strip_dots (strip_dots s) ≡ strip_dots s
strip_dots_idem s =
    sym (strip_dots-append (strip_dots s) (final_dots s))
    ∙ ap strip_dots (sym (strip_dots_splits s))

-- Key is idempotent: the key of a key is that key.
pub key-key : (s : Bytes) → key (key s) ≡ key s
unfolding key
key-key s =
    ap lower (strip_dots-lower (strip_dots s)) ∙ rw strip_dots_idem (lower_idem (strip_dots s))
