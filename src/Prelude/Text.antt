-- ===== src/Prelude/Text.antt =====
-- Go strings as lists of bytes, with the functions of package strings that the code calls.
use Prim.Native.Char.{code}
use Prim.Native.String.{String}
use Prim.Native.Nat.{ℕ, ◌+◌}
use mathlib.Core.Path.{◌≡◌, refl}
use mathlib.Core.Logic.{◌↔◌}
use mathlib.Core.Bool.{Bool, true, false, ◌&&◌, ◌||◌}
use mathlib.Core.List.{List, [], ◌∷◌, ◌++◌}
use native.Mathlib.Omega.{arith}
use c_panel_self_migration.Prelude.Tests.{◌==◌, within, if◌then◌else◌}
use c_panel_self_migration.Prelude.Lists.{length, drop, any}

abbrev pub Bytes : Type 0
Bytes = List ℕ

-- The bytes of an ASCII literal.
unfoldable pub lit : String → Bytes
lit String.[] = []
lit (String.◌∷◌ c s) = code c ∷ lit s

-- `a == b`
unfoldable pub eqb : Bytes → Bytes → Bool
eqb [] [] = true
eqb (x ∷ xs) (y ∷ ys) = x == y && eqb xs ys
eqb _ _ = false

pub eqb_iff : (a b : Bytes) → (eqb a b ≡ true) ↔ (a ≡ b)
unfolding eqb
eqb_iff (x ∷ a) (y ∷ b) = ground (arith, eqb_iff a b)
eqb_iff _ _ = ground arith

pub eqb_self : (a : Bytes) → eqb a a ≡ true
eqb_self a = (eqb_iff a a).1 refl

-- `s == ""`
abbrev pub is_empty : Bytes → Bool
is_empty [] = true
is_empty (_ ∷ _) = false

-- `strings.HasPrefix(s, prefix)`
unfoldable pub has_prefix : Bytes → Bytes → Bool
has_prefix s [] = true
has_prefix [] (y ∷ ys) = false
has_prefix (x ∷ xs) (y ∷ ys) = x == y && has_prefix xs ys

pub has_prefix_iff : (s p : Bytes) → has_prefix s p ≡ true → s ≡ p ++ drop (length p) s
unfolding has_prefix
has_prefix_iff s [] h = refl
has_prefix_iff [] (y ∷ ys) h = ground arith
has_prefix_iff (x ∷ xs) (y ∷ ys) h = ground (arith, has_prefix_iff xs ys)

pub has_prefix-append : (p s : Bytes) → has_prefix (p ++ s) p ≡ true
unfolding has_prefix
has_prefix-append [] s = refl
has_prefix-append (x ∷ p) s = ground (arith, has_prefix-append p s)

-- `strings.Contains(s, sub)`
unfoldable pub contains : Bytes → Bytes → Bool
unfolding has_prefix
contains [] sub = has_prefix [] sub
contains (c ∷ s) sub = has_prefix (c ∷ s) sub || contains s sub

-- `strings.ContainsRune(s, c)` and `strings.IndexByte(s, c) >= 0`, for an ASCII byte.
abbrev pub contains_byte : ℕ → Bytes → Bool
contains_byte c = any (λ b. b == c)

-- `strings.ContainsAny(s, chars)`, for ASCII `chars`.
abbrev pub contains_any : Bytes → Bytes → Bool
contains_any s chars = any (λ b. contains_byte b chars) s

-- A byte in front of the first part.
unfoldable pub onto_first : ℕ → List Bytes → List Bytes
onto_first c [] = (c ∷ []) ∷ []
onto_first c (p ∷ ps) = (c ∷ p) ∷ ps

-- `strings.Split(s, sep)` at a one-byte separator.
unfoldable pub split : ℕ → Bytes → List Bytes
unfolding onto_first
split sep [] = [] ∷ []
split sep (c ∷ s) = let rest = split sep s in if c == sep then [] ∷ rest else onto_first c rest

-- One ASCII upper-case letter to lower case.
abbrev pub lower_byte : ℕ → ℕ
lower_byte c = if within b'A' b'Z' c then c + 32 else c

module _ (sep : ℕ) where
  pub split_no_sep : (s : Bytes) → contains_byte sep s ≡ false → split sep s ≡ s ∷ []
  unfolding split
  split_no_sep [] h = refl
  split_no_sep (c ∷ s) h = ground (arith, split_no_sep s)

  pub split-append :
      (s t : Bytes) → contains_byte sep s ≡ false → split sep (s ++ sep ∷ t) ≡ s ∷ split sep t
  unfolding split
  split-append [] t h = ground arith
  split-append (c ∷ s) t h = ground (arith, split-append s t)

-- A string with none of `chars` has not one of them.
pub not-contains_byte :
    (c : ℕ) (chars s : Bytes)
    → contains_byte c chars ≡ true
    → contains_any s chars ≡ false
    → contains_byte c s ≡ false
not-contains_byte c chars [] k h = refl
not-contains_byte c chars (b ∷ s) k h = ground (arith, not-contains_byte c chars s k, same b)
  where
    same : (b : ℕ) → b ≡ c → contains_byte b chars ≡ true
    same b e = rw e k
