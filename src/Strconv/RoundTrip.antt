-- ===== src/Strconv/RoundTrip.antt =====
-- The reading of a printed number.
use native.Mathlib.Numerals.{add-one}
use c_panel_self_migration.Prelude.{
  ℕ, zero, suc, ◌+◌, ◌-◌, ◌*◌, ◌/◌, ◌%◌, ◌<◌, Bool, true, false, ◌&&◌, [], ◌∷◌, ◌++◌, Bytes, some,
  ltb, ◌≡◌, refl, ap, ◌∙◌, arith, inl, inr, Bool-cases, all,
}
use c_panel_self_migration.Strconv.{
  ℤ, pos, negsuc, is_digit, read_digits, read_nat, int64_limit, parse_int, digits, format_nat,
  format_int, to_int64, signed,
}

read_digits-append :
    (xs : Bytes) (acc c n : ℕ)
    → read_digits acc xs ≡ some n
    → is_digit c ≡ true
    → read_digits acc (xs ++ c ∷ []) ≡ some (n * 10 + (c - b'0'))
unfolding read_digits
read_digits-append [] acc c n e d = ground arith
read_digits-append (x ∷ xs) acc c n e d =
    ground (arith, read_digits-append xs (acc * 10 + (x - b'0')) c n)

read_digits-digits : (f n : ℕ) → n < f → read_digits 0 (digits f n) ≡ some n
unfolding digits
read_digits-digits zero n h = absurd (omega arith)
read_digits-digits (suc f) n h = elim (Bool-cases (ltb n 10)) [
  | inl small ↦ rw small (unfold read_digits in ground arith)
  | inr big ↦ rw big (
      read_digits-append (digits f (n / 10)) 0 (b'0' + n % 10) (n / 10)
        (read_digits-digits f (n / 10) (ground arith)) (ground arith)
      ∙ ap some (omega arith))
]

-- The first byte of a printed number is a digit, so neither a sign nor the end.
pub record StartsWithDigit (s : Bytes) : Type 0 where
  pub first : ℕ
  pub others : Bytes
  pub splits : s ≡ first ∷ others
  pub digit : is_digit first ≡ true

StartsWithDigit-append : (s t : Bytes) → StartsWithDigit s → StartsWithDigit (s ++ t)
StartsWithDigit-append s t d = record {
  first = d.first;
  others = d.others ++ t;
  splits = ap (λ x. x ++ t) d.splits;
  digit = d.digit;
}

digits-StartsWithDigit : (f n : ℕ) → n < f → StartsWithDigit (digits f n)
unfolding digits
digits-StartsWithDigit zero n h = absurd (omega arith)
digits-StartsWithDigit (suc f) n h = elim (Bool-cases (ltb n 10)) [
  | inl small ↦
      rw small (record { first = b'0' + n; others = []; splits = refl; digit = ground arith })
  | inr big ↦ rw big (
      StartsWithDigit-append (digits f (n / 10)) _
        (digits-StartsWithDigit f (n / 10) (ground arith)))
]

pub format_nat-StartsWithDigit : (n : ℕ) → StartsWithDigit (format_nat n)
unfolding format_nat
format_nat-StartsWithDigit n = digits-StartsWithDigit (suc n) n (omega arith)

pub read_nat-format_nat : (n : ℕ) → read_nat (format_nat n) ≡ some n
unfolding format_nat
read_nat-format_nat n =
    let d = digits-StartsWithDigit (suc n) n (omega arith) in
    read_nonempty (digits (suc n) n) d ∙ read_digits-digits (suc n) n (omega arith)
  where
    read_nonempty : (s : Bytes) → StartsWithDigit s → read_nat s ≡ read_digits 0 s
    read_nonempty s d = rw d.splits (unfold read_nat in refl)

-- `ParseInt(FormatInt(z))` for every int64.
abbrev pub IsInt64 : ℤ → Type 0
IsInt64 (pos n) = n < int64_limit
IsInt64 (negsuc n) = n < int64_limit

parse_int_digit : (s : Bytes) → StartsWithDigit s → parse_int s ≡ signed false (read_nat s)
parse_int_digit s d = rw d.splits (plain d.first d.others d.digit)
  where
    plain :
        (c : ℕ) (t : Bytes)
        → is_digit c ≡ true
        → parse_int (c ∷ t) ≡ signed false (read_nat (c ∷ t))
    plain c t h = unfold parse_int in ground arith

parse_int_minus : (s : Bytes) → parse_int (b'-' ∷ s) ≡ signed true (read_nat s)
unfolding parse_int
parse_int_minus s = refl

to_int64_negative : (n : ℕ) → n < int64_limit → to_int64 true (n + 1) ≡ some (negsuc n)
to_int64_negative n h = rw add-one (ground arith)

pub parse_int-format_nat : (n : ℕ) → n < int64_limit → parse_int (format_nat n) ≡ some (pos n)
parse_int-format_nat n h =
    parse_int_digit (format_nat n) (format_nat-StartsWithDigit n)
    ∙ ap (signed false) (read_nat-format_nat n)
    ∙ ground arith

pub parse_int-format_int : (z : ℤ) → IsInt64 z → parse_int (format_int z) ≡ some z
unfolding format_int
parse_int-format_int (pos n) h = parse_int-format_nat n h
parse_int-format_int (negsuc n) h =
    parse_int_minus (format_nat (n + 1))
    ∙ ap (signed true) (read_nat-format_nat (n + 1))
    ∙ to_int64_negative n h

-- A printed number has no byte that is not a digit.
all-append : (p : ℕ → Bool) (xs ys : Bytes) → all p (xs ++ ys) ≡ all p xs && all p ys
all-append p [] ys = refl
all-append p (x ∷ xs) ys = ground (arith, all-append p xs ys)

all-digits : (f n : ℕ) → all is_digit (digits f n) ≡ true
unfolding digits
all-digits zero n = refl
all-digits (suc f) n = elim (Bool-cases (ltb n 10)) [
  | inl small ↦ rw small (ground arith)
  | inr big ↦
      rw big (all-append is_digit (digits f (n / 10)) _ ∙ rw (all-digits f (n / 10)) (ground arith))
]

pub all_digits-format_nat : (n : ℕ) → all is_digit (format_nat n) ≡ true
unfolding format_nat
all_digits-format_nat n = all-digits (suc n) n
