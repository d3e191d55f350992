-- ===== src/PhpSerialize/Literals.antt =====
-- internal/phpserialize/phpserialize.go: the small readers on literals, numbers and lengths.
use c_panel_self_migration.Prelude.{
  ℕ, ◌+◌, ◌≤◌, ◌<◌, true, false, [], ◌∷◌, ◌++◌, Bytes, lit, length, all, ◌≡◌, refl, arith,
  has_prefix, length-append, some, ok, ◌==◌, contains_byte,
}
use c_panel_self_migration.Strconv.{ℤ, pos, negsuc, is_digit, format_nat, format_int, int64_limit}
use c_panel_self_migration.Strconv.RoundTrip.{
  IsInt64, parse_int-format_int, parse_int-format_nat, all_digits-format_nat,
}
use c_panel_self_migration.PhpSerialize.{
  max_int32, expect, cut, int_before, read_int_until, string_length,
}

-- Each literal of the format, met at the front.
module _ (s : Bytes) where
  pub expect_tags :
      (expect (lit "s:") (b's' ∷ b':' ∷ s) ≡ ok s)
      × (expect (lit "i:") (b'i' ∷ b':' ∷ s) ≡ ok s)
      × (expect (lit "b:") (b'b' ∷ b':' ∷ s) ≡ ok s)
      × (expect (lit "a:") (b'a' ∷ b':' ∷ s) ≡ ok s)
      × (expect (lit "N;") (b'N' ∷ b';' ∷ s) ≡ ok s)
  unfolding expect has_prefix lit
  expect_tags = (refl, refl, refl, refl, refl)

  pub expect_marks :
      (expect (lit ";") (b';' ∷ s) ≡ ok s)
      × (expect (lit "\"") (b'"' ∷ s) ≡ ok s)
      × (expect (lit "\";") (b'"' ∷ b';' ∷ s) ≡ ok s)
      × (expect (lit "{") (b'{' ∷ s) ≡ ok s)
      × (expect (lit "}") (b'}' ∷ s) ≡ ok s)
  unfolding expect has_prefix lit
  expect_marks = (refl, refl, refl, refl, refl)

cut-append :
    (delim : ℕ) (a s : Bytes)
    → contains_byte delim a ≡ false
    → cut delim (a ++ delim ∷ s) ≡ some (a, s)
unfolding cut
cut-append delim [] s h = ground arith
cut-append delim (c ∷ a) s h = ground (arith, cut-append delim a s)

no_delim :
    (delim : ℕ) (a : Bytes)
    → is_digit delim ≡ false
    → all is_digit a ≡ true
    → contains_byte delim a ≡ false
no_delim delim [] d h = refl
no_delim delim (c ∷ a) d h = ground (arith, no_delim delim a d)

no_delim-format_int :
    (delim : ℕ) (n : ℤ)
    → is_digit delim ≡ false
    → (delim == b'-') ≡ false
    → contains_byte delim (format_int n) ≡ false
unfolding format_int
no_delim-format_int delim (pos n) d m = no_delim delim (format_nat n) d (all_digits-format_nat n)
no_delim-format_int delim (negsuc n) d m =
    ground (arith, no_delim delim (format_nat (n + 1)) d (all_digits-format_nat (n + 1)))

pub read_int-format_int :
    (delim : ℕ) (n : ℤ) (s : Bytes)
    → is_digit delim ≡ false
    → (delim == b'-') ≡ false
    → IsInt64 n
    → read_int_until delim (format_int n ++ delim ∷ s) ≡ ok (n, s)
unfolding read_int_until
read_int-format_int delim n s d m i =
    rw (cut-append delim (format_int n) s (no_delim-format_int delim n d m))
      (rw (parse_int-format_int n i, int_before) refl)

pub read_int-format_nat :
    (delim n : ℕ) (s : Bytes)
    → is_digit delim ≡ false
    → n < int64_limit
    → read_int_until delim (format_nat n ++ delim ∷ s) ≡ ok (pos n, s)
unfolding read_int_until
read_int-format_nat delim n s d i =
    rw
      (cut-append delim (format_nat n) s
        (no_delim delim (format_nat n) d (all_digits-format_nat n)))
      (rw (parse_int-format_nat n i, int_before) refl)

pub string_length-append :
    (s rest : Bytes)
    → length s ≤ max_int32
    → string_length (pos (length s)) (s ++ rest) ≡ ok (length s)
unfolding string_length max_int32
string_length-append s rest h = ground (arith, length-append s rest)

pub max_int32-lt : (n : ℕ) → n ≤ max_int32 → n < int64_limit
unfolding max_int32
max_int32-lt n h = omega arith
