-- ===== src/Contract/Numbers.antt =====
-- internal/executioncontract/contract.go: the integer tests on the text of a number.
use c_panel_self_migration.Prelude.{
  ℕ, ◌<◌, true, false, [], ◌∷◌, Bytes, lit, some, ok, ◌≡◌, refl, arith, all, contains_any,
}
use c_panel_self_migration.Json.{num, Fields, lookup}
use c_panel_self_migration.Strconv.{pos, int64_limit, is_digit, format_nat}
use c_panel_self_migration.Strconv.RoundTrip.{parse_int-format_nat, all_digits-format_nat}
use c_panel_self_migration.Events.{current_format_version}
use c_panel_self_migration.Contract.{integer_at, check_format_version}

no_point : (s : Bytes) → all is_digit s ≡ true → contains_any s (lit ".eE") ≡ false
unfolding lit
no_point [] h = refl
no_point (c ∷ s) h = ground (arith, no_point s)

pub integer_at-format_nat :
    (key : Bytes) (n : ℕ)
    → n < int64_limit
    → integer_at key (some (num (format_nat n))) ≡ ok (pos n)
integer_at-format_nat key n h =
    rw (no_point (format_nat n) (all_digits-format_nat n)) (rw (parse_int-format_nat n h) refl)

pub check_format_version-number :
    (m : Fields) (n : ℕ)
    → lookup (lit "format_version") m ≡ some (num (format_nat n))
    → n ≡ current_format_version
    → check_format_version m ≡ ok tt
unfolding check_format_version current_format_version
check_format_version-number m n e v =
    rw e (rw (integer_at-format_nat (lit "format_version") n (rw v (ground arith))) (ground arith))
