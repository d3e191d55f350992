-- ===== src/Strconv.antt =====
-- What the code uses of package strconv: `ParseInt(s, 10, 64)`, and the decimal text of a number
-- (`FormatInt`, and the verb %d of fmt).
pub mod RoundTrip
use c_panel_self_migration.Prelude.{
  ℕ, zero, suc, ◌+◌, ◌-◌, ◌*◌, ◌/◌, ◌%◌, ◌^◌, Bool, true, false, ◌&&◌, [], ◌∷◌, ◌++◌, Bytes, Option,
  none, some, ltb, leb, ◌==◌, within, if◌then◌else◌,
}

-- `negsuc n` is -(n + 1).
pub data ℤ : Type 0 where
  pos negsuc : ℕ → ℤ

abbrev pub is_digit : ℕ → Bool
is_digit = within b'0' b'9'

-- The digits of `s` behind a number that is read so far.
pub read_digits : ℕ → Bytes → Option ℕ
read_digits acc [] = some acc
read_digits acc (c ∷ s) = if is_digit c then read_digits (acc * 10 + (c - b'0')) s else none

pub read_nat : Bytes → Option ℕ
read_nat [] = none
read_nat (c ∷ s) = read_digits 0 (c ∷ s)

abbrev pub int64_limit : ℕ
int64_limit = 2 ^ 63

-- The range checks of `ParseInt` on the magnitude.
abbrev pub to_int64 : Bool → ℕ → Option ℤ
to_int64 false n = if ltb n int64_limit then some (pos n) else none
to_int64 true zero = some (pos 0)
to_int64 true (suc n) = if leb (suc n) int64_limit then some (negsuc n) else none

abbrev pub signed : Bool → Option ℕ → Option ℤ
signed neg none = none
signed neg (some n) = to_int64 neg n

unfoldable pub parse_int : Bytes → Option ℤ
unfolding read_digits read_nat
parse_int [] = none
parse_int (c ∷ s) =
    if c == b'-'
    then signed true (read_nat s)
    else if c == b'+'
    then signed false (read_nat s)
    else signed false (read_nat (c ∷ s))

-- The fuel counts the digits; `format_nat` gives more than a number has.
unfoldable pub digits : ℕ → ℕ → Bytes
digits zero n = []
digits (suc f) n =
    let more = digits f (n / 10) ++ (b'0' + n % 10) ∷ [] in
    if ltb n 10 then (b'0' + n) ∷ [] else more

unfoldable pub format_nat : ℕ → Bytes
unfolding digits
format_nat n = digits (suc n) n

unfoldable pub format_int : ℤ → Bytes
unfolding digits
format_int (pos n) = format_nat n
format_int (negsuc n) = b'-' ∷ format_nat (n + 1)
