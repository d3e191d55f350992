-- ===== src/Contract/Timestamp.antt =====
-- contract.go: `rfc3339` and `requireTimestamp`.
use c_panel_self_migration.Prelude.{
  ℕ, Bool, true, false, not, ◌||◌, ◌&&◌, [], ◌∷◌, Bytes, lit, eqb, ltb, ◌==◌, if◌then◌else◌, Option,
  none, some, Result, ok, err, ◌>>=◌, ◌>>◌, refuse_if,
}
use c_panel_self_migration.Json.{Fields}
use c_panel_self_migration.Strconv.{is_digit}
use c_panel_self_migration.Contract.{Problem, bad_timestamp, require_string}

-- The text behind a prefix of the given shape, in which `d` stands for a digit.
unfoldable pub behind_shape : Bytes → Bytes → Option Bytes
behind_shape [] s = some s
behind_shape (p ∷ ps) [] = none
behind_shape (p ∷ ps) (c ∷ s) =
    if (if p == b'd' then is_digit c else c == p) then behind_shape ps s else none

unfoldable pub drop_digits : Bytes → Bytes
drop_digits [] = []
drop_digits (c ∷ s) = if is_digit c then drop_digits s else c ∷ s

abbrev pub is_end : Option Bytes → Bool
is_end (some []) = true
is_end _ = false

-- `(Z|[+-]\d{2}:\d{2})$`
unfoldable pub is_zone : Bytes → Bool
unfolding behind_shape
is_zone [] = false
is_zone (c ∷ s) =
    eqb (c ∷ s) (lit "Z") || (c == b'+' || c == b'-') && is_end (behind_shape (lit "dd:dd") s)

-- `(\.\d+)?` in front of the zone.
unfoldable pub is_fraction_and_zone : Bytes → Bool
unfolding is_zone drop_digits
is_fraction_and_zone [] = false
is_fraction_and_zone (c ∷ []) = is_zone (c ∷ [])
is_fraction_and_zone (c ∷ e ∷ s) =
    if c == b'.' && is_digit e then is_zone (drop_digits s) else is_zone (c ∷ e ∷ s)

abbrev pub behind_date : Option Bytes → Bool
behind_date none = false
behind_date (some s) = is_fraction_and_zone s

unfoldable pub is_rfc3339 : Bytes → Bool
unfolding behind_shape is_fraction_and_zone
is_rfc3339 s = behind_date (behind_shape (lit "dddd-dd-ddTdd:dd:dd") s)

-- What the code uses of package time: `time.Parse(time.RFC3339, s)`, `Year` and `Before`.
pub record Clock : Type 1 where
  pub Time : Type 0
  pub parse : Bytes → Option Time
  pub year : Time → ℕ
  pub before : Time → Time → Bool

module _ (clock : Clock) where
  abbrev pub in_range : Bytes → Option clock.Time → Result Problem clock.Time
  in_range key none = err (bad_timestamp key)
  in_range key (some t) = if ltb (clock.year t) 1 then err (bad_timestamp key) else ok t

  unfoldable pub require_timestamp : Fields → Bytes → Result Problem clock.Time
  require_timestamp m key = do
    s ← require_string m key
    refuse_if (not (is_rfc3339 s)) (bad_timestamp key)
    in_range key (clock.parse s)
