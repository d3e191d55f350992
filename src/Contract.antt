-- ===== src/Contract.antt =====
-- internal/executioncontract/contract.go: the helpers that the three validators share.
-- The key of a message is kept in its error; other parts of the text are left out.
pub mod Decode
pub mod Numbers
pub mod Redacted
pub mod Artifact
pub mod Timestamp
pub mod Spec
pub mod Event
pub mod Report
use c_panel_self_migration.Prelude.{
  ℕ, Bool, true, false, not, ◌||◌, ◌&&◌, List, [], ◌∷◌, ◌++◌, Bytes, lit, eqb, any, is_empty,
  contains_any, contains_byte, if◌then◌else◌, ltb, ◌==◌, Option, none, some, Result, ok, err, ◌>>=◌,
  ◌>>◌, refuse_if,
}
use c_panel_self_migration.Json.{
  Json, null, bool, num, str, arr, obj, Items, nil, cons, Fields, end, field, lookup,
}
use c_panel_self_migration.Strconv.{ℤ, pos, negsuc, parse_int}
use c_panel_self_migration.Events.{current_format_version, RunIdError, validate_run_id}

pub data Problem : Type 0 where
  invalid_utf8 invalid_json not_an_object trailing_json : Problem
  unknown_field missing_field expected_string expected_boolean expected_integer : Bytes → Problem
  not_positive expected_object expected_array blank_filter bad_timestamp : Bytes → Problem
  unsupported_version : ℤ → Problem
  bad_run_id : RunIdError → Problem
  unknown_mode unknown_level unknown_event unknown_phase unknown_exit_status : Bytes → Problem
  no_area mailbox_without_mail domain_without_flow empty_version finished_first : Problem
  not_redacted bad_artifact : Bytes → Problem

abbrev pub Check : Type 0
Check = Result Problem (Unit {0})

-- `allowed[k]`, for a map that the file builds from a list of keys.
abbrev pub is_in : List Bytes → Bytes → Bool
is_in allowed k = any (eqb k) allowed

abbrev pub string_at : Bytes → Option Json → Result Problem Bytes
string_at key none = err (missing_field key)
string_at key (some (str s)) = ok s
string_at key (some _) = err (expected_string key)

unfoldable pub require_string : Fields → Bytes → Result Problem Bytes
require_string m key = string_at key (lookup key m)

abbrev pub optional_string_at : Bytes → Option Json → Result Problem Bytes
optional_string_at label none = ok []
optional_string_at label (some (str s)) = ok s
optional_string_at label (some _) = err (expected_string label)

unfoldable pub optional_string : Fields → Bytes → Bytes → Result Problem Bytes
optional_string m label key = optional_string_at label (lookup key m)

abbrev pub bool_at : Bytes → Option Json → Result Problem Bool
bool_at label none = err (missing_field label)
bool_at label (some (bool b)) = ok b
bool_at label (some _) = err (expected_boolean label)

unfoldable pub require_bool : Fields → Bytes → Bytes → Result Problem Bool
require_bool m label key = bool_at label (lookup key m)

-- `n.Int64()` behind the test for a fraction or an exponent.
abbrev pub parsed : Bytes → Option ℤ → Result Problem ℤ
parsed key none = err (expected_integer key)
parsed key (some z) = ok z

abbrev pub integer_at : Bytes → Option Json → Result Problem ℤ
integer_at key none = err (missing_field key)
integer_at key (some (num n)) = do
  refuse_if (contains_any n (lit ".eE")) (expected_integer key)
  parsed key (parse_int n)
integer_at key (some _) = err (expected_integer key)

abbrev pub positive : Bytes → ℤ → Result Problem ℕ
positive key (pos n) = if n == 0 then err (not_positive key) else ok n
positive key (negsuc n) = err (not_positive key)

unfoldable pub require_positive_int : Fields → Bytes → Result Problem ℕ
require_positive_int m key = do z ← integer_at key (lookup key m); positive key z

abbrev pub supported : ℤ → Check
supported (pos n) = if n == current_format_version then ok tt else err (unsupported_version (pos n))
supported (negsuc n) = err (unsupported_version (negsuc n))

unfoldable pub check_format_version : Fields → Check
unfolding current_format_version
check_format_version m = do
  z ← integer_at (lit "format_version") (lookup (lit "format_version") m)
  supported z

unfoldable pub reject_unknown : Fields → List Bytes → Bytes → Check
reject_unknown end allowed prefix = ok tt
reject_unknown (field k v m) allowed prefix =
    if is_in allowed k then reject_unknown m allowed prefix else err (unknown_field (prefix ++ k))

abbrev pub present : Bytes → Option Json → Check
present key none = err (missing_field key)
present key (some _) = ok tt

unfoldable pub require_present : Fields → List Bytes → Check
require_present m [] = ok tt
require_present m (k ∷ ks) = do present k (lookup k m); require_present m ks

-- `events.ValidateRunID`, its error wrapped.
abbrev pub run_id_result : Result RunIdError (Unit {0}) → Check
run_id_result (ok _) = ok tt
run_id_result (err e) = err (bad_run_id e)

unfoldable pub check_run_id : Bytes → Check
check_run_id id = run_id_result (validate_run_id id)

-- `checkHostRef`: both members are there and are strings.
abbrev pub host_ref_at : Bytes → Option Json → Check
host_ref_at key none = err (missing_field key)
host_ref_at key (some (obj h)) = do
  _ ← string_at (key ++ lit ".ip") (lookup (lit "ip") h)
  _ ← string_at (key ++ lit ".user") (lookup (lit "user") h)
  ok tt
host_ref_at key (some _) = err (expected_object key)

unfoldable pub check_host_ref : Fields → Bytes → Check
check_host_ref m key = host_ref_at key (lookup key m)
