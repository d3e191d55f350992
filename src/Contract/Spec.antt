-- ===== src/Contract/Spec.antt =====
-- contract.go: `ParseSpec`, the document from the platform to the executor.
pub mod Encode
pub mod Sound
pub mod RoundTrip
use c_panel_self_migration.Prelude.{
  ℕ, Bool, true, false, not, ◌||◌, ◌&&◌, List, [], ◌∷◌, ◌++◌, Bytes, lit, eqb, is_empty,
  contains_byte, if◌then◌else◌, Option, none, some, Result, ok, err, ◌>>=◌, ◌>>◌, refuse_if,
}
use c_panel_self_migration.Json.{Json, obj, Fields, lookup}
use c_panel_self_migration.Contract.{
  Problem, missing_field, expected_object, blank_filter, unknown_mode, no_area,
  mailbox_without_mail, domain_without_flow, Check, require_string, optional_string, require_bool,
  require_positive_int, check_format_version, reject_unknown, check_run_id,
}
use c_panel_self_migration.Contract.Decode.{JsonDecoder, decode_single_object}
use c_panel_self_migration.Events.{current_format_version}

pub record SpecScope : Type 0 where
  pub mail : Bool
  pub files : Bool
  pub databases : Bool
  pub domain_filter : Bytes
  pub mailbox_filter : Bytes

pub record ExecutionSpec : Type 0 where
  pub format_version : ℕ
  pub run_id : Bytes
  pub plan_id : ℕ
  pub source_snapshot_id : ℕ
  pub destination_snapshot_id : ℕ
  pub comparison_report_id : ℕ
  pub mode : Bytes
  pub scope : SpecScope

unfoldable pub spec_mode_dry_run : Bytes
spec_mode_dry_run = lit "dry_run"

unfoldable pub spec_top_keys : List Bytes
spec_top_keys =
    lit "format_version"
    ∷ lit "run_id"
    ∷ lit "plan_id"
    ∷ lit "source_snapshot_id"
    ∷ lit "destination_snapshot_id"
    ∷ lit "comparison_report_id"
    ∷ lit "mode"
    ∷ lit "scope"
    ∷ []

unfoldable pub spec_scope_keys : List Bytes
spec_scope_keys =
    lit "mail" ∷ lit "files" ∷ lit "databases" ∷ lit "domain_filter" ∷ lit "mailbox_filter" ∷ []

-- `strings.Trim(value, filterBlankChars) == ""`: no byte stands outside the cutset.
unfoldable pub filter_blank_chars : Bytes
filter_blank_chars = lit " \t\n" ++ 11 ∷ 12 ∷ 13 ∷ []

unfoldable pub is_blank : Bytes → Bool
is_blank [] = true
is_blank (c ∷ s) = contains_byte c filter_blank_chars && is_blank s

abbrev pub blank_at : Bytes → Bytes → Option Json → Check
blank_at key value none = ok tt
blank_at key value (some _) = refuse_if (is_blank value) (blank_filter key)

unfoldable pub reject_blank_filter : Fields → Bytes → Bytes → Check
reject_blank_filter scope key value = blank_at key value (lookup key scope)

abbrev pub scope_at : Option Json → Result Problem Fields
scope_at none = err (missing_field (lit "scope"))
scope_at (some (obj m)) = ok m
scope_at (some _) = err (expected_object (lit "scope"))

unfoldable pub parse_scope : Fields → Result Problem SpecScope
parse_scope scope = do
  reject_unknown scope spec_scope_keys (lit "scope.")
  mail ← require_bool scope (lit "scope.mail") (lit "mail")
  files ← require_bool scope (lit "scope.files") (lit "files")
  databases ← require_bool scope (lit "scope.databases") (lit "databases")
  refuse_if (not mail && not files && not databases) no_area
  domain_filter ← optional_string scope (lit "scope.domain_filter") (lit "domain_filter")
  reject_blank_filter scope (lit "domain_filter") domain_filter
  mailbox_filter ← optional_string scope (lit "scope.mailbox_filter") (lit "mailbox_filter")
  reject_blank_filter scope (lit "mailbox_filter") mailbox_filter
  refuse_if (not (is_empty mailbox_filter) && not mail) mailbox_without_mail
  refuse_if (not (is_empty domain_filter) && not mail && not files) domain_without_flow
  ok (record {
    mail = mail;
    files = files;
    databases = databases;
    domain_filter = domain_filter;
    mailbox_filter = mailbox_filter;
  })

-- `ParseSpec` behind the decoder.
unfoldable pub parse_spec_map : Fields → Result Problem ExecutionSpec
parse_spec_map m = do
  reject_unknown m spec_top_keys []
  check_format_version m
  run_id ← require_string m (lit "run_id")
  check_run_id run_id
  plan_id ← require_positive_int m (lit "plan_id")
  source_snapshot_id ← require_positive_int m (lit "source_snapshot_id")
  destination_snapshot_id ← require_positive_int m (lit "destination_snapshot_id")
  comparison_report_id ← require_positive_int m (lit "comparison_report_id")
  mode ← require_string m (lit "mode")
  refuse_if (not (eqb mode spec_mode_dry_run)) (unknown_mode mode)
  raw_scope ← scope_at (lookup (lit "scope") m)
  scope ← parse_scope raw_scope
  ok (record {
    format_version = current_format_version;
    run_id = run_id;
    plan_id = plan_id;
    source_snapshot_id = source_snapshot_id;
    destination_snapshot_id = destination_snapshot_id;
    comparison_report_id = comparison_report_id;
    mode = mode;
    scope = scope;
  })

unfoldable pub parse_spec : JsonDecoder → Bytes → Result Problem ExecutionSpec
parse_spec d raw = do m ← decode_single_object d raw; parse_spec_map m

abbrev pub drop_value : {A : Type 0} → Result Problem A → Check
drop_value (ok _) = ok tt
drop_value (err e) = err e

unfoldable pub validate_spec_json : JsonDecoder → Bytes → Check
validate_spec_json d raw = drop_value (parse_spec d raw)
