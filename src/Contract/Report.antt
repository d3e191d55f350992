-- ===== src/Contract/Report.antt =====
-- contract.go: `ValidateResultJSON`, the executor's report at the end of a run.
pub mod Accepted
use c_panel_self_migration.Prelude.{
  Bool, true, false, not, List, [], ◌∷◌, Bytes, lit, is_empty, Option, none, some, Result, ok, err,
  ◌>>=◌, ◌>>◌, refuse_if,
}
use c_panel_self_migration.Json.{Json, str, arr, obj, Items, nil, cons, Fields, end, field, lookup}
use c_panel_self_migration.Events.Redact.{Unicode}
use c_panel_self_migration.Contract.{
  Problem, expected_string, expected_object, expected_array, unknown_mode, unknown_phase,
  unknown_exit_status, empty_version, finished_first, bad_artifact, Check, is_in, require_string,
  require_bool, check_format_version, require_present, check_run_id, check_host_ref,
}
use c_panel_self_migration.Contract.Artifact.{ArtifactProblem, check_artifact_path}
use c_panel_self_migration.Contract.Decode.{JsonDecoder, decode_single_object}
use c_panel_self_migration.Contract.Event.{phases}
use c_panel_self_migration.Contract.Redacted.{check_fields}
use c_panel_self_migration.Contract.Timestamp.{Clock, require_timestamp}

unfoldable pub result_modes : List Bytes
result_modes = lit "dry-run" ∷ lit "apply" ∷ lit "account-inventory" ∷ []

unfoldable pub exit_statuses : List Bytes
exit_statuses = lit "success" ∷ lit "failed" ∷ lit "interrupted" ∷ []

unfoldable pub result_required : List Bytes
result_required =
    lit "format_version"
    ∷ lit "run_id"
    ∷ lit "version"
    ∷ lit "mode"
    ∷ lit "scope"
    ∷ lit "source"
    ∷ lit "destination"
    ∷ lit "started_at"
    ∷ lit "finished_at"
    ∷ lit "exit_status"
    ∷ lit "phases_completed"
    ∷ lit "warnings"
    ∷ lit "errors"
    ∷ []

-- `scope, ok := m["scope"].(map[string]any)`
abbrev pub object_at : Bytes → Option Json → Result Problem Fields
object_at key (some (obj m)) = ok m
object_at key _ = err (expected_object key)

-- `arr, ok := m[k].([]any)`
abbrev pub array_at : Bytes → Option Json → Result Problem Items
array_at key (some (arr items)) = ok items
array_at key _ = err (expected_array key)

unfoldable pub check_phases : Items → Check
check_phases nil = ok tt
check_phases (cons (str s) items) =
    refuse_if (not (is_in phases s)) (unknown_phase s) >> check_phases items
check_phases (cons _ items) = err (expected_string (lit "phases_completed"))

unfoldable pub check_strings : Bytes → Items → Check
check_strings key nil = ok tt
check_strings key (cons (str s) items) = check_strings key items
check_strings key (cons _ items) = err (expected_string key)

abbrev pub artifact_result : Bytes → Result ArtifactProblem (Unit {0}) → Check
artifact_result name (ok _) = ok tt
artifact_result name (err _) = err (bad_artifact name)

unfoldable pub check_artifact_fields : Fields → Check
check_artifact_fields end = ok tt
check_artifact_fields (field name (str p) m) =
    artifact_result name (check_artifact_path p) >> check_artifact_fields m
check_artifact_fields (field name _ m) = err (bad_artifact name)

-- `artifacts` is omitempty: absent is valid.
abbrev pub artifacts_at : Option Json → Check
artifacts_at none = ok tt
artifacts_at (some (obj arts)) = check_artifact_fields arts
artifacts_at (some _) = err (expected_object (lit "artifacts"))

unfoldable pub check_scope_record : Fields → Check
check_scope_record scope = do
  _ ← require_bool scope (lit "scope.mail") (lit "mail")
  _ ← require_bool scope (lit "scope.files") (lit "files")
  _ ← require_bool scope (lit "scope.databases") (lit "databases")
  ok tt

module _ (u : Unicode) (clock : Clock) where
  -- `ValidateResultJSON` behind the decoder.
  unfoldable pub validate_result_map : Fields → Check
  validate_result_map m = do
    check_format_version m
    require_present m result_required
    run_id ← require_string m (lit "run_id")
    check_run_id run_id
    ver ← require_string m (lit "version")
    refuse_if (is_empty (u.trim_space ver)) empty_version
    mode ← require_string m (lit "mode")
    refuse_if (not (is_in result_modes mode)) (unknown_mode mode)
    status ← require_string m (lit "exit_status")
    refuse_if (not (is_in exit_statuses status)) (unknown_exit_status status)
    started ← require_timestamp clock m (lit "started_at")
    finished ← require_timestamp clock m (lit "finished_at")
    refuse_if (clock.before finished started) finished_first
    scope ← object_at (lit "scope") (lookup (lit "scope") m)
    check_scope_record scope
    check_host_ref m (lit "source")
    check_host_ref m (lit "destination")
    completed ← array_at (lit "phases_completed") (lookup (lit "phases_completed") m)
    check_phases completed
    warnings ← array_at (lit "warnings") (lookup (lit "warnings") m)
    check_strings (lit "warnings") warnings
    errors ← array_at (lit "errors") (lookup (lit "errors") m)
    check_strings (lit "errors") errors
    artifacts_at (lookup (lit "artifacts") m)
    check_fields u m []

  unfoldable pub validate_result_json : JsonDecoder → Bytes → Check
  validate_result_json d raw = do m ← decode_single_object d raw; validate_result_map m
