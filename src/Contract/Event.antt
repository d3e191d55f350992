-- ===== src/Contract/Event.antt =====
-- contract.go: `ValidateEventJSON`, one line of the executor's event stream.
pub mod Generic
pub mod Written
use c_panel_self_migration.Prelude.{
  Bool, not, ◌||◌, ◌&&◌, List, [], ◌∷◌, Bytes, lit, is_empty, Result, ok, ◌>>=◌, ◌>>◌, refuse_if,
}
use c_panel_self_migration.Json.{Fields}
use c_panel_self_migration.Events.Redact.{Unicode}
use c_panel_self_migration.Contract.{
  Problem, unknown_level, unknown_event, unknown_phase, Check, is_in, require_string,
  check_format_version, require_present, check_run_id, check_host_ref,
}
use c_panel_self_migration.Contract.Decode.{JsonDecoder, decode_single_object}
use c_panel_self_migration.Contract.Redacted.{check_fields}
use c_panel_self_migration.Contract.Timestamp.{Clock, require_timestamp}

unfoldable pub levels : List Bytes
levels = lit "info" ∷ lit "warn" ∷ lit "error" ∷ []

unfoldable pub event_types : List Bytes
event_types =
    lit "phase_started"
    ∷ lit "phase_completed"
    ∷ lit "phase_skipped"
    ∷ lit "phase_failed"
    ∷ lit "run_started"
    ∷ lit "run_completed"
    ∷ lit "run_failed"
    ∷ []

unfoldable pub phases : List Bytes
phases =
    lit "connect"
    ∷ lit "analyze_mail"
    ∷ lit "analyze_files"
    ∷ lit "analyze_db"
    ∷ lit "gather_data"
    ∷ lit "compare_mail"
    ∷ lit "compare_files"
    ∷ lit "compare_db"
    ∷ lit "create_domains"
    ∷ lit "migrate_mail"
    ∷ lit "verify_mail"
    ∷ lit "copy_files"
    ∷ lit "verify_files"
    ∷ lit "migrate_db"
    ∷ lit "verify_db"
    ∷ []

unfoldable pub event_required : List Bytes
event_required =
    lit "format_version"
    ∷ lit "run_id"
    ∷ lit "ts"
    ∷ lit "level"
    ∷ lit "phase"
    ∷ lit "event"
    ∷ lit "message"
    ∷ lit "source"
    ∷ lit "destination"
    ∷ []

module _ (u : Unicode) (clock : Clock) where
  -- `ValidateEventJSON` behind the decoder.
  unfoldable pub validate_event_map : Fields → Check
  validate_event_map m = do
    check_format_version m
    require_present m event_required
    run_id ← require_string m (lit "run_id")
    check_run_id run_id
    _ ← require_timestamp clock m (lit "ts")
    level ← require_string m (lit "level")
    refuse_if (not (is_in levels level)) (unknown_level level)
    event ← require_string m (lit "event")
    refuse_if (not (is_in event_types event)) (unknown_event event)
    phase ← require_string m (lit "phase")
    refuse_if (not (is_empty phase) && not (is_in phases phase)) (unknown_phase phase)
    _ ← require_string m (lit "message")
    check_host_ref m (lit "source")
    check_host_ref m (lit "destination")
    check_fields u m []

  unfoldable pub validate_event_json : JsonDecoder → Bytes → Check
  validate_event_json d raw = do m ← decode_single_object d raw; validate_event_map m
