-- ===== src/Events.antt =====
-- internal/events: the run events, their writer and the redaction of their payload.
pub mod Redact
pub mod Writer
use c_panel_self_migration.Prelude.{
  ℕ, Bytes, lit, length, ltb, is_empty, contains_any, refuse_if, ok, Result, ◌>>=◌, ◌>>◌, [], ◌∷◌,
  ◌++◌,
}

-- events/event.go: `CurrentFormatVersion`.
unfoldable pub current_format_version : ℕ
current_format_version = 1

pub data RunIdError : Type 0 where
  run_id_empty run_id_long run_id_slash : RunIdError

-- events/event.go: `ValidateRunID`.
unfoldable pub validate_run_id : Bytes → Result RunIdError (Unit {0})
validate_run_id id = do
  refuse_if (is_empty id) run_id_empty
  refuse_if (ltb 128 (length id)) run_id_long
  refuse_if (contains_any id (lit "/\\" ++ 0 ∷ [])) run_id_slash
