-- ===== src/Tests/Contracts.antt =====
-- Tests of the execution contract of internal/executioncontract and of the writer of
-- internal/events.
use c_panel_self_migration.Prelude.{
  true, false, [], ◌∷◌, lit, eqb, split, some, ok, err, ◌≡◌, ◌↔◌, refl, arith, has_prefix, contains,
  all,
}
use c_panel_self_migration.Json.{
  Json, bool, num, str, arr, obj, Items, nil, cons, Fields, end, field, lookup, keys,
}
use c_panel_self_migration.Strconv.{parse_int, digits, format_nat}
use c_panel_self_migration.Events.{current_format_version, validate_run_id}
use c_panel_self_migration.Events.Redact.{
  is_sensitive_key, redact_map, redacted_placeholder, sensitive_substrings,
}
use c_panel_self_migration.Events.Writer.{
  Event, GoValue, GoFields, go_string, go_dict, typed, go_field, go_end, json_form, write,
  event_json,
}
use c_panel_self_migration.Contract.{
  not_redacted, is_in, require_string, require_bool, check_format_version, require_present,
  check_run_id, check_host_ref,
}
use c_panel_self_migration.Contract.Redacted.{
  child_path, check_redacted, check_fields, check_items, redacted_ok,
}
use c_panel_self_migration.Contract.Redacted.Agree.{check_fields_iff, check_fields-redact_map}
use c_panel_self_migration.Contract.Timestamp.{
  is_rfc3339, behind_shape, drop_digits, is_fraction_and_zone, require_timestamp,
}
use c_panel_self_migration.Contract.Artifact.{check_artifact_path, to_slash}
use c_panel_self_migration.Contract.Spec.{
  is_blank, filter_blank_chars, ExecutionSpec, spec_mode_dry_run, spec_top_keys, spec_scope_keys,
  parse_spec_map,
}
use c_panel_self_migration.Contract.Spec.Encode.{encode_spec}
use c_panel_self_migration.Contract.Spec.Sound.{IsSpec, parse_spec_map-keys}
use c_panel_self_migration.Contract.Spec.RoundTrip.{
  parse_spec_map-encode_spec, parse_spec_map_image,
}
use c_panel_self_migration.Contract.Event.{levels, event_types, phases, validate_event_map}
use c_panel_self_migration.Contract.Event.Written.{
  IsEmitted, validate_event_map-write_typed, validate_event_map-write_arr,
}
use c_panel_self_migration.Contract.Report.{
  result_modes, exit_statuses, result_required, check_phases, check_strings, check_artifact_fields,
  check_scope_record, validate_result_map,
}
use c_panel_self_migration.Contract.Report.Accepted.{IsReport, validate_result_map-IsReport}
use c_panel_self_migration.Tests.Library.{plain_unicode, still_clock}

abbrev secret : Fields
secret = field (lit "db_password") (str (lit "hunter2")) (field (lit "host") (str (lit "h")) end)

check_fields_iff_example :
    (check_fields plain_unicode secret [] ≡ ok tt) ↔ (redact_map plain_unicode secret ≡ secret)
check_fields_iff_example = check_fields_iff plain_unicode secret []

check_fields-redact_map_example :
    check_fields plain_unicode (redact_map plain_unicode secret) [] ≡ ok tt
check_fields-redact_map_example = check_fields-redact_map plain_unicode secret []

abbrev sent : GoValue → Event
sent payload = record {
  format_version = 1;
  run_id = lit "run-1";
  ts = lit "2026-01-02T03:04:05Z";
  level = lit "info";
  phase = lit "";
  type = lit "run_started";
  message = lit "hello";
  source = record { ip = lit "10.0.0.1"; user = lit "root" };
  dest = record { ip = lit "10.0.0.2"; user = lit "root" };
  payload = payload;
}

sent-IsEmitted : (payload : GoValue) → IsEmitted plain_unicode still_clock (sent payload)
unfolding validate_run_id is_rfc3339 behind_shape is_fraction_and_zone drop_digits lit eqb levels
    event_types
sent-IsEmitted payload = record {
  run_id_ok = refl;
  ts_shape = refl;
  ts_time = 2026;
  ts_parses = refl;
  ts_year = omega arith;
  level_known = refl;
  type_known = refl;
  phase_known = refl;
}

-- A struct with a list in it, a number and a map, as the fields of a `map[string]any`.
abbrev settings : GoValue
settings = go_dict (
    go_field (lit "tags") (typed (arr (cons (str (lit "a")) nil))) (
      go_field (lit "db_password") (go_string (lit "hunter2")) (
        go_field (lit "hosts") (go_dict (go_field (lit "token") (typed (num (lit "7"))) go_end))
          go_end)))

-- `map[string]any{"cfg": map[string]string{"db_password": "hunter2", "host": "h"}}`
abbrev nested : GoFields
nested = go_field (lit "cfg") (typed (obj secret)) go_end

cfg_plain : is_sensitive_key plain_unicode (lit "cfg") ≡ false
unfolding is_sensitive_key sensitive_substrings contains has_prefix lit
cfg_plain = refl

secret_refused :
    check_redacted plain_unicode (obj secret) (child_path (lit "data") (lit "cfg"))
    ≡ err (not_redacted (lit "data.cfg.db_password"))
unfolding check_redacted is_sensitive_key sensitive_substrings contains has_prefix lit redacted_ok
    eqb redacted_placeholder
secret_refused = refl

-- The map inside is written as it stands, and the line is refused.
nested_test :
    validate_event_map plain_unicode still_clock
      (event_json (write plain_unicode (sent (go_dict nested))))
    ≡ err (not_redacted (lit "data.cfg.db_password"))
nested_test =
    validate_event_map-write_typed plain_unicode still_clock (sent (go_dict nested)) go_end
      (lit "cfg") (obj secret) (sent-IsEmitted (go_dict nested)) refl cfg_plain secret_refused

abbrev secret_items : Items
secret_items = cons (obj secret) nil

secret_items_refused :
    check_items plain_unicode secret_items (lit "data") 0
    ≡ err (not_redacted (lit "data[0].db_password"))
unfolding check_fields is_sensitive_key sensitive_substrings contains lit redacted_ok eqb
    redacted_placeholder format_nat digits
secret_items_refused = refl

listed : json_form (typed (arr secret_items)) ≡ arr secret_items
unfolding json_form
listed = refl

validate_event_map-write_arr_example :
    validate_event_map plain_unicode still_clock
      (event_json (write plain_unicode (sent (typed (arr secret_items)))))
    ≡ err (not_redacted (lit "data[0].db_password"))
validate_event_map-write_arr_example =
    validate_event_map-write_arr plain_unicode still_clock (sent (typed (arr secret_items)))
      secret_items (sent-IsEmitted (typed (arr secret_items))) listed secret_items_refused

abbrev dry_run : ExecutionSpec
dry_run = record {
  format_version = 1;
  run_id = lit "run-7";
  plan_id = 7;
  source_snapshot_id = 1;
  destination_snapshot_id = 2;
  comparison_report_id = 3;
  mode = lit "dry_run";
  scope = record {
    mail = true;
    files = false;
    databases = false;
    domain_filter = lit "example.com";
    mailbox_filter = lit "";
  };
}

dry_run-IsSpec : IsSpec dry_run
unfolding current_format_version validate_run_id spec_mode_dry_run lit is_blank filter_blank_chars
dry_run-IsSpec = record {
  version_ok = refl;
  run_id_ok = refl;
  plan_ok = (omega arith, omega arith);
  source_ok = (omega arith, omega arith);
  destination_ok = (omega arith, omega arith);
  report_ok = (omega arith, omega arith);
  mode_ok = refl;
  scope_ok = record {
    some_area = refl;
    domain_filter_ok = refl;
    mailbox_filter_ok = refl;
    mailbox_needs_mail = refl;
    domain_needs_flow = refl;
  };
}

parse_spec_map-encode_spec_example : parse_spec_map (encode_spec dry_run) ≡ ok dry_run
parse_spec_map-encode_spec_example = parse_spec_map-encode_spec dry_run dry_run-IsSpec

parse_spec_map_image_example : ((d : Fields) × (parse_spec_map d ≡ ok dry_run)) ↔ IsSpec dry_run
parse_spec_map_image_example = parse_spec_map_image dry_run

parse_spec_map-keys_example :
    (all (is_in spec_top_keys) (keys (encode_spec dry_run)) ≡ true)
    × ((scope : Fields) × (lookup (lit "scope") (encode_spec dry_run) ≡ some (obj scope))
        × (all (is_in spec_scope_keys) (keys scope) ≡ true))
parse_spec_map-keys_example =
    parse_spec_map-keys (encode_spec dry_run) (parse_spec_map-encode_spec dry_run dry_run-IsSpec)

abbrev host : Json
host = obj (field (lit "ip") (str (lit "10.0.0.1")) (field (lit "user") (str (lit "root")) end))

abbrev report : Fields
report = field (lit "format_version") (num (lit "1")) (
    field (lit "run_id") (str (lit "run-1")) (
      field (lit "started_at") (str (lit "2026-01-02T03:04:05Z")) (
        field (lit "finished_at") (str (lit "2026-01-02T03:05:05.5+01:00")) (
          field (lit "mode") (str (lit "dry-run")) (
            field (lit "scope")
              (obj (
                field (lit "mail") (bool true)
                  (field (lit "files") (bool false) (field (lit "databases") (bool false) end))))
              (field (lit "source") host (
                field (lit "destination") host (
                  field (lit "exit_status") (str (lit "success")) (
                    field (lit "phases_completed") (arr (cons (str (lit "connect")) nil)) (
                      field (lit "errors") (arr nil) (
                        field (lit "warnings") (arr (cons (str (lit "slow")) nil)) (
                          field (lit "version") (str (lit "v1")) (
                            field (lit "artifacts")
                              (obj (field (lit "plan") (str (lit "out/plan.json")) end))
                              end)))))))))))))

report_accepted : validate_result_map plain_unicode still_clock report ≡ ok tt
unfolding validate_result_map check_format_version require_present lookup eqb lit parse_int
    result_required require_string check_run_id validate_run_id result_modes exit_statuses
    require_timestamp is_rfc3339 behind_shape is_fraction_and_zone drop_digits check_scope_record
    require_bool check_host_ref check_phases phases check_strings check_artifact_fields
    check_artifact_path to_slash split has_prefix check_fields is_sensitive_key sensitive_substrings
    contains redacted_ok
report_accepted = refl

validate_result_map-IsReport_example : IsReport plain_unicode still_clock (lit "run" ∷ []) report
validate_result_map-IsReport_example =
    validate_result_map-IsReport plain_unicode still_clock report report_accepted (lit "run" ∷ [])
