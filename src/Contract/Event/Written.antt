-- ===== src/Contract/Event/Written.antt =====
-- internal/events/writer.go against `ValidateEventJSON` of internal/executioncontract/contract.go.
use c_panel_self_migration.Prelude.{
  ap, ◌≤◌, Bool, true, false, not, ◌||◌, ◌&&◌, List, [], ◌∷◌, Bytes, lit, eqb, is_empty, some, ok,
  err, contains, ◌≡◌, refl, ◌∙◌, arith, all, any, All,
}
use c_panel_self_migration.Json.{Json, null, obj, num, str, bool, arr, Items, Fields, lookup}
use c_panel_self_migration.Strconv.{format_nat}
use c_panel_self_migration.Events.{current_format_version, validate_run_id}
use c_panel_self_migration.Events.Redact.{Unicode, is_sensitive_key, sensitive_substrings, is_plain}
use c_panel_self_migration.Events.Writer.{
  GoValue, go_nil, go_string, go_list, go_dict, typed, GoFields, go_field, json_form,
  go_redact_value, go_redact_at, Event, redact_data, write, event_json, host_json, payload_json,
}
use c_panel_self_migration.Contract.{
  Problem, require_string, is_in, require_present, check_run_id, check_host_ref,
}
use c_panel_self_migration.Contract.Redacted.{child_path, check_redacted, check_items, check_fields}
use c_panel_self_migration.Contract.Event.Generic.{no_object, is_generic_dict}
use c_panel_self_migration.Contract.Timestamp.{Clock, is_rfc3339, require_timestamp}
use c_panel_self_migration.Contract.Event.{
  levels, event_types, phases, event_required, validate_event_map,
}
use c_panel_self_migration.Contract.Numbers.{check_format_version-number}

-- The payloads that Write keeps free of secrets: none at all, a `map[string]any` that is generic
-- throughout, and a value of another type whose JSON form is an object or holds no object.
abbrev is_redactable_form : Json → Bool
is_redactable_form (obj m) = true
is_redactable_form v = no_object v

abbrev pub is_redactable : GoValue → Bool
is_redactable (go_dict m) = is_generic_dict m
is_redactable v = is_redactable_form (json_form v)

module _ (u : Unicode) (clock : Clock) where
  -- What the emitters of the engine put into an event.
  pub record IsEmitted (ev : Event) : Type 0 where
    pub run_id_ok : validate_run_id ev.run_id ≡ ok tt
    pub ts_shape : is_rfc3339 ev.ts ≡ true
    pub ts_time : clock.Time
    pub ts_parses : clock.parse ev.ts ≡ some ts_time
    pub ts_year : 1 ≤ clock.year ts_time
    pub level_known : is_in levels ev.level ≡ true
    pub type_known : is_in event_types ev.type ≡ true
    pub phase_known : (is_empty ev.phase || is_in phases ev.phase) ≡ true

  -- A plain key with none of the substrings in it.
  abbrev is_harmless : Bytes → Bool
  is_harmless k = all is_plain k && not (any (contains k) sensitive_substrings)

  harmless_keys :
      (ks : List Bytes) → all is_harmless ks ≡ true → All (λ k. is_sensitive_key u k ≡ false) ks
  unfolding is_sensitive_key
  harmless_keys [] h = tt
  harmless_keys (k ∷ ks) h =
      (rw (u.keeps_plain k (ground arith)) (ground arith), harmless_keys ks (ground arith))

  abbrev own_keys : List Bytes
  own_keys = lit "ip" ∷ lit "user" ∷ lit "data" ∷ event_required

  own_keys_harmless : all is_harmless own_keys ≡ true
  unfolding event_required lit sensitive_substrings contains
  own_keys_harmless = refl

  module _ (ev : Event) where
    abbrev doc : Fields
    doc = event_json ev

    found_fields :
        (lookup (lit "format_version") doc ≡ some (num (format_nat ev.format_version)))
        × (lookup (lit "run_id") doc ≡ some (str ev.run_id))
        × (lookup (lit "ts") doc ≡ some (str ev.ts))
        × (lookup (lit "level") doc ≡ some (str ev.level))
        × (lookup (lit "phase") doc ≡ some (str ev.phase))
        × (lookup (lit "event") doc ≡ some (str ev.type))
        × (lookup (lit "message") doc ≡ some (str ev.message))
        × (lookup (lit "source") doc ≡ some (host_json ev.source))
        × (lookup (lit "destination") doc ≡ some (host_json ev.dest))
    unfolding event_json lookup eqb lit
    found_fields = (refl, refl, refl, refl, refl, refl, refl, refl, refl)

    all_present : require_present doc event_required ≡ ok tt
    unfolding event_json lookup eqb lit require_present event_required
    all_present = refl

    hosts_ok :
        (check_host_ref doc (lit "source") ≡ ok tt)
        × (check_host_ref doc (lit "destination") ≡ ok tt)
    unfolding event_json lookup eqb lit check_host_ref
    hosts_ok = (refl, refl)

    -- Only the payload can fail the check for secrets.
    check_fields-event_json : check_fields u doc [] ≡ check_fields u (payload_json ev.payload) []
    unfolding event_json check_fields event_required
    check_fields-event_json = ground (arith, harmless_keys own_keys own_keys_harmless)

    -- The payload alone decides on an emitted event.
    validate_event_map-event_json :
        ev.format_version ≡ current_format_version
        → IsEmitted ev
        → validate_event_map u clock doc ≡ check_fields u (payload_json ev.payload) []
    unfolding validate_event_map require_string check_run_id require_timestamp
    validate_event_map-event_json v h =
        let f = found_fields in
        ground (
          arith,
          f.1,
          f.2,
          f.3,
          f.4,
          f.5,
          f.6,
          h.run_id_ok,
          h.ts_shape,
          h.ts_parses,
          h.ts_year,
          h.level_known,
          h.type_known,
          h.phase_known,
          all_present,
          hosts_ok,
          check_fields-event_json,
          check_format_version-number doc ev.format_version f.0 v,
        )

  data_key : is_sensitive_key u (lit "data") ≡ false
  data_key = (harmless_keys own_keys own_keys_harmless).1.1.0

  emitted : (ev : Event) → IsEmitted ev → IsEmitted (write u ev)
  unfolding write
  emitted ev h = record {
    run_id_ok = h.run_id_ok;
    ts_shape = h.ts_shape;
    ts_time = h.ts_time;
    ts_parses = h.ts_parses;
    ts_year = h.ts_year;
    level_known = h.level_known;
    type_known = h.type_known;
    phase_known = h.phase_known;
  }

  validate_event_map-write_eq :
      (ev : Event)
      → IsEmitted ev
      → validate_event_map u clock (event_json (write u ev))
        ≡ check_fields u (payload_json (redact_data u ev.payload)) []
  unfolding write
  validate_event_map-write_eq ev h = validate_event_map-event_json (write u ev) refl (emitted ev h)

  array_payload :
      (v : GoValue) (items : Items) {p : Problem}
      → json_form v ≡ arr items
      → check_items u items (lit "data") 0 ≡ err p
      → check_fields u (payload_json (redact_data u v)) [] ≡ err p
  unfolding redact_data check_fields lit json_form
  array_payload go_nil items e h = cc
  array_payload (go_string s) items e h = cc
  array_payload (go_list inner) items e h = ground (arith, data_key)
  array_payload (go_dict m) items e h = cc
  array_payload (typed (arr inner)) items e h = ground (arith, data_key)
  array_payload (typed null) items e h = cc
  array_payload (typed (bool b)) items e h = cc
  array_payload (typed (num n)) items e h = cc
  array_payload (typed (str t)) items e h = cc
  array_payload (typed (obj m)) items e h = cc

  -- A payload of an emitted event whose JSON form is an array is written as it stands: a problem
  -- that the check for secrets finds in the array is what ValidateEventJSON answers to the written
  -- document.
  pub validate_event_map-write_arr :
      (ev : Event) (items : Items) {p : Problem}
      → IsEmitted ev
      → json_form ev.payload ≡ arr items
      → check_items u items (lit "data") 0 ≡ err p
      → validate_event_map u clock (event_json (write u ev)) ≡ err p
  validate_event_map-write_arr ev items h e bad =
      validate_event_map-write_eq ev h ∙ array_payload ev.payload items e bad

  typed_payload :
      (rest : GoFields) (k : Bytes) (v : Json) {p : Problem}
      → is_sensitive_key u k ≡ false
      → check_redacted u v (child_path (lit "data") k) ≡ err p
      → check_fields u (payload_json (redact_data u (go_dict (go_field k (typed v) rest)))) []
        ≡ err p
  unfolding redact_data go_redact_value go_redact_at check_fields json_form lit
  typed_payload rest k v plain bad = ground (arith, data_key, plain, bad)

  -- A value of another type than map[string]any and []any that stands in a map[string]any payload
  -- under a key that is not sensitive is written as it stands: a problem that the check for secrets
  -- finds in its JSON form is what ValidateEventJSON answers to the written document, if the loop
  -- over the payload comes to that entry first.
  pub validate_event_map-write_typed :
      (ev : Event) (rest : GoFields) (k : Bytes) (v : Json) {p : Problem}
      → IsEmitted ev
      → ev.payload ≡ go_dict (go_field k (typed v) rest)
      → is_sensitive_key u k ≡ false
      → check_redacted u v (child_path (lit "data") k) ≡ err p
      → validate_event_map u clock (event_json (write u ev)) ≡ err p
  validate_event_map-write_typed ev rest k v h e plain bad =
      validate_event_map-write_eq ev h
      ∙ ap (λ w. check_fields u (payload_json (redact_data u w)) []) e
      ∙ typed_payload rest k v plain bad
