-- ===== src/Events/Writer.antt =====
-- internal/events/writer.go and the JSON form of events/event.go: what one call of `Write` puts on
-- the stream. The file, the lock and the JSON text itself are outside the model.
use c_panel_self_migration.Prelude.{
  ℕ, Bytes, lit, Bool, true, false, not, ◌&&◌, [], is_empty, if◌then◌else◌,
}
use c_panel_self_migration.Json.{
  Json, null, bool, num, str, arr, obj, Items, nil, cons, Fields, end, field,
}
use c_panel_self_migration.Strconv.{format_nat}
use c_panel_self_migration.Events.{current_format_version}
use c_panel_self_migration.Events.Redact.{Unicode, is_sensitive_key, redacted_placeholder}

pub record HostRef : Type 0 where
  pub ip : Bytes
  pub user : Bytes

-- A value of type `any`. The type switches of `redactData` and of `redactValue` tell nil, a string,
-- a `[]any` and a `map[string]any` from all other types: a struct, a `map[string]string`, a number.
-- Of those, `typed` holds what `jsonMarshal` makes of the value.
mutual
  pub data GoValue : Type 0 where
    go_nil : GoValue
    go_string : Bytes → GoValue
    go_list : GoItems → GoValue
    go_dict : GoFields → GoValue
    typed : Json → GoValue

  pub data GoItems : Type 0 where
    go_none : GoItems
    go_item : GoValue → GoItems → GoItems

  pub data GoFields : Type 0 where
    go_end : GoFields
    go_field : Bytes → GoValue → GoFields → GoFields

-- What `jsonMarshal` makes of a value.
unfoldable mutual
  pub json_form : GoValue → Json
  json_form go_nil = null
  json_form (go_string s) = str s
  json_form (go_list items) = arr (json_items items)
  json_form (go_dict m) = obj (json_fields m)
  json_form (typed v) = v

  pub json_items : GoItems → Items
  json_items go_none = nil
  json_items (go_item v items) = cons (json_form v) (json_items items)

  pub json_fields : GoFields → Fields
  json_fields go_end = end
  json_fields (go_field k v m) = field k (json_form v) (json_fields m)

-- What `json.Unmarshal` makes of a JSON document in a variable of type `map[string]any`. A number
-- keeps its text here, where Go rounds it to a float64.
unfoldable mutual
  pub decoded : Json → GoValue
  decoded null = go_nil
  decoded (bool b) = typed (bool b)
  decoded (num n) = typed (num n)
  decoded (str s) = go_string s
  decoded (arr items) = go_list (decoded_items items)
  decoded (obj m) = go_dict (decoded_fields m)

  pub decoded_items : Items → GoItems
  decoded_items nil = go_none
  decoded_items (cons v items) = go_item (decoded v) (decoded_items items)

  pub decoded_fields : Fields → GoFields
  decoded_fields end = go_end
  decoded_fields (field k v m) = go_field k (decoded v) (decoded_fields m)

unfoldable pub is_empty_go_value : GoValue → Bool
is_empty_go_value go_nil = true
is_empty_go_value (go_string s) = is_empty s
is_empty_go_value _ = false

module _ (u : Unicode) where
  -- The first test of `redactValue`; `rest` is what its switch returns.
  unfoldable pub go_redact_at : Bytes → GoValue → GoValue → GoValue
  go_redact_at key v rest =
      if is_sensitive_key u key && not (is_empty_go_value v)
      then go_string redacted_placeholder
      else rest

  -- `RedactMap` and `redactValue`, which go into the two generic types alone.
  unfoldable mutual
    pub go_redact_value : Bytes → GoValue → GoValue
    go_redact_value key go_nil = go_redact_at key go_nil go_nil
    go_redact_value key (go_string s) = go_redact_at key (go_string s) (go_string s)
    go_redact_value key (go_list items) =
        go_redact_at key (go_list items) (go_list (go_redact_items items))
    go_redact_value key (go_dict m) = go_redact_at key (go_dict m) (go_dict (go_redact_map m))
    go_redact_value key (typed v) = go_redact_at key (typed v) (typed v)

    pub go_redact_items : GoItems → GoItems
    go_redact_items go_none = go_none
    go_redact_items (go_item v items) = go_item (go_redact_value [] v) (go_redact_items items)

    pub go_redact_map : GoFields → GoFields
    go_redact_map go_end = go_end
    go_redact_map (go_field k v m) = go_field k (go_redact_value k v) (go_redact_map m)

-- `ts` is the text that `time.Time` marshals to; `payload` is the field `Data`.
pub record Event : Type 0 where
  pub format_version : ℕ
  pub run_id : Bytes
  pub ts : Bytes
  pub level : Bytes
  pub phase : Bytes
  pub type : Bytes
  pub message : Bytes
  pub source : HostRef
  pub dest : HostRef
  pub payload : GoValue

-- The end of `redactData`: a value whose JSON form is an object is decoded and redacted, `null` gives
-- the nil map, whose JSON form is `null` again, and any other stays as it is.
abbrev pub redact_form : Unicode → GoValue → Json → GoValue
redact_form u v (obj m) = go_dict (go_redact_map u (decoded_fields m))
redact_form u v null = typed null
redact_form u v _ = v

unfoldable pub redact_data : Unicode → GoValue → GoValue
redact_data u go_nil = go_nil
redact_data u (go_dict m) = go_dict (go_redact_map u m)
redact_data u v = redact_form u v (json_form v)

-- The event that `Write` encodes.
unfoldable pub write : Unicode → Event → Event
unfolding redact_data
write u ev = record ev {
  format_version = current_format_version;
  payload = redact_data u ev.payload;
}

abbrev pub host_json : HostRef → Json
host_json h = obj (field (lit "ip") (str h.ip) (field (lit "user") (str h.user) end))

-- `omitempty` leaves out a nil payload alone.
abbrev pub payload_json : GoValue → Fields
payload_json go_nil = end
payload_json v = field (lit "data") (json_form v) end

unfoldable pub event_json : Event → Fields
event_json ev = field (lit "format_version") (num (format_nat ev.format_version)) (
    field (lit "run_id") (str ev.run_id) (
      field (lit "ts") (str ev.ts) (
        field (lit "level") (str ev.level) (
          field (lit "phase") (str ev.phase) (
            field (lit "event") (str ev.type) (
              field (lit "message") (str ev.message) (
                field (lit "source") (host_json ev.source)
                  (field (lit "destination") (host_json ev.dest) (payload_json ev.payload)))))))))
