-- ===== src/Contract/Event/Generic.antt =====
-- internal/events/redact.go, `RedactMap` on Go values, against `checkRedacted` of
-- internal/executioncontract/contract.go on their JSON form.
use c_panel_self_migration.Prelude.{
  eqb_self, ℕ, ◌+◌, Bool, true, false, not, ◌&&◌, [], Bytes, ok, ◌≡◌, refl, arith, if-cases,
}
use c_panel_self_migration.Json.{
  Json, null, bool, num, str, arr, obj, Items, nil, cons, Fields, end, field,
}
use c_panel_self_migration.Events.Redact.{
  Unicode, is_sensitive_key, redacted_placeholder, is_empty_value, redact_at, redact_value,
  redact_items, redact_map,
}
use c_panel_self_migration.Events.Writer.{
  GoValue, go_nil, go_string, go_list, go_dict, typed, GoItems, go_none, go_item, GoFields, go_end,
  go_field, json_form, json_items, json_fields, decoded, decoded_items, decoded_fields,
  is_empty_go_value, go_redact_at, go_redact_value, go_redact_items, go_redact_map,
}
use c_panel_self_migration.Contract.Redacted.{
  redacted_ok, check_redacted, check_items, check_fields, child_path, item_path,
}

-- No object at any depth.
unfoldable mutual
  pub no_object : Json → Bool
  no_object null = true
  no_object (bool b) = true
  no_object (num n) = true
  no_object (str s) = true
  no_object (arr items) = no_objects items
  no_object (obj m) = false

  pub no_objects : Items → Bool
  no_objects nil = true
  no_objects (cons v items) = no_object v && no_objects items

-- Every object in it is a `map[string]any` that `redactValue` reaches: a value of another type has
-- no object in its JSON form.
unfoldable mutual
  pub is_generic : GoValue → Bool
  is_generic go_nil = true
  is_generic (go_string s) = true
  is_generic (go_list items) = are_generic items
  is_generic (go_dict m) = is_generic_dict m
  is_generic (typed v) = no_object v

  pub are_generic : GoItems → Bool
  are_generic go_none = true
  are_generic (go_item v items) = is_generic v && are_generic items

  pub is_generic_dict : GoFields → Bool
  is_generic_dict go_end = true
  is_generic_dict (go_field k v m) = is_generic v && is_generic_dict m

mutual
  unfolding decoded is_generic no_object

  decoded-is_generic : (v : Json) → is_generic (decoded v) ≡ true
  decoded-is_generic null = refl
  decoded-is_generic (bool b) = refl
  decoded-is_generic (num n) = refl
  decoded-is_generic (str s) = refl
  decoded-is_generic (arr items) = decoded_items-are_generic items
  decoded-is_generic (obj m) = decoded_fields-is_generic_dict m

  decoded_items-are_generic : (items : Items) → are_generic (decoded_items items) ≡ true
  decoded_items-are_generic nil = refl
  decoded_items-are_generic (cons v items) =
      ground (arith, decoded-is_generic v, decoded_items-are_generic items)

  pub decoded_fields-is_generic_dict : (m : Fields) → is_generic_dict (decoded_fields m) ≡ true
  decoded_fields-is_generic_dict end = refl
  decoded_fields-is_generic_dict (field k v m) =
      ground (arith, decoded-is_generic v, decoded_fields-is_generic_dict m)

module _ (u : Unicode) where
  mutual
    unfolding check_redacted no_object

    pub check_redacted-no_object :
        (v : Json) (path : Bytes) → no_object v ≡ true → check_redacted u v path ≡ ok tt
    check_redacted-no_object null path h = refl
    check_redacted-no_object (bool b) path h = refl
    check_redacted-no_object (num n) path h = refl
    check_redacted-no_object (str s) path h = refl
    check_redacted-no_object (arr items) path h = check_items-no_objects items path 0 h
    check_redacted-no_object (obj m) path h = ground arith

    check_items-no_objects :
        (items : Items) (path : Bytes) (i : ℕ)
        → no_objects items ≡ true
        → check_items u items path i ≡ ok tt
    check_items-no_objects nil path i h = refl
    check_items-no_objects (cons v items) path i h = ground (
      arith,
      check_redacted-no_object v (item_path path i),
      check_items-no_objects items path (i + 1),
    )

  -- The check of one value under a key, at a path.
  abbrev Passes : Bytes → Bytes → Json → Type 0
  Passes key path v =
      ((is_sensitive_key u key && not (redacted_ok v)) ≡ false) × (check_redacted u v path ≡ ok tt)

  -- It is enough that what the switch of `redactValue` returns passes.
  go_redact_at-Passes :
      (key path : Bytes) (v rest : GoValue)
      → (is_empty_go_value v ≡ true → redacted_ok (json_form rest) ≡ true)
      → check_redacted u (json_form rest) path ≡ ok tt
      → Passes key path (json_form (go_redact_at u key v rest))
  unfolding go_redact_at check_redacted redacted_ok json_form
  go_redact_at-Passes key path v rest empty h =
      if-cases (λ (made : GoValue). Passes key path (json_form made))
        (is_sensitive_key u key && not (is_empty_go_value v))
        (λ hidden. (ground (arith, eqb_self redacted_placeholder), refl))
        (λ shown. (ground (arith, empty), h))

  mutual
    unfolding go_redact_value json_form is_generic is_empty_go_value check_redacted redacted_ok

    go_redact_value-Passes :
        (key path : Bytes) (v : GoValue)
        → is_generic v ≡ true
        → Passes key path (json_form (go_redact_value u key v))
    go_redact_value-Passes key path go_nil h =
        go_redact_at-Passes key path go_nil go_nil (λ e. refl) refl
    go_redact_value-Passes key path (go_string s) h =
        go_redact_at-Passes key path (go_string s) (go_string s) (λ e. ground (arith, e)) refl
    go_redact_value-Passes key path (go_list items) h =
        go_redact_at-Passes key path (go_list items) (go_list (go_redact_items u items))
          (λ e. ground (arith, e)) (check_items-go_redact_items items path 0 h)
    go_redact_value-Passes key path (go_dict m) h =
        go_redact_at-Passes key path (go_dict m) (go_dict (go_redact_map u m))
          (λ e. ground (arith, e)) (check_fields-go_redact_map m path h)
    go_redact_value-Passes key path (typed v) h =
        go_redact_at-Passes key path (typed v) (typed v) (λ e. ground (arith, e))
          (check_redacted-no_object v path h)

    check_items-go_redact_items :
        (items : GoItems) (path : Bytes) (i : ℕ)
        → are_generic items ≡ true
        → check_items u (json_items (go_redact_items u items)) path i ≡ ok tt
    check_items-go_redact_items go_none path i h = refl
    check_items-go_redact_items (go_item v items) path i h = ground (
      arith,
      (go_redact_value-Passes [] (item_path path i) v (ground (arith, h))).1,
      check_items-go_redact_items items path (i + 1),
    )

    -- RedactMap of a generic map passes the check.
    pub check_fields-go_redact_map :
        (m : GoFields) (path : Bytes)
        → is_generic_dict m ≡ true
        → check_fields u (json_fields (go_redact_map u m)) path ≡ ok tt
    check_fields-go_redact_map go_end path h = refl
    check_fields-go_redact_map (go_field k v m) path h =
        let one = go_redact_value-Passes k (child_path path k) v (ground (arith, h)) in
        ground (arith, one.0, one.1, check_fields-go_redact_map m path)

  mutual
    unfolding go_redact_value go_redact_at json_form decoded is_empty_go_value is_empty_value
        redact_value redact_at

    go_redact_value-decoded :
        (key : Bytes) (v : Json)
        → json_form (go_redact_value u key (decoded v)) ≡ redact_value u key v
    go_redact_value-decoded key null = ground arith
    go_redact_value-decoded key (bool b) = ground arith
    go_redact_value-decoded key (num n) = ground arith
    go_redact_value-decoded key (str s) = ground arith
    go_redact_value-decoded key (arr items) = ground (arith, go_redact_items-decoded_items items)
    go_redact_value-decoded key (obj m) = ground (arith, go_redact_map-decoded_fields m)

    go_redact_items-decoded_items :
        (items : Items)
        → json_items (go_redact_items u (decoded_items items)) ≡ redact_items u items
    go_redact_items-decoded_items nil = refl
    go_redact_items-decoded_items (cons v items) =
        ground (arith, go_redact_value-decoded [] v, go_redact_items-decoded_items items)

    -- On a decoded document, RedactMap is the redaction of JSON.
    pub go_redact_map-decoded_fields :
        (m : Fields) → json_fields (go_redact_map u (decoded_fields m)) ≡ redact_map u m
    go_redact_map-decoded_fields end = refl
    go_redact_map-decoded_fields (field k v m) =
        ground (arith, go_redact_value-decoded k v, go_redact_map-decoded_fields m)
