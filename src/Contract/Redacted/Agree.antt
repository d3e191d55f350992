-- ===== src/Contract/Redacted/Agree.antt =====
-- `RedactMap` of internal/events/redact.go against `checkRedacted` of contract.go.
use c_panel_self_migration.Prelude.{
  ℕ, ◌+◌, true, false, not, ◌&&◌, [], Bytes, lit, eqb_self, eqb_iff, ok, ◌≡◌, refl, sym, ap, ◌∙◌,
  ◌↔◌, arith, contains,
}
use c_panel_self_migration.Json.{
  Json, null, bool, num, str, arr, obj, Items, nil, cons, Fields, end, field,
}
use c_panel_self_migration.Events.Redact.{
  Unicode, is_sensitive_key, redacted_placeholder, is_empty_value, redact_at, redact_value,
  redact_items, redact_map, sensitive_substrings,
}
use c_panel_self_migration.Contract.Redacted.{
  redacted_ok, child_path, item_path, check_redacted, check_items, check_fields,
}

module _ (u : Unicode) where
  -- The key of an array's items is not sensitive.
  empty_key : is_sensitive_key u [] ≡ false
  unfolding is_sensitive_key sensitive_substrings lit contains
  empty_key = rw (u.keeps_plain [] refl)

  redacted_ok-redact_value :
      (k : Bytes) (v : Json) → is_sensitive_key u k ≡ true → redacted_ok (redact_value u k v) ≡ true
  unfolding redact_value redact_at redacted_ok is_empty_value
  redacted_ok-redact_value k null h = ground arith
  redacted_ok-redact_value k (str s) h = ground (arith, eqb_self redacted_placeholder)
  redacted_ok-redact_value k _ h = ground (arith, eqb_self redacted_placeholder)

  mutual
    unfolding redact_value check_redacted redact_at redacted_ok is_empty_value

    redacted_value :
        (k : Bytes) (v : Json) (path : Bytes) → check_redacted u (redact_value u k v) path ≡ ok tt
    redacted_value k null path = ground arith
    redacted_value k (bool b) path = ground arith
    redacted_value k (num n) path = ground arith
    redacted_value k (str s) path = ground arith
    redacted_value k (arr items) path = ground (arith, redacted_items items path 0)
    redacted_value k (obj m) path = ground (arith, redacted_map m path)

    redacted_items :
        (items : Items) (path : Bytes) (i : ℕ) → check_items u (redact_items u items) path i ≡ ok tt
    redacted_items nil path i = refl
    redacted_items (cons v items) path i =
        ground (arith, redacted_value [] v (item_path path i), redacted_items items path (i + 1))

    redacted_map : (m : Fields) (path : Bytes) → check_fields u (redact_map u m) path ≡ ok tt
    redacted_map end path = refl
    redacted_map (field k v m) path = ground (
      arith,
      redacted_value k v (child_path path k),
      redacted_map m path,
      redacted_ok-redact_value k v,
    )

  -- A value that the check lets stand is not changed by the writer.
  redact_at-fixed :
      (k : Bytes) (v rest : Json)
      → (is_sensitive_key u k && not (redacted_ok v)) ≡ false
      → rest ≡ v
      → redact_at u k v rest ≡ v
  unfolding redact_at redacted_ok is_empty_value
  redact_at-fixed k null rest h e = ground arith
  redact_at-fixed k (str s) rest h e = ground (arith, eqb_iff s redacted_placeholder)
  redact_at-fixed k _ rest h e = ground arith

  mutual
    unfolding redact_value check_redacted

    fixed_value :
        (k : Bytes) (v : Json) (path : Bytes)
        → (is_sensitive_key u k && not (redacted_ok v)) ≡ false
        → check_redacted u v path ≡ ok tt
        → redact_value u k v ≡ v
    fixed_value k null path s h = redact_at-fixed k null null s refl
    fixed_value k (bool b) path s h = redact_at-fixed k (bool b) (bool b) s refl
    fixed_value k (num n) path s h = redact_at-fixed k (num n) (num n) s refl
    fixed_value k (str t) path s h = redact_at-fixed k (str t) (str t) s refl
    fixed_value k (arr items) path s h =
        redact_at-fixed k (arr items) (arr (redact_items u items)) s
          (ap arr (fixed_items items path 0 h))
    fixed_value k (obj m) path s h =
        redact_at-fixed k (obj m) (obj (redact_map u m)) s (ap obj (fixed_map m path h))

    fixed_items :
        (items : Items) (path : Bytes) (i : ℕ)
        → check_items u items path i ≡ ok tt
        → redact_items u items ≡ items
    fixed_items nil path i h = refl
    fixed_items (cons v items) path i h =
        ground
          (arith, empty_key, fixed_value [] v (item_path path i), fixed_items items path (i + 1))

    fixed_map : (m : Fields) (path : Bytes) → check_fields u m path ≡ ok tt → redact_map u m ≡ m
    fixed_map end path h = refl
    fixed_map (field k v m) path h =
        ground (arith, fixed_value k v (child_path path k), fixed_map m path)

  -- A document that RedactMap returns passes the contract's check for unredacted secrets, whatever
  -- it held and at every path.
  pub check_fields-redact_map :
      (m : Fields) (path : Bytes) → check_fields u (redact_map u m) path ≡ ok tt
  check_fields-redact_map m path = redacted_map m path

  -- The contract's check for unredacted secrets accepts a document exactly when the writer's
  -- redaction leaves it as it is: the two independent recursive routines agree on every document
  -- and at every path.
  pub check_fields_iff :
      (m : Fields) (path : Bytes) → (check_fields u m path ≡ ok tt) ↔ (redact_map u m ≡ m)
  check_fields_iff m path =
      (fixed_map m path, λ e. ap (λ t. check_fields u t path) (sym e) ∙ redacted_map m path)

  pub redact_map-redact_map : (m : Fields) → redact_map u (redact_map u m) ≡ redact_map u m
  redact_map-redact_map m = fixed_map (redact_map u m) [] (redacted_map m [])
