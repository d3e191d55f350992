-- ===== src/Contract/Spec/RoundTrip.antt =====
-- internal/executioncontract/contract.go, `ParseSpec` on the documents of Encode.
use c_panel_self_migration.Prelude.{
  ℕ, Bool, [], ◌∷◌, Bytes, lit, eqb, eqb_self, some, ok, ◌≡◌, refl, arith, ◌↔◌,
}
use c_panel_self_migration.Json.{obj, num, str, Fields, lookup}
use c_panel_self_migration.Strconv.{format_nat}
use c_panel_self_migration.Contract.{
  require_string, optional_string, require_bool, require_positive_int, reject_unknown, check_run_id,
}
use c_panel_self_migration.Contract.Numbers.{integer_at-format_nat, check_format_version-number}
use c_panel_self_migration.Contract.Spec.{
  SpecScope, ExecutionSpec, spec_mode_dry_run, spec_top_keys, spec_scope_keys, reject_blank_filter,
  parse_scope, parse_spec_map,
}
use c_panel_self_migration.Contract.Spec.Encode.{encode_scope, encode_spec}
use c_panel_self_migration.Contract.Spec.Sound.{IsScope, IsId, IsSpec, parse_spec_map-IsSpec}

scope_fields :
    (mail files databases : Bool) (domain mailbox : Bytes)
    → let s : SpecScope = record {
      mail = mail;
      files = files;
      databases = databases;
      domain_filter = domain;
      mailbox_filter = mailbox;
    } in
      IsScope s → parse_scope (encode_scope s) ≡ ok s
unfolding parse_scope reject_unknown require_bool optional_string reject_blank_filter lookup eqb lit
    spec_scope_keys
scope_fields mail files databases [] [] h = ground (arith, h)
scope_fields mail files databases [] (c ∷ mailbox) h = ground (arith, h)
scope_fields mail files databases (c ∷ domain) [] h = ground (arith, h)
scope_fields mail files databases (c ∷ domain) (e ∷ mailbox) h = ground (arith, h)

require_positive_int-number :
    (m : Fields) (key : Bytes) (n : ℕ)
    → lookup key m ≡ some (num (format_nat n))
    → IsId n
    → require_positive_int m key ≡ ok n
unfolding require_positive_int
require_positive_int-number m key n e i = rw e (rw (integer_at-format_nat key n i.1) (ground arith))

module _ (s : ExecutionSpec) where
  abbrev m : Fields
  m = encode_spec s

  known_fields : reject_unknown m spec_top_keys [] ≡ ok tt
  unfolding reject_unknown spec_top_keys eqb lit
  known_fields = refl

  found_fields :
      (lookup (lit "format_version") m ≡ some (num (format_nat s.format_version)))
      × (lookup (lit "run_id") m ≡ some (str s.run_id))
      × (lookup (lit "plan_id") m ≡ some (num (format_nat s.plan_id)))
      × (lookup (lit "source_snapshot_id") m ≡ some (num (format_nat s.source_snapshot_id)))
      × (lookup (lit "destination_snapshot_id") m
          ≡ some (num (format_nat s.destination_snapshot_id)))
      × (lookup (lit "comparison_report_id") m ≡ some (num (format_nat s.comparison_report_id)))
      × (lookup (lit "mode") m ≡ some (str s.mode))
      × (lookup (lit "scope") m ≡ some (obj (encode_scope s.scope)))
  unfolding lookup eqb lit
  found_fields = (refl, refl, refl, refl, refl, refl, refl, refl)

  -- The JSON document of a well-formed specification, with optional filters left out when empty,
  -- parses to that specification.
  pub parse_spec_map-encode_spec : IsSpec s → parse_spec_map (encode_spec s) ≡ ok s
  unfolding parse_spec_map require_string check_run_id
  parse_spec_map-encode_spec h =
      let f = found_fields in
      ground (
        arith,
        known_fields,
        f.1,
        f.6,
        f.7,
        h.run_id_ok,
        h.mode_ok,
        h.version_ok,
        check_format_version-number m s.format_version f.0 h.version_ok,
        require_positive_int-number m (lit "plan_id") s.plan_id f.2 h.plan_ok,
        require_positive_int-number m (lit "source_snapshot_id") s.source_snapshot_id f.3
            h.source_ok,
        require_positive_int-number m (lit "destination_snapshot_id") s.destination_snapshot_id f.4
            h.destination_ok,
        require_positive_int-number m (lit "comparison_report_id") s.comparison_report_id f.5
            h.report_ok,
        eqb_self spec_mode_dry_run,
        scope_fields s.scope.mail s.scope.files s.scope.databases s.scope.domain_filter
            s.scope.mailbox_filter h.scope_ok,
      )

  -- The results of ParseSpec are exactly the well-formed specifications: a supported version, a
  -- valid run id, four positive int64 references, mode dry_run, some area in scope, filters that
  -- are not blank and that only accompany the areas they apply to.
  pub parse_spec_map_image : ((d : Fields) × (parse_spec_map d ≡ ok s)) ↔ IsSpec s
  parse_spec_map_image =
      (λ p. parse_spec_map-IsSpec p.0 p.1, λ h. (encode_spec s, parse_spec_map-encode_spec h))
