-- ===== src/Contract/Spec/Encode.antt =====
-- The JSON document for a specification of internal/executioncontract/contract.go.
use c_panel_self_migration.Prelude.{ℕ, [], ◌∷◌, Bytes, lit}
use c_panel_self_migration.Json.{Json, bool, num, str, obj, Fields, end, field}
use c_panel_self_migration.Strconv.{format_nat}
use c_panel_self_migration.Contract.Spec.{SpecScope, ExecutionSpec}

-- An empty filter is left out.
abbrev pub optional_field : Bytes → Bytes → Fields → Fields
optional_field key [] m = m
optional_field key (c ∷ value) m = field key (str (c ∷ value)) m

abbrev pub encode_scope : SpecScope → Fields
encode_scope s = field (lit "mail") (bool s.mail) (
    field (lit "files") (bool s.files) (
      field (lit "databases") (bool s.databases) (
        optional_field (lit "domain_filter") s.domain_filter
          (optional_field (lit "mailbox_filter") s.mailbox_filter end))))

abbrev number : ℕ → Json
number n = num (format_nat n)

abbrev pub encode_spec : ExecutionSpec → Fields
encode_spec s = field (lit "format_version") (number s.format_version) (
    field (lit "run_id") (str s.run_id) (
      field (lit "plan_id") (number s.plan_id) (
        field (lit "source_snapshot_id") (number s.source_snapshot_id) (
          field (lit "destination_snapshot_id") (number s.destination_snapshot_id) (
            field (lit "comparison_report_id") (number s.comparison_report_id) (
              field (lit "mode") (str s.mode)
                (field (lit "scope") (obj (encode_scope s.scope)) end)))))))
