-- ===== src/Inventory/DnsPlan/Classify.antt =====
-- internal/accountinventory/dnsplan.go, `classify`: the rules for one set of the source, in order.
use c_panel_self_migration.Prelude.{
  Bool, true, false, not, ◌&&◌, List, [], ◌∷◌, ◌++◌, any, all, map, filter, Bytes, lit, eqb,
  contains, if◌then◌else◌, Option, none, some,
}
use c_panel_self_migration.Events.Redact.{Unicode}
use c_panel_self_migration.Sorting.{text_less, sort_by, sort_texts}
use c_panel_self_migration.Inventory.{DnsRecordEntry}
use c_panel_self_migration.Inventory.Diff.{dash}
use c_panel_self_migration.Inventory.Diff.Items.{join_with}
use c_panel_self_migration.Inventory.DnsPlan.{
  Net, DnsAction, add, replace, manual, skip, PlanRecord, PlanOp, Rrset, IpMap, actionable_types,
  is_host_validation_name, rrset_at, values_equal, sorted_values,
}
use c_panel_self_migration.Inventory.DnsPlan.Translate.{
  TranslatedRecord, translated_records, unmapped_addresses, keys_of, translate_txt_values,
}

-- The owner names of a CNAME on either side where another type stands too.
unfoldable pub cross_type_conflict : (sets : List Rrset) → (kind name : Bytes) → Bool
cross_type_conflict sets kind name =
    any (λ s. eqb s.kind (lit "CNAME") && eqb s.name name) sets
    && any (λ s. eqb s.name name && not (eqb s.kind kind)) sets

-- `op.Action, op.Reason = action, reason`
abbrev pub decided : DnsAction → (reason : Bytes) → PlanOp → PlanOp
decided action reason op = record op { action = action; reason = reason }

-- `sort.Slice` by the data.
abbrev pub data_before : PlanRecord → PlanRecord → Bool
data_before a b = text_less (join_with (0 ∷ []) a.data_texts) (join_with (0 ∷ []) b.data_texts)

-- The end of `classify`: the records go into the operation.
unfoldable pub written_op : DnsAction → List TranslatedRecord → PlanOp → PlanOp
unfolding join_with
written_op action translated op = record op {
  action = action;
  records = sort_by data_before (map (λ t. t.plan_record) translated);
  ttl_capped = any (λ t. t.capped) translated;
}

module _ (u : Unicode) (net : Net) (zone : Bytes) where
  -- The set of the destination has the values.
  abbrev pub already : List Bytes → Option Rrset → Bool
  already values none = false
  already values (some d) = values_equal values (sorted_values u net zone d.records)

  -- The comparison of the translated values.
  unfoldable pub compare_values : List TranslatedRecord → Option Rrset → PlanOp → PlanOp
  unfolding written_op
  compare_values translated none op = written_op add translated op
  compare_values translated (some d) op =
      if already (sort_texts (map (λ t. t.value) translated)) (some d)
      then record op { action = skip }
      else written_op replace translated op

  -- The gate for TXT records.
  unfoldable pub classify_txt :
      IpMap → List DnsRecordEntry → Option Rrset → PlanOp → PlanOp → PlanOp
  unfolding translate_txt_values join_with
  classify_txt m records d compared op =
      let matched = filter (λ from. any (λ r. contains r.txt_data from) records) (keys_of m) in
      if not (all (λ r. net.valid_utf8 r.txt_data) records)
      then decided manual
          (lit "TXT value is not valid UTF-8 "
            ++ (dash ++ lit " it cannot be represented faithfully in the plan file"))
          op
      else if not (any (λ from. true) matched)
      then compared
      else if already (translate_txt_values records m) d
      then decided skip
          (lit "destination already matches the ip-map translation "
            ++ (dash ++ lit " nothing to rewrite"))
          op
      else decided manual
          (lit "TXT value contains mapped source address(es) "
            ++ (join_with (lit ", ") (sort_texts matched)
                ++ (lit " (SPF?) " ++ (dash ++ lit " rewrite by hand"))))
          op

  -- The gates behind the exclusions.
  unfoldable pub classify_values :
      IpMap → (kind : Bytes) → List DnsRecordEntry → Option Rrset → PlanOp → PlanOp
  unfolding translated_records unmapped_addresses classify_txt compare_values join_with
  classify_values m kind records d op =
      let missing = unmapped_addresses u net zone kind m records in
      let compared = compare_values (translated_records u net zone kind m records) d op in
      if any (λ a. true) missing
      then decided manual
          (lit "unmapped address(es) "
            ++ (join_with (lit ", ") (sort_texts missing)
                ++ (lit " "
                    ++ (dash ++ lit " add --ip-map entries (identity mapping to copy verbatim)"))))
          op
      else if eqb kind (lit "TXT")
      then classify_txt m records d compared op
      else compared

  unfoldable pub classify :
      IpMap
      → (dest_sets sets : List Rrset) → (kind name : Bytes) → List DnsRecordEntry
      → PlanOp
      → PlanOp
  unfolding classify_values is_host_validation_name actionable_types cross_type_conflict rrset_at
  classify m dest_sets sets kind name records op =
      let d = rrset_at kind name dest_sets in
      if eqb kind (lit "SOA")
      then decided skip (lit "SOA is server-managed " ++ (dash ++ lit " never compared or written"))
          op
      else if is_host_validation_name name
      then decided skip
          (lit "host-specific validation record (AutoSSL/DCV) " ++ (dash ++ lit " not migrated")) op
      else if eqb kind (lit "NS")
      then if already op.source_values d
        then record op { action = skip }
        else decided manual
            (lit "NS/delegation is registrar/WHM territory " ++ (dash ++ lit " never written")) op
      else if not (any (eqb kind) actionable_types)
      then decided manual (lit "record type " ++ (kind ++ lit " is not supported for import")) op
      else if cross_type_conflict sets kind name
      then decided manual
          (lit "CNAME cannot coexist with other types at the same name "
            ++ (dash ++ lit " resolve by hand"))
          op
      else classify_values m kind records d op
