-- ===== src/Inventory/DnsPlan/Gated.antt =====
-- internal/accountinventory/dnsplan.go, `classify`: an operation is only given records behind every
-- gate.
use c_panel_self_migration.Prelude.{
  ◌∷◌, Bool, true, false, true, false, not, List, [], any, all, All, map, filter, Bytes, lit, eqb,
  contains, if-cases, Option, none, some, ◌≡◌, refl, sym, ap, subst, ◌∙◌, arith,
}
use c_panel_self_migration.Events.Redact.{Unicode}
use c_panel_self_migration.Sorting.{sort_by, sort_texts}
use c_panel_self_migration.Sorting.Laws.{sort_by-All}
use c_panel_self_migration.Inventory.{DnsRecordEntry}
use c_panel_self_migration.Inventory.DnsPlan.{
  Net, DnsAction, add, replace, manual, skip, PlanOp, Rrset, IpMap, actionable_types,
  is_host_validation_name, rrset_at,
}
use c_panel_self_migration.Inventory.DnsPlan.Translate.{
  translated_records, unmapped_addresses, keys_of, translate_txt_values,
}
use c_panel_self_migration.Inventory.DnsPlan.Classify.{
  data_before, decided, already, written_op, compare_values, classify_txt, classify_values,
  classify, cross_type_conflict,
}
use c_panel_self_migration.Inventory.DnsPlan.Writable.{
  IsClean, is_writable_record, IsWritable, IsSafe, translated_records-All,
}

-- Nothing passes a test if the filter keeps nothing.
any-filter :
    (p : Bytes → Bool) (texts : List Bytes)
    → not (any (λ t. true) (filter p texts)) ≡ true
    → any p texts ≡ false
any-filter p [] h = refl
any-filter p (t ∷ texts) h = ground (arith, any-filter p texts, h)

module _ (u : Unicode) (net : Net) (m : IpMap) where
  module _ (zone : Bytes) where
    -- An operation that nothing was written into yet.
    abbrev IsFresh : (kind : Bytes) → PlanOp → Type 0
    IsFresh kind op =
        (op.kind ≡ kind)
        × (op.records ≡ [])
        × (any (eqb op.kind) actionable_types ≡ true)
        × (is_host_validation_name op.name ≡ false)

    written_op-IsWritable :
        (action : DnsAction) (kind : Bytes) (records : List DnsRecordEntry) (op : PlanOp)
        → IsFresh kind op
        → IsClean u net m kind records
        → IsWritable u net m (written_op action (translated_records u net zone kind m records) op)
    unfolding written_op
    written_op-IsWritable action kind records op fresh clean = (
      fresh.2,
      fresh.3,
      subst
          (λ k.
            All (λ r. is_writable_record u net m k r ≡ true)
              (sort_by data_before
                (map (λ t. t.plan_record) (translated_records u net zone kind m records))))
          (sym fresh.0)
          (sort_by-All data_before (λ r. is_writable_record u net m kind r ≡ true)
            (map (λ t. t.plan_record) (translated_records u net zone kind m records))
            (translated_records-All u net m zone kind records clean)),
    )

    skipped-IsSafe : (op : PlanOp) → op.records ≡ [] → IsSafe u net m (record op { action = skip })
    unfolding IsSafe
    skipped-IsSafe op h = h

    decided_skip-IsSafe :
        (reason : Bytes) (op : PlanOp) → op.records ≡ [] → IsSafe u net m (decided skip reason op)
    unfolding IsSafe
    decided_skip-IsSafe reason op h = h

    decided_manual-IsSafe :
        (reason : Bytes) (op : PlanOp) → op.records ≡ [] → IsSafe u net m (decided manual reason op)
    unfolding IsSafe
    decided_manual-IsSafe reason op h = h

    added-IsSafe :
        (kind : Bytes) (records : List DnsRecordEntry) (op : PlanOp)
        → IsFresh kind op
        → IsClean u net m kind records
        → IsSafe u net m (written_op add (translated_records u net zone kind m records) op)
    unfolding IsSafe written_op
    added-IsSafe kind records op fresh clean = written_op-IsWritable add kind records op fresh clean

    replaced-IsSafe :
        (kind : Bytes) (records : List DnsRecordEntry) (op : PlanOp)
        → IsFresh kind op
        → IsClean u net m kind records
        → IsSafe u net m (written_op replace (translated_records u net zone kind m records) op)
    unfolding IsSafe written_op
    replaced-IsSafe kind records op fresh clean =
        written_op-IsWritable replace kind records op fresh clean

    compare_values-IsSafe :
        (kind : Bytes) (records : List DnsRecordEntry) (d : Option Rrset) (op : PlanOp)
        → IsFresh kind op
        → IsClean u net m kind records
        → IsSafe u net m
            (compare_values u net zone (translated_records u net zone kind m records) d op)
    unfolding compare_values
    compare_values-IsSafe kind records none op fresh clean =
        added-IsSafe kind records op fresh clean
    compare_values-IsSafe kind records (some d) op fresh clean =
        if-cases (IsSafe u net m)
          (already u net zone
            (sort_texts (map (λ t. t.value) (translated_records u net zone kind m records)))
            (some d))
          (λ same. skipped-IsSafe op fresh.1)
          (λ differs. replaced-IsSafe kind records op fresh clean)

    classify_txt-IsSafe :
        (records : List DnsRecordEntry) (d : Option Rrset) (compared op : PlanOp)
        → op.records ≡ []
        → (any (λ from. any (λ r. contains r.txt_data from) records) (keys_of m) ≡ false
            → IsSafe u net m compared)
        → IsSafe u net m (classify_txt u net zone m records d compared op)
    unfolding classify_txt
    classify_txt-IsSafe records d compared op h safe =
        if-cases (IsSafe u net m) (not (all (λ r. net.valid_utf8 r.txt_data) records))
          (λ invalid. decided_manual-IsSafe _ op h)
          (λ valid.
            let matched =
              filter (λ from. any (λ r. contains r.txt_data from) records) (keys_of m) in
            if-cases (IsSafe u net m) (not (any (λ from. true) matched))
              (λ clean. safe (
                any-filter (λ from. any (λ r. contains r.txt_data from) records) (keys_of m) clean))
              (λ stale.
                if-cases (IsSafe u net m) (already u net zone (translate_txt_values records m) d)
                  (λ done. decided_skip-IsSafe _ op h) (λ differs. decided_manual-IsSafe _ op h)))

    classify_values-IsSafe :
        (kind : Bytes) (records : List DnsRecordEntry) (d : Option Rrset) (op : PlanOp)
        → IsFresh kind op
        → IsSafe u net m (classify_values u net zone m kind records d op)
    unfolding classify_values
    classify_values-IsSafe kind records d op fresh =
        let compared =
          compare_values u net zone (translated_records u net zone kind m records) d op in
        let safe = compare_values-IsSafe kind records d op fresh in
        if-cases (IsSafe u net m) (any (λ a. true) (unmapped_addresses u net zone kind m records))
          (λ missing. decided_manual-IsSafe _ op fresh.1)
          (λ mapped.
            if-cases (IsSafe u net m) (eqb kind (lit "TXT"))
              (λ txt.
                classify_txt-IsSafe records d compared op fresh.1
                  (λ clean. safe (ground (arith, clean))))
              (λ other. safe (ground (arith, other))))

    pub classify-IsSafe :
        (dest_sets sets : List Rrset) (name : Bytes) (records : List DnsRecordEntry) (op : PlanOp)
        → op.name ≡ name
        → op.records ≡ []
        → IsSafe u net m (classify u net zone m dest_sets sets op.kind name records op)
    unfolding classify
    classify-IsSafe dest_sets sets name records op named h =
        let kind = op.kind in
        let d = rrset_at kind name dest_sets in
        if-cases (IsSafe u net m) (eqb kind (lit "SOA")) (λ soa. decided_skip-IsSafe _ op h)
          (λ not_soa.
            if-cases (IsSafe u net m) (is_host_validation_name name)
              (λ transient. decided_skip-IsSafe _ op h)
              (λ lasting.
                if-cases (IsSafe u net m) (eqb kind (lit "NS"))
                  (λ ns.
                    if-cases (IsSafe u net m) (already u net zone op.source_values d)
                      (λ same. skipped-IsSafe op h) (λ differs. decided_manual-IsSafe _ op h))
                  (λ not_ns.
                    if-cases (IsSafe u net m) (not (any (eqb kind) actionable_types))
                      (λ unsupported. decided_manual-IsSafe _ op h)
                      (λ supported.
                        if-cases (IsSafe u net m) (cross_type_conflict sets kind name)
                          (λ conflict. decided_manual-IsSafe _ op h)
                          (λ alone. classify_values-IsSafe kind records d op (
                            refl,
                            h,
                            ground (arith, supported),
                            ap is_host_validation_name named ∙ lasting,
                          ))))))
