-- ===== src/Inventory/DnsPlan/Writable.antt =====
-- internal/accountinventory/dnsplan.go: the records that may be written, and those that the
-- translation makes.
use c_panel_self_migration.Prelude.{
  joined, contains, eqb_iff, Bool-cases, inl, inr, subst, sym, lit, Bool, true, false, not, ◌||◌,
  ◌&&◌, List, [], ◌∷◌, ◌++◌, any, all, All, map, Bytes, lit, eqb, eqb_self, leb, if-cases, Option,
  none, some, ◌≡◌, refl, arith,
}
use c_panel_self_migration.Strconv.{format_int, ℤ, pos, negsuc}
use c_panel_self_migration.Events.Redact.{Unicode}
use c_panel_self_migration.Inventory.{DnsRecordEntry}
use c_panel_self_migration.Inventory.DnsPlan.{
  Net, add, replace, manual, skip, PlanRecord, PlanOp, IpMap, address_at, actionable_types,
  is_host_validation_name, canon_ip_string, canon_dns_name, cap_ttl, plan_write_ttl_cap,
}
use c_panel_self_migration.Inventory.DnsPlan.Translate.{
  keys_of, TranslatedRecord, Translation, unmapped, translated, translated_to, is_address_type,
  translate_one, translated_records, mapped_to,
}
use c_panel_self_migration.Inventory.DnsPlan.Txt.{split_txt_segments, split_txt_segments-joined}

-- Between a second and an hour.
abbrev pub is_capped : ℤ → Bool
is_capped (pos n) = leb 1 n && leb n 3600
is_capped (negsuc n) = false

cap_ttl-is_capped : (ttl : ℤ) → is_capped (cap_ttl ttl).0 ≡ true
unfolding cap_ttl plan_write_ttl_cap
cap_ttl-is_capped (negsuc n) = refl
cap_ttl-is_capped (pos n) = ground arith

-- A type that is one text is not another.
eqb-other : (kind a b : Bytes) → eqb kind a ≡ true → eqb a b ≡ false → eqb kind b ≡ false
eqb-other kind a b h k = subst (λ text. eqb text b ≡ false) (sym ((eqb_iff kind a).0 h)) k

cname-not_txt : (kind : Bytes) → eqb kind (lit "CNAME") ≡ true → eqb kind (lit "TXT") ≡ false
unfolding eqb lit
cname-not_txt kind h = eqb-other kind (lit "CNAME") (lit "TXT") h refl

mx-not_txt : (kind : Bytes) → eqb kind (lit "MX") ≡ true → eqb kind (lit "TXT") ≡ false
unfolding eqb lit
mx-not_txt kind h = eqb-other kind (lit "MX") (lit "TXT") h refl

address-not_txt : (kind : Bytes) → is_address_type kind ≡ true → eqb kind (lit "TXT") ≡ false
unfolding eqb lit
address-not_txt kind h = elim (Bool-cases (eqb kind (lit "A"))) [
  | inl a ↦ eqb-other kind (lit "A") (lit "TXT") a refl
  | inr other ↦ eqb-other kind (lit "AAAA") (lit "TXT") (ground (arith, h, other)) refl
]

module _ (u : Unicode) (net : Net) (m : IpMap) where
  -- The text is an address that the map translates to.
  abbrev pub is_translation : Bytes → Bool
  is_translation text = any (λ (from, to). eqb (canon_ip_string u net to) text) m

  abbrev pub is_writable_record : (kind : Bytes) → PlanRecord → Bool
  is_writable_record kind r =
      is_capped r.ttl
      && (eqb r.kind kind
          && ((not (is_address_type kind) || all is_translation r.data_texts)
              && (not (eqb kind (lit "TXT"))
                  || not (any (contains (joined r.data_texts)) (keys_of m)))))

  -- No text of the set, if it is of type TXT, has an address of the map in it.
  abbrev pub IsClean : (kind : Bytes) → List DnsRecordEntry → Type 0
  IsClean kind records =
      (eqb kind (lit "TXT")
        && any (λ from. any (λ r. contains r.txt_data from) records) (keys_of m))
      ≡ false

  abbrev pub IsWritable : PlanOp → Type 0
  IsWritable op =
      (any (eqb op.kind) actionable_types ≡ true)
      × (is_host_validation_name op.name ≡ false)
      × All (λ r. is_writable_record op.kind r ≡ true) op.records

  -- Only an addition and a replacement have records to write.
  unfoldable pub IsSafe : PlanOp → Type 0
  IsSafe op = elim op.action [
    | add ↦ IsWritable op
    | replace ↦ IsWritable op
    | manual ↦ op.records ≡ []
    | skip ↦ op.records ≡ []
  ]

  abbrev is_writable_translation : (kind : Bytes) → Translation → Bool
  is_writable_translation kind (unmapped a) = true
  is_writable_translation kind (translated t) = is_writable_record kind t.plan_record

  address_at-is_translation :
      (a to : Bytes) (n : IpMap)
      → address_at a n ≡ some to
      → any (λ (from, other). eqb (canon_ip_string u net other) (canon_ip_string u net to)) n ≡ true
  unfolding address_at
  address_at-is_translation a to [] h = absurd (ground (arith, h))
  address_at-is_translation a to ((k, v) ∷ n) h =
      ground (arith, h, address_at-is_translation a to n, eqb_self (canon_ip_string u net to))

  any-or :
      (p q : Bytes → Bool) (texts : List Bytes)
      → any (λ t. p t || q t) texts ≡ (any p texts || any q texts)
  any-or p q [] = refl
  any-or p q (t ∷ texts) = ground (arith, any-or p q texts)

  IsClean-cons :
      (kind : Bytes) (r : DnsRecordEntry) (records : List DnsRecordEntry)
      → IsClean kind (r ∷ records)
      → ((eqb kind (lit "TXT") && any (contains r.txt_data) (keys_of m)) ≡ false)
        × IsClean kind records
  IsClean-cons kind r records h = ground (
    arith,
    any-or (contains r.txt_data) (λ from. any (λ o. contains o.txt_data from) records) (keys_of m),
    h,
  )

  module _ (zone kind : Bytes) where
    other-is_writable :
        (r : DnsRecordEntry) (data_texts : List Bytes) (value : Bytes)
        → is_address_type kind ≡ false
        → (eqb kind (lit "TXT") && any (contains (joined data_texts)) (keys_of m)) ≡ false
        → is_writable_translation kind (translated_to u net zone kind m r data_texts value) ≡ true
    other-is_writable r data_texts value h clean =
        ground (arith, h, clean, cap_ttl-is_capped r.ttl, eqb_self kind)

    mapped_to-is_writable :
        (r : DnsRecordEntry) (a : Bytes) (o : Option Bytes)
        → is_address_type kind ≡ true
        → address_at a m ≡ o
        → is_writable_translation kind (mapped_to u net zone kind m r a o) ≡ true
    mapped_to-is_writable r a none address h = refl
    mapped_to-is_writable r a (some to) address h = ground (
      arith,
      address-not_txt kind address,
      cap_ttl-is_capped r.ttl,
      eqb_self kind,
      address_at-is_translation a to m h,
    )

    translate_one-is_writable :
        (r : DnsRecordEntry)
        → (eqb kind (lit "TXT") && any (contains r.txt_data) (keys_of m)) ≡ false
        → is_writable_translation kind (translate_one u net zone kind m r) ≡ true
    unfolding translate_one
    translate_one-is_writable r clean =
        if-cases (λ (tr : Translation). is_writable_translation kind tr ≡ true)
          (is_address_type kind)
          (λ address.
            let a = canon_ip_string u net r.address in
            mapped_to-is_writable r a (address_at a m) address refl)
          (λ other.
            if-cases (λ (tr : Translation). is_writable_translation kind tr ≡ true)
              (eqb kind (lit "CNAME"))
              (λ cname.
                let t = canon_dns_name u r.target zone in
                other-is_writable r (t ∷ []) t other (ground (arith, cname-not_txt kind cname)))
              (λ not_cname.
                if-cases (λ (tr : Translation). is_writable_translation kind tr ≡ true)
                  (eqb kind (lit "MX"))
                  (λ mx.
                    let ex = canon_dns_name u r.exchange zone in
                    other-is_writable r (format_int r.priority ∷ ex ∷ [])
                      (format_int r.priority ++ 0 ∷ ex) other (ground (arith, mx-not_txt kind mx)))
                  (λ not_mx.
                    if-cases (λ (tr : Translation). is_writable_translation kind tr ≡ true)
                      (eqb kind (lit "TXT"))
                      (λ txt. other-is_writable r (split_txt_segments r.txt_data) r.txt_data other (
                        subst
                          (λ text.
                            (eqb kind (lit "TXT") && any (contains text) (keys_of m)) ≡ false)
                          (sym ((split_txt_segments-joined r.txt_data).0)) clean))
                      (λ not_txt. other-is_writable r [] [] other (ground (arith, not_txt))))))

    one_more :
        (tr : Translation) (out : List TranslatedRecord)
        → is_writable_translation kind tr ≡ true
        → All (λ r. is_writable_record kind r ≡ true) (map (λ t. t.plan_record) out)
        → All
            (λ r. is_writable_record kind r ≡ true)
            (map (λ t. t.plan_record) (elim tr [ unmapped _ ↦ out | translated t ↦ t ∷ out ]))
    one_more (unmapped a) out h all_out = all_out
    one_more (translated t) out h all_out = (h, all_out)

    pub translated_records-All :
        (records : List DnsRecordEntry)
        → IsClean kind records
        → All
            (λ r. is_writable_record kind r ≡ true)
            (map (λ t. t.plan_record) (translated_records u net zone kind m records))
    unfolding translated_records
    translated_records-All [] clean = tt
    translated_records-All (r ∷ records) clean =
        let split_clean = IsClean-cons kind r records clean in
        one_more (translate_one u net zone kind m r) (translated_records u net zone kind m records)
          (translate_one-is_writable r split_clean.0) (translated_records-All records split_clean.1)
