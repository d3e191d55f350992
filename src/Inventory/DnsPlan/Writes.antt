-- ===== src/Inventory/DnsPlan/Writes.antt =====
-- internal/accountinventory/dnsplan.go: what a plan writes to the zones of the destination.
use c_panel_self_migration.Prelude.{
  true, false, not, ◌&&◌, List, [], ◌∷◌, ◌++◌, All, map, Bytes, if-cases, Option, none, some,
  Result, ok, err, ◌≡◌, refl, arith,
}
use c_panel_self_migration.Events.Redact.{Unicode}
use c_panel_self_migration.Sorting.Laws.{sort_by-All}
use c_panel_self_migration.Inventory.{DnsRecordEntry, DnsZoneResult, NormalizedInventory}
use c_panel_self_migration.Inventory.Policy.Evaluate.{PolicyReport}
use c_panel_self_migration.Inventory.DnsPlan.{Net, PlanOp, Rrset, IpMap, group_rrsets}
use c_panel_self_migration.Inventory.DnsPlan.Zone.{
  PlanZone, zone_op, build_zone_plan, plan_zone, planned_zones, planned, left_to_hand, ZoneOutcome,
  canon_map, index_named, op_before, zone_named, with_destination, ZoneMap, DnsPlan, DnsPlanError,
  zone_before, build_dns_plan,
}
use c_panel_self_migration.Inventory.DnsPlan.Writable.{IsSafe}
use c_panel_self_migration.Inventory.DnsPlan.Gated.{classify-IsSafe}

module _ (u : Unicode) (net : Net) (m : IpMap) where
  map-All :
      (sets : List Rrset) (f : Rrset → PlanOp)
      → ((set : Rrset) → IsSafe u net m (f set))
      → All (IsSafe u net m) (map f sets)
  map-All [] f h = tt
  map-All (set ∷ sets) f h = (h set, map-All sets f h)

  build_zone_plan-IsSafe :
      (zone : Bytes) (src dest : List DnsRecordEntry)
      → All (IsSafe u net m) (build_zone_plan u net m zone src dest).ops
  unfolding build_zone_plan zone_op
  build_zone_plan-IsSafe zone src dest =
      let src_sets = group_rrsets u net zone [] src in
      let dest_sets = group_rrsets u net zone [] dest in
      sort_by-All op_before (IsSafe u net m)
        (map (zone_op u net m zone src_sets dest_sets) src_sets)
        (map-All src_sets (zone_op u net m zone src_sets dest_sets) (λ set.
          classify-IsSafe u net m zone dest_sets (src_sets ++ dest_sets) set.name set.records _ refl
            refl))

  -- What a zone of the source comes to.
  abbrev IsSafeOutcome : ZoneOutcome → Type 0
  IsSafeOutcome (planned z) = All (IsSafe u net m) z.ops
  IsSafeOutcome (left_to_hand z) = Unit

  module _ (policy : Option PolicyReport) where
    with_destination-IsSafe :
        (name : Bytes) (sz : DnsZoneResult) (found : Option DnsZoneResult)
        → IsSafeOutcome (with_destination u net policy m name sz found)
    with_destination-IsSafe name sz none = tt
    with_destination-IsSafe name sz (some dz) =
        if-cases IsSafeOutcome (not dz.available) (λ missing. tt)
          (λ listed. build_zone_plan-IsSafe name sz.records dz.records)

    plan_zone-IsSafe :
        (dest_zones : ZoneMap) (sz : DnsZoneResult)
        → IsSafeOutcome (plan_zone u net policy m dest_zones sz)
    unfolding plan_zone
    plan_zone-IsSafe dest_zones sz =
        let name = u.to_lower sz.zone in
        if-cases IsSafeOutcome (not sz.available) (λ missing. tt)
          (λ listed. with_destination-IsSafe name sz (zone_named name dest_zones))

    zone_more :
        (o : ZoneOutcome) (zones : List PlanZone)
        → IsSafeOutcome o
        → All (λ z. All (IsSafe u net m) z.ops) zones
        → All
            (λ z. All (IsSafe u net m) z.ops)
            (elim o [ planned z ↦ z ∷ zones | left_to_hand _ ↦ zones ])
    zone_more (planned z) zones h rest = (h, rest)
    zone_more (left_to_hand z) zones h rest = rest

    planned_zones-IsSafe :
        (dest_zones : ZoneMap) (zones : List DnsZoneResult)
        → All (λ z. All (IsSafe u net m) z.ops) (planned_zones u net policy m dest_zones zones)
    unfolding planned_zones
    planned_zones-IsSafe dest_zones [] = tt
    planned_zones-IsSafe dest_zones (sz ∷ zones) =
        zone_more (plan_zone u net policy m dest_zones sz)
          (planned_zones u net policy m dest_zones zones) (plan_zone-IsSafe dest_zones sz)
          (planned_zones-IsSafe dest_zones zones)

module _ (u : Unicode) (net : Net) (src dest : NormalizedInventory) (m : IpMap) where
  -- Either side did not list its zones, or both did and the plan is safe.
  abbrev pub IsSafeResult : Result DnsPlanError DnsPlan → Type 0
  IsSafeResult (err e) = (src.dns.available && dest.dns.available) ≡ false
  IsSafeResult (ok plan) =
      ((src.dns.available && dest.dns.available) ≡ true)
      × All (λ z. All (IsSafe u net (canon_map u net [] m)) z.ops) plan.zones

  -- BuildDNSPlan gives a plan exactly if both sides listed their zones. Every set that the plan
  -- adds or replaces is of type A, AAAA, CNAME, MX or TXT and not a host validation name, each of
  -- its records has a time to live between a second and an hour and the type of the set, each
  -- address written is one that the map of addresses translates to, and no text written has an
  -- address of the map in it; a set that it skips or leaves to hand has no records to write.
  pub build_dns_plan-IsSafeResult :
      (policy : Option PolicyReport) → IsSafeResult (build_dns_plan u net src dest policy m)
  unfolding build_dns_plan
  build_dns_plan-IsSafeResult policy =
      let addresses = canon_map u net [] m in
      let dest_zones = index_named u net [] dest.dns.items in
      if-cases IsSafeResult (not src.dns.available) (λ missing. ground (arith, missing))
        (λ listed.
          if-cases IsSafeResult (not dest.dns.available) (λ missing. ground (arith, missing))
            (λ both. (
              ground (arith, listed, both),
              sort_by-All zone_before (λ z. All (IsSafe u net addresses) z.ops)
                  (planned_zones u net policy addresses dest_zones src.dns.items)
                  (planned_zones-IsSafe u net addresses policy dest_zones src.dns.items),
            )))
