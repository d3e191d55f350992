-- ===== src/Inventory/DnsPlan/Zone.antt =====
-- internal/accountinventory/dnsplan.go: `buildZonePlan` and `BuildDNSPlan`.
use c_panel_self_migration.Prelude.{
  ℕ, ◌+◌, Bool, true, false, not, List, [], ◌∷◌, ◌++◌, map, filter, length, Bytes, lit, eqb,
  if◌then◌else◌, Option, none, some, Result, ok, err,
}
use c_panel_self_migration.Events.Redact.{Unicode}
use c_panel_self_migration.Sorting.{text_less, sort_by}
use c_panel_self_migration.Inventory.{DnsRecordEntry, DnsZoneResult, NormalizedInventory}
use c_panel_self_migration.Inventory.Diff.{dash}
use c_panel_self_migration.Inventory.Policy.Evaluate.{PolicyReport}
use c_panel_self_migration.Inventory.DnsPlan.{
  Net, DnsAction, add, replace, manual, skip, PlanOp, PlanRrsetInfo, IpMap, Rrset, rrset_at,
  group_rrsets, sorted_values, canon_ip_string,
}
use c_panel_self_migration.Inventory.DnsPlan.Classify.{classify}
use c_panel_self_migration.Inventory.DnsPlan.Findings.{zone_policy_findings, non_dns_blockers}

pub record PlanZone : Type 0 where
  pub zone : Bytes
  pub ops : List PlanOp
  pub informational : List PlanRrsetInfo
  pub policy_findings : List Bytes

pub record ManualZone : Type 0 where
  pub zone : Bytes
  pub reason : Bytes

pub record PlanSummary : Type 0 where
  pub adds : ℕ
  pub replaces : ℕ
  pub manuals : ℕ
  pub skips : ℕ
  pub infos : ℕ

pub record DnsPlan : Type 0 where
  pub ip_map : IpMap
  pub zones : List PlanZone
  pub manual_zones : List ManualZone
  pub non_dns_blockers : List Bytes
  pub summary : PlanSummary

pub data DnsPlanError : Type 0 where
  source_unavailable destination_unavailable : DnsPlanError

abbrev no_ops : PlanSummary
no_ops = record { adds = 0; replaces = 0; manuals = 0; skips = 0; infos = 0 }

abbrev values_of : Unicode → Net → Bytes → Option Rrset → List Bytes
values_of u net zone none = []
values_of u net zone (some d) = sorted_values u net zone d.records

abbrev pub op_before : PlanOp → PlanOp → Bool
op_before a b = if not (eqb a.name b.name) then text_less a.name b.name else text_less a.kind b.kind

abbrev info_before : PlanRrsetInfo → PlanRrsetInfo → Bool
info_before a b =
    if not (eqb a.name b.name) then text_less a.name b.name else text_less a.kind b.kind

module _ (u : Unicode) (net : Net) (m : IpMap) (zone : Bytes) where
  -- The body of the loop over the sets of the source; each case of `classify` sets the action.
  unfoldable pub zone_op : (src_sets dest_sets : List Rrset) → Rrset → PlanOp
  unfolding classify rrset_at sorted_values
  zone_op src_sets dest_sets set =
      classify u net zone m dest_sets (src_sets ++ dest_sets) set.kind set.name set.records
        (record {
          action = manual;
          kind = set.kind;
          name = set.name;
          reason = [];
          records = [];
          source_values = sorted_values u net zone set.records;
          destination_values = values_of u net zone (rrset_at set.kind set.name dest_sets);
          ttl_capped = false;
        })

  abbrev is_absent : List Rrset → Rrset → Bool
  is_absent sets set = elim (rrset_at set.kind set.name sets) [ none ↦ true | some _ ↦ false ]

  unfoldable pub build_zone_plan : (src dest : List DnsRecordEntry) → PlanZone
  unfolding zone_op group_rrsets
  build_zone_plan src dest =
      let src_sets = group_rrsets u net zone [] src in
      let dest_sets = group_rrsets u net zone [] dest in
      record {
        zone = zone;
        ops = sort_by op_before (map (zone_op src_sets dest_sets) src_sets);
        informational = sort_by info_before (
            map
              (λ set. record {
                kind = set.kind;
                name = set.name;
                values = sorted_values u net zone set.records;
              })
              (filter (is_absent src_sets) dest_sets));
        policy_findings = [];
      }

-- A map from names to zones; the last zone of a name counts.
abbrev pub ZoneMap : Type 0
ZoneMap = List (Bytes × DnsZoneResult)

unfoldable pub put_named : Bytes → DnsZoneResult → ZoneMap → ZoneMap
put_named k z [] = (k, z) ∷ []
put_named k z ((j, y) ∷ zones) =
    let rest = put_named k z zones in if eqb j k then (j, z) ∷ zones else (j, y) ∷ rest

unfoldable pub zone_named : Bytes → ZoneMap → Option DnsZoneResult
zone_named k [] = none
zone_named k ((j, y) ∷ zones) = if eqb j k then some y else zone_named k zones

unfoldable pub put_address : Bytes → Bytes → IpMap → IpMap
put_address k v [] = (k, v) ∷ []
put_address k v ((j, w) ∷ m) =
    let rest = put_address k v m in if eqb j k then (j, v) ∷ m else (j, w) ∷ rest

abbrev count_op : PlanSummary → DnsAction → PlanSummary
count_op sum add = record sum { adds = sum.adds + 1 }
count_op sum replace = record sum { replaces = sum.replaces + 1 }
count_op sum manual = record sum { manuals = sum.manuals + 1 }
count_op sum skip = record sum { skips = sum.skips + 1 }

unfoldable pub count_ops : PlanSummary → List PlanOp → PlanSummary
count_ops sum [] = sum
count_ops sum (op ∷ ops) = count_ops (count_op sum op.action) ops

unfoldable pub count_zones : PlanSummary → List PlanZone → PlanSummary
unfolding count_ops
count_zones sum [] = sum
count_zones sum (z ∷ zones) =
    let counted = count_ops sum z.ops in
    count_zones (record counted { infos = counted.infos + length z.informational }) zones

-- What the loop over the zones of the source makes of one.
pub data ZoneOutcome : Type 0 where
  planned : PlanZone → ZoneOutcome
  left_to_hand : ManualZone → ZoneOutcome

abbrev pub zone_before : PlanZone → PlanZone → Bool
zone_before a b = text_less a.zone b.zone

abbrev hand_before : ManualZone → ManualZone → Bool
hand_before a b = text_less a.zone b.zone

module _ (u : Unicode) (net : Net) where
  unfoldable pub canon_map : (seen m : IpMap) → IpMap
  unfolding put_address canon_ip_string
  canon_map seen [] = seen
  canon_map seen ((k, v) ∷ m) =
      canon_map (put_address (canon_ip_string u net k) (canon_ip_string u net v) seen) m

  unfoldable pub index_named : ZoneMap → List DnsZoneResult → ZoneMap
  unfolding put_named
  index_named zs [] = zs
  index_named zs (z ∷ zones) = index_named (put_named (u.to_lower z.zone) z zs) zones

  module _ (policy : Option PolicyReport) (m : IpMap) where
    abbrev by_hand : (name reason : Bytes) → ZoneOutcome
    by_hand name reason = left_to_hand (record { zone = name; reason = reason })

    abbrev pub with_destination :
        (name : Bytes) → DnsZoneResult → Option DnsZoneResult → ZoneOutcome
    with_destination name sz none = by_hand name (
        lit "zone missing on destination "
        ++ (dash ++ lit " create it via WHM/park first, then re-run"))
    with_destination name sz (some dz) =
        if not dz.available
        then by_hand name (
            lit "zone unavailable on destination "
            ++ (dash ++ lit " re-run the destination inventory"))
        else planned (record (build_zone_plan u net m name sz.records dz.records) {
          policy_findings = zone_policy_findings policy name;
        })

    unfoldable pub plan_zone : ZoneMap → DnsZoneResult → ZoneOutcome
    unfolding build_zone_plan zone_policy_findings zone_named
    plan_zone dest_zones sz =
        let name = u.to_lower sz.zone in
        if not sz.available
        then by_hand name
            (lit "zone unavailable on source " ++ (dash ++ lit " re-run the source inventory"))
        else with_destination name sz (zone_named name dest_zones)

    unfoldable pub planned_zones : ZoneMap → List DnsZoneResult → List PlanZone
    unfolding plan_zone
    planned_zones dest_zones [] = []
    planned_zones dest_zones (sz ∷ zones) =
        let rest = planned_zones dest_zones zones in
        elim (plan_zone dest_zones sz) [ planned z ↦ z ∷ rest | left_to_hand _ ↦ rest ]

    unfoldable pub zones_by_hand : ZoneMap → List DnsZoneResult → List ManualZone
    unfolding plan_zone
    zones_by_hand dest_zones [] = []
    zones_by_hand dest_zones (sz ∷ zones) =
        let rest = zones_by_hand dest_zones zones in
        elim (plan_zone dest_zones sz) [ planned _ ↦ rest | left_to_hand z ↦ z ∷ rest ]

  unfoldable pub build_dns_plan :
      (src dest : NormalizedInventory) → Option PolicyReport → IpMap → Result DnsPlanError DnsPlan
  unfolding canon_map index_named planned_zones zones_by_hand non_dns_blockers count_zones
  build_dns_plan src dest policy m =
      let addresses = canon_map [] m in
      let dest_zones = index_named [] dest.dns.items in
      let zones = sort_by zone_before (planned_zones policy addresses dest_zones src.dns.items) in
      if not src.dns.available
      then err source_unavailable
      else if not dest.dns.available
      then err destination_unavailable
      else ok (record {
        ip_map = addresses;
        zones = zones;
        manual_zones =
            sort_by hand_before (zones_by_hand policy addresses dest_zones src.dns.items);
        non_dns_blockers = non_dns_blockers policy;
        summary = count_zones no_ops zones;
      })
