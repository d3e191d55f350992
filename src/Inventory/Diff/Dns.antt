-- ===== src/Inventory/Diff/Dns.antt =====
-- internal/accountinventory/diff.go: the comparison of DNS zones, record set by record set.
use c_panel_self_migration.Prelude.{
  Bool, not, ◌||◌, List, [], ◌∷◌, ◌++◌, map, length, Bytes, lit, eqb, ◌==◌, if◌then◌else◌, Option,
  none, some,
}
use c_panel_self_migration.Strconv.{ℤ, pos, negsuc, format_int, format_nat}
use c_panel_self_migration.Sorting.{text_less, sort_by}
use c_panel_self_migration.Inventory.{DnsRecordEntry, DnsZoneResult, ConfigSection}
use c_panel_self_migration.Inventory.Diff.{
  DiffEntry, DiffFieldChange, SectionDiff, new_section_diff, skip_unavailable, or_compared,
  sort_section_diff, dash,
}
use c_panel_self_migration.Inventory.Diff.Items.{join_with}

pub record DnsValue : Type 0 where
  pub compare_form : Bytes
  pub display : Bytes

abbrev priority_text : ℤ → Bytes → Bytes
priority_text (pos n) value =
    if n == 0 then value else lit "prio=" ++ (format_int (pos n) ++ (lit " " ++ value))
priority_text (negsuc n) value = lit "prio=" ++ (format_int (negsuc n) ++ (lit " " ++ value))

unfoldable pub canonical_dns_value : DnsRecordEntry → DnsValue
canonical_dns_value r = record {
  compare_form = format_int r.priority ++ 0 ∷ (format_int r.ttl ++ 0 ∷ r.value);
  display = priority_text r.priority r.value ++ (lit " ttl=" ++ format_int r.ttl);
}

-- A map from zone names to zones; the last zone of a name counts.
unfoldable pub put_zone : DnsZoneResult → List DnsZoneResult → List DnsZoneResult
put_zone z [] = z ∷ []
put_zone z (old ∷ zones) =
    let rest = put_zone z zones in if eqb old.zone z.zone then z ∷ zones else old ∷ rest

unfoldable pub index_zones : List DnsZoneResult → List DnsZoneResult → List DnsZoneResult
unfolding put_zone
index_zones m [] = m
index_zones m (z ∷ zones) = index_zones (put_zone z m) zones

unfoldable pub zone_at : Bytes → List DnsZoneResult → Option DnsZoneResult
zone_at name [] = none
zone_at name (z ∷ zones) = if eqb z.zone name then some z else zone_at name zones

-- A map from "type name" to the values of the set.
abbrev pub RecordSets : Type 0
RecordSets = List (Bytes × List DnsValue)

unfoldable pub add_value : Bytes → DnsValue → RecordSets → RecordSets
add_value k v [] = (k, v ∷ []) ∷ []
add_value k v ((j, vs) ∷ g) = if eqb j k then (j, vs ++ v ∷ []) ∷ g else (j, vs) ∷ add_value k v g

unfoldable pub collect_sets : RecordSets → List DnsRecordEntry → RecordSets
unfolding add_value canonical_dns_value
collect_sets g [] = g
collect_sets g (r ∷ records) =
    collect_sets (add_value (r.kind ++ (lit " " ++ r.name)) (canonical_dns_value r) g) records

abbrev value_before : DnsValue → DnsValue → Bool
value_before a b = text_less a.compare_form b.compare_form

-- The function `group`.
unfoldable pub group_records : List DnsRecordEntry → RecordSets
unfolding collect_sets
group_records records = map (λ p. (p.0, sort_by value_before p.1)) (collect_sets [] records)

unfoldable pub set_at : Bytes → RecordSets → Option (List DnsValue)
set_at k [] = none
set_at k ((j, vs) ∷ g) = if eqb j k then some vs else set_at k g

unfoldable pub compare_set : List DnsValue → Bytes
unfolding join_with
compare_set vs = join_with (1 ∷ []) (map (λ v. v.compare_form) vs)

unfoldable pub display_set : List DnsValue → Bytes
unfolding join_with
display_set vs = join_with (lit "; ") (map (λ v. v.display) vs)

abbrev set_key : Bytes → Bytes → Bytes
set_key zone k = lit "zone " ++ (zone ++ (lit " " ++ k))

abbrev if_absent : Option (List DnsValue) → DiffEntry → List DiffEntry → List DiffEntry
if_absent none e rest = e ∷ rest
if_absent (some _) e rest = rest

-- The sets of one side that the other lacks.
unfoldable pub sets_only_in : Bytes → RecordSets → RecordSets → List DiffEntry
unfolding set_at display_set
sets_only_in zone [] others = []
sets_only_in zone ((k, vs) ∷ g) others =
    if_absent (set_at k others) (record { key = set_key zone k; detail = display_set vs })
      (sets_only_in zone g others)

abbrev set_change : Bytes → Bytes → List DnsValue → Option (List DnsValue) → List DiffFieldChange
set_change zone k vs none = []
set_change zone k vs (some ws) =
    if not (eqb (compare_set vs) (compare_set ws))
    then record {
      key = set_key zone k;
      field = lit "records";
      source = display_set vs;
      destination = display_set ws;
    }
      ∷ []
    else []

unfoldable pub changed_sets : Bytes → RecordSets → RecordSets → List DiffFieldChange
unfolding set_at compare_set display_set
changed_sets zone [] others = []
changed_sets zone ((k, vs) ∷ g) others =
    set_change zone k vs (set_at k others) ++ changed_sets zone g others

unfoldable pub diff_zone_records :
    SectionDiff → Bytes → List DnsRecordEntry → List DnsRecordEntry → SectionDiff
unfolding group_records sets_only_in changed_sets
diff_zone_records sec zone src dest =
    let sg = group_records src in
    let dg = group_records dest in
    record sec {
      added = sec.added ++ sets_only_in zone dg sg;
      removed = sec.removed ++ sets_only_in zone sg dg;
      changed = sec.changed ++ changed_sets zone sg dg;
    }

unfoldable pub zone_entry : DnsZoneResult → DiffEntry
zone_entry z = record {
  key = lit "zone " ++ z.zone;
  detail = format_nat (length z.records) ++ lit " record(s)";
}

abbrev add_if_absent : DnsZoneResult → Option DnsZoneResult → SectionDiff → SectionDiff
add_if_absent z none sec = record sec { added = sec.added ++ zone_entry z ∷ [] }
add_if_absent z (some _) sec = sec

unfoldable pub added_zones : SectionDiff → List DnsZoneResult → List DnsZoneResult → SectionDiff
unfolding zone_at zone_entry
added_zones sec [] src = sec
added_zones sec (z ∷ dest) src = added_zones (add_if_absent z (zone_at z.zone src) sec) dest src

-- The body of the loop over the zones of the source.
unfoldable pub compare_zone : DnsZoneResult → Option DnsZoneResult → SectionDiff → SectionDiff
unfolding zone_entry diff_zone_records
compare_zone sz none sec = record sec { removed = sec.removed ++ zone_entry sz ∷ [] }
compare_zone sz (some dz) sec =
    if not sz.available || not dz.available
    then record sec {
      skipped =
          sec.skipped
          ++ (lit "zone "
              ++ (sz.zone
                  ++ (lit " unavailable on one side " ++ (dash ++ lit " records not compared"))))
            ∷ [];
    }
    else diff_zone_records sec sz.zone sz.records dz.records

unfoldable pub compared_zones : SectionDiff → List DnsZoneResult → List DnsZoneResult → SectionDiff
unfolding zone_at compare_zone
compared_zones sec [] dest = sec
compared_zones sec (sz ∷ src) dest =
    compared_zones (compare_zone sz (zone_at sz.zone dest) sec) src dest

unfoldable pub diff_dns : ConfigSection DnsZoneResult → ConfigSection DnsZoneResult → SectionDiff
unfolding skip_unavailable index_zones added_zones compared_zones sort_section_diff
diff_dns src dest =
    let src_zones = index_zones [] src.items in
    let dest_zones = index_zones [] dest.items in
    or_compared (skip_unavailable (lit "dns") src.available dest.available) (
      sort_section_diff
        (compared_zones (added_zones new_section_diff dest_zones src_zones) src_zones dest_zones))
