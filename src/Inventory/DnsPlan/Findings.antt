-- ===== src/Inventory/DnsPlan/Findings.antt =====
-- internal/accountinventory/dnsplan.go: the findings of the policy that a plan lists beside its
-- operations.
use c_panel_self_migration.Prelude.{
  Bool, false, not, ◌&&◌, List, [], ◌∷◌, ◌++◌, map, filter, Bytes, lit, eqb, is_empty, has_prefix,
  if◌then◌else◌, Option, none, some,
}
use c_panel_self_migration.Sorting.{sort_texts}
use c_panel_self_migration.Inventory.Policy.{
  Severity, info, warning, review, blocker, PolicyFinding,
}
use c_panel_self_migration.Inventory.Policy.Evaluate.{PolicyReport}

-- `%s` of a severity.
abbrev severity_text : Severity → Bytes
severity_text blocker = lit "blocker"
severity_text review = lit "review"
severity_text warning = lit "warning"
severity_text info = lit "info"

abbrev ref_of : PolicyFinding → Bytes
ref_of f =
    if not (is_empty f.source_ref)
    then f.source_ref
    else if not (is_empty f.destination_ref)
    then f.destination_ref
    else f.detail

-- The loop of `zonePolicyFindings`.
unfoldable pub zone_findings : (prefix : Bytes) → List PolicyFinding → List Bytes
zone_findings prefix [] = []
zone_findings prefix (f ∷ findings) =
    let rest = zone_findings prefix findings in
    if not (eqb f.section (lit "dns"))
    then rest
    else if not (eqb (ref_of f) prefix) && not (has_prefix (ref_of f) (prefix ++ lit " "))
    then rest
    else (f.id ++ (lit " [" ++ (severity_text f.severity ++ (lit "] " ++ ref_of f)))) ∷ rest

unfoldable pub zone_policy_findings : Option PolicyReport → (zone : Bytes) → List Bytes
unfolding zone_findings
zone_policy_findings none zone = []
zone_policy_findings (some policy) zone =
    sort_texts (zone_findings (lit "zone " ++ zone) policy.findings)

abbrev is_blocker_elsewhere : PolicyFinding → Bool
is_blocker_elsewhere f = elim f.severity [ blocker ↦ not (eqb f.section (lit "dns")) | _ ↦ false ]

unfoldable pub non_dns_blockers : Option PolicyReport → List Bytes
non_dns_blockers none = []
non_dns_blockers (some policy) = sort_texts (
    map (λ f. f.id ++ (lit " (" ++ (f.section ++ lit ")")))
      (filter is_blocker_elsewhere policy.findings))
