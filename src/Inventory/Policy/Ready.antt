-- ===== src/Inventory/Policy/Ready.antt =====
-- internal/accountinventory/policy.go and diff.go: what a status says of the findings, and a ready
-- one of the two inventories.
use c_panel_self_migration.Prelude.{
  Bool, true, false, ◌||◌, List, [], ◌∷◌, ◌++◌, map, any, All, any-append, Bytes, lit, ltb, ◌==◌,
  if◌then◌else◌, ◌≡◌, refl, ◌∙◌, sym, arith,
}
use c_panel_self_migration.Events.Redact.{Unicode}
use c_panel_self_migration.Sorting.Laws.{any-sort_by}
use c_panel_self_migration.Inventory.Diff.{DiffEntry, DiffFieldChange, SectionDiff}
use c_panel_self_migration.Inventory.Diff.Inventories.{Sections, section_at}
use c_panel_self_migration.Inventory.Policy.{
  Severity, info, warning, review, blocker, PolicyStatus, ready, review_required, blocked,
  PolicyFinding, severity_rank, on_section, finding_before,
}
use c_panel_self_migration.Inventory.Policy.Rules.{
  findings_of, eval_section_warnings, removed_domain,
}
use c_panel_self_migration.Inventory.Policy.Evaluate.{
  PolicySummary, no_findings, count_finding, summarize, overall, eval_section, rules, eval_sections,
  evaluate_policy,
}

abbrev pub is_blocker : PolicyFinding → Bool
is_blocker f = severity_rank f.severity == 0

abbrev pub is_review : PolicyFinding → Bool
is_review f = severity_rank f.severity == 1

-- A finding that keeps the status from being `ready`.
abbrev pub needs_action : PolicyFinding → Bool
needs_action f = is_blocker f || is_review f

-- The status of the worst finding.
abbrev pub worst : List PolicyFinding → PolicyStatus
worst findings =
    if any is_blocker findings
    then blocked
    else if any is_review findings
    then review_required
    else ready

any-needs_action :
    (findings : List PolicyFinding)
    → any needs_action findings ≡ (any is_blocker findings || any is_review findings)
any-needs_action [] = refl
any-needs_action (f ∷ findings) = ground (arith, any-needs_action findings)

ready-worst :
    (findings : List PolicyFinding) → worst findings ≡ ready → any needs_action findings ≡ false
ready-worst findings h = ground (arith, any-needs_action findings, h)

overall-count_finding :
    (sum : PolicySummary) (sev : Severity) (blocking reviewing : Bool)
    → (if ltb 0 (count_finding sum sev).blockers || blocking
        then blocked
        else if ltb 0 (count_finding sum sev).reviews || reviewing
        then review_required
        else ready)
      ≡ (if ltb 0 sum.blockers || ((severity_rank sev == 0) || blocking)
          then blocked
          else if ltb 0 sum.reviews || ((severity_rank sev == 1) || reviewing)
          then review_required
          else ready)
overall-count_finding sum info b r = refl
overall-count_finding sum warning b r = refl
overall-count_finding sum review b r = ground arith
overall-count_finding sum blocker b r = ground arith

overall-summarize :
    (sum : PolicySummary) (findings : List PolicyFinding)
    → overall (summarize sum findings) ≡ (
        if ltb 0 sum.blockers || any is_blocker findings
        then blocked
        else if ltb 0 sum.reviews || any is_review findings
        then review_required
        else ready)
unfolding overall summarize
overall-summarize sum [] = ground arith
overall-summarize sum (f ∷ findings) =
    overall-summarize (count_finding sum f.severity) findings
    ∙ overall-count_finding sum f.severity (any is_blocker findings) (any is_review findings)

module _ (u : Unicode) (words : Bytes → List Bytes) (d : Sections) where
  -- The overall status of a policy report is that of the worst of its findings: blocked if one is a
  -- blocker, else review_required if one is to be reviewed, else ready.
  pub evaluate_policy-overall_status :
      (evaluate_policy u words d).overall_status ≡ worst (evaluate_policy u words d).findings
  unfolding evaluate_policy
  evaluate_policy-overall_status =
      let findings = eval_sections u words d (rules u words d) in
      rw
        (
          any-sort_by finding_before is_blocker findings,
          any-sort_by finding_before is_review findings,
        )
        (overall-summarize no_findings findings)

  ready-eval_sections :
      (evaluate_policy u words d).overall_status ≡ ready
      → any needs_action (eval_sections u words d (rules u words d)) ≡ false
  unfolding evaluate_policy
  ready-eval_sections h =
      let findings = eval_sections u words d (rules u words d) in
      ready-worst findings (sym (overall-summarize no_findings findings) ∙ h)

-- Findings of which none needs an action.
abbrev pub IsQuiet : List PolicyFinding → Type 0
IsQuiet findings = any needs_action findings ≡ false

IsQuiet-left : (xs ys : List PolicyFinding) → IsQuiet (xs ++ ys) → IsQuiet xs
IsQuiet-left xs ys h = ground (arith, any-append needs_action xs ys, h)

IsQuiet-right : (xs ys : List PolicyFinding) → IsQuiet (xs ++ ys) → IsQuiet ys
IsQuiet-right xs ys h = ground (arith, any-append needs_action xs ys, h)

module _ {A : Type 0} where
  IsQuiet-map :
      (f : A → PolicyFinding) (items : List A)
      → ((a : A) → needs_action (f a) ≡ true)
      → IsQuiet (map f items)
      → items ≡ []
  IsQuiet-map f [] always h = refl
  IsQuiet-map f (a ∷ items) always h = absurd (ground (arith, always a, h))

-- The part of a section's findings that a rule makes of the entries.
module _ (name : Bytes) (sec : SectionDiff) where
  pub skipped-IsQuiet :
      (findings : List PolicyFinding)
      → IsQuiet (findings ++ eval_section_warnings name sec)
      → sec.skipped ≡ []
  unfolding eval_section_warnings
  skipped-IsQuiet findings h =
      let unavailable = on_section name (lit "POL-SECTION-UNAVAILABLE") review in
      let warned = map (on_section name (lit "POL-DIFF-WARNING") warning) sec.warnings in
      IsQuiet-map unavailable sec.skipped (λ text. refl)
        (IsQuiet-left (map unavailable sec.skipped) warned
          (IsQuiet-right findings (eval_section_warnings name sec) h))

  module _ (r : DiffEntry → PolicyFinding) (c : DiffFieldChange → PolicyFinding)
      (a : DiffEntry → PolicyFinding) where
    pub removed-IsQuiet :
        ((e : DiffEntry) → needs_action (r e) ≡ true)
        → IsQuiet (findings_of r c a sec ++ eval_section_warnings name sec)
        → sec.removed ≡ []
    removed-IsQuiet always h = IsQuiet-map r sec.removed always (
        IsQuiet-left (map r sec.removed) (map c sec.changed ++ map a sec.added)
          (IsQuiet-left (findings_of r c a sec) (eval_section_warnings name sec) h))

    pub changed-IsQuiet :
        ((e : DiffFieldChange) → needs_action (c e) ≡ true)
        → IsQuiet (findings_of r c a sec ++ eval_section_warnings name sec)
        → sec.changed ≡ []
    changed-IsQuiet always h = IsQuiet-map c sec.changed always (
        IsQuiet-left (map c sec.changed) (map a sec.added) (
          IsQuiet-right (map r sec.removed) (map c sec.changed ++ map a sec.added)
            (IsQuiet-left (findings_of r c a sec) (eval_section_warnings name sec) h)))

pub removed_domain-needs_action : (e : DiffEntry) → needs_action (removed_domain e) ≡ true
unfolding removed_domain
removed_domain-needs_action e = ground arith

module _ (u : Unicode) (words : Bytes → List Bytes) (d : Sections) where
  -- The findings of a section need no action.
  abbrev IsQuietAt : (Bytes × (SectionDiff → List PolicyFinding)) → Type 0
  IsQuietAt (name, rule) = IsQuiet (eval_section name rule (section_at name d))

  eval_sections-IsQuietAt :
      (rs : List (Bytes × (SectionDiff → List PolicyFinding)))
      → IsQuiet (eval_sections u words d rs)
      → All IsQuietAt rs
  unfolding eval_sections
  eval_sections-IsQuietAt [] h = tt
  eval_sections-IsQuietAt ((name, rule) ∷ rs) h =
      let first = eval_section name rule (section_at name d) in
      let rest = eval_sections u words d rs in
      (IsQuiet-left first rest h, eval_sections-IsQuietAt rs (IsQuiet-right first rest h))

  pub ready-IsQuietAt :
      (evaluate_policy u words d).overall_status ≡ ready → All IsQuietAt (rules u words d)
  ready-IsQuietAt h = eval_sections-IsQuietAt (rules u words d) (ready-eval_sections u words d h)
