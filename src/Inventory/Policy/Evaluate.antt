-- ===== src/Inventory/Policy/Evaluate.antt =====
-- internal/accountinventory/policy.go: `EvaluatePolicy`.
use c_panel_self_migration.Prelude.{
  ℕ, ◌+◌, List, [], ◌∷◌, ◌++◌, Bytes, lit, ltb, if◌then◌else◌, Option, none, some,
}
use c_panel_self_migration.Events.Redact.{Unicode}
use c_panel_self_migration.Sorting.{sort_by}
use c_panel_self_migration.Inventory.Diff.{DiffEntry, SectionDiff}
use c_panel_self_migration.Inventory.Diff.Inventories.{Sections, section_at}
use c_panel_self_migration.Inventory.Policy.{
  Severity, info, warning, review, blocker, PolicyStatus, ready, review_required, blocked,
  PolicyFinding, on_section, finding_before,
}
use c_panel_self_migration.Inventory.Policy.Rules.{
  eval_simple, eval_domains, eval_databases, eval_ssl, eval_php, eval_dns, eval_cron,
  eval_redirects, eval_section_warnings,
}

pub record PolicySummary : Type 0 where
  pub blockers : ℕ
  pub reviews : ℕ
  pub warnings : ℕ
  pub infos : ℕ

pub record PolicyReport : Type 0 where
  pub overall_status : PolicyStatus
  pub summary : PolicySummary
  pub findings : List PolicyFinding

abbrev pub no_findings : PolicySummary
no_findings = record { blockers = 0; reviews = 0; warnings = 0; infos = 0 }

abbrev pub count_finding : PolicySummary → Severity → PolicySummary
count_finding sum blocker = record sum { blockers = sum.blockers + 1 }
count_finding sum review = record sum { reviews = sum.reviews + 1 }
count_finding sum warning = record sum { warnings = sum.warnings + 1 }
count_finding sum info = record sum { infos = sum.infos + 1 }

-- The loop that counts the findings.
unfoldable pub summarize : PolicySummary → List PolicyFinding → PolicySummary
summarize sum [] = sum
summarize sum (f ∷ findings) = summarize (count_finding sum f.severity) findings

unfoldable pub overall : PolicySummary → PolicyStatus
overall sum =
    if ltb 0 sum.blockers then blocked else if ltb 0 sum.reviews then review_required else ready

abbrev pub removed_in : Option SectionDiff → List DiffEntry
removed_in none = []
removed_in (some sec) = sec.removed

-- One turn of the loop over `diffSectionNames`, with the case of the switch for the name.
abbrev pub eval_section :
    Bytes → (SectionDiff → List PolicyFinding) → Option SectionDiff → List PolicyFinding
eval_section name rule none =
    on_section name (lit "POL-SECTION-MISSING") review (
      lit "the diff artifact has no \""
      ++ (name
          ++ (lit "\" section "
              ++ (226 ∷ 128 ∷ 148 ∷ lit " produced by an older tool version or incomplete"))))
    ∷ []
eval_section name rule (some sec) = rule sec ++ eval_section_warnings name sec

module _ (u : Unicode) (words : Bytes → List Bytes) where
  -- `diffSectionNames`, each with its rule.
  abbrev pub rules : Sections → List (Bytes × (SectionDiff → List PolicyFinding))
  rules d =
      (lit "domains", eval_domains)
      ∷ (lit "mailboxes", eval_simple (lit "mailboxes") (lit "POL-MAILBOX") blocker)
      ∷ (lit "databases", eval_databases)
      ∷ (lit "forwarders", eval_simple (lit "forwarders") (lit "POL-FORWARDER") review)
      ∷ (lit "autoresponders", eval_simple (lit "autoresponders") (lit "POL-AUTORESPONDER") review)
      ∷ (lit "ftp", eval_simple (lit "ftp") (lit "POL-FTP") review)
      ∷ (lit "ssl", eval_ssl u words (removed_in (section_at (lit "domains") d)))
      ∷ (lit "php", eval_php)
      ∷ (lit "dns", eval_dns u words)
      ∷ (lit "cron", eval_cron)
      ∷ (lit "email_routing", eval_simple (lit "email_routing") (lit "POL-MAILROUTE") review)
      ∷ (lit "default_address", eval_simple (lit "default_address") (lit "POL-DEFAULTADDR") review)
      ∷ (lit "email_filters", eval_simple (lit "email_filters") (lit "POL-EMAILFILTER") review)
      ∷ (lit "redirects", eval_redirects)
      ∷ []

  -- The loop over the names.
  unfoldable pub eval_sections :
      Sections → List (Bytes × (SectionDiff → List PolicyFinding)) → List PolicyFinding
  eval_sections d [] = []
  eval_sections d ((name, rule) ∷ rest) =
      eval_section name rule (section_at name d) ++ eval_sections d rest

  unfoldable pub evaluate_policy : Sections → PolicyReport
  unfolding eval_sections summarize overall
  evaluate_policy d =
      let findings = eval_sections d (rules d) in
      let summary = summarize no_findings findings in
      record {
        overall_status = overall summary;
        summary = summary;
        findings = sort_by finding_before findings;
      }
