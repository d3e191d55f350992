-- ===== src/Inventory/Policy/Quiet.antt =====
-- internal/accountinventory/diff.go and policy.go: what a section without a finding that needs an
-- action says of the two sides of the section.
use c_panel_self_migration.Prelude.{
  Bool, true, false, not, ◌||◌, ◌&&◌, List, [], ◌++◌, any, Bytes, lit, ◌==◌, ◌≡◌, refl, ap, ◌∙◌,
  sym, arith,
}
use c_panel_self_migration.Inventory.{DnsZoneResult, CronSection, ConfigSection}
use c_panel_self_migration.Inventory.Diff.{
  DiffEntry, DiffFieldChange, SectionDiff, KeyedItem, has_key, diff_keyed, skip_unavailable,
  or_compared, diff_config_keyed, new_section_diff, sort_section_diff,
}
use c_panel_self_migration.Inventory.Diff.Dns.{diff_dns, index_zones, added_zones, compared_zones}
use c_panel_self_migration.Inventory.Diff.Cron.{
  diff_cron, group_jobs, groups_only_in, compared_groups,
}
use c_panel_self_migration.Inventory.Diff.Exact.{
  last_at, is_named, is_change, is_changed_between, diff_keyed_iff,
}
use c_panel_self_migration.Inventory.Policy.{
  Severity, severity_rank, field_from_to, review, blocker, PolicyFinding, on_removed, on_changed,
  on_added, info,
}
use c_panel_self_migration.Inventory.Policy.Rules.{
  findings_of, eval_simple, eval_databases, eval_section_warnings,
}
use c_panel_self_migration.Inventory.Policy.Ready.{
  needs_action, IsQuiet, skipped-IsQuiet, removed-IsQuiet, changed-IsQuiet,
}

-- The destination has the key if the source has it.
abbrev pub IsCarried : (key : Bytes) → (src dest : List KeyedItem) → Type 0
IsCarried key src dest = (has_key key src && not (has_key key dest)) ≡ false

-- The two sides agree on the field of the key, if both have the key.
abbrev pub IsKept : (key field : Bytes) → (src dest : List KeyedItem) → Type 0
IsKept key f src dest = is_changed_between key f (last_at key src) (last_at key dest) ≡ false

module _ (quote : Bytes → Bytes) (src dest : List KeyedItem) (key f : Bytes) where
  removed-IsCarried : (diff_keyed quote src dest).removed ≡ [] → IsCarried key src dest
  removed-IsCarried h = sym ((diff_keyed_iff quote src dest key f).0) ∙ ap (any (is_named key)) h

  changed-IsKept : (diff_keyed quote src dest).changed ≡ [] → IsKept key f src dest
  changed-IsKept h = sym ((diff_keyed_iff quote src dest key f).2) ∙ ap (any (is_change key f)) h

-- Both sides listed the section.
abbrev pub IsListed : {Item : Type 0} → ConfigSection Item → ConfigSection Item → Type 0
IsListed src dest = (src.available && dest.available) ≡ true

skip_unavailable-cases :
    (name : Bytes) (src dest : Bool) (compared : SectionDiff)
    → (or_compared (skip_unavailable name src dest) compared).skipped ≡ []
    → (src && dest) ≡ true
unfolding skip_unavailable
skip_unavailable-cases name true true compared h = refl
skip_unavailable-cases name true false compared h = absurd (ground (arith, h))
skip_unavailable-cases name false true compared h = absurd (ground (arith, h))
skip_unavailable-cases name false false compared h = absurd (ground (arith, h))

-- No skipped comparison is quiet.
skipped-IsListed :
    (name : Bytes) (s d : Bool) (compared : SectionDiff) (findings : List PolicyFinding)
    → let sec = or_compared (skip_unavailable name s d) compared in
      IsQuiet (findings ++ eval_section_warnings name sec) → (s && d) ≡ true
skipped-IsListed name s d compared findings h =
    skip_unavailable-cases name s d compared
      (skipped-IsQuiet name (or_compared (skip_unavailable name s d) compared) findings h)

module _ (quote : Bytes → Bytes) (key f name : Bytes) where
  -- A section that every account has.
  pub keyed-IsCarried :
      (r : DiffEntry → PolicyFinding) (c : DiffFieldChange → PolicyFinding)
      (a : DiffEntry → PolicyFinding) (src dest : List KeyedItem)
      → ((e : DiffEntry) → needs_action (r e) ≡ true)
      → let sec = diff_keyed quote src dest in
        IsQuiet (findings_of r c a sec ++ eval_section_warnings name sec) → IsCarried key src dest
  keyed-IsCarried r c a src dest always h =
      removed-IsCarried quote src dest key f
        (removed-IsQuiet name (diff_keyed quote src dest) r c a always h)

  keyed-IsKept :
      (r : DiffEntry → PolicyFinding) (c : DiffFieldChange → PolicyFinding)
      (a : DiffEntry → PolicyFinding) (src dest : List KeyedItem)
      → ((e : DiffFieldChange) → needs_action (c e) ≡ true)
      → let sec = diff_keyed quote src dest in
        IsQuiet (findings_of r c a sec ++ eval_section_warnings name sec) → IsKept key f src dest
  keyed-IsKept r c a src dest always h =
      changed-IsKept quote src dest key f
        (changed-IsQuiet name (diff_keyed quote src dest) r c a always h)

  -- A section that may be unavailable.
  pub databases-IsCarried :
      (src dest : List KeyedItem)
      → let sec = diff_keyed quote src dest in
        IsQuiet (eval_databases sec ++ eval_section_warnings name sec)
        → IsCarried key src dest × IsKept key f src dest
  unfolding eval_databases
  databases-IsCarried src dest h =
      let r : DiffEntry → PolicyFinding =
        λ e. on_removed (lit "databases") (lit "POL-DB-REMOVED") blocker e.detail e in
      let c : DiffFieldChange → PolicyFinding =
        λ e. on_changed (lit "databases") (lit "POL-DB-USERS-CHANGED") review (field_from_to e) e in
      let a : DiffEntry → PolicyFinding =
        λ e. on_added (lit "databases") (lit "POL-DB-ADDED") info e.detail e in
      (keyed-IsCarried r c a src dest (λ e. refl) h, keyed-IsKept r c a src dest (λ e. refl) h)

  pub simple-IsCarried :
      (prefix : Bytes) (severity : Severity) (src dest : List KeyedItem)
      → ((severity_rank severity == 0) || (severity_rank severity == 1)) ≡ true
      → let sec = diff_keyed quote src dest in
        IsQuiet (eval_simple name prefix severity sec ++ eval_section_warnings name sec)
        → IsCarried key src dest × IsKept key f src dest
  unfolding eval_simple
  simple-IsCarried prefix severity src dest gone h =
      let r : DiffEntry → PolicyFinding =
        λ e. on_removed name (prefix ++ lit "-REMOVED") severity e.detail e in
      let c : DiffFieldChange → PolicyFinding =
        λ e. on_changed name (prefix ++ lit "-CHANGED") review (field_from_to e) e in
      let a : DiffEntry → PolicyFinding =
        λ e. on_added name (prefix ++ lit "-ADDED") info e.detail e in
      (keyed-IsCarried r c a src dest (λ e. gone) h, keyed-IsKept r c a src dest (λ e. refl) h)

  pub config-IsListed :
      (rule : SectionDiff → List PolicyFinding) (s d : Bool) (src dest : List KeyedItem)
      → let sec = diff_config_keyed quote name s d src dest in
        IsQuiet (rule sec ++ eval_section_warnings name sec) → (s && d) ≡ true
  unfolding diff_config_keyed
  config-IsListed rule s d src dest h =
      skipped-IsListed name s d (diff_keyed quote src dest)
        (rule (diff_config_keyed quote name s d src dest)) h

  pub config-IsCarried :
      (prefix : Bytes) (s d : Bool) (src dest : List KeyedItem)
      → let sec = diff_config_keyed quote name s d src dest in
        IsQuiet (eval_simple name prefix review sec ++ eval_section_warnings name sec)
        → ((s && d) ≡ true) × IsCarried key src dest × IsKept key f src dest
  unfolding diff_config_keyed skip_unavailable
  config-IsCarried prefix true true src dest h =
      let carried = simple-IsCarried prefix review src dest refl h in (refl, carried.0, carried.1)
  config-IsCarried prefix true false src dest h =
      absurd
        (ground (arith, config-IsListed (eval_simple name prefix review) true false src dest h))
  config-IsCarried prefix false true src dest h =
      absurd
        (ground (arith, config-IsListed (eval_simple name prefix review) false true src dest h))
  config-IsCarried prefix false false src dest h =
      absurd
        (ground (arith, config-IsListed (eval_simple name prefix review) false false src dest h))

pub diff_dns-IsListed :
    (src dest : ConfigSection DnsZoneResult) (rule : SectionDiff → List PolicyFinding)
    → let sec = diff_dns src dest in
      IsQuiet (rule sec ++ eval_section_warnings (lit "dns") sec) → IsListed src dest
unfolding diff_dns
diff_dns-IsListed src dest rule h =
    let sz = index_zones [] src.items in
    let dz = index_zones [] dest.items in
    skipped-IsListed (lit "dns") src.available dest.available
      (sort_section_diff (compared_zones (added_zones new_section_diff dz sz) sz dz))
      (rule (diff_dns src dest)) h

pub diff_cron-IsListed :
    (src dest : CronSection) (rule : SectionDiff → List PolicyFinding)
    → let sec = diff_cron src dest in
      IsQuiet (rule sec ++ eval_section_warnings (lit "cron") sec)
      → (src.available && dest.available) ≡ true
unfolding diff_cron
diff_cron-IsListed src dest rule h =
    let sg = group_jobs [] src.jobs in
    let dg = group_jobs [] dest.jobs in
    skipped-IsListed (lit "cron") src.available dest.available
      (sort_section_diff (
        compared_groups
          (record new_section_diff { added = groups_only_in dg sg; removed = groups_only_in sg dg })
          sg dg))
      (rule (diff_cron src dest)) h
