-- ===== src/Inventory/Diff/Cron.antt =====
-- internal/accountinventory/diff.go: the comparison of cron jobs, by the digest of their command.
use c_panel_self_migration.Prelude.{
  ℕ, suc, ◌-◌, Bool, true, false, not, List, [], ◌∷◌, ◌++◌, map, replicate, Bytes, lit, eqb,
  if◌then◌else◌, Option, none, some,
}
use c_panel_self_migration.Inventory.{CronJobEntry, CronSection}
use c_panel_self_migration.Inventory.Diff.{
  DiffEntry, DiffFieldChange, SectionDiff, new_section_diff, skip_unavailable, or_compared,
  sort_section_diff,
}
use c_panel_self_migration.Inventory.Diff.Items.{join_with, format_bool}

unfoldable pub cron_schedule : CronJobEntry → Bytes
unfolding join_with
cron_schedule j =
    if eqb j.kind (lit "macro")
    then j.macro
    else join_with (lit " ") (j.minute ∷ j.hour ∷ j.day_of_month ∷ j.month ∷ j.day_of_week ∷ [])

-- A map from digests to the jobs of each: the digest, the first job, and those behind it. Go keeps
-- a list, which is never empty.
pub record CronGroup : Type 0 where
  pub sha : Bytes
  pub first : CronJobEntry
  pub others : List CronJobEntry

abbrev pub jobs_of : CronGroup → List CronJobEntry
jobs_of g = g.first ∷ g.others

unfoldable pub add_job : CronJobEntry → List CronGroup → List CronGroup
add_job j [] = record { sha = j.command_sha256; first = j; others = [] } ∷ []
add_job j (g ∷ gs) =
    let rest = add_job j gs in
    if eqb g.sha j.command_sha256 then record g { others = g.others ++ j ∷ [] } ∷ gs else g ∷ rest

unfoldable pub group_jobs : List CronGroup → List CronJobEntry → List CronGroup
unfolding add_job
group_jobs gs [] = gs
group_jobs gs (j ∷ jobs) = group_jobs (add_job j gs) jobs

unfoldable pub group_at : Bytes → List CronGroup → Option CronGroup
group_at sha [] = none
group_at sha (g ∷ gs) = if eqb g.sha sha then some g else group_at sha gs

unfoldable pub slot_detail : CronJobEntry → Bytes
unfolding cron_schedule
slot_detail j = cron_schedule j ++ (lit " enabled=" ++ format_bool j.enabled)

abbrev pub key_of : CronGroup → Bytes
key_of g = g.first.command_redacted

-- One entry for each job of a group.
abbrev group_entries : CronGroup → List DiffEntry
group_entries g = map (λ j. record { key = key_of g; detail = slot_detail j }) (jobs_of g)

abbrev if_alone : CronGroup → Option CronGroup → List DiffEntry
if_alone g none = group_entries g
if_alone g (some _) = []

-- The jobs of the groups that the other side lacks.
unfoldable pub groups_only_in : List CronGroup → List CronGroup → List DiffEntry
unfolding group_at slot_detail
groups_only_in [] others = []
groups_only_in (g ∷ gs) others = if_alone g (group_at g.sha others) ++ groups_only_in gs others

-- A map from slots to counts.
abbrev pub Slots : Type 0
Slots = List (Bytes × ℕ)

unfoldable pub add_slot : Bytes → Slots → Slots
add_slot s [] = (s, 1) ∷ []
add_slot s ((t, n) ∷ slots) = if eqb t s then (t, suc n) ∷ slots else (t, n) ∷ add_slot s slots

unfoldable pub count_slots : Slots → List CronJobEntry → Slots
unfolding add_slot slot_detail
count_slots slots [] = slots
count_slots slots (j ∷ jobs) = count_slots (add_slot (slot_detail j) slots) jobs

unfoldable pub slot_count : Bytes → Slots → ℕ
slot_count s [] = 0
slot_count s ((t, n) ∷ slots) = if eqb t s then n else slot_count s slots

-- For each slot, as many entries as the other side lacks.
unfoldable pub missing_slots : (key : Bytes) → Slots → Slots → List DiffEntry
unfolding slot_count
missing_slots key [] others = []
missing_slots key ((s, n) ∷ slots) others =
    replicate (n - slot_count s others) (record { key = key; detail = s })
    ++ missing_slots key slots others

abbrev schedule_change : Bytes → CronJobEntry → CronJobEntry → List DiffFieldChange
schedule_change key s d =
    if not (eqb (cron_schedule s) (cron_schedule d))
    then record {
      key = key;
      field = lit "schedule";
      source = cron_schedule s;
      destination = cron_schedule d;
    }
      ∷ []
    else []

abbrev pub same_bool : Bool → Bool → Bool
same_bool true b = b
same_bool false b = not b

abbrev enabled_change : Bytes → CronJobEntry → CronJobEntry → List DiffFieldChange
enabled_change key s d =
    if not (same_bool s.enabled d.enabled)
    then record {
      key = key;
      field = lit "enabled";
      source = format_bool s.enabled;
      destination = format_bool d.enabled;
    }
      ∷ []
    else []

-- One job on either side: its schedule and its state are compared.
unfoldable pub compare_jobs : SectionDiff → Bytes → CronJobEntry → CronJobEntry → SectionDiff
unfolding cron_schedule
compare_jobs sec key s d = record sec {
  changed = sec.changed ++ (schedule_change key s d ++ enabled_change key s d);
}

-- More than one on a side: the slots are compared as a multiset.
unfoldable pub compare_slots :
    SectionDiff → Bytes → List CronJobEntry → List CronJobEntry → SectionDiff
unfolding count_slots missing_slots
compare_slots sec key src dest =
    let src_slots = count_slots [] src in
    let dest_slots = count_slots [] dest in
    record sec {
      added = sec.added ++ missing_slots key dest_slots src_slots;
      removed = sec.removed ++ missing_slots key src_slots dest_slots;
    }

unfoldable pub compare_groups : SectionDiff → CronGroup → Option CronGroup → SectionDiff
unfolding compare_jobs compare_slots
compare_groups sec sg none = sec
compare_groups sec sg (some dg) = elim sg.others [
  | [] ↦ elim dg.others [
    | [] ↦ compare_jobs sec (key_of sg) sg.first dg.first
    | _ ∷ _ ↦ compare_slots sec (key_of sg) (jobs_of sg) (jobs_of dg)
  ]
  | _ ∷ _ ↦ compare_slots sec (key_of sg) (jobs_of sg) (jobs_of dg)
]

unfoldable pub compared_groups : SectionDiff → List CronGroup → List CronGroup → SectionDiff
unfolding compare_groups group_at
compared_groups sec [] dest = sec
compared_groups sec (g ∷ gs) dest =
    compared_groups (compare_groups sec g (group_at g.sha dest)) gs dest

unfoldable pub diff_cron : CronSection → CronSection → SectionDiff
unfolding skip_unavailable group_jobs groups_only_in compared_groups sort_section_diff
diff_cron src dest =
    let sg = group_jobs [] src.jobs in
    let dg = group_jobs [] dest.jobs in
    or_compared (skip_unavailable (lit "cron") src.available dest.available) (
      sort_section_diff (
        compared_groups
          (record new_section_diff { added = groups_only_in dg sg; removed = groups_only_in sg dg })
          sg dg))
