-- ===== src/Inventory/Policy.antt =====
-- internal/accountinventory/policy.go: the findings of a difference and the status they add up to.
-- The title and the recommendation of a finding, which are prose, are left out.
pub mod Rules
pub mod Evaluate
pub mod Ready
pub mod Quiet
pub mod Carried
use c_panel_self_migration.Prelude.{
  ℕ, ◌+◌, Bool, true, false, not, ◌||◌, ◌&&◌, List, [], ◌∷◌, ◌++◌, map, Bytes, lit, eqb, ltb, ◌==◌,
  if◌then◌else◌,
}
use c_panel_self_migration.Sorting.{text_less}
use c_panel_self_migration.Inventory.Diff.{DiffEntry, DiffFieldChange, SectionDiff}
use c_panel_self_migration.Inventory.Diff.Items.{arrow}

pub data Severity : Type 0 where
  info warning review blocker : Severity

pub data PolicyStatus : Type 0 where
  ready review_required blocked : PolicyStatus

pub record PolicyFinding : Type 0 where
  pub id : Bytes
  pub section : Bytes
  pub severity : Severity
  pub detail : Bytes
  pub source_ref : Bytes
  pub destination_ref : Bytes

-- The status that `emit` writes into a finding.
abbrev pub severity_status : Severity → PolicyStatus
severity_status blocker = blocked
severity_status review = review_required
severity_status _ = ready

abbrev pub severity_rank : Severity → ℕ
severity_rank blocker = 0
severity_rank review = 1
severity_rank warning = 2
severity_rank info = 3

-- A finding on an entry that only the source has, on a change, and on an entry that only the
-- destination has.
abbrev pub on_removed : Bytes → Bytes → Severity → Bytes → DiffEntry → PolicyFinding
on_removed section id severity detail e = record {
  id = id;
  section = section;
  severity = severity;
  detail = detail;
  source_ref = e.key;
  destination_ref = [];
}

abbrev pub on_changed : Bytes → Bytes → Severity → Bytes → DiffFieldChange → PolicyFinding
on_changed section id severity detail c = record {
  id = id;
  section = section;
  severity = severity;
  detail = detail;
  source_ref = c.key;
  destination_ref = c.key;
}

abbrev pub on_added : Bytes → Bytes → Severity → Bytes → DiffEntry → PolicyFinding
on_added section id severity detail e = record {
  id = id;
  section = section;
  severity = severity;
  detail = detail;
  source_ref = [];
  destination_ref = e.key;
}

-- A finding on the section itself.
abbrev pub on_section : Bytes → Bytes → Severity → Bytes → PolicyFinding
on_section section id severity detail = record {
  id = id;
  section = section;
  severity = severity;
  detail = detail;
  source_ref = [];
  destination_ref = [];
}

-- `fmt.Sprintf("%s → %s", c.Source, c.Destination)`
abbrev pub from_to : DiffFieldChange → Bytes
from_to c = c.source ++ (lit " " ++ (arrow ++ (lit " " ++ c.destination)))

-- `fmt.Sprintf("%s: %s → %s", c.Field, c.Source, c.Destination)`
abbrev pub field_from_to : DiffFieldChange → Bytes
field_from_to c = c.field ++ (lit ": " ++ from_to c)

-- The order of the findings: the most severe first, then by text.
unfoldable pub finding_before : PolicyFinding → PolicyFinding → Bool
unfolding text_less
finding_before a b =
    if not (severity_rank a.severity == severity_rank b.severity)
    then ltb (severity_rank a.severity) (severity_rank b.severity)
    else if not (eqb a.section b.section)
    then text_less a.section b.section
    else if not (eqb a.id b.id)
    then text_less a.id b.id
    else if not (eqb a.detail b.detail)
    then text_less a.detail b.detail
    else if not (eqb a.source_ref b.source_ref)
    then text_less a.source_ref b.source_ref
    else text_less a.destination_ref b.destination_ref
