-- ===== src/Contract/Report/Accepted.antt =====
-- internal/executioncontract/contract.go, `ValidateResultJSON`: what an accepted report holds.
use c_panel_self_migration.Prelude.{
  true, false, List, [], Bytes, lit, Option, none, some, ok, err, ◌≡◌, arith, Result-cases, ◌≢◌,
  inl, inr,
}
use c_panel_self_migration.Json.{
  Json, str, arr, obj, num, bool, null, Items, nil, cons, Fields, end, field, lookup,
}
use c_panel_self_migration.Events.Redact.{Unicode, redact_map}
use c_panel_self_migration.Contract.{Problem, is_in}
use c_panel_self_migration.Contract.Artifact.Confined.{IsConfined, check_artifact_path-IsConfined}
use c_panel_self_migration.Contract.Event.{phases}
use c_panel_self_migration.Contract.Redacted.Agree.{check_fields_iff}
use c_panel_self_migration.Contract.Timestamp.{Clock, require_timestamp}
use c_panel_self_migration.Contract.Report.{
  check_phases, check_artifact_fields, artifacts_at, array_at, validate_result_map,
}

-- Every item is the name of a phase.
abbrev pub ArePhases : Items → Type 0
ArePhases nil = Unit
ArePhases (cons (str s) items) = (is_in phases s ≡ true) × ArePhases items
ArePhases (cons _ items) = ⊥

-- Every artifact is a path that names a file in the workspace.
abbrev pub AreConfined : List Bytes → Fields → Type 0
AreConfined workspace end = Unit
AreConfined workspace (field name (str p) m) = IsConfined workspace p × AreConfined workspace m
AreConfined workspace (field name _ m) = ⊥

-- The value under `artifacts`, which may be absent.
abbrev pub ArtifactsConfined : List Bytes → Option Json → Type 0
ArtifactsConfined workspace none = Unit
ArtifactsConfined workspace (some (obj arts)) = AreConfined workspace arts
ArtifactsConfined workspace (some _) = ⊥

check_phases-ArePhases : (items : Items) → check_phases items ≡ ok tt → ArePhases items
unfolding check_phases
check_phases-ArePhases nil h = tt
check_phases-ArePhases (cons (str s) items) h =
    (ground arith, check_phases-ArePhases items (ground arith))
check_phases-ArePhases (cons _ items) h = cc

check_artifact_fields-AreConfined :
    (workspace : List Bytes) (m : Fields)
    → check_artifact_fields m ≡ ok tt
    → AreConfined workspace m
unfolding check_artifact_fields
check_artifact_fields-AreConfined workspace end h = tt
check_artifact_fields-AreConfined workspace (field name (str p) m) h = (
  check_artifact_path-IsConfined workspace p (ground arith),
  check_artifact_fields-AreConfined workspace m (ground arith),
)
check_artifact_fields-AreConfined workspace (field name _ m) h = cc

artifacts_at-ArtifactsConfined :
    (workspace : List Bytes) (o : Option Json)
    → artifacts_at o ≡ ok tt
    → ArtifactsConfined workspace o
artifacts_at-ArtifactsConfined workspace none h = tt
artifacts_at-ArtifactsConfined workspace (some (obj arts)) h =
    check_artifact_fields-AreConfined workspace arts h
artifacts_at-ArtifactsConfined workspace (some _) h = cc

-- The times, phases and artifacts of an accepted report, and its freedom from secrets.
pub record IsReport (u : Unicode) (clock : Clock) (workspace : List Bytes) (m : Fields)
    : Type 0 where
  pub started : clock.Time
  pub started_at : require_timestamp clock m (lit "started_at") ≡ ok started
  pub finished : clock.Time
  pub finished_at : require_timestamp clock m (lit "finished_at") ≡ ok finished
  pub in_order : clock.before finished started ≡ false
  pub completed : Items
  pub phases_completed : lookup (lit "phases_completed") m ≡ some (arr completed)
  pub phases_known : ArePhases completed
  pub artifacts_confined : ArtifactsConfined workspace (lookup (lit "artifacts") m)
  pub no_secret : redact_map u m ≡ m

array_at-arr :
    (key : Bytes) (o : Option Json) (items : Items)
    → array_at key o ≡ ok items
    → o ≡ some (arr items)
array_at-arr key none items h = cc
array_at-arr key (some (arr l)) items h = cc
array_at-arr key (some null) items h = cc
array_at-arr key (some (bool b)) items h = cc
array_at-arr key (some (num n)) items h = cc
array_at-arr key (some (str s)) items h = cc
array_at-arr key (some (obj f)) items h = cc

module _ (u : Unicode) (clock : Clock) (m : Fields)
    (accepted : validate_result_map u clock m ≡ ok tt) where
  timestamp_of :
      (key : Bytes)
      → ((e : Problem) → require_timestamp clock m key ≢ err e)
      → (t : clock.Time) × (require_timestamp clock m key ≡ ok t)
  timestamp_of key never = elim (Result-cases (require_timestamp clock m key)) [
    | inl (t, e) ↦ (t, e)
    | inr (e, bad) ↦ absurd (never e bad)
  ]

  times_in_order :
      (started finished : clock.Time)
      → require_timestamp clock m (lit "started_at") ≡ ok started
      → require_timestamp clock m (lit "finished_at") ≡ ok finished
      → clock.before finished started ≡ false
  unfolding validate_result_map
  times_in_order started finished s f = ground (arith, accepted)

  started_of : (t : clock.Time) × (require_timestamp clock m (lit "started_at") ≡ ok t)
  unfolding validate_result_map
  started_of = timestamp_of (lit "started_at") (λ e bad. ground (arith, accepted))

  finished_of : (t : clock.Time) × (require_timestamp clock m (lit "finished_at") ≡ ok t)
  unfolding validate_result_map
  finished_of = timestamp_of (lit "finished_at") (λ e bad. ground (arith, accepted, started_of.1))

  phases_of :
      (items : Items) × (lookup (lit "phases_completed") m ≡ some (arr items)) × ArePhases items
  unfolding validate_result_map
  phases_of =
      elim (Result-cases (array_at (lit "phases_completed") (lookup (lit "phases_completed") m))) [
        | inl (items, e) ↦ (
          items,
          array_at-arr (lit "phases_completed") _ items e,
          check_phases-ArePhases items (ground (arith, accepted)),
        )
        | inr (e, bad) ↦ absurd (ground (arith, accepted))
      ]

  artifacts_of : (workspace : List Bytes) → ArtifactsConfined workspace (lookup (lit "artifacts") m)
  unfolding validate_result_map
  artifacts_of workspace =
      artifacts_at-ArtifactsConfined workspace (lookup (lit "artifacts") m)
        (ground (arith, accepted))

  no_secret_of : redact_map u m ≡ m
  unfolding validate_result_map
  no_secret_of = (check_fields_iff u m []).0 (ground (arith, accepted))

  -- A report that ValidateResultJSON accepts ends no earlier than it starts, names known phases
  -- only, gives each artifact a path that names a file at or below any workspace, as Unix reads the
  -- path and as Windows does, and holds nothing that redaction would hide.
  pub validate_result_map-IsReport : (workspace : List Bytes) → IsReport u clock workspace m
  validate_result_map-IsReport workspace = record {
    started = started_of.0;
    started_at = started_of.1;
    finished = finished_of.0;
    finished_at = finished_of.1;
    in_order = times_in_order started_of.0 finished_of.0 started_of.1 finished_of.1;
    completed = phases_of.0;
    phases_completed = phases_of.1;
    phases_known = phases_of.2;
    artifacts_confined = artifacts_of workspace;
    no_secret = no_secret_of;
  }
