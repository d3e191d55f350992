-- ===== src/Workbench/Status.antt =====
-- internal/workbench/types.go and status.go: the statuses of a session and the legal transitions.
pub mod Order
use c_panel_self_migration.Prelude.{
  ℕ, Bool, true, false, not, ◌||◌, ◌&&◌, List, [], ◌∷◌, Bytes, eqb, any, filter, ◌==◌,
  if◌then◌else◌, Result, ok, ◌>>=◌, ◌>>◌, refuse_if,
}

-- A Go `Status` is a string; `unknown` is any string that is none of the constants.
pub data Status : Type 0 where
  draft preflight_required inventory_ready checklist_ready manual_actions_required : Status
  ready_for_apply apply_in_progress apply_done verification_required ready_for_cutover : Status
  cutover_done blocked failed archived : Status
  unknown : Bytes → Status

-- The place of a constant in `AllStatuses`.
abbrev pub rank : Status → ℕ
rank draft = 0
rank preflight_required = 1
rank inventory_ready = 2
rank checklist_ready = 3
rank manual_actions_required = 4
rank ready_for_apply = 5
rank apply_in_progress = 6
rank apply_done = 7
rank verification_required = 8
rank ready_for_cutover = 9
rank cutover_done = 10
rank blocked = 11
rank failed = 12
rank archived = 13
rank (unknown s) = 14

-- `a == b`, on the strings.
abbrev pub same : Status → Status → Bool
same (unknown s) (unknown t) = eqb s t
same a b = rank a == rank b

abbrev pub all_statuses : List Status
all_statuses =
    draft ∷ preflight_required ∷ inventory_ready ∷ checklist_ready ∷ manual_actions_required
    ∷ ready_for_apply ∷ apply_in_progress ∷ apply_done ∷ verification_required ∷ ready_for_cutover
    ∷ cutover_done ∷ blocked ∷ failed ∷ archived ∷ []

unfoldable pub valid_status : Status → Bool
valid_status s = any (λ v. same v s) all_statuses

abbrev pub is_terminal : Status → Bool
is_terminal cutover_done = true
is_terminal archived = true
is_terminal _ = false

-- `init` collects these.
abbrev pub active_statuses : List Status
active_statuses =
    filter (λ s. not (is_terminal s) && not (same s blocked) && not (same s failed)) all_statuses

abbrev pub is_active : Status → Bool
is_active s = any (λ v. same v s) active_statuses

abbrev pub allowed_transitions : Status → List Status
allowed_transitions draft = preflight_required ∷ []
allowed_transitions preflight_required = inventory_ready ∷ []
allowed_transitions inventory_ready = checklist_ready ∷ []
allowed_transitions checklist_ready = manual_actions_required ∷ ready_for_apply ∷ []
allowed_transitions manual_actions_required = ready_for_apply ∷ []
allowed_transitions ready_for_apply = apply_in_progress ∷ []
allowed_transitions apply_in_progress = apply_done ∷ []
allowed_transitions apply_done = verification_required ∷ []
allowed_transitions verification_required = ready_for_cutover ∷ []
allowed_transitions ready_for_cutover = cutover_done ∷ []
allowed_transitions cutover_done = archived ∷ []
allowed_transitions blocked = archived ∷ []
allowed_transitions failed = archived ∷ []
allowed_transitions archived = []
allowed_transitions (unknown s) = []

unfoldable pub can_transition : Status → Status → Bool
unfolding valid_status
can_transition from to =
    if not (valid_status from) || not (valid_status to)
    then false
    else if (same to blocked || same to failed) && is_active from
    then true
    else any (λ allowed. same allowed to) (allowed_transitions from)

pub data StatusError : Type 0 where
  invalid_current invalid_target : Status → StatusError
  denied : Status → Status → StatusError

unfoldable pub validate_transition : Status → Status → Result StatusError (Unit {0})
unfolding valid_status can_transition
validate_transition from to = do
  refuse_if (not (valid_status from)) (invalid_current from)
  refuse_if (not (valid_status to)) (invalid_target to)
  refuse_if (not (can_transition from to)) (denied from to)
