-- ===== src/Workbench/Status/Order.antt =====
-- internal/workbench/status.go: the order of the statuses under the transition matrix.
use c_panel_self_migration.Prelude.{
  ℕ, suc, ◌+◌, ◌≤◌, ◌<◌, Bool, true, false, List, [], ◌∷◌, any, ◌≡◌, inl, inr, arith, Bool-cases,
  ap,
}
use c_panel_self_migration.Workbench.Status.{
  Status, draft, manual_actions_required, cutover_done, blocked, failed, archived, unknown, rank,
  same, can_transition,
}

-- A legal transition leads from a status to one later in the order of AllStatuses, and its target
-- is one of the constants.
pub can_transition-rank :
    (from to : Status) → can_transition from to ≡ true → (rank from < rank to) × (rank to ≤ 13)
unfolding can_transition
can_transition-rank draft to h = ground arith
can_transition-rank _ to h = ground arith

-- A chain of legal transitions.
infix 40 ◌⟶*◌
pub data ◌⟶*◌ : Status → Status → Type 0 where
  here : {s : Status} → s ⟶* s
  step : {s t u : Status} → can_transition s t ≡ true → t ⟶* u → s ⟶* u

abbrev pub steps : {s t : Status} → s ⟶* t → ℕ
steps here = 0
steps (step h r) = suc (steps r)

-- A chain of legal transitions from one status to another has at most as many steps as there are
-- places between them in AllStatuses.
pub steps-le : {s t : Status} (r : s ⟶* t) → steps r + rank s ≤ rank t
steps-le here = omega arith
steps-le (step {s} {t} h r) = omega (arith, steps-le r, can_transition-rank s t h)

-- The statuses of a chain, from its start to its end.
abbrev pub visited : {s t : Status} → s ⟶* t → List Status
visited (here {s}) = s ∷ []
visited (step {s} h r) = s ∷ visited r

-- The statuses that no way to cutover leaves out; manual actions may be skipped.
abbrev pub is_mandatory : Status → Bool
is_mandatory manual_actions_required = false
is_mandatory blocked = false
is_mandatory failed = false
is_mandatory archived = false
is_mandatory (unknown s) = false
is_mandatory _ = true

-- One step towards cutover does not jump over a mandatory status.
no_jump :
    (v s t : Status)
    → is_mandatory v ≡ true
    → can_transition s t ≡ true
    → rank t ≤ 10
    → rank s < rank v
    → rank t ≤ rank v
unfolding can_transition
no_jump v draft t m c k h = ground arith
no_jump v _ t m c k h = ground arith

same-rank :
    (s v : Status) → is_mandatory v ≡ true → rank s ≤ rank v → same s v ≡ false → rank s < rank v
same-rank draft v m h e = ground arith
same-rank _ v m h e = ground arith

rank-10 :
    (s v : Status) → is_mandatory v ≡ true → s ≡ cutover_done → rank s ≤ rank v → same s v ≡ true
rank-10 s v m e h = ground arith

-- Every chain of legal transitions to cutover_done passes each mandatory status that is not behind
-- its start; mandatory are all statuses up to cutover_done but manual_actions_required.
pub visited-mandatory :
    (v : Status) {s t : Status} (r : s ⟶* t)
    → is_mandatory v ≡ true
    → t ≡ cutover_done
    → rank s ≤ rank v
    → any (λ u. same u v) (visited r) ≡ true
visited-mandatory v (here {s}) m e h = rw (rank-10 s v m e h)
visited-mandatory v (step {s} {t} {u} c r) m e h = elim (Bool-cases (same s v)) [
  | inl found ↦ rw found
  | inr ahead ↦ rw ahead (
      visited-mandatory v r m e
        (no_jump v s t m c (omega (arith, steps-le r, ap rank e)) (same-rank s v m h ahead)))
]
