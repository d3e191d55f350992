-- ===== src/Webui/Job/Slot.antt =====
-- internal/webui/job.go: who holds the slot. The interleavings of the goroutine of a run with the
-- requests are chains of critical sections; a request that was granted the slot is released once.
use c_panel_self_migration.Prelude.{
  ℕ, ◌-◌, Bool, true, false, not, List, [], ◌∷◌, length, Bytes, is_empty, if◌then◌else◌, if-cases,
  Option, none, some, ◌≡◌, refl, arith,
}
use c_panel_self_migration.Webui.Job.{
  Step, SlotConflict, slot_holder_named, slot_holder_analysis, slot_holder_anonymous, JobManager,
  new_job_manager, is_running, capture_conflict_locked, try_reserve, try_reserve_for, start,
  release, StepRun, succeeds, fails, panics, begin_step, end_step, complete,
}

-- Who was granted the slot and has not given it back. The goroutine of a run is between two steps, or
-- inside one, whose index it keeps.
pub data Holder : Type 0 where
  nobody : Holder
  anonymous : Holder
  named : (action : Bytes) (started_at : ℕ) → Holder
  between : (todo : List Step) → Holder
  inside : (st : Step) (idx : ℕ) (todo : List Step) → Holder

pub record World : Type 0 where
  pub manager : JobManager
  pub holder : Holder

-- A claim that was granted changes the holder.
abbrev pub claimed : JobManager × Option SlotConflict → (claimer holder : Holder) → World
claimed (j, none) claimer holder = record { manager = j; holder = claimer }
claimed (j, some conflict) claimer holder = record { manager = j; holder = holder }

-- What the goroutine does behind the runner.
abbrev pub proceed : JobManager × Bool → (todo : List Step) → World
proceed (j, true) todo = record { manager = j; holder = between todo }
proceed (j, false) todo = record { manager = j; holder = nobody }

-- One critical section, of whoever comes next.
pub data Next : World → World → Type 0 where
  starts :
      (now : Bytes) (steps : List Step) (w : World)
      → Next w (claimed (start now w.manager) (between steps) w.holder)
  reserves : (w : World) → Next w (claimed (try_reserve w.manager) anonymous w.holder)
  reserves_for :
      (action : Bytes) (started_at : ℕ) (w : World)
      → Next w
          (claimed (try_reserve_for action started_at w.manager) (named action started_at) w.holder)
  releases_anonymous :
      (j : JobManager)
      → Next
          (record { manager = j; holder = anonymous })
          (record { manager = release j; holder = nobody })
  releases_named :
      (action : Bytes) (started_at : ℕ) (j : JobManager)
      → Next
          (record { manager = j; holder = named action started_at })
          (record { manager = release j; holder = nobody })
  begins :
      (j : JobManager) (st : Step) (todo : List Step)
      → Next
          (record { manager = j; holder = between (st ∷ todo) })
          (record {
            manager = begin_step st j;
            holder = inside st (length (begin_step st j).status.steps - 1) todo;
          })
  ends :
      (j : JobManager) (st : Step) (idx : ℕ) (todo : List Step) (run : StepRun)
      → Next
          (record { manager = j; holder = inside st idx todo })
          (proceed (end_step st idx run j) todo)
  completes :
      (j : JobManager)
      → Next
          (record { manager = j; holder = between [] })
          (record { manager = complete j; holder = nobody })

-- What can be reached from a world, the last section last.
pub data Reached : World → World → Type 0 where
  here : {w : World} → Reached w w
  then_next : {w v x : World} → Reached w v → Next v x → Reached w x

-- What the manager publishes of each holder.
abbrev pub IsPublished : Holder → JobManager → Type 0
IsPublished nobody j = (j.busy ≡ false) × (j.reserved ≡ none) × (is_running j.status.state ≡ false)
IsPublished anonymous j =
    (j.busy ≡ true) × (j.reserved ≡ none) × (is_running j.status.state ≡ false)
IsPublished (named action started_at) j =
    (j.busy ≡ true)
    × (j.reserved ≡ some (record { action = action; started_at = started_at }))
    × (is_running j.status.state ≡ false)
IsPublished (between todo) j =
    (j.busy ≡ true) × (j.reserved ≡ none) × (is_running j.status.state ≡ true)
IsPublished (inside st idx todo) j =
    (j.busy ≡ true) × (j.reserved ≡ none) × (is_running j.status.state ≡ true)

abbrev pub IsConsistent : World → Type 0
IsConsistent w = IsPublished w.holder w.manager

abbrev pub first_world : World
first_world = record { manager = new_job_manager; holder = nobody }

is_busy : Holder → Bool
is_busy nobody = false
is_busy _ = true

busy-is_busy : (j : JobManager) (h : Holder) → IsPublished h j → j.busy ≡ is_busy h
unfolding is_busy
busy-is_busy j nobody c = c.0
busy-is_busy j anonymous c = c.0
busy-is_busy j (named action at) c = c.0
busy-is_busy j (between todo) c = c.0
busy-is_busy j (inside st idx todo) c = c.0

-- A free slot is nobody's.
free-nobody :
    (j : JobManager) (h : Holder) → IsPublished h j → j.busy ≡ false → IsPublished nobody j
free-nobody j nobody c free = c
free-nobody j anonymous c free = absurd (ground (arith, c.0, free))
free-nobody j (named action at) c free = absurd (ground (arith, c.0, free))
free-nobody j (between todo) c free = absurd (ground (arith, c.0, free))
free-nobody j (inside st idx todo) c free = absurd (ground (arith, c.0, free))

-- A claim is granted if nobody holds the slot, and changes nothing else.
claim-IsConsistent :
    (j next : JobManager) (conflict : SlotConflict) (claimer h : Holder)
    → IsPublished h j
    → (IsPublished nobody j → IsPublished claimer next)
    → IsConsistent (claimed (if j.busy then (j, some conflict) else (next, none)) claimer h)
claim-IsConsistent j next conflict claimer h c claims =
    if-cases (λ reply. IsConsistent (claimed reply claimer h)) j.busy (λ held. c)
      (λ free. claims (free-nobody j h c free))

end_step-IsConsistent :
    (st : Step) (idx : ℕ) (todo : List Step) (run : StepRun) (j : JobManager)
    → IsPublished (inside st idx todo) j
    → IsConsistent (proceed (end_step st idx run j) todo)
unfolding end_step
end_step-IsConsistent st idx todo run j c =
    elim run.ending
      as (λ ending.
        IsConsistent (proceed (end_step st idx (record run { ending = ending }) j) todo)) [
          | succeeds ↦ c
          | fails message ↦
              if-cases (λ (ended : JobManager × Bool). IsConsistent (proceed ended todo))
                (not st.tolerant) (λ fatal. (refl, c.1, refl)) (λ tolerated. c)
          | panics value ↦ (refl, c.1, refl)
        ]

Next-IsConsistent : {w v : World} → Next w v → IsConsistent w → IsConsistent v
unfolding start try_reserve try_reserve_for release begin_step complete
Next-IsConsistent (starts now steps w) c =
    claim-IsConsistent w.manager (start now (record w.manager { busy = false })).0
      (capture_conflict_locked w.manager) (between steps) w.holder c (λ free. (refl, free.1, refl))
Next-IsConsistent (reserves w) c =
    claim-IsConsistent w.manager (record w.manager { busy = true })
      (capture_conflict_locked w.manager) anonymous w.holder c (λ free. (refl, free.1, free.2))
Next-IsConsistent (reserves_for action at w) c =
    claim-IsConsistent w.manager (try_reserve_for action at (record w.manager { busy = false })).0
      (capture_conflict_locked w.manager) (named action at) w.holder c
      (λ free. (refl, refl, free.2))
Next-IsConsistent (releases_anonymous j) c = (refl, refl, c.2)
Next-IsConsistent (releases_named action at j) c = (refl, refl, c.2)
Next-IsConsistent (begins j st todo) c = c
Next-IsConsistent (ends j st idx todo run) c = end_step-IsConsistent st idx todo run j c
Next-IsConsistent (completes j) c = (refl, c.1, refl)

pub Reached-IsConsistent : {w v : World} → Reached w v → IsConsistent w → IsConsistent v
Reached-IsConsistent here c = c
Reached-IsConsistent (then_next r n) c = Next-IsConsistent n (Reached-IsConsistent r c)

-- What a refused claim is told of the holder.
abbrev pub refusal : Holder → (analysis_started : Bytes) → Option SlotConflict
refusal nobody started_at = none
refusal anonymous started_at = some slot_holder_anonymous
refusal (named action at) started_at =
    some (if is_empty action then slot_holder_anonymous else slot_holder_named action at)
refusal (between todo) started_at = some (slot_holder_analysis started_at)
refusal (inside st idx todo) started_at = some (slot_holder_analysis started_at)

claim-refusal :
    (j next : JobManager) (h : Holder)
    → IsPublished h j
    → let reply : JobManager × Option SlotConflict =
        if j.busy then (j, some (capture_conflict_locked j)) else (next, none) in
      reply.1 ≡ refusal h j.status.started_at
unfolding capture_conflict_locked
claim-refusal j next nobody c = ground (arith, c)
claim-refusal j next anonymous c = ground (arith, c)
claim-refusal j next (named action at) c = ground (arith, c)
claim-refusal j next (between todo) c = ground (arith, c)
claim-refusal j next (inside st idx todo) c = ground (arith, c)

-- However claims, releases and the sections of a run interleave, from the new manager on: each of
-- the three claims of the slot is granted exactly if nobody holds it, and a refused one is told the
-- holder at that moment, a named action with its name and time, a run with its start, and any other
-- holder as anonymous.
pub Reached-refusal :
    (w : World) (now action : Bytes) (started_at : ℕ)
    → Reached first_world w
    → let told = refusal w.holder w.manager.status.started_at in
      ((try_reserve w.manager).1 ≡ told)
      × ((try_reserve_for action started_at w.manager).1 ≡ told)
      × ((start now w.manager).1 ≡ told)
unfolding try_reserve try_reserve_for start
Reached-refusal w now action at r =
    let c = Reached-IsConsistent r (refl, refl, refl) in
    (
      claim-refusal w.manager (record w.manager { busy = true }) w.holder c,
      claim-refusal w.manager (try_reserve_for action at (record w.manager { busy = false })).0
          w.holder c,
      claim-refusal w.manager (start now (record w.manager { busy = false })).0 w.holder c,
    )
