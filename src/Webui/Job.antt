-- ===== src/Webui/Job.antt =====
-- internal/webui/job.go: the manager of the slot that one run at a time holds. Each function is a
-- critical section of the code, or, as `execute`, a sequence of them. A lock is held for one section.
pub mod Tail
pub mod Pipeline
pub mod Slot
pub mod Ends
use c_panel_self_migration.Prelude.{
  ℕ, zero, suc, ◌+◌, ◌-◌, Bool, true, false, not, ◌||◌, ◌&&◌, List, [], ◌∷◌, ◌++◌, length, drop,
  Bytes, lit, is_empty, ltb, if◌then◌else◌, Option, none, some,
}

-- One pipeline step: its name, the arguments of the tool, and whether its failure is tolerated.
pub record Step : Type 0 where
  pub name : Bytes
  pub argv : List Bytes
  pub tolerant : Bool

pub record StepResult : Type 0 where
  pub name : Bytes
  pub output : Bytes
  pub done : Bool
  pub failed : Bool

pub data RunState : Type 0 where
  idle running completed failed : RunState

-- `started_at` is text, as the page shows it.
pub record JobStatus : Type 0 where
  pub state : RunState
  pub step : Bytes
  pub err : Bytes
  pub started_at : Bytes
  pub steps : List StepResult

-- `started_at` is an instant.
pub record ReservedJob : Type 0 where
  pub action : Bytes
  pub started_at : ℕ

-- `slotConflict`, with the fields that each kind of holder sets.
pub data SlotConflict : Type 0 where
  slot_holder_none : SlotConflict
  slot_holder_named : (action : Bytes) (started_at : ℕ) → SlotConflict
  slot_holder_analysis : (analysis_started : Bytes) → SlotConflict
  slot_holder_anonymous : SlotConflict

pub record JobManager : Type 0 where
  pub busy : Bool
  pub reserved : Option ReservedJob
  pub status : JobStatus

abbrev pub new_job_manager : JobManager
new_job_manager = record {
  busy = false;
  reserved = none;
  status = record { state = idle; step = []; err = []; started_at = []; steps = [] };
}

abbrev pub is_running : RunState → Bool
is_running running = true
is_running _ = false

-- The two last cases of `captureConflictLocked`.
abbrev unnamed_holder : JobStatus → SlotConflict
unnamed_holder status =
    if is_running status.state
    then slot_holder_analysis status.started_at
    else slot_holder_anonymous

abbrev named_holder : JobStatus → Option ReservedJob → SlotConflict
named_holder status none = unnamed_holder status
named_holder status (some r) =
    if not (is_empty r.action)
    then slot_holder_named r.action r.started_at
    else unnamed_holder status

unfoldable pub capture_conflict_locked : JobManager → SlotConflict
capture_conflict_locked j =
    if not j.busy then slot_holder_none else named_holder j.status j.reserved

-- A claim of the slot: none if it is granted, else the conflict.
unfoldable pub try_reserve : JobManager → JobManager × Option SlotConflict
unfolding capture_conflict_locked
try_reserve j =
    if j.busy then (j, some (capture_conflict_locked j)) else (record j { busy = true }, none)

unfoldable pub try_reserve_for :
    (action : Bytes) (started_at : ℕ) → JobManager → JobManager × Option SlotConflict
unfolding capture_conflict_locked
try_reserve_for action started_at j = if j.busy then (j, some (capture_conflict_locked j)) else (
  record j { busy = true; reserved = some (record { action = action; started_at = started_at }) },
  none,
)

-- `start`, up to the goroutine that it launches; `now` is the time as text.
unfoldable pub start : (now : Bytes) → JobManager → JobManager × Option SlotConflict
unfolding capture_conflict_locked
start now j = if j.busy then (j, some (capture_conflict_locked j)) else (
  record j {
    busy = true;
    status = record { state = running; step = []; err = []; started_at = now; steps = [] };
  },
  none,
)

unfoldable pub release : JobManager → JobManager
release j = record j { busy = false; reserved = none }

-- `reservedHolder`
unfoldable pub reserved_holder : JobManager → Option ReservedJob
reserved_holder j = j.reserved

-- `tailBuffer.Write`, on what the buffer holds.
unfoldable pub tail_write : (limit : ℕ) → (buf p : Bytes) → Bytes
tail_write limit buf p =
    let all = buf ++ p in if ltb limit (length all) then drop (length all - limit) all else all

unfoldable pub tail_writes : (limit : ℕ) → (buf : Bytes) → List Bytes → Bytes
unfolding tail_write
tail_writes limit buf [] = buf
tail_writes limit buf (p ∷ ps) = tail_writes limit (tail_write limit buf p) ps

-- What a runner does with one step: what it writes, and how it ends.
pub data Ending : Type 0 where
  succeeds : Ending
  fails : (message : Bytes) → Ending
  panics : (value : Bytes) → Ending

pub record StepRun : Type 0 where
  pub writes : List Bytes
  pub ending : Ending

-- The section before the runner.
unfoldable pub begin_step : Step → JobManager → JobManager
begin_step st j = record j {
  status = record j.status {
    step = st.name;
    steps =
        j.status.steps ++ record { name = st.name; output = []; done = false; failed = false } ∷ [];
  };
}

abbrev pub set_at : ℕ → (StepResult → StepResult) → List StepResult → List StepResult
set_at n f [] = []
set_at zero f (r ∷ rs) = f r ∷ rs
set_at (suc n) f (r ∷ rs) = r ∷ set_at n f rs

-- `j.status.Steps[idx]` with its output, done, and whether it failed.
abbrev pub finish_at : (idx : ℕ) → (output : Bytes) → (failed : Bool) → JobStatus → JobStatus
finish_at idx output has_failed status = record status {
  steps =
      set_at idx (λ r. record r { output = output; done = true; failed = has_failed }) status.steps;
}

-- The section behind the runner, and the recovery from its panic. The second component says whether
-- the loop goes on.
unfoldable pub end_step : Step → (idx : ℕ) → StepRun → JobManager → JobManager × Bool
unfolding tail_writes
end_step st idx run j =
    let output = tail_writes 4096 [] run.writes in
    elim run.ending [
      | succeeds ↦ (record j { status = finish_at idx output false j.status }, true)
      | fails message ↦
          if not st.tolerant
          then (
            record j {
              status = record (finish_at idx output true j.status) {
                state = failed;
                err = message;
              };
              busy = false;
            },
            false,
          )
          else (record j { status = finish_at idx output true j.status }, true)
      | panics value ↦ (
        record j {
          status = record j.status { state = failed; err = lit "internal error: " ++ value };
          busy = false;
        },
        false,
      )
    ]

-- The section behind the loop.
unfoldable pub complete : JobManager → JobManager
complete j = record j { status = record j.status { state = completed; step = [] }; busy = false }

-- The runner is a function of the code that a test replaces; the real one runs a process.
module _ (runner : Bytes → List Bytes → StepRun) where
  unfoldable pub execute : List Step → JobManager → JobManager
  unfolding begin_step end_step complete
  execute [] j = complete j
  execute (st ∷ steps) j =
      let begun = begin_step st j in
      let idx = length begun.status.steps - 1 in
      let ended = end_step st idx (runner st.name st.argv) begun in
      elim ended.1 [ true ↦ execute steps ended.0 | false ↦ ended.0 ]
