-- ===== src/Webui/Job/Ends.antt =====
-- internal/webui/job.go, `execute`: every run ends, gives the slot back and says how its steps ended.
use c_panel_self_migration.Prelude.{
  ℕ, ◌-◌, Bool, true, false, not, List, [], ◌∷◌, ◌++◌, map, all, append_assoc, append-nil, length,
  length-append, Bytes, if◌then◌else◌, if-cases, ◌≡◌, refl, sym, ap, ◌∙◌, arith,
}
use c_panel_self_migration.Webui.Job.{
  Step, StepResult, completed, failed, JobManager, Ending, StepRun, succeeds, fails, panics, set_at,
  begin_step, end_step, complete, finish_at, tail_writes, execute,
}
use c_panel_self_migration.Webui.Job.Slot.{
  nobody, between, World, proceed, begins, ends, completes, Reached, here, then_next,
}

-- The run goes on behind the step.
abbrev pub passes : Step → Ending → Bool
passes st succeeds = true
passes st (fails message) = st.tolerant
passes st (panics value) = false

abbrev pub is_failure : Ending → Bool
is_failure succeeds = false
is_failure (fails message) = true
is_failure (panics value) = false

end_step-passes :
    (st : Step) (idx : ℕ) (run : StepRun) (j : JobManager)
    → (end_step st idx run j).1 ≡ passes st run.ending
unfolding end_step
end_step-passes st idx run j =
    elim run.ending as (λ e. (end_step st idx (record run { ending = e }) j).1 ≡ passes st e) [
      | succeeds ↦ refl
      | fails message ↦ ground arith
      | panics value ↦ refl
    ]

-- A step behind which the run does not go on.
end_step-stops :
    (st : Step) (idx : ℕ) (run : StepRun) (j : JobManager)
    → passes st run.ending ≡ false
    → ((end_step st idx run j).0.busy ≡ false) × ((end_step st idx run j).0.status.state ≡ failed)
unfolding end_step
end_step-stops st idx run j =
    elim run.ending
      as (λ e.
        passes st e ≡ false
        → let ended = (end_step st idx (record run { ending = e }) j).0 in
          (ended.busy ≡ false) × (ended.status.state ≡ failed)) [
            | succeeds ↦ λ h. absurd (ground (arith, h))
            | fails message ↦ λ h. ground (arith, h)
            | panics value ↦ λ h. (refl, refl)
          ]

-- A step behind which it does.
end_step-steps :
    (st : Step) (idx : ℕ) (run : StepRun) (j : JobManager)
    → passes st run.ending ≡ true
    → (end_step st idx run j).0.status.steps
      ≡ (finish_at idx (tail_writes 4096 [] run.writes) (is_failure run.ending) j.status).steps
unfolding end_step
end_step-steps st idx run j =
    elim run.ending
      as (λ e.
        passes st e ≡ true
        → (end_step st idx (record run { ending = e }) j).0.status.steps
          ≡ (finish_at idx (tail_writes 4096 [] run.writes) (is_failure e) j.status).steps) [
            | succeeds ↦ λ h. refl
            | fails message ↦ λ h.
                if-cases
                  (λ (ended : JobManager × Bool).
                    ended.0.status.steps
                    ≡ (finish_at idx (tail_writes 4096 [] run.writes) true j.status).steps)
                  (not st.tolerant) (λ fatal. refl) (λ tolerated. refl)
            | panics value ↦ λ h. absurd (ground (arith, h))
          ]

set_at-length :
    (f : StepResult → StepResult) (rs : List StepResult) (r : StepResult)
    → set_at (length rs) f (rs ++ r ∷ []) ≡ rs ++ f r ∷ []
set_at-length f [] r = refl
set_at-length f (q ∷ rs) r = ap (◌∷◌ q) (set_at-length f rs r)

set_at-append :
    (f : StepResult → StepResult) (rs : List StepResult) (r : StepResult)
    → set_at (length (rs ++ r ∷ []) - 1) f (rs ++ r ∷ []) ≡ rs ++ f r ∷ []
set_at-append f rs r =
    ap (λ n. set_at n f (rs ++ r ∷ [])) (omega (arith, length-append rs (r ∷ [])))
    ∙ set_at-length f rs r

module _ {A : Type 0} where
  elim-if : (b : Bool) (x y : A) → (elim b [ true ↦ x | false ↦ y ]) ≡ (if b then x else y)
  elim-if true x y = refl
  elim-if false x y = refl

Reached-trans : {w v x : World} → Reached w v → Reached v x → Reached w x
Reached-trans r here = r
Reached-trans r (then_next q n) = then_next (Reached-trans r q) n

module _ (runner : Bytes → List Bytes → StepRun) where
  abbrev pub goes_on : Step → Bool
  goes_on st = passes st (runner st.name st.argv).ending

  -- What is shown of a step that has run.
  abbrev pub result_of : Step → StepResult
  result_of st = record {
    name = st.name;
    output = tail_writes 4096 [] (runner st.name st.argv).writes;
    done = true;
    failed = is_failure (runner st.name st.argv).ending;
  }

  -- The steps behind one that has ended.
  proceed-Reached :
      (steps : List Step) (ended : JobManager × Bool)
      → ((j : JobManager)
          → Reached
              (record { manager = j; holder = between steps })
              (record { manager = execute runner steps j; holder = nobody }))
      → Reached (proceed ended steps) (record {
        manager = elim ended.1 [ true ↦ execute runner steps ended.0 | false ↦ ended.0 ];
        holder = nobody;
      })
  proceed-Reached steps (j, true) runs = runs j
  proceed-Reached steps (j, false) runs = here

  execute-chain :
      (steps : List Step) (j : JobManager)
      → Reached
          (record { manager = j; holder = between steps })
          (record { manager = execute runner steps j; holder = nobody })
  unfolding execute
  execute-chain [] j = then_next here (completes j)
  execute-chain (st ∷ steps) j =
      let begun = begin_step st j in
      let idx = length begun.status.steps - 1 in
      let run = runner st.name st.argv in
      Reached-trans (then_next (then_next here (begins j st steps)) (ends begun st idx steps run))
        (proceed-Reached steps (end_step st idx run begun) (execute-chain steps))

  -- What the manager is behind a step.
  abbrev behind : Step → JobManager → JobManager × Bool
  behind st j =
      let begun = begin_step st j in
      end_step st (length begun.status.steps - 1) (runner st.name st.argv) begun

  behind-goes_on : (st : Step) (j : JobManager) → (behind st j).1 ≡ goes_on st
  behind-goes_on st j =
      let begun = begin_step st j in
      end_step-passes st (length begun.status.steps - 1) (runner st.name st.argv) begun

  execute-cons :
      (st : Step) (steps : List Step) (j : JobManager)
      → execute runner (st ∷ steps) j
        ≡ (if goes_on st then execute runner steps (behind st j).0 else (behind st j).0)
  unfolding execute
  execute-cons st steps j =
      ap (λ b. elim b [ true ↦ execute runner steps (behind st j).0 | false ↦ (behind st j).0 ])
        (behind-goes_on st j)
      ∙ elim-if (goes_on st) (execute runner steps (behind st j).0) (behind st j).0

  execute-state :
      (steps : List Step) (j : JobManager)
      → ((execute runner steps j).busy ≡ false)
        × ((execute runner steps j).status.state
            ≡ (if all goes_on steps then completed else failed))
  unfolding execute complete
  execute-state [] j = (refl, refl)
  execute-state (st ∷ steps) j =
      let begun = begin_step st j in
      let run = runner st.name st.argv in
      ground (
        arith,
        execute-cons st steps j,
        execute-state steps (behind st j).0,
        end_step-stops st (length begun.status.steps - 1) run begun,
      )

  -- Whatever its runner does, an execution is a chain of its critical sections that ends with
  -- nobody holding the slot: the manager is not busy, and its state is completed if every step
  -- succeeded or was tolerated, and failed otherwise, also behind a panic.
  pub execute-Reached :
      (steps : List Step) (j : JobManager)
      → let ended = execute runner steps j in
        Reached
          (record { manager = j; holder = between steps })
          (record { manager = ended; holder = nobody })
        × (ended.busy ≡ false)
        × (ended.status.state ≡ (if all goes_on steps then completed else failed))
  execute-Reached steps j =
      let state = execute-state steps j in (execute-chain steps j, state.0, state.1)

  behind-steps :
      (st : Step) (j : JobManager)
      → goes_on st ≡ true
      → (behind st j).0.status.steps ≡ j.status.steps ++ result_of st ∷ []
  unfolding begin_step
  behind-steps st j on =
      let begun = begin_step st j in
      let run = runner st.name st.argv in
      end_step-steps st (length begun.status.steps - 1) run begun on
      ∙ set_at-append
          (λ r. record r {
            output = tail_writes 4096 [] run.writes;
            done = true;
            failed = is_failure run.ending;
          })
          j.status.steps (record { name = st.name; output = []; done = false; failed = false })

  -- If every step of an execution succeeds or is tolerated, the status shows, behind what it
  -- showed, one result for each step in order: its name, the end of its output, done, and failed
  -- exactly if its runner returned an error.
  pub execute-steps :
      (steps : List Step) (j : JobManager)
      → all goes_on steps ≡ true
      → (execute runner steps j).status.steps ≡ j.status.steps ++ map result_of steps
  unfolding execute complete
  execute-steps [] j h = sym (append-nil j.status.steps)
  execute-steps (st ∷ steps) j h =
      let on : goes_on st ≡ true = ground (arith, h) in
      ap (λ (m : JobManager). m.status.steps)
        (execute-cons st steps j
          ∙ ap (λ b. if b then execute runner steps (behind st j).0 else (behind st j).0) on)
      ∙ execute-steps steps (behind st j).0 (ground (arith, h))
      ∙ ap (λ rs. rs ++ map result_of steps) (behind-steps st j on)
      ∙ append_assoc j.status.steps (result_of st ∷ []) (map result_of steps)
