-- ===== src/Tests/Jobs.antt =====
-- Tests of the slot for runs of internal/webui.
use c_panel_self_migration.Prelude.{
  joined, ◌≤◌, true, false, List, [], ◌∷◌, ◌++◌, map, all, Bytes, lit, eqb, length, if◌then◌else◌,
  ◌≡◌, refl,
}
use c_panel_self_migration.Webui.Job.{
  Step, JobManager, completed, failed, StepRun, succeeds, fails, new_job_manager, try_reserve,
  try_reserve_for, start, execute, tail_writes,
}
use c_panel_self_migration.Webui.Job.Tail.{last_bytes, tail_writes-last_bytes}
use c_panel_self_migration.Webui.Job.Slot.{
  World, nobody, named, between, Reached, here, then_next, reserves_for, first_world, refusal,
  Reached-refusal,
}
use c_panel_self_migration.Webui.Job.Ends.{goes_on, result_of, execute-Reached, execute-steps}

abbrev diff_step : Step
diff_step = record { name = lit "diff"; argv = lit "inventory" ∷ []; tolerant = false }

abbrev dns_step : Step
dns_step = record { name = lit "dns"; argv = []; tolerant = true }

abbrev steps : List Step
steps = diff_step ∷ dns_step ∷ []

-- A runner that fails at one step.
abbrev fails_at : Bytes → Bytes → List Bytes → StepRun
fails_at bad name argv = record {
  writes = name ∷ lit "!" ∷ [];
  ending = if eqb name bad then fails (lit "exit 1") else succeeds;
}

tail_writes-last_bytes_example :
    (tail_writes 3 [] (lit "ab" ∷ lit "cde" ∷ [])
      ≡ last_bytes 3 (joined (lit "ab" ∷ lit "cde" ∷ [])))
    × (length (tail_writes 3 [] (lit "ab" ∷ lit "cde" ∷ [])) ≤ 3)
tail_writes-last_bytes_example = tail_writes-last_bytes 3 (lit "ab" ∷ lit "cde" ∷ [])

tail_kept : tail_writes 3 [] (lit "ab" ∷ lit "cde" ∷ []) ≡ lit "cde"
unfolding tail_writes lit
tail_kept = refl

-- A named action holds the slot.
abbrev held : World
held = record {
  manager = (try_reserve_for (lit "dns_apply") 7 new_job_manager).0;
  holder = named (lit "dns_apply") 7;
}

held-Reached : Reached first_world held
unfolding try_reserve_for
held-Reached = then_next here (reserves_for (lit "dns_apply") 7 first_world)

Reached-refusal_example :
    let told = refusal held.holder held.manager.status.started_at in
    ((try_reserve held.manager).1 ≡ told)
    × ((try_reserve_for (lit "accept") 9 held.manager).1 ≡ told)
    × ((start (lit "now") held.manager).1 ≡ told)
Reached-refusal_example = Reached-refusal held (lit "now") (lit "accept") 9 held-Reached

abbrev started : JobManager
started = (start (lit "now") new_job_manager).0

execute-Reached_example :
    let ended = execute (fails_at (lit "diff")) steps started in
    Reached
      (record { manager = started; holder = between steps })
      (record { manager = ended; holder = nobody })
    × (ended.busy ≡ false)
    × (ended.status.state
        ≡ (if all (goes_on (fails_at (lit "diff"))) steps then completed else failed))
execute-Reached_example = execute-Reached (fails_at (lit "diff")) steps started

-- A failure of the tolerated step.
execute-steps_example :
    (execute (fails_at (lit "dns")) steps started).status.steps
    ≡ started.status.steps ++ map (result_of (fails_at (lit "dns"))) steps
unfolding eqb lit
execute-steps_example = execute-steps (fails_at (lit "dns")) steps started refl
