-- ===== src/Inventory/CronPlan/Coverage.antt =====
-- internal/accountinventory/cronplan.go: which entries of the source a plan has an operation for.
use c_panel_self_migration.Prelude.{
  Bool, true, false, not, ◌||◌, ◌&&◌, List, [], ◌∷◌, ◌++◌, any, any-append, Bytes, eqb, eqb_iff,
  eqb_self, if-cases, Option, none, some, ◌≡◌, refl, sym, ap, ◌∙◌, arith, Bool-cases, inl, inr,
}
use c_panel_self_migration.Sorting.Laws.{any-sort_by}
use c_panel_self_migration.Inventory.{CronJobEntry, NormalizedInventory}
use c_panel_self_migration.Inventory.Diff.Cron.{CronGroup, group_jobs, group_at}
use c_panel_self_migration.Inventory.CronPlan.{
  create, skip, manual, cron_jobs, CronPlanOp, CronApplyPlan, cron_job_line, adapt_cron_path,
  decide_job, new_op, job_value, first_value, job_op, is_seen, job_ops, job_digests, job_infos,
  env_ops, index_envs, op_before, plan_ops, plan_infos, build_cron_plan,
}
use c_panel_self_migration.Inventory.CronPlan.Maps.{
  runs_command, first_of, first_of-group_jobs, first_job,
}

-- The source with other jobs.
abbrev pub with_jobs : NormalizedInventory → List CronJobEntry → NormalizedInventory
with_jobs inv jobs = record inv { cron = record inv.cron { jobs = jobs } }

is_seen-append :
    (sha : Bytes) (xs ys : List CronJobEntry)
    → is_seen sha (job_digests (xs ++ ys))
      ≡ (is_seen sha (job_digests xs) || is_seen sha (job_digests ys))
is_seen-append sha [] ys = refl
is_seen-append sha (x ∷ xs) ys = ground (arith, is_seen-append sha xs ys)

is_seen-eqb :
    (sha tau : Bytes) (seen : List Bytes)
    → eqb sha tau ≡ true
    → is_seen tau seen ≡ true
    → is_seen sha seen ≡ true
is_seen-eqb sha tau [] same h = h
is_seen-eqb sha tau (k ∷ seen) same h =
    ground
      (arith, is_seen-eqb sha tau seen same, eqb_iff sha tau, eqb_iff sha k, eqb_iff tau k, same, h)

-- A digest that the jobs before have adds nothing to the set.
is_seen-repeated :
    (sha : Bytes) (xs : List CronJobEntry) (j : CronJobEntry) (ys : List CronJobEntry)
    → is_seen j.command_sha256 (job_digests xs) ≡ true
    → is_seen sha (job_digests (xs ++ j ∷ ys)) ≡ is_seen sha (job_digests (xs ++ ys))
is_seen-repeated sha xs j ys h = ground (
  arith,
  is_seen-append sha xs (j ∷ ys),
  is_seen-append sha xs ys,
  is_seen-eqb sha j.command_sha256 (job_digests xs),
  h,
)

job_infos-ext :
    (seen other : List Bytes) (jobs : List CronJobEntry)
    → ((sha : Bytes) → is_seen sha seen ≡ is_seen sha other)
    → job_infos seen jobs ≡ job_infos other jobs
unfolding job_infos
job_infos-ext seen other [] same = refl
job_infos-ext seen other (j ∷ jobs) same =
    ground (arith, job_infos-ext seen other jobs same, same j.command_sha256)

module _ (u v : Bytes) (dest : List CronGroup) where
  -- The turn of the loop for a digest that it has seen, and for another.
  job_ops-seen :
      (seen : List Bytes) (j : CronJobEntry) (jobs : List CronJobEntry)
      → is_seen j.command_sha256 seen ≡ true
      → job_ops u v dest seen (j ∷ jobs) ≡ job_ops u v dest seen jobs
  unfolding job_ops
  job_ops-seen seen j jobs h = rw (h, job_ops) refl

  job_ops-first :
      (seen : List Bytes) (j : CronJobEntry) (jobs : List CronJobEntry)
      → is_seen j.command_sha256 seen ≡ false
      → job_ops u v dest seen (j ∷ jobs)
        ≡ job_op u v dest j ∷ job_ops u v dest (j.command_sha256 ∷ seen) jobs
  unfolding job_ops
  job_ops-first seen j jobs h = rw (h, job_ops) refl

  job_ops-repeated :
      (seen : List Bytes) (xs : List CronJobEntry) (j : CronJobEntry) (ys : List CronJobEntry)
      → (is_seen j.command_sha256 seen || is_seen j.command_sha256 (job_digests xs)) ≡ true
      → job_ops u v dest seen (xs ++ j ∷ ys) ≡ job_ops u v dest seen (xs ++ ys)
  job_ops-repeated seen [] j ys h = job_ops-seen seen j ys (ground (arith, h))
  job_ops-repeated seen (x ∷ xs) j ys h = elim (Bool-cases (is_seen x.command_sha256 seen)) [
    | inl known ↦
        job_ops-seen seen x (xs ++ j ∷ ys) known
        ∙ job_ops-repeated seen xs j ys
            (ground (arith, h, is_seen-eqb j.command_sha256 x.command_sha256 seen, known))
        ∙ sym (job_ops-seen seen x (xs ++ ys) known)
    | inr fresh ↦
        job_ops-first seen x (xs ++ j ∷ ys) fresh
        ∙ ap (◌∷◌ (job_op u v dest x))
            (job_ops-repeated (x.command_sha256 ∷ seen) xs j ys (ground (arith, h)))
        ∙ sym (job_ops-first seen x (xs ++ ys) fresh)
  ]

  -- An operation for the first job of a digest.
  any-job_ops :
      (p : CronPlanOp → Bool) (seen : List Bytes) (xs : List CronJobEntry) (j : CronJobEntry)
      (ys : List CronJobEntry)
      → is_seen j.command_sha256 seen ≡ false
      → is_seen j.command_sha256 (job_digests xs) ≡ false
      → p (job_op u v dest j) ≡ true
      → any p (job_ops u v dest seen (xs ++ j ∷ ys)) ≡ true
  any-job_ops p seen [] j ys h k t = ground (arith, job_ops-first seen j ys h, t)
  any-job_ops p seen (x ∷ xs) j ys h k t = elim (Bool-cases (is_seen x.command_sha256 seen)) [
    | inl known ↦
        ground (arith, job_ops-seen seen x (xs ++ j ∷ ys) known, any-job_ops p seen xs j ys h, k, t)
    | inr fresh ↦ ground (
      arith,
      job_ops-first seen x (xs ++ j ∷ ys) fresh,
      any-job_ops p (x.command_sha256 ∷ seen) xs j ys,
      h,
      k,
      t,
    )
  ]

-- If a source job has the digest of a job before it, whatever its schedule, the cron plan is the
-- plan of the source without that job.
pub build_cron_plan-repeated_job :
    (src dest : NormalizedInventory) (xs : List CronJobEntry) (j : CronJobEntry)
    (ys : List CronJobEntry)
    → is_seen j.command_sha256 (job_digests xs) ≡ true
    → build_cron_plan (with_jobs src (xs ++ j ∷ ys)) dest
      ≡ build_cron_plan (with_jobs src (xs ++ ys)) dest
unfolding build_cron_plan plan_ops plan_infos
build_cron_plan-repeated_job src dest xs j ys h =
    rw
      (
        job_ops-repeated src.user dest.user (group_jobs [] dest.cron.jobs) [] xs j ys
            (ground (arith, h)),
        job_infos-ext (job_digests (xs ++ j ∷ ys)) (job_digests (xs ++ ys)) dest.cron.jobs
            (λ sha. is_seen-repeated sha xs j ys h),
      )
      refl

-- The operation that creates the line of a job.
abbrev pub creates_line : Bytes → CronPlanOp → Bool
creates_line line op =
    (elim op.action [ create ↦ true | skip ↦ false | manual ↦ false ]) && eqb op.line line

first_job-any :
    (sha : Bytes) (jobs : List CronJobEntry)
    → any (runs_command sha) jobs ≡ false
    → first_job sha jobs ≡ none
first_job-any sha [] h = refl
first_job-any sha (j ∷ jobs) h = ground (arith, first_job-any sha jobs, h)

decide_job-creates_line :
    (u v : Bytes) (j : CronJobEntry) (op : CronPlanOp) (o : Option CronGroup)
    → first_of o ≡ none
    → creates_line (adapt_cron_path (cron_job_line j) u v).0 (decide_job u v j op o) ≡ true
decide_job-creates_line u v j op none h = eqb_self (adapt_cron_path (cron_job_line j) u v).0
decide_job-creates_line u v j op (some g) h = absurd (ground (arith, h))

job_op-creates_line :
    (u v : Bytes) (dest_jobs : List CronJobEntry) (j : CronJobEntry)
    → j.enabled ≡ true
    → j.command_collected ≡ true
    → any (runs_command j.command_sha256) dest_jobs ≡ false
    → creates_line
        (adapt_cron_path (cron_job_line j) u v).0
        (job_op u v (group_jobs [] dest_jobs) j)
      ≡ true
unfolding job_op
job_op-creates_line u v dest_jobs j on collected gone =
    let line = (adapt_cron_path (cron_job_line j) u v).0 in
    let found = group_at j.command_sha256 (group_jobs [] dest_jobs) in
    let op = new_op cron_jobs j.command_redacted (job_value j) (first_value found) in
    if-cases (λ made. creates_line line made ≡ true) (not j.command_collected)
      (λ missing. absurd (ground (arith, missing, collected)))
      (λ kept.
        if-cases (λ made. creates_line line made ≡ true) (not j.enabled)
          (λ off. absurd (ground (arith, off, on)))
          (λ runs. decide_job-creates_line u v j op found (
            first_of-group_jobs j.command_sha256 [] dest_jobs
            ∙ first_job-any j.command_sha256 dest_jobs gone)))

-- If both cron sections are available, the plan creates the adapted line of each source job that is
-- enabled and collected, that the destination does not run, and before which no source job has its
-- digest.
pub build_cron_plan-creates_line :
    (src dest : NormalizedInventory) (xs : List CronJobEntry) (j : CronJobEntry)
    (ys : List CronJobEntry)
    → src.cron.jobs ≡ xs ++ j ∷ ys
    → (src.cron.available && dest.cron.available) ≡ true
    → is_seen j.command_sha256 (job_digests xs) ≡ false
    → j.enabled ≡ true
    → j.command_collected ≡ true
    → any (runs_command j.command_sha256) dest.cron.jobs ≡ false
    → any
        (creates_line (adapt_cron_path (cron_job_line j) src.user dest.user).0)
        (build_cron_plan src dest).ops
      ≡ true
unfolding build_cron_plan plan_ops
build_cron_plan-creates_line src dest xs j ys here listed fresh on collected gone =
    let line = (adapt_cron_path (cron_job_line j) src.user dest.user).0 in
    let groups = group_jobs [] dest.cron.jobs in
    let jobs = job_ops src.user dest.user groups [] src.cron.jobs in
    let envs = env_ops (index_envs [] dest.cron.environment) [] src.cron.environment in
    if-cases (λ (plan : CronApplyPlan). any (creates_line line) plan.ops ≡ true)
      (not src.cron.available || not dest.cron.available)
      (λ missing. absurd (ground (arith, missing, listed)))
      (λ both.
        any-sort_by op_before (creates_line line) (jobs ++ envs)
        ∙ any-append (creates_line line) jobs envs
        ∙ ap (λ b. b || any (creates_line line) envs)
            (ap
                (λ all_jobs.
                  any (creates_line line) (job_ops src.user dest.user groups [] all_jobs))
                here
              ∙ any-job_ops src.user dest.user groups (creates_line line) [] xs j ys refl fresh
                  (job_op-creates_line src.user dest.user dest.cron.jobs j on collected gone)))
