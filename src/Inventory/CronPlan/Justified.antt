-- ===== src/Inventory/CronPlan/Justified.antt =====
-- internal/accountinventory/cronplan.go: the operation that a plan makes of one job or one variable.
use c_panel_self_migration.Prelude.{
  Bool, true, false, not, ◌||◌, ◌&&◌, List, [], any, Bytes, eqb, eqb_self, if-cases, Option, none,
  some, ◌≡◌, refl, sym, arith,
}
use c_panel_self_migration.Inventory.{CronJobEntry, CronEnvEntry, NormalizedInventory}
use c_panel_self_migration.Inventory.Diff.Cron.{CronGroup, group_jobs, group_at}
use c_panel_self_migration.Inventory.CronPlan.{
  create, skip, manual, cron_jobs, cron_env, CronPlanOp, cron_job_line, cron_env_line,
  adapt_cron_path, decide_job, decide_env, shown_value, new_op, first_value, job_value,
  cron_jobs_equivalent, cron_envs_equivalent, job_op, index_envs, env_at, env_op, is_env,
}
use c_panel_self_migration.Inventory.CronPlan.Maps.{
  runs_command, sets_name, first_of, first_job, first_of-group_jobs, first_job-none,
  first_job-found, last_env-found, first_job-some, last_env, env_at-index_envs, last_env-none,
  last_env-some,
}

-- An operation on a job that the inventories justify: only an enabled job whose command was collected
-- and that the destination does not run is created, from its own line, and only one that the
-- destination runs on the same schedule is skipped, with its own line; one that is left to hand could
-- not be created.
abbrev pub justifies_job :
    (src_user dest_user : Bytes)
    → (dest_jobs : List CronJobEntry) → CronPlanOp
    → CronJobEntry
    → Bool
justifies_job src_user dest_user dest_jobs op j = not (is_env op.section) && elim op.action [
  | create ↦
      j.enabled
      && (j.command_collected
          && (not (any (runs_command j.command_sha256) dest_jobs)
              && (eqb op.key j.command_redacted
                  && eqb op.line (adapt_cron_path (cron_job_line j) src_user dest_user).0)))
  | skip ↦
      j.enabled
      && (j.command_collected
          && (any (cron_jobs_equivalent j) dest_jobs
              && (eqb op.key j.command_redacted && eqb op.line (cron_job_line j))))
  | manual ↦
      eqb op.key j.command_redacted
      && (not j.command_collected
          || (not j.enabled || any (runs_command j.command_sha256) dest_jobs))
]

abbrev pub justifies_env : (dest_envs : List CronEnvEntry) → CronPlanOp → CronEnvEntry → Bool
justifies_env dest_envs op e = is_env op.section && elim op.action [
  | create ↦
      e.value_collected
      && (not (any (sets_name e.name) dest_envs)
          && (eqb op.key e.name && eqb op.line (cron_env_line e)))
  | skip ↦
      e.value_collected
      && (any (cron_envs_equivalent e) dest_envs
          && (eqb op.key e.name && eqb op.line (cron_env_line e)))
  | manual ↦ eqb op.key e.name && (not e.value_collected || any (sets_name e.name) dest_envs)
]

abbrev pub is_justified : (src dest : NormalizedInventory) → CronPlanOp → Bool
is_justified src dest op =
    any (justifies_job src.user dest.user dest.cron.jobs op) src.cron.jobs
    || any (justifies_env dest.cron.environment op) src.cron.environment

-- The cases of an enabled job.
decide_job-justifies_job :
    (src_user dest_user : Bytes) (dest_jobs : List CronJobEntry) (j : CronJobEntry)
    (op : CronPlanOp) (o : Option CronGroup)
    → is_env op.section ≡ false
    → eqb op.key j.command_redacted ≡ true
    → first_of o ≡ first_job j.command_sha256 dest_jobs
    → j.enabled ≡ true
    → j.command_collected ≡ true
    → justifies_job src_user dest_user dest_jobs (decide_job src_user dest_user j op o) j ≡ true
decide_job-justifies_job u v dest_jobs j op none jobs named h on collected = ground (
  arith,
  jobs,
  named,
  first_job-none j.command_sha256 dest_jobs (sym h),
  on,
  collected,
  eqb_self (adapt_cron_path (cron_job_line j) u v).0,
)
decide_job-justifies_job u v dest_jobs j op (some g) jobs named h on collected =
    if-cases (λ made. justifies_job u v dest_jobs made j ≡ true) (cron_jobs_equivalent j g.first)
      (λ same. ground (
        arith,
        jobs,
        named,
        on,
        collected,
        eqb_self (cron_job_line j),
        first_job-some (cron_jobs_equivalent j) j.command_sha256 g.first dest_jobs (sym h) same,
      ))
      (λ other.
        ground (arith, jobs, named, first_job-found j.command_sha256 g.first dest_jobs (sym h)))

pub job_op-justifies_job :
    (src_user dest_user : Bytes) (dest_jobs : List CronJobEntry) (j : CronJobEntry)
    → justifies_job src_user dest_user dest_jobs
        (job_op src_user dest_user (group_jobs [] dest_jobs) j)
        j
      ≡ true
unfolding job_op
job_op-justifies_job u v dest_jobs j =
    let found = group_at j.command_sha256 (group_jobs [] dest_jobs) in
    let op = new_op cron_jobs j.command_redacted (job_value j) (first_value found) in
    if-cases (λ made. justifies_job u v dest_jobs made j ≡ true) (not j.command_collected)
      (λ missing. ground (arith, missing, eqb_self j.command_redacted))
      (λ collected.
        if-cases (λ made. justifies_job u v dest_jobs made j ≡ true) (not j.enabled)
          (λ off. ground (arith, off, eqb_self j.command_redacted))
          (λ on.
            decide_job-justifies_job u v dest_jobs j op found refl (eqb_self j.command_redacted)
              (first_of-group_jobs j.command_sha256 [] dest_jobs) (ground (arith, on))
              (ground (arith, collected))))

decide_env-justifies_env :
    (dest_envs : List CronEnvEntry) (e : CronEnvEntry) (op : CronPlanOp) (o : Option CronEnvEntry)
    → is_env op.section ≡ true
    → eqb op.key e.name ≡ true
    → o ≡ last_env e.name dest_envs
    → e.value_collected ≡ true
    → justifies_env dest_envs (decide_env e op o) e ≡ true
decide_env-justifies_env dest_envs e op none env named h collected = ground (
  arith,
  env,
  named,
  last_env-none e.name dest_envs (sym h),
  collected,
  eqb_self (cron_env_line e),
)
decide_env-justifies_env dest_envs e op (some d) env named h collected =
    if-cases (λ made. justifies_env dest_envs made e ≡ true) (cron_envs_equivalent e d)
      (λ same. ground (
        arith,
        env,
        named,
        collected,
        eqb_self (cron_env_line e),
        last_env-some (cron_envs_equivalent e) e.name d dest_envs (sym h) same,
      ))
      (λ other. ground (arith, env, named, last_env-found e.name d dest_envs (sym h)))

pub env_op-justifies_env :
    (dest_envs : List CronEnvEntry) (e : CronEnvEntry)
    → justifies_env dest_envs (env_op (index_envs [] dest_envs) e) e ≡ true
unfolding env_op env_at
env_op-justifies_env dest_envs e =
    let found = env_at e.name (index_envs [] dest_envs) in
    let op = new_op cron_env e.name e.value_redacted (shown_value found) in
    if-cases (λ made. justifies_env dest_envs made e ≡ true) (not e.value_collected)
      (λ missing. ground (arith, missing, eqb_self e.name))
      (λ collected.
        decide_env-justifies_env dest_envs e op found refl (eqb_self e.name)
          (ground (arith, env_at-index_envs e.name [] dest_envs)) (ground (arith, collected)))
