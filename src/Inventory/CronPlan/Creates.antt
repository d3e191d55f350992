-- ===== src/Inventory/CronPlan/Creates.antt =====
-- internal/accountinventory/cronplan.go: the lines that a plan creates, and those that it skips.
use c_panel_self_migration.Prelude.{
  Bool, true, false, not, ◌||◌, List, [], ◌∷◌, ◌++◌, any, All, Bytes, if-cases, ◌≡◌, arith,
}
use c_panel_self_migration.Sorting.Laws.{sort_by-All}
use c_panel_self_migration.Inventory.{CronJobEntry, CronEnvEntry, NormalizedInventory}
use c_panel_self_migration.Inventory.Diff.Cron.{group_jobs}
use c_panel_self_migration.Inventory.CronPlan.{
  CronApplyPlan, job_op, is_seen, job_ops, index_envs, env_op, env_ops, op_before, plan_ops,
  build_cron_plan,
}
use c_panel_self_migration.Inventory.CronPlan.Justified.{
  justifies_job, justifies_env, is_justified, job_op-justifies_job, env_op-justifies_env,
}

module _ {A B : Type 0} (justifies : B → A → Bool) where
  -- More entries justify more.
  any-All :
      (a : A) (items : List A) (made : List B)
      → All (λ op. any (justifies op) items ≡ true) made
      → All (λ op. any (justifies op) (a ∷ items) ≡ true) made
  any-All a items [] h = tt
  any-All a items (op ∷ made) h = (ground (arith, h.0), any-All a items made h.1)

job_ops-All :
    (src_user dest_user : Bytes) (dest_jobs : List CronJobEntry) (seen : List Bytes)
    (jobs : List CronJobEntry)
    → let made = job_ops src_user dest_user (group_jobs [] dest_jobs) seen jobs in
      All (λ op. any (justifies_job src_user dest_user dest_jobs op) jobs ≡ true) made
unfolding job_ops
job_ops-All u v dest_jobs seen [] = tt
job_ops-All u v dest_jobs seen (j ∷ jobs) =
    let justifies = justifies_job u v dest_jobs in
    let later = job_ops u v (group_jobs [] dest_jobs) in
    elim (is_seen j.command_sha256 seen)
      as (λ b.
        All (λ op. any (justifies op) (j ∷ jobs) ≡ true)
          (elim b [
            | true ↦ later seen jobs
            | false ↦ job_op u v (group_jobs [] dest_jobs) j ∷ later (j.command_sha256 ∷ seen) jobs
          ])) [
            | true ↦
                any-All justifies j jobs (job_ops u v (group_jobs [] dest_jobs) seen jobs)
                  (job_ops-All u v dest_jobs seen jobs)
            | false ↦ (
              ground (arith, job_op-justifies_job u v dest_jobs j),
              any-All justifies j jobs
                  (job_ops u v (group_jobs [] dest_jobs) (j.command_sha256 ∷ seen) jobs)
                  (job_ops-All u v dest_jobs (j.command_sha256 ∷ seen) jobs),
            )
          ]

env_ops-All :
    (dest_envs : List CronEnvEntry) (seen : List Bytes) (envs : List CronEnvEntry)
    → let made = env_ops (index_envs [] dest_envs) seen envs in
      All (λ op. any (justifies_env dest_envs op) envs ≡ true) made
unfolding env_ops
env_ops-All dest_envs seen [] = tt
env_ops-All dest_envs seen (e ∷ envs) =
    let justifies = justifies_env dest_envs in
    let later = env_ops (index_envs [] dest_envs) in
    elim (is_seen e.name seen)
      as (λ b.
        All (λ op. any (justifies op) (e ∷ envs) ≡ true)
          (elim b [
            | true ↦ later seen envs
            | false ↦ env_op (index_envs [] dest_envs) e ∷ later (e.name ∷ seen) envs
          ])) [
            | true ↦
                any-All justifies e envs (env_ops (index_envs [] dest_envs) seen envs)
                  (env_ops-All dest_envs seen envs)
            | false ↦ (
              ground (arith, env_op-justifies_env dest_envs e),
              any-All justifies e envs (env_ops (index_envs [] dest_envs) (e.name ∷ seen) envs)
                  (env_ops-All dest_envs (e.name ∷ seen) envs),
            )
          ]

All-or :
    {A : Type 0} (p q : A → Bool) (xs ys : List A)
    → All (λ x. p x ≡ true) xs
    → All (λ x. q x ≡ true) ys
    → All (λ x. (p x || q x) ≡ true) (xs ++ ys)
All-or p q [] [] h k = tt
All-or p q [] (y ∷ ys) h k = (ground (arith, k.0), All-or p q [] ys h k.1)
All-or p q (x ∷ xs) ys h k = (ground (arith, h.0), All-or p q xs ys h.1 k)

-- Every operation of the cron plan that creates has the key of, and the line, adapted to the user,
-- of a source job that is enabled, whose command was collected and whose digest no destination job
-- has, or the key and the line of a source variable that was collected and whose name the
-- destination lacks; every operation that skips has the key and the line of a source job that is
-- enabled and collected, or of a source variable that was collected, to which the destination has
-- an equivalent one; every operation left to hand has the key of a job that is disabled, not
-- collected or of a digest that the destination has, or of a variable that is not collected or
-- whose name the destination has.
pub build_cron_plan-is_justified :
    (src dest : NormalizedInventory)
    → All (λ op. is_justified src dest op ≡ true) (build_cron_plan src dest).ops
unfolding build_cron_plan plan_ops
build_cron_plan-is_justified src dest =
    let jobs = job_ops-All src.user dest.user dest.cron.jobs [] src.cron.jobs in
    let envs = env_ops-All dest.cron.environment [] src.cron.environment in
    if-cases (λ (plan : CronApplyPlan). All (λ op. is_justified src dest op ≡ true) plan.ops)
      (not src.cron.available || not dest.cron.available) (λ missing. tt)
      (λ listed.
        sort_by-All op_before (λ op. is_justified src dest op ≡ true) (plan_ops src dest)
          (All-or (λ op. any (justifies_job src.user dest.user dest.cron.jobs op) src.cron.jobs)
            (λ op. any (justifies_env dest.cron.environment op) src.cron.environment)
            (job_ops src.user dest.user (group_jobs [] dest.cron.jobs) [] src.cron.jobs)
            (env_ops (index_envs [] dest.cron.environment) [] src.cron.environment) jobs envs))
