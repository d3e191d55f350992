-- ===== src/Inventory/CronPlan.antt =====
-- internal/accountinventory/cronplan.go: the plan of the crontab lines that the destination is to get.
-- `adaptCronPath` calls `strings.ReplaceAll` on a text that is not empty.
pub mod Coverage
pub mod Maps
pub mod Justified
pub mod Creates
use c_panel_self_migration.Prelude.{
  ℕ, zero, suc, ◌+◌, ◌-◌, Bool, true, false, not, ◌||◌, ◌&&◌, List, [], ◌∷◌, ◌++◌, any, length,
  Bytes, lit, eqb, is_empty, has_prefix, contains, if◌then◌else◌, Option, none, some,
}
use c_panel_self_migration.Sorting.{text_less, sort_by}
use c_panel_self_migration.Inventory.{CronJobEntry, CronEnvEntry, NormalizedInventory}
use c_panel_self_migration.Inventory.Diff.{dash}
use c_panel_self_migration.Inventory.Diff.Items.{join_with, format_bool}
use c_panel_self_migration.Inventory.Diff.Cron.{CronGroup, group_jobs, group_at, same_bool}

pub data CronAction : Type 0 where
  create skip manual : CronAction

pub data CronPlanSection : Type 0 where
  cron_jobs cron_env : CronPlanSection

pub record CronPlanOp : Type 0 where
  pub section : CronPlanSection
  pub action : CronAction
  pub key : Bytes
  pub reason : Bytes
  pub line : Bytes
  pub source_line : Bytes
  pub path_adapted : Bool
  pub source_value : Bytes
  pub destination_value : Bytes

pub record CronPlanInfo : Type 0 where
  pub section : CronPlanSection
  pub key : Bytes
  pub value : Bytes

pub record CronPlanSummary : Type 0 where
  pub creates : ℕ
  pub skips : ℕ
  pub manuals : ℕ
  pub informational : ℕ

pub record CronApplyPlan : Type 0 where
  pub source_user : Bytes
  pub destination_user : Bytes
  pub ops : List CronPlanOp
  pub informational : List CronPlanInfo
  pub summary : CronPlanSummary

unfoldable pub cron_schedule_str : CronJobEntry → Bytes
unfolding join_with
cron_schedule_str j =
    if eqb j.kind (lit "macro")
    then j.macro
    else join_with (lit " ") (j.minute ∷ j.hour ∷ j.day_of_month ∷ j.month ∷ j.day_of_week ∷ [])

unfoldable pub cron_job_line : CronJobEntry → Bytes
unfolding cron_schedule_str
cron_job_line j =
    if not (is_empty j.raw_line)
    then j.raw_line
    else if eqb j.kind (lit "macro")
    then j.macro ++ (lit " " ++ j.command_clear)
    else cron_schedule_str j ++ (lit " " ++ j.command_clear)

unfoldable pub cron_env_line : CronEnvEntry → Bytes
cron_env_line e = e.name ++ (lit "=" ++ e.value_clear)

-- `strings.ReplaceAll`, with the number of bytes that are still to be passed over.
unfoldable pub replace_from : (old new : Bytes) → ℕ → Bytes → Bytes
replace_from old new n [] = []
replace_from old new (suc n) (b ∷ s) = replace_from old new n s
replace_from old new zero (b ∷ s) = elim (has_prefix (b ∷ s) old) [
  | true ↦ new ++ replace_from old new (length old - 1) s
  | false ↦ b ∷ replace_from old new 0 s
]

unfoldable pub adapt_cron_path : (line src_user dest_user : Bytes) → Bytes × Bool
unfolding replace_from
adapt_cron_path line src_user dest_user =
    let old = lit "/home/" ++ (src_user ++ lit "/") in
    let new = lit "/home/" ++ (dest_user ++ lit "/") in
    if eqb src_user dest_user || (is_empty src_user || is_empty dest_user)
    then (line, false)
    else if not (contains line old)
    then (line, false)
    else (replace_from old new 0 line, true)

unfoldable pub cron_jobs_equivalent : CronJobEntry → CronJobEntry → Bool
unfolding cron_schedule_str
cron_jobs_equivalent a b =
    if not (eqb (cron_schedule_str a) (cron_schedule_str b)) || not (same_bool a.enabled b.enabled)
    then false
    else if a.command_collected && b.command_collected
    then eqb a.command_clear b.command_clear
    else eqb a.command_sha256 b.command_sha256

unfoldable pub cron_envs_equivalent : CronEnvEntry → CronEnvEntry → Bool
cron_envs_equivalent a b =
    if not (eqb a.name b.name)
    then false
    else if a.value_collected && b.value_collected
    then eqb a.value_clear b.value_clear
    else eqb a.value_redacted b.value_redacted

-- The value of a job that a reviewer reads.
abbrev pub job_value : CronJobEntry → Bytes
job_value j = cron_schedule_str j ++ (lit " enabled=" ++ format_bool j.enabled)

-- `var op CronPlanOp` with what every case shares; each case sets the action.
abbrev pub new_op : CronPlanSection → (key source_value destination_value : Bytes) → CronPlanOp
new_op section key source_value destination_value = record {
  section = section;
  action = manual;
  key = key;
  reason = [];
  line = [];
  source_line = [];
  path_adapted = false;
  source_value = source_value;
  destination_value = destination_value;
}

abbrev pub first_value : Option CronGroup → Bytes
first_value none = []
first_value (some g) = job_value g.first

-- The two cases of the switch on an enabled job whose command the destination runs, and the default.
abbrev pub decide_job :
    (src_user dest_user : Bytes) → CronJobEntry → CronPlanOp → Option CronGroup → CronPlanOp
decide_job src_user dest_user j op (some g) =
    if cron_jobs_equivalent j g.first
    then record op { action = skip; line = cron_job_line j }
    else record op {
      action = manual;
      reason =
          lit
            "the destination has a job with the same command but different schedule or enabled state "
          ++ (dash ++ lit " resolve by hand");
    }
decide_job src_user dest_user j op none =
    let adapted = adapt_cron_path (cron_job_line j) src_user dest_user in
    record op {
      action = create;
      source_line = cron_job_line j;
      line = adapted.0;
      path_adapted = adapted.1;
    }

-- The body of the loop over the jobs of the source, from `op :=` on.
unfoldable pub job_op : (src_user dest_user : Bytes) → List CronGroup → CronJobEntry → CronPlanOp
unfolding cron_jobs_equivalent cron_job_line cron_schedule_str adapt_cron_path group_at
job_op src_user dest_user dest_by_hash j =
    let dest_jobs = group_at j.command_sha256 dest_by_hash in
    let op = new_op cron_jobs j.command_redacted (job_value j) (first_value dest_jobs) in
    if not j.command_collected
    then record op {
      action = manual;
      reason =
          lit "the source inventory carries no raw cron command (pre-2A artifact) "
          ++ (dash ++ lit " re-run --account-inventory on the source, then re-plan");
    }
    else if not j.enabled
    then record op {
      action = manual;
      reason =
          lit "disabled cron job "
          ++ (dash ++ lit " the operator decides whether to recreate it on the destination");
    }
    else decide_job src_user dest_user j op dest_jobs

-- The bodies of the loops run for the first entry of a key only.
abbrev pub is_seen : Bytes → List Bytes → Bool
is_seen key seen = any (eqb key) seen

-- The loop over the jobs of the source, from the digests that it has seen.
unfoldable pub job_ops :
    (src_user dest_user : Bytes)
    → List CronGroup
    → (seen : List Bytes) → List CronJobEntry
    → List CronPlanOp
unfolding job_op
job_ops src_user dest_user dest_by_hash seen [] = []
job_ops src_user dest_user dest_by_hash seen (j ∷ jobs) = elim (is_seen j.command_sha256 seen) [
  | true ↦ job_ops src_user dest_user dest_by_hash seen jobs
  | false ↦
      job_op src_user dest_user dest_by_hash j
      ∷ job_ops src_user dest_user dest_by_hash (j.command_sha256 ∷ seen) jobs
]

-- `srcSeen` after the loop over the source: the digests of its jobs.
abbrev pub job_digests : List CronJobEntry → List Bytes
job_digests [] = []
job_digests (j ∷ jobs) = j.command_sha256 ∷ job_digests jobs

unfoldable pub job_infos : (seen : List Bytes) → List CronJobEntry → List CronPlanInfo
unfolding cron_schedule_str
job_infos seen [] = []
job_infos seen (j ∷ jobs) =
    let rest = job_infos seen jobs in
    if is_seen j.command_sha256 seen
    then rest
    else record { section = cron_jobs; key = j.command_redacted; value = cron_schedule_str j }
      ∷ rest

-- `destByName[e.Name] = e`
unfoldable pub put_env : CronEnvEntry → List CronEnvEntry → List CronEnvEntry
put_env e [] = e ∷ []
put_env e (old ∷ envs) =
    let rest = put_env e envs in if eqb old.name e.name then e ∷ envs else old ∷ rest

unfoldable pub index_envs : List CronEnvEntry → List CronEnvEntry → List CronEnvEntry
unfolding put_env
index_envs m [] = m
index_envs m (e ∷ envs) = index_envs (put_env e m) envs

unfoldable pub env_at : Bytes → List CronEnvEntry → Option CronEnvEntry
env_at name [] = none
env_at name (e ∷ envs) = if eqb e.name name then some e else env_at name envs

abbrev pub shown_value : Option CronEnvEntry → Bytes
shown_value none = []
shown_value (some d) = d.value_redacted

-- The cases of the switch on a variable whose value was collected.
abbrev pub decide_env : CronEnvEntry → CronPlanOp → Option CronEnvEntry → CronPlanOp
decide_env e op none = record op { action = create; line = cron_env_line e }
decide_env e op (some d) =
    if cron_envs_equivalent e d
    then record op { action = skip; line = cron_env_line e }
    else record op {
      action = manual;
      reason =
          lit "env "
          ++ (e.name
              ++ (lit " has different value on destination ("
                  ++ (e.value_redacted
                      ++ (lit " vs "
                          ++ (d.value_redacted
                              ++ (lit ") " ++ (dash ++ lit " resolve by hand")))))));
    }

-- The body of the loop over the environment of the source.
unfoldable pub env_op : List CronEnvEntry → CronEnvEntry → CronPlanOp
unfolding cron_envs_equivalent cron_env_line env_at
env_op dest_by_name e =
    let d = env_at e.name dest_by_name in
    let op = new_op cron_env e.name e.value_redacted (shown_value d) in
    if not e.value_collected
    then record op {
      action = manual;
      reason =
          lit "source env value not collected (pre-2A artifact) "
          ++ (dash ++ lit " re-run inventory");
    }
    else decide_env e op d

unfoldable pub env_ops :
    List CronEnvEntry → (seen : List Bytes) → List CronEnvEntry → List CronPlanOp
unfolding env_op
env_ops dest_by_name seen [] = []
env_ops dest_by_name seen (e ∷ envs) = elim (is_seen e.name seen) [
  | true ↦ env_ops dest_by_name seen envs
  | false ↦ env_op dest_by_name e ∷ env_ops dest_by_name (e.name ∷ seen) envs
]

abbrev env_names : List CronEnvEntry → List Bytes
env_names [] = []
env_names (e ∷ envs) = e.name ∷ env_names envs

unfoldable pub env_infos : (seen : List Bytes) → List CronEnvEntry → List CronPlanInfo
env_infos seen [] = []
env_infos seen (e ∷ envs) =
    let rest = env_infos seen envs in
    if is_seen e.name seen
    then rest
    else record { section = cron_env; key = e.name; value = e.value_redacted } ∷ rest

abbrev pub is_env : CronPlanSection → Bool
is_env cron_jobs = false
is_env cron_env = true

-- The order of the operations: the environment first, then by key.
abbrev pub op_before : CronPlanOp → CronPlanOp → Bool
op_before a b =
    if not (same_bool (is_env a.section) (is_env b.section))
    then is_env a.section
    else text_less a.key b.key

abbrev count_action : CronPlanSummary → CronAction → CronPlanSummary
count_action sum create = record sum { creates = sum.creates + 1 }
count_action sum skip = record sum { skips = sum.skips + 1 }
count_action sum manual = record sum { manuals = sum.manuals + 1 }

unfoldable pub count_actions : CronPlanSummary → List CronPlanOp → CronPlanSummary
count_actions sum [] = sum
count_actions sum (op ∷ ops) = count_actions (count_action sum op.action) ops

abbrev pub no_actions : CronPlanSummary
no_actions = record { creates = 0; skips = 0; manuals = 0; informational = 0 }

-- The operations and the lists of `planCronJobs` and of `planCronEnvs`, in that order.
unfoldable pub plan_ops : (src dest : NormalizedInventory) → List CronPlanOp
unfolding job_ops env_ops index_envs
plan_ops src dest =
    job_ops src.user dest.user (group_jobs [] dest.cron.jobs) [] src.cron.jobs
    ++ env_ops (index_envs [] dest.cron.environment) [] src.cron.environment

unfoldable pub plan_infos : (src dest : NormalizedInventory) → List CronPlanInfo
unfolding job_infos env_infos
plan_infos src dest =
    job_infos (job_digests src.cron.jobs) dest.cron.jobs
    ++ env_infos (env_names src.cron.environment) dest.cron.environment

unfoldable pub build_cron_plan : (src dest : NormalizedInventory) → CronApplyPlan
unfolding plan_ops plan_infos count_actions
build_cron_plan src dest =
    let ops = sort_by op_before (plan_ops src dest) in
    let infos = plan_infos src dest in
    if not src.cron.available || not dest.cron.available
    then record {
      source_user = src.user;
      destination_user = dest.user;
      ops = [];
      informational = [];
      summary = no_actions;
    }
    else record {
      source_user = src.user;
      destination_user = dest.user;
      ops = ops;
      informational = infos;
      summary = record (count_actions no_actions ops) { informational = length infos };
    }
