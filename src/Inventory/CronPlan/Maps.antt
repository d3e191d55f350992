-- ===== src/Inventory/CronPlan/Maps.antt =====
-- internal/accountinventory/cronplan.go: what the maps of the destination's jobs and variables hold.
use c_panel_self_migration.Prelude.{
  Bool, true, false, List, [], ◌∷◌, any, Bytes, eqb, eqb_iff, if◌then◌else◌, Option, none, some,
  ◌≡◌, refl, arith, Bool-cases, inl, inr,
}
use c_panel_self_migration.Inventory.{CronJobEntry, CronEnvEntry}
use c_panel_self_migration.Inventory.Diff.Cron.{CronGroup, add_job, group_jobs, group_at}
use c_panel_self_migration.Inventory.CronPlan.{put_env, index_envs, env_at}

abbrev pub runs_command : Bytes → CronJobEntry → Bool
runs_command sha d = eqb d.command_sha256 sha

abbrev pub sets_name : Bytes → CronEnvEntry → Bool
sets_name name d = eqb d.name name

abbrev pub first_of : Option CronGroup → Option CronJobEntry
first_of none = none
first_of (some g) = some g.first

abbrev pub first_job : Bytes → List CronJobEntry → Option CronJobEntry
first_job sha [] = none
first_job sha (j ∷ jobs) =
    let rest = first_job sha jobs in if runs_command sha j then some j else rest

abbrev or_else : {A : Type 0} → Option A → Option A → Option A
or_else (some a) o = some a
or_else none o = o

first_of-add_job :
    (sha : Bytes) (j : CronJobEntry) (gs : List CronGroup)
    → first_of (group_at sha (add_job j gs))
      ≡ or_else (first_of (group_at sha gs)) (if runs_command sha j then some j else none)
unfolding group_at add_job
first_of-add_job sha j [] = ground arith
first_of-add_job sha j (g ∷ gs) = ground (
  arith,
  eqb_iff g.sha j.command_sha256,
  eqb_iff g.sha sha,
  eqb_iff j.command_sha256 sha,
  first_of-add_job sha j gs,
)

or_else_assoc : {A : Type 0} (a b c : Option A) → or_else (or_else a b) c ≡ or_else a (or_else b c)
or_else_assoc (some a) b c = refl
or_else_assoc none b c = refl

-- The first of the jobs that the map keeps for a digest is the first job with the digest.
pub first_of-group_jobs :
    (sha : Bytes) (gs : List CronGroup) (jobs : List CronJobEntry)
    → first_of (group_at sha (group_jobs gs jobs))
      ≡ or_else (first_of (group_at sha gs)) (first_job sha jobs)
unfolding group_jobs
first_of-group_jobs sha gs [] = ground arith
first_of-group_jobs sha gs (j ∷ jobs) =
    ground (arith, first_of-group_jobs sha (add_job j gs) jobs, first_of-add_job sha j gs)

pub first_job-none :
    (sha : Bytes) (jobs : List CronJobEntry)
    → first_job sha jobs ≡ none
    → any (runs_command sha) jobs ≡ false
first_job-none sha [] h = refl
first_job-none sha (j ∷ jobs) h = ground (arith, first_job-none sha jobs, h)

pub first_job-some :
    (p : CronJobEntry → Bool) (sha : Bytes) (d : CronJobEntry) (jobs : List CronJobEntry)
    → first_job sha jobs ≡ some d
    → p d ≡ true
    → any p jobs ≡ true
first_job-some p sha d [] h t = absurd (ground (arith, h))
first_job-some p sha d (j ∷ jobs) h t = elim (Bool-cases (runs_command sha j)) [
  | inl here ↦ ground (arith, h, t, here)
  | inr later ↦ ground (arith, first_job-some p sha d jobs (ground (arith, h, later)) t)
]

pub first_job-found :
    (sha : Bytes) (d : CronJobEntry) (jobs : List CronJobEntry)
    → first_job sha jobs ≡ some d
    → any (runs_command sha) jobs ≡ true
first_job-found sha d [] h = absurd (ground (arith, h))
first_job-found sha d (j ∷ jobs) h = ground (arith, h, first_job-found sha d jobs)

pub last_env : Bytes → List CronEnvEntry → Option CronEnvEntry
last_env name [] = none
last_env name (e ∷ envs) = or_else (last_env name envs) (if sets_name name e then some e else none)

env_at-put_env :
    (name : Bytes) (e : CronEnvEntry) (envs : List CronEnvEntry)
    → env_at name (put_env e envs) ≡ (if sets_name name e then some e else env_at name envs)
unfolding env_at put_env
env_at-put_env name e [] = refl
env_at-put_env name e (old ∷ envs) = ground (
  arith,
  eqb_iff old.name e.name,
  eqb_iff e.name name,
  eqb_iff old.name name,
  env_at-put_env name e envs,
)

-- The map keeps the last variable of a name.
pub env_at-index_envs :
    (name : Bytes) (m envs : List CronEnvEntry)
    → env_at name (index_envs m envs) ≡ or_else (last_env name envs) (env_at name m)
unfolding index_envs last_env
env_at-index_envs name m [] = refl
env_at-index_envs name m (e ∷ envs) =
    ground (arith, env_at-index_envs name (put_env e m) envs, env_at-put_env name e m)

pub last_env-none :
    (name : Bytes) (envs : List CronEnvEntry)
    → last_env name envs ≡ none
    → any (sets_name name) envs ≡ false
unfolding last_env
last_env-none name [] h = refl
last_env-none name (e ∷ envs) h = ground (arith, last_env-none name envs, h)

pub last_env-some :
    (p : CronEnvEntry → Bool) (name : Bytes) (d : CronEnvEntry) (envs : List CronEnvEntry)
    → last_env name envs ≡ some d
    → p d ≡ true
    → any p envs ≡ true
unfolding last_env
last_env-some p name d [] h t = absurd (ground (arith, h))
last_env-some p name d (e ∷ envs) h t = ground (arith, h, t, last_env-some p name d envs)

pub last_env-found :
    (name : Bytes) (d : CronEnvEntry) (envs : List CronEnvEntry)
    → last_env name envs ≡ some d
    → any (sets_name name) envs ≡ true
unfolding last_env
last_env-found name d [] h = absurd (ground (arith, h))
last_env-found name d (e ∷ envs) h = ground (arith, h, last_env-found name d envs)
