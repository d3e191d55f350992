-- ===== src/Webui/Job/Pipeline.antt =====
-- internal/webui/job.go: the steps of the analysis of a run directory. `join` is `filepath.Join`, and
-- `exists` and `is_apply` are what `fileExists` and `isApplyReport` find on the disk.
use c_panel_self_migration.Prelude.{
  Bool, true, false, List, [], ◌∷◌, ◌++◌, Bytes, lit, if◌then◌else◌,
}
use c_panel_self_migration.Webui.Job.{Step}

module _ (join : Bytes → Bytes → Bytes) (exists is_apply : Bytes → Bool) where
  unfoldable pub dns_plan_step : (dir : Bytes) → Step
  dns_plan_step dir = record {
    name = lit "inventory dns-plan";
    tolerant = true;
    argv =
        lit "inventory"
        ∷ lit "dns-plan"
        ∷ lit "--source"
        ∷ join dir (lit "inventory_source.json")
        ∷ lit "--destination"
        ∷ join dir (lit "inventory_destination.json")
        ∷ lit "--output-json"
        ∷ join dir (lit "dns_import_plan.json")
        ∷ lit "--output-md"
        ∷ join dir (lit "dns_import_plan.md")
        ∷ [];
  }

  abbrev optional : Bool → (flag path : Bytes) → List Bytes
  optional present flag path = if present then flag ∷ path ∷ [] else []

  unfoldable pub checklist_step : (dir : Bytes) → Step
  checklist_step dir = record {
    name = lit "inventory checklist";
    tolerant = false;
    argv =
        (lit "inventory"
          ∷ lit "checklist"
          ∷ lit "--source"
          ∷ join dir (lit "inventory_source.json")
          ∷ lit "--destination"
          ∷ join dir (lit "inventory_destination.json")
          ∷ lit "--diff"
          ∷ join dir (lit "inventory_diff.json")
          ∷ lit "--policy"
          ∷ join dir (lit "policy_report.json")
          ∷ lit "--output-json"
          ∷ join dir (lit "migration_checklist.json")
          ∷ lit "--output-md"
          ∷ join dir (lit "migration_checklist.md")
          ∷ [])
        ++ (optional (exists (join dir (lit "dns_import_plan.json"))) (lit "--dns-plan")
              (join dir (lit "dns_import_plan.json"))
            ++ (optional (is_apply (join dir (lit "report.json"))) (lit "--migration-report")
                  (join dir (lit "report.json"))
                ++ optional (exists (join dir (lit "acceptances.json"))) (lit "--acceptances")
                    (join dir (lit "acceptances.json"))));
  }

  unfoldable pub pipeline_steps : (dir : Bytes) → List Step
  unfolding dns_plan_step checklist_step
  pipeline_steps dir =
      let src = join dir (lit "inventory_source.json") in
      let dst = join dir (lit "inventory_destination.json") in
      let diff = join dir (lit "inventory_diff.json") in
      let policy = join dir (lit "policy_report.json") in
      record {
        name = lit "account inventory";
        tolerant = false;
        argv =
            lit "--account-inventory"
            ∷ lit "--config"
            ∷ join dir (lit "host.yaml")
            ∷ lit "--output-dir"
            ∷ dir
            ∷ [];
      }
      ∷ record {
        name = lit "inventory diff";
        tolerant = false;
        argv =
            lit "inventory"
            ∷ lit "diff"
            ∷ lit "--source"
            ∷ src
            ∷ lit "--destination"
            ∷ dst
            ∷ lit "--output-json"
            ∷ diff
            ∷ lit "--output-md"
            ∷ join dir (lit "inventory_diff.md")
            ∷ [];
      }
      ∷ record {
        name = lit "inventory policy";
        tolerant = false;
        argv =
            lit "inventory"
            ∷ lit "policy"
            ∷ lit "--diff"
            ∷ diff
            ∷ lit "--output-json"
            ∷ policy
            ∷ lit "--output-md"
            ∷ join dir (lit "policy_report.md")
            ∷ [];
      }
      ∷ dns_plan_step dir
      ∷ checklist_step dir
      ∷ []
