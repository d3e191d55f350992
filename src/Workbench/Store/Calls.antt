-- ===== src/Workbench/Store/Calls.antt =====
-- internal/workbench/store.go and artifacts.go: the store as a state machine. A step is one call,
-- with what the operating system answered to it.
use c_panel_self_migration.Prelude.{ℕ, Bool, [], Bytes, Option, some, ◌≡◌, arith}
use c_panel_self_migration.Events.Redact.{Unicode}
use c_panel_self_migration.Workbench.Status.{Status}
use c_panel_self_migration.Workbench.Session.{Session, ContentSelection, SetupMeta}
use c_panel_self_migration.Workbench.Store.Disk.{Folders, stored, slot_at}
use c_panel_self_migration.Workbench.Store.{
  Outcome, create_with_setup, set_status, confirm_scope, attach_artifact,
}
use c_panel_self_migration.Workbench.Store.Kept.{IsKept, IsSound}
use c_panel_self_migration.Workbench.Store.Sound.{
  set_status-IsSound, confirm_scope-IsSound, attach_artifact-IsSound, create_with_setup-IsSound,
}

pub data Call : Type 0 where
  create :
      (locked made made_artifacts written : Bool)
      → Option Bytes
      → (name source dest : Bytes) → Option SetupMeta
      → ℕ
      → Call
  move : (locked written : Bool) → Bytes → Status → (force : Bool) → (reason : Bytes) → ℕ → Call
  confirm : (locked written : Bool) → Bytes → ContentSelection → ℕ → Call
  attach : (locked regular written : Bool) → Option (Bytes × Bytes) → (id kind : Bytes) → ℕ → Call

empty-IsSound : IsSound []
unfolding slot_at
empty-IsSound id sess h = absurd (ground arith)

module _ (u : Unicode) (version : Bytes) (artifact_dir : Bytes → Bytes) where
  abbrev pub run : Call → Folders → Outcome
  run (create locked made made_artifacts written fresh name source dest meta now) st =
      create_with_setup u version artifact_dir locked made made_artifacts written st fresh name
        source dest meta now
  run (move locked written id to force reason now) st =
      set_status u version artifact_dir locked written st id to force reason now
  run (confirm locked written id content now) st =
      confirm_scope u version artifact_dir locked written st id content now
  run (attach locked regular written copied id kind now) st =
      attach_artifact u version artifact_dir locked regular written copied st id kind now

  -- The stores that calls lead to from an empty one.
  pub data Reached : Folders → Type 0 where
    at_first : Reached []
    after : {st : Folders} → Reached st → (c : Call) → Reached (run c st).1

  run-IsSound : (c : Call) (st : Folders) → IsSound st → IsSound (run c st).1
  run-IsSound (create locked made made_artifacts written fresh name source dest meta now) st sound =
      create_with_setup-IsSound u version artifact_dir locked made made_artifacts written st fresh
        name source dest meta now sound
  run-IsSound (move locked written id to force reason now) st sound =
      set_status-IsSound u version artifact_dir locked written st id to force reason now sound
  run-IsSound (confirm locked written id content now) st sound =
      confirm_scope-IsSound u version artifact_dir locked written st id content now sound
  run-IsSound (attach locked regular written copied id kind now) st sound =
      attach_artifact-IsSound u version artifact_dir locked regular written copied st id kind now
        sound

  Reached-IsSound : {st : Folders} → Reached st → IsSound st
  Reached-IsSound at_first = empty-IsSound
  Reached-IsSound (after {st} before c) = run-IsSound c st (Reached-IsSound before)

  -- After any sequence of store calls from an empty store, with any answers of the operating
  -- system, a session found on disk has a clean folder name equal to its id, and its timeline
  -- replays from draft, by forced or legal changes, to its status.
  pub Reached-IsKept :
      {st : Folders} (id : Bytes) (sess : Session)
      → Reached st
      → slot_at id st ≡ some (stored sess)
      → IsKept id sess
  Reached-IsKept id sess r h = Reached-IsSound r id sess h
