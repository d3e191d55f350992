-- ===== src/Workbench/Store/Sound.antt =====
-- internal/workbench/store.go and artifacts.go: the calls of the store and its invariant.
use c_panel_self_migration.Prelude.{
  ℕ, Bool, true, false, not, ◌||◌, Bytes, if◌then◌else◌, Option, none, some, Result, ok, err, ◌≡◌,
  refl, arith, inl, inr, Result-cases, Option-cases,
}
use c_panel_self_migration.Events.Redact.{Unicode}
use c_panel_self_migration.Workbench.Status.{Status, can_transition}
use c_panel_self_migration.Workbench.Session.{
  Session, ContentSelection, SetupMeta, new_session, with_status, with_scope, with_artifact,
}
use c_panel_self_migration.Workbench.Session.Audit.{
  new_session-IsAudited, with_status-IsAudited, with_scope-IsAudited, with_artifact-IsAudited,
}
use c_panel_self_migration.Workbench.Store.Disk.{no_file, Folders, slot_at, put_slot, drop_slot}
use c_panel_self_migration.Workbench.Store.{
  lock_failed, StoreError, read_session, write_session, saved, save_with, with_copy, check_request,
  movable, create_with_setup, set_status, confirm_scope, attach_artifact,
}
use c_panel_self_migration.Workbench.Store.Kept.{
  IsKept, IsSound, movable-legal, put_no_file-IsSound, drop-IsSound, read_session-IsKept,
  saved-IsSound, save_with-IsSound,
}

module _ (version : Bytes) (id : Bytes) (sess : Session) (now : ℕ) (kept : IsKept id sess) where
  with_status-IsKept :
      (to : Status) (force : Bool) (reason : Bytes)
      → (force || can_transition sess.status to) ≡ true
      → IsKept id (with_status version sess to force reason now)
  unfolding with_status
  with_status-IsKept to force reason legal = record {
    clean = kept.clean;
    named = kept.named;
    audited = with_status-IsAudited version sess to force reason now kept.audited legal;
  }

  with_scope-IsKept : (content : ContentSelection) → IsKept id (with_scope version sess content now)
  unfolding with_scope
  with_scope-IsKept content = record {
    clean = kept.clean;
    named = kept.named;
    audited = with_scope-IsAudited version sess content now kept.audited;
  }

  with_artifact-IsKept :
      (kind path sha256 : Bytes) → IsKept id (with_artifact version sess kind path sha256 now)
  unfolding with_artifact
  with_artifact-IsKept kind path sha256 = record {
    clean = kept.clean;
    named = kept.named;
    audited = with_artifact-IsAudited version sess kind path sha256 now kept.audited;
  }

module _ (u : Unicode) (version : Bytes) (artifact_dir : Bytes → Bytes) where
  pub set_status-IsSound :
      (locked written : Bool) (st : Folders) (id : Bytes) (to : Status) (force : Bool)
      (reason : Bytes) (now : ℕ)
      → IsSound st
      → IsSound (set_status u version artifact_dir locked written st id to force reason now).1
  unfolding set_status
  set_status-IsSound locked written st id to force reason now sound =
      elim (Result-cases (check_request u to force reason)) [
        | inr (_, e) ↦ rw (e, set_status) sound
        | inl (_, e) ↦ rw (e, set_status) (by_lock locked)
      ]
    where
      moved_session :
          (sess : Session)
          → movable st id to force ≡ ok sess
          → IsKept id (with_status version sess to force reason now)
      moved_session sess moved =
          let (read, legal) = movable-legal st id to force sess moved in
          with_status-IsKept version id sess now (read_session-IsKept st id sess sound read) to
            force reason legal

      by_lock :
          (locked : Bool)
          → IsSound (
              (if not locked
                then (err lock_failed, st)
                else save_with written st id
                    (λ sess. with_status version sess to force reason now)
                    (movable st id to force)).1)
      by_lock false = sound
      by_lock true =
          save_with-IsSound written st id (λ sess. with_status version sess to force reason now)
            (movable st id to force) sound moved_session

  pub confirm_scope-IsSound :
      (locked written : Bool) (st : Folders) (id : Bytes) (content : ContentSelection) (now : ℕ)
      → IsSound st
      → IsSound (confirm_scope u version artifact_dir locked written st id content now).1
  unfolding confirm_scope
  confirm_scope-IsSound false written st id content now sound = sound
  confirm_scope-IsSound true written st id content now sound =
      save_with-IsSound written st id (λ sess. with_scope version sess content now)
        (read_session st id) sound
        λ sess read.
          with_scope-IsKept version id sess now (read_session-IsKept st id sess sound read) content

  with_copy-IsSound :
      (written : Bool) (st : Folders) (id kind : Bytes) (now : ℕ) (copied : Option (Bytes × Bytes))
      (r : Result StoreError Session)
      → IsSound st
      → ((sess : Session) → r ≡ ok sess → IsKept id sess)
      → IsSound (with_copy version written st id kind now copied r).1
  with_copy-IsSound written st id kind now copied (err e) sound kept = sound
  with_copy-IsSound written st id kind now none (ok sess) sound kept = sound
  with_copy-IsSound written st id kind now (some (path, sha)) (ok sess) sound kept =
      save_with-IsSound written st id (λ s. with_artifact version s kind path sha now) (ok sess)
        sound
        λ other same_session.
          with_artifact-IsKept version id other now (kept other same_session) kind path sha

  pub attach_artifact-IsSound :
      (locked regular written : Bool) (copied : Option (Bytes × Bytes)) (st : Folders)
      (id kind : Bytes) (now : ℕ)
      → IsSound st
      → IsSound
          (attach_artifact u version artifact_dir locked regular written copied st id kind now).1
  unfolding attach_artifact
  attach_artifact-IsSound locked regular written copied st id kind now sound = ground (
    arith,
    sound,
    with_copy-IsSound written st id kind now copied (read_session st id) sound
        λ sess read. read_session-IsKept st id sess sound read,
  )

  pub create_with_setup-IsSound :
      (locked made made_artifacts written : Bool) (st : Folders) (fresh : Option Bytes)
      (name source dest : Bytes) (meta : Option SetupMeta) (now : ℕ)
      → IsSound st
      → IsSound
          (create_with_setup u version artifact_dir locked made made_artifacts written st fresh name
            source dest meta now).1
  unfolding create_with_setup new_session
  create_with_setup-IsSound locked made made_artifacts written st none name source dest meta now
        sound =
      sound
  create_with_setup-IsSound locked made made_artifacts written st (some id) name source dest meta
        now sound =
      elim (Option-cases (slot_at id st)) [
        | inr (_, taken) ↦ rw (taken, create_with_setup) (ground (arith, sound))
        | inl free ↦ ground (arith, sound, free, made_sound, put_no_file-IsSound st id sound)
      ]
    where
      sess : Session
      sess = new_session id name source dest (artifact_dir id) version meta now

      st1 : Folders
      st1 = put_slot id no_file st

      made_sound : IsSound (saved (drop_slot id st1) sess (write_session written st1 id sess)).1
      made_sound =
          saved-IsSound written st1 id sess (drop_slot id st1) (put_no_file-IsSound st id sound)
            (drop-IsSound st1 id (put_no_file-IsSound st id sound))
            λ clean. record {
              clean = clean;
              named = refl;
              audited =
                  new_session-IsAudited id name source dest (artifact_dir id) version meta now;
            }
