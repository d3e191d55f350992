-- ===== src/Workbench/Store.antt =====
-- internal/workbench/store.go and artifacts.go: the store of sessions, one folder for each.
-- What the operating system answers to a call (the lock, each directory) and the outcome of the write
-- of session.json and of the copy of an artifact are arguments; the store is what stands in the
-- session files. Store/Files has the calls of those two writes one by one, with the temporary files
-- and their removal. Both locks are held for a whole call, so calls follow one another.
pub mod Files
pub mod Disk
pub mod Kept
pub mod Sound
pub mod Calls
pub mod Effects
use c_panel_self_migration.Prelude.{
  ℕ, Bool, true, false, not, ◌||◌, ◌&&◌, List, [], ◌∷◌, ◌++◌, Bytes, lit, eqb, any, is_empty, ltb,
  length, contains_byte, ◌==◌, if◌then◌else◌, Option, none, some, Result, ok, err, ◌>>=◌, ◌>>◌,
  refuse_if,
}
use c_panel_self_migration.Events.Redact.{Unicode}
use c_panel_self_migration.Workbench.Status.{Status, valid_status, StatusError, validate_transition}
use c_panel_self_migration.Workbench.Session.{
  Session, ContentSelection, SetupMeta, new_session, with_status, with_scope, with_artifact,
}
use c_panel_self_migration.Workbench.Store.Disk.{
  Slot, no_file, corrupted, stored, Folders, slot_at, put_slot, drop_slot,
}

pub data StoreError : Type 0 where
  invalid_session_id session_not_found unreadable id_mismatch collision : StoreError
  invalid_target_status : Status → StoreError
  short_reason : ℕ → StoreError
  transition : StatusError → StoreError
  unknown_artifact_kind bad_artifact_source lock_failed no_id io_failed : StoreError

-- `filepath.Base`: the trailing slashes go, then all up to the last slash that is left.
unfoldable pub trim_slashes : Bytes → Bytes
trim_slashes [] = []
trim_slashes (c ∷ s) =
    let rest = trim_slashes s in if is_empty rest && c == b'/' then [] else c ∷ rest

unfoldable pub after_slash : Bytes → Bytes
after_slash [] = []
after_slash (c ∷ s) =
    let rest = after_slash s in
    if contains_byte b'/' s then rest else if c == b'/' then s else c ∷ s

abbrev slash_if_empty : Bytes → Bytes
slash_if_empty [] = lit "/"
slash_if_empty (c ∷ s) = c ∷ s

unfoldable pub base : Bytes → Bytes
unfolding trim_slashes after_slash
base [] = lit "."
base (c ∷ s) = slash_if_empty (after_slash (trim_slashes (c ∷ s)))

unfoldable pub is_clean_id : Bytes → Bool
is_clean_id id =
    if is_empty id || eqb id (lit ".") || eqb id (lit "..")
    then false
    else if any (λ c. c == b'/' || c == b'\\' || c == 0) id
    then false
    else eqb (base id) id

abbrev pub read_slot : Bytes → Option Slot → Result StoreError Session
read_slot id none = err session_not_found
read_slot id (some no_file) = err session_not_found
read_slot id (some corrupted) = err unreadable
read_slot id (some (stored sess)) = if eqb sess.id id then ok sess else err id_mismatch

unfoldable pub read_session : Folders → Bytes → Result StoreError Session
read_session st id = do
  refuse_if (not (is_clean_id id)) invalid_session_id
  read_slot id (slot_at id st)

-- The effect of `writeSession` on the session files. `written` is its outcome after the test of the
-- id, which `write_session_file` of Store/Files details.
unfoldable pub write_session :
    (written : Bool) → Folders → Bytes → Session → Result StoreError Folders
write_session written st id sess = do
  refuse_if (not (is_clean_id id)) invalid_session_id
  refuse_if (not written) io_failed
  ok (put_slot id (stored sess) st)

abbrev pub Outcome : Type 0
Outcome = Result StoreError Session × Folders

-- The last lines of each change: the session is written, and the caller gets it.
abbrev pub saved : Folders → Session → Result StoreError Folders → Outcome
saved st sess (ok st') = (ok sess, st')
saved st sess (err e) = (err e, st)

-- A change of the session that has been read, written back.
abbrev pub save_with :
    (written : Bool) → Folders → Bytes → (Session → Session) → Result StoreError Session → Outcome
save_with written st id change (err e) = (err e, st)
save_with written st id change (ok sess) =
    saved st (change sess) (write_session written st id (change sess))

unfoldable pub artifact_kinds : List Bytes
artifact_kinds =
    lit "inventory_source"
    ∷ lit "inventory_destination"
    ∷ lit "inventory_diff"
    ∷ lit "policy_report"
    ∷ lit "dns_plan"
    ∷ lit "migration_checklist"
    ∷ lit "acceptances"
    ∷ lit "apply_report"
    ∷ lit "dns_apply_report"
    ∷ lit "dns_verify_report"
    ∷ lit "email_plan"
    ∷ lit "email_apply_report"
    ∷ lit "email_verify_report"
    ∷ lit "cron_plan"
    ∷ lit "cron_apply_report"
    ∷ lit "cron_verify_report"
    ∷ lit "events_jsonl"
    ∷ []

unfoldable pub valid_artifact_kind : Bytes → Bool
valid_artifact_kind k = any (λ v. eqb v k) artifact_kinds

abbrev pub status_result : Result StatusError (Unit {0}) → Result StoreError (Unit {0})
status_result (ok _) = ok tt
status_result (err e) = err (transition e)

-- The two tests of `SetStatus` in front of the lock.
unfoldable pub check_request : Unicode → Status → Bool → Bytes → Result StoreError (Unit {0})
check_request u to force reason = do
  refuse_if (not (valid_status to)) (invalid_target_status to)
  refuse_if (force && ltb (length (u.trim_space reason)) 10)
      (short_reason (length (u.trim_space reason)))

-- The session that `SetStatus` goes on to change.
unfoldable pub movable : Folders → Bytes → Status → Bool → Result StoreError Session
movable st id to force = do
  sess ← read_session st id
  if force then ok tt else status_result (validate_transition sess.status to)
  ok sess

-- The end of `AttachArtifact`, from the session that it has read on, as to the session. The file of
-- the copy is in `attach_files` of Store/Files.
abbrev pub with_copy :
    Bytes
    → (written : Bool) → Folders
    → Bytes
    → Bytes
    → ℕ
    → Option (Bytes × Bytes)
    → Result StoreError Session
    → Outcome
with_copy version written st id kind now copied (err e) = (err e, st)
with_copy version written st id kind now none (ok sess) = (err io_failed, st)
with_copy version written st id kind now (some (path, sha)) (ok sess) =
    save_with written st id (λ s. with_artifact version s kind path sha now) (ok sess)

-- The version text of the tool, and `filepath.Join(root, id, "artifacts")`.
module _ (u : Unicode) (version : Bytes) (artifact_dir : Bytes → Bytes) where
  -- `CreateWithSetup`. `id` is what `generateID` gives; `made` and `made_artifacts` are the results
  -- of the two calls of `Mkdir`.
  unfoldable pub create_with_setup :
      (locked made made_artifacts written : Bool)
      → Folders
      → Option Bytes
      → (name source_profile dest_profile : Bytes) → Option SetupMeta
      → ℕ
      → Outcome
  create_with_setup locked made made_artifacts written st none name source dest meta now =
      (err (if locked then no_id else lock_failed), st)
  create_with_setup locked made made_artifacts written st (some id) name source dest meta now =
      let sess = new_session id name source dest (artifact_dir id) version meta now in
      let st1 = put_slot id no_file st in
      if not locked then (err lock_failed, st) else elim (slot_at id st) [
        | some _ ↦ (err collision, st)
        | none ↦
            if not made
            then (err io_failed, st)
            else if not made_artifacts
            then (err io_failed, st1)
            else saved (drop_slot id st1) sess (write_session written st1 id sess)
      ]

  unfoldable pub set_status :
      (locked written : Bool) → Folders → Bytes → Status → Bool → Bytes → ℕ → Outcome
  set_status locked written st id to force reason now = elim (check_request u to force reason) [
    | err e ↦ (err e, st)
    | ok _ ↦
        if not locked
        then (err lock_failed, st)
        else save_with written st id (λ sess. with_status version sess to force reason now)
            (movable st id to force)
  ]

  unfoldable pub confirm_scope :
      (locked written : Bool) → Folders → Bytes → ContentSelection → ℕ → Outcome
  confirm_scope locked written st id content now =
      if not locked
      then (err lock_failed, st)
      else save_with written st id (λ sess. with_scope version sess content now)
          (read_session st id)

  -- `AttachArtifact`. `regular` says that the source opens as a regular file; `copied` is the path
  -- and the digest of the copy, if it succeeds.
  unfoldable pub attach_artifact :
      (locked regular written : Bool)
      → Option (Bytes × Bytes)
      → Folders
      → Bytes
      → Bytes
      → ℕ
      → Outcome
  attach_artifact locked regular written copied st id kind now =
      if not (valid_artifact_kind kind)
      then (err unknown_artifact_kind, st)
      else if not (is_clean_id id)
      then (err invalid_session_id, st)
      else if not regular
      then (err bad_artifact_source, st)
      else if not locked
      then (err lock_failed, st)
      else with_copy version written st id kind now copied (read_session st id)
