-- ===== src/Tests/Store.antt =====
-- Tests of the workbench store: one session, created and moved.
use c_panel_self_migration.Prelude.{
  ◌+◌, ◌≤◌, ◌<◌, true, false, [], ◌∷◌, ◌++◌, Bytes, lit, eqb, any, none, some, ok, err, ◌≡◌, refl,
  arith,
}
use c_panel_self_migration.Workbench.Status.{
  draft, preflight_required, inventory_ready, checklist_ready, ready_for_apply, apply_in_progress,
  apply_done, verification_required, ready_for_cutover, cutover_done, rank, same, can_transition,
  validate_transition, valid_status,
}
use c_panel_self_migration.Workbench.Status.Order.{
  ◌⟶*◌, here, step, steps, steps-le, visited, visited-mandatory, can_transition-rank,
}
use c_panel_self_migration.Workbench.Session.{Session, new_session, with_status}
use c_panel_self_migration.Workbench.Store.Disk.{Folders, stored, slot_at, put_slot, drop_slot}
use c_panel_self_migration.Workbench.Store.{
  base, trim_slashes, after_slash, is_clean_id, read_session, write_session, check_request, movable,
  create_with_setup, set_status,
}
use c_panel_self_migration.Workbench.Store.Kept.{IsKept}
use c_panel_self_migration.Workbench.Store.Calls.{
  Call, create, move, run, Reached, at_first, after, Reached-IsKept,
}
use c_panel_self_migration.Workbench.Store.Effects.{IsMoved, set_status-IsMoved}
use c_panel_self_migration.Workbench.Store.Files.{
  Disk, put_file, Answers, write_session_file, attach_files, copy_from_fd, through_temp,
  rename_failed,
}
use c_panel_self_migration.Workbench.Store.Files.Ends.{Ends, IsNewName, IsDone, IsBack}
use c_panel_self_migration.Workbench.Store.Files.Attached.{
  IsOldOrNew, IsAttached, new_text, write_session_file-Ends, attach_files-Ends,
}
use c_panel_self_migration.Tests.Library.{plain_unicode}

abbrev site : Bytes
site = lit "wb_1"

abbrev artifacts_of : Bytes → Bytes
artifacts_of id = id ++ lit "/artifacts"

abbrev created : Call
created = create true true true true (some site) (lit "site") (lit "old") (lit "new") none 100

abbrev moved : Call
moved = move true true site preflight_required false (lit "") 101

abbrev first_session : Session
first_session =
    new_session site (lit "site") (lit "old") (lit "new") (artifacts_of site) (lit "v1") none 100

abbrev second_session : Session
second_session = with_status (lit "v1") first_session preflight_required false (lit "") 101

abbrev first_store : Folders
first_store = (site, stored first_session) ∷ []

abbrev second_store : Folders
second_store =
    (run plain_unicode (lit "v1") artifacts_of moved
      (run plain_unicode (lit "v1") artifacts_of created []).1).1

second-Reached : Reached plain_unicode (lit "v1") artifacts_of second_store
second-Reached = after (after at_first created) moved

second_found : slot_at site second_store ≡ some (stored second_session)
unfolding create_with_setup set_status slot_at put_slot drop_slot write_session is_clean_id base
    trim_slashes after_slash eqb lit check_request valid_status movable read_session
    validate_transition can_transition new_session with_status
second_found = refl

Reached-IsKept_example : IsKept site second_session
Reached-IsKept_example =
    Reached-IsKept plain_unicode (lit "v1") artifacts_of site second_session second-Reached
      second_found

move_answer :
    set_status plain_unicode
      (lit "v1")
      artifacts_of
      true
      true
      first_store
      site
      preflight_required
      false
      (lit "")
      101
    ≡ (ok second_session, (site, stored second_session) ∷ [])
unfolding set_status slot_at put_slot write_session is_clean_id base trim_slashes after_slash eqb
    lit check_request valid_status movable read_session validate_transition can_transition
    new_session with_status
move_answer = refl

set_status-IsMoved_example :
    IsMoved plain_unicode
      (lit "v1")
      first_store
      site
      preflight_required
      false
      (lit "")
      101
      second_session
      ((site, stored second_session) ∷ [])
set_status-IsMoved_example =
    set_status-IsMoved plain_unicode (lit "v1") artifacts_of true true first_store site
      preflight_required false (lit "") 101 second_session ((site, stored second_session) ∷ [])
      move_answer

-- The calls on one temporary file that all succeed.
abbrev all_well : Bytes → Answers
all_well tmp = record {
  created = some tmp;
  parts = lit "{" ∷ [];
  written = true;
  synced = true;
  chmodded = true;
  closed = true;
  renamed = true;
  removed = true;
}

-- The rename fails.
abbrev no_rename : Bytes → Answers
no_rename tmp = record (all_well tmp) { renamed = false }

abbrev session_file : Bytes → Bytes
session_file id = id ++ lit "/session.json"

abbrev old_file : Disk
old_file = put_file (session_file site) (some (lit "{old}")) (λ p. none)

session_temp-IsNewName :
    IsNewName old_file (session_file site) (some (lit "wb_1/session-1.json.tmp"))
unfolding lit eqb
session_temp-IsNewName = (refl, refl)

write_session_file-Ends_example :
    Ends
      (λ _.
        IsDone old_file
          (session_file site)
          (IsOldOrNew (old_file (session_file site)) (lit "{new}"))
          (session_file site)
          (lit "{new}"))
      (IsBack old_file
        (session_file site)
        (IsOldOrNew (old_file (session_file site)) (lit "{new}")))
      (write_session_file session_file true
        (all_well (lit "wb_1/session-1.json.tmp"))
        site
        (lit "{new}")
        (record { now = old_file; past = [] }))
write_session_file-Ends_example =
    write_session_file-Ends session_file site old_file true
      (all_well (lit "wb_1/session-1.json.tmp")) (lit "{new}") refl session_temp-IsNewName

abbrev copy_path : Bytes
copy_path = lit "wb_1/artifacts/dns_plan_1.json"

-- A stand-in for the digest of Go's library.
abbrev short_digest : Bytes → Bytes
short_digest s = b'#' ∷ []

abbrev naming : Bytes → Bytes
naming hash = lit "{new " ++ hash ++ lit "}"

copy_path_free : (old_file copy_path ≡ none) × (eqb copy_path (session_file site) ≡ false)
unfolding lit eqb
copy_path_free = (refl, refl)

copy_temp-IsNewName :
    IsNewName old_file (session_file site) (some (lit "wb_1/artifacts/artifact-1.tmp"))
unfolding lit eqb
copy_temp-IsNewName = (refl, refl)

later_temp-IsNewName :
    IsNewName
      (put_file copy_path (some (lit "dns")) old_file)
      (session_file site)
      (some (lit "wb_1/session-1.json.tmp"))
unfolding lit eqb
later_temp-IsNewName = (refl, refl)

-- The rename of the new session fails after the copy.
attach_files-Ends_example :
    Ends
      (IsAttached session_file site short_digest naming old_file copy_path (lit "dns"))
      (IsBack old_file (session_file site) (
        IsOldOrNew
          (old_file (session_file site))
          (new_text session_file site short_digest naming old_file copy_path (lit "dns"))))
      (attach_files short_digest session_file naming
        (all_well (lit "wb_1/artifacts/artifact-1.tmp"))
        true
        (no_rename (lit "wb_1/session-1.json.tmp"))
        true
        site
        copy_path
        (lit "dns")
        (record { now = old_file; past = [] }))
attach_files-Ends_example =
    attach_files-Ends session_file site short_digest naming old_file copy_path (lit "dns")
      (all_well (lit "wb_1/artifacts/artifact-1.tmp")) true
      (no_rename (lit "wb_1/session-1.json.tmp")) true refl refl refl copy_path_free.0
      copy_path_free.1 copy_temp-IsNewName later_temp-IsNewName

-- The failure is reported, and the copy is gone again.
attach_files_test :
    (attach_files short_digest session_file naming
      (all_well (lit "wb_1/artifacts/artifact-1.tmp"))
      true
      (no_rename (lit "wb_1/session-1.json.tmp"))
      true
      site
      copy_path
      (lit "dns")
      (record { now = old_file; past = [] })).0
    ≡ err rename_failed
unfolding attach_files copy_from_fd write_session_file through_temp is_clean_id base trim_slashes
    after_slash eqb lit
attach_files_test = refl

-- Legal, one by one, and without manual actions.
cutover_path : preflight_required ⟶* cutover_done
unfolding can_transition valid_status
cutover_path = step {t = inventory_ready} refl (
    step {t = checklist_ready} refl (
      step {t = ready_for_apply} refl (
        step {t = apply_in_progress} refl (
          step {t = apply_done} refl (
            step {t = verification_required} refl
              (step {t = ready_for_cutover} refl (step {t = cutover_done} refl here)))))))

visited-mandatory_example : any (λ u. same u verification_required) (visited cutover_path) ≡ true
visited-mandatory_example =
    visited-mandatory verification_required cutover_path refl refl (omega arith)

steps-le_example : steps cutover_path + rank preflight_required ≤ rank cutover_done
steps-le_example = steps-le cutover_path

draft_starts : can_transition draft preflight_required ≡ true
unfolding can_transition valid_status
draft_starts = refl

can_transition-rank_example :
    (rank draft < rank preflight_required) × (rank preflight_required ≤ 13)
can_transition-rank_example = can_transition-rank draft preflight_required draft_starts
