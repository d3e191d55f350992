-- ===== src/Workbench/Store/Kept.antt =====
-- internal/workbench/store.go: what a session on the disk is held to, and the writes.
use c_panel_self_migration.Prelude.{
  subst, Bool, true, false, ◌||◌, Bytes, eqb, eqb_iff, if◌then◌else◌, some, Result, ok, err, ◌>>=◌,
  ◌≡◌, refl, ap, ◌∙◌, arith, Bool-cases, inl, inr, Result-cases, Option-cases, bind-eq-ok,
}
use c_panel_self_migration.Workbench.Status.{Status, validate_transition, can_transition}
use c_panel_self_migration.Workbench.Session.{Session}
use c_panel_self_migration.Workbench.Session.Audit.{IsAudited}
use c_panel_self_migration.Workbench.Store.Disk.{
  no_file, corrupted, stored, Folders, slot_at, put_slot, drop_slot, slot_at-put_slot,
  slot_at-drop_slot,
}
use c_panel_self_migration.Workbench.Store.{
  StoreError, is_clean_id, read_session, write_session, saved, save_with, movable, status_result,
}

-- A session under its folder: the folder's name is clean and the session's own, and the timeline
-- accounts for the status.
pub record IsKept (id : Bytes) (sess : Session) : Type 0 where
  pub clean : is_clean_id id ≡ true
  pub named : sess.id ≡ id
  pub audited : IsAudited sess

abbrev pub IsSound : Folders → Type 0
IsSound st = (id : Bytes) (sess : Session) → slot_at id st ≡ some (stored sess) → IsKept id sess

stored_same : (a b : Session) → some (stored a) ≡ some (stored b) → a ≡ b
stored_same a b h = ground (arith, h)

put-IsSound :
    (st : Folders) (id : Bytes) (sess : Session)
    → IsSound st
    → IsKept id sess
    → IsSound (put_slot id (stored sess) st)
put-IsSound st id sess sound kept j other h = elim (Bool-cases (eqb id j)) [
  | inl same ↦
      subst (λ k. IsKept k other) ((eqb_iff id j).0 same)
        (subst (λ o. IsKept id o)
          (stored_same sess other (ground (arith, slot_at-put_slot j id (stored sess) st))) kept)
  | inr differ ↦ sound j other (ground (arith, slot_at-put_slot j id (stored sess) st))
]

pub put_no_file-IsSound :
    (st : Folders) (id : Bytes) → IsSound st → IsSound (put_slot id no_file st)
put_no_file-IsSound st id sound j other h = elim (Bool-cases (eqb id j)) [
  | inl same ↦ absurd (ground (arith, slot_at-put_slot j id no_file st))
  | inr differ ↦ sound j other (ground (arith, slot_at-put_slot j id no_file st))
]

pub drop-IsSound : (st : Folders) (id : Bytes) → IsSound st → IsSound (drop_slot id st)
drop-IsSound st id sound j other h = elim (Bool-cases (eqb id j)) [
  | inl same ↦ absurd (ground (arith, slot_at-drop_slot j id st))
  | inr differ ↦ sound j other (ground (arith, slot_at-drop_slot j id st))
]

write_session-IsSound :
    (written : Bool) (st st' : Folders) (id : Bytes) (sess : Session)
    → IsSound st
    → (is_clean_id id ≡ true → IsKept id sess)
    → write_session written st id sess ≡ ok st'
    → IsSound st'
unfolding write_session
write_session-IsSound written st st' id sess sound kept e =
    subst IsSound (ground arith) (put-IsSound st id sess sound (kept (ground arith)))

pub read_session-IsKept :
    (st : Folders) (id : Bytes) (sess : Session)
    → IsSound st
    → read_session st id ≡ ok sess
    → IsKept id sess
unfolding read_session
read_session-IsKept st id sess sound e = elim (Option-cases (slot_at id st)) [
  | inl gone ↦ absurd (ground arith)
  | inr (no_file, h) ↦ absurd (ground arith)
  | inr (corrupted, h) ↦ absurd (ground arith)
  | inr (stored other, h) ↦ subst (λ o. IsKept id o) (ground arith) (sound id other h)
]

-- What stands on the disk once a session is written, or the write refused with `st0` left behind.
pub saved-IsSound :
    (written : Bool) (st : Folders) (id : Bytes) (sess : Session) (st0 : Folders)
    → IsSound st
    → IsSound st0
    → (is_clean_id id ≡ true → IsKept id sess)
    → IsSound (saved st0 sess (write_session written st id sess)).1
saved-IsSound written st id sess st0 sound sound0 kept =
    elim (Result-cases (write_session written st id sess)) [
      | inl (st', e) ↦ rw e (write_session-IsSound written st st' id sess sound kept e)
      | inr (_, e) ↦ rw e sound0
    ]

pub save_with-IsSound :
    (written : Bool) (st : Folders) (id : Bytes) (change : Session → Session)
    (r : Result StoreError Session)
    → IsSound st
    → ((sess : Session) → r ≡ ok sess → IsKept id (change sess))
    → IsSound (save_with written st id change r).1
save_with-IsSound written st id change (err e) sound kept = sound
save_with-IsSound written st id change (ok sess) sound kept =
    saved-IsSound written st id (change sess) st sound sound λ _. kept sess refl

legal_step :
    (from to : Status) (sess : Session) (other : Session)
    → (status_result (validate_transition from to) >>= λ _. ok other) ≡ ok sess
    → (can_transition from to ≡ true) × (other ≡ sess)
unfolding validate_transition
legal_step from to sess other e = elim (Bool-cases (can_transition from to)) [
  | inl legal ↦ (legal, ground arith)
  | inr illegal ↦ absurd (ground arith)
]

-- `SetStatus` goes on only from the session it has read, to a legal status if it is not forced.
pub movable-legal :
    (st : Folders) (id : Bytes) (to : Status) (force : Bool) (sess : Session)
    → movable st id to force ≡ ok sess
    → (read_session st id ≡ ok sess) × ((force || can_transition sess.status to) ≡ true)
unfolding movable
movable-legal st id to force sess e =
    let (other, read, moved) = bind-eq-ok (read_session st id) _ e in
    by_force force other read moved
  where
    by_force :
        (force : Bool) (other : Session)
        → read_session st id ≡ ok other
        → ((if force then ok tt else status_result (validate_transition other.status to)) >>= λ _.
            ok other)
          ≡ ok sess
        → (read_session st id ≡ ok sess) × ((force || can_transition sess.status to) ≡ true)
    by_force true other read moved = (read ∙ moved, refl)
    by_force false other read moved =
        let (legal, same_session) = legal_step other.status to sess other moved in
        (
          read ∙ ap ok same_session,
          subst (λ o. can_transition o.status to ≡ true) same_session legal,
        )
