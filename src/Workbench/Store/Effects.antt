-- ===== src/Workbench/Store/Effects.antt =====
-- internal/workbench/store.go: what one call of the store changes, and what it leaves.
use c_panel_self_migration.Prelude.{
  ◌⊎◌, ℕ, Bool, true, false, not, ◌||◌, Bytes, eqb, leb, length, Result, ok, err, ◌≡◌, refl, sym,
  ap, ◌∙◌, arith, inl, inr, Result-cases,
}
use c_panel_self_migration.Events.Redact.{Unicode}
use c_panel_self_migration.Workbench.Status.{Status, valid_status, can_transition}
use c_panel_self_migration.Workbench.Session.{Session, with_status}
use c_panel_self_migration.Workbench.Store.Disk.{Folders, stored, slot_at, put_slot}
use c_panel_self_migration.Workbench.Store.{
  StoreError, saved, save_with, movable, check_request, read_session, write_session, set_status,
}
use c_panel_self_migration.Workbench.Store.Kept.{movable-legal}
use c_panel_self_migration.Workbench.Store.Calls.{Call, create}

-- The store after a call is the one before but for the folder `id`.
abbrev pub AgreesOff : Bytes → Folders → Folders → Type 0
AgreesOff id st st' = (j : Bytes) → eqb id j ≡ false → slot_at j st' ≡ slot_at j st

-- A call that answers with an error keeps the store, if it creates no session.
abbrev pub creates : Call → Bool
creates (create _ _ _ _ _ _ _ _ _ _) = true
creates _ = false

-- How a save ends: with the written session, or with the store as it was.
saved-cases :
    (written : Bool) (st : Folders) (id : Bytes) (sess : Session)
    → (saved st sess (write_session written st id sess) ≡ (ok sess, put_slot id (stored sess) st))
      ⊎ ((e : StoreError) × (saved st sess (write_session written st id sess) ≡ (err e, st)))
unfolding write_session
saved-cases written st id sess = elim (Result-cases (write_session written st id sess)) [
  | inl (st', e) ↦ inl (rw e (ground arith))
  | inr (x, e) ↦ inr (x, rw e refl)
]

save_with-cases :
    (written : Bool) (st : Folders) (id : Bytes) (change : Session → Session)
    (r : Result StoreError Session)
    → ((old : Session) × (r ≡ ok old)
        × (save_with written st id change r
            ≡ (ok (change old), put_slot id (stored (change old)) st)))
      ⊎ ((e : StoreError) × (save_with written st id change r ≡ (err e, st)))
save_with-cases written st id change (err e) = inr (e, refl)
save_with-cases written st id change (ok old) = elim (saved-cases written st id (change old)) [
  | inl h ↦ inl (old, refl, h)
  | inr h ↦ inr h
]

-- A change of status that has been made: what was read, what holds of the request, what is written.
pub record IsMoved (u : Unicode) (version : Bytes) (st : Folders) (id : Bytes) (to : Status)
    (force : Bool) (reason : Bytes) (now : ℕ) (sess : Session) (st' : Folders) : Type 0 where
  pub old : Session
  pub was_read : read_session st id ≡ ok old
  pub result : sess ≡ with_status version old to force reason now
  pub valid : valid_status to ≡ true
  pub legal : (force || can_transition old.status to) ≡ true
  pub reasoned : (not force || leb 10 (length (u.trim_space reason))) ≡ true
  pub written : st' ≡ put_slot id (stored sess) st

module _ (u : Unicode) (version : Bytes) (artifact_dir : Bytes → Bytes) where
  checked :
      (to : Status) (force : Bool) (reason : Bytes) (x : Unit {0})
      → check_request u to force reason ≡ ok x
      → (valid_status to ≡ true) × ((not force || leb 10 (length (u.trim_space reason))) ≡ true)
  unfolding check_request
  checked to force reason x e = (ground arith, ground arith)

  -- If SetStatus answers with a session, then a session was read under the id, the target is a
  -- known status, the change is legal or forced, a forced change has a trimmed reason of at least
  -- ten bytes, the answer is the session read with the new status and one event more, and only the
  -- entry under that id is replaced.
  pub set_status-IsMoved :
      (locked written : Bool) (st : Folders) (id : Bytes) (to : Status) (force : Bool)
      (reason : Bytes) (now : ℕ) (sess : Session) (st' : Folders)
      → set_status u version artifact_dir locked written st id to force reason now ≡ (ok sess, st')
      → IsMoved u version st id to force reason now sess st'
  unfolding set_status
  set_status-IsMoved locked written st id to force reason now sess st' e =
      elim (Result-cases (check_request u to force reason)) [
        | inr (x, c) ↦ absurd (ground (arith, e, c))
        | inl (x, c) ↦
            elim (save_with-cases written st id (λ old. with_status version old to force reason now)
              (movable st id to force)) [
                | inr (y, f) ↦ absurd (ground (arith, e, c, f))
                | inl (old, moved, f) ↦
                    let (valid, reasoned) = checked to force reason x c in
                    let (read, legal) = movable-legal st id to force old moved in
                    let same_session : sess ≡ with_status version old to force reason now =
                      ground (arith, e, c, f) in
                    record {
                      old = old;
                      was_read = read;
                      result = same_session;
                      valid = valid;
                      legal = legal;
                      reasoned = reasoned;
                      written =
                          (ground (arith, e, c, f))
                          ∙ ap (λ o. put_slot id (stored o) st) (sym same_session);
                    }
              ]
      ]
