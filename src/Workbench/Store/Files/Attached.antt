-- ===== src/Workbench/Store/Files/Attached.antt =====
-- internal/workbench/store.go, `writeSession`, and internal/workbench/artifacts.go, `AttachArtifact`:
-- the files that a write leaves, and what a reader of session.json finds meanwhile.
use c_panel_self_migration.Prelude.{
  Bool, true, false, [], Bytes, eqb, eqb_self, Option, none, some, ◌≡◌, ◌⊎◌, refl, sym, arith,
  Bool-cases, inl, inr,
}
use c_panel_self_migration.Workbench.Store.{is_clean_id}
use c_panel_self_migration.Workbench.Store.Files.{
  Disk, put_file, Moments, unclean_folder, mkdir_failed, remove, Answers, write_session_file,
  copy_from_fd, attach_files,
}
use c_panel_self_migration.Workbench.Store.Files.Ends.{
  Ends, Ends-followed, Ends-cleaned, Ends-answer, Keeps, IsBack, IsDone, IsNewName, none_at,
  through_temp-Ends,
}

-- The file is as at first, or has the new text as a whole.
abbrev pub IsOldOrNew : Option Bytes → Bytes → Option Bytes → Type 0
IsOldOrNew old text c = (c ≡ old) ⊎ (c ≡ some text)

module _ (file_of : Bytes → Bytes) (id : Bytes) where
  -- What `writeSession` does from any moment on.
  write_session_file-Ends_from :
      (first : Disk) (P : Option Bytes → Type 0) (made : Bool) (os : Answers) (text : Bytes)
      (m : Moments)
      → os.removed ≡ true
      → IsNewName first (file_of id) os.created
      → P (some text)
      → IsBack first (file_of id) P m
      → Ends
          (λ _. IsDone first (file_of id) P (file_of id) text)
          (IsBack first (file_of id) P)
          (write_session_file file_of made os id text m)
  unfolding write_session_file
  write_session_file-Ends_from first P made os text m r new at_end h =
      let back = IsBack first (file_of id) P in
      let done = IsDone first (file_of id) P (file_of id) text in
      Ends-followed (λ _. back) (λ _. done) back _ _
        (Ends-answer back back (is_clean_id id) unclean_folder m h h)
        (λ _ m1 h1.
          Ends-followed (λ _. back) (λ _. done) back _ _
            (Ends-answer back back made mkdir_failed m1 h1 h1)
            (λ _ m2.
              through_temp-Ends first (file_of id) P os (file_of id) text m2 r new
                (rw (eqb_self (file_of id)) at_end)))

  -- If the name of the temporary file is new and not that of session.json, and its removal works,
  -- then writeSession, whatever its other calls answer, leaves the text in session.json and all
  -- other files as they were, or fails and leaves all files as they were; and at each moment
  -- session.json is as it was or has the whole text.
  pub write_session_file-Ends :
      (disk : Disk) (made : Bool) (os : Answers) (text : Bytes)
      → os.removed ≡ true
      → IsNewName disk (file_of id) os.created
      → let P = IsOldOrNew (disk (file_of id)) text in
        Ends
          (λ _. IsDone disk (file_of id) P (file_of id) text)
          (IsBack disk (file_of id) P)
          (write_session_file file_of made os id text (record { now = disk; past = [] }))
  write_session_file-Ends disk made os text r new =
      write_session_file-Ends_from disk (IsOldOrNew (disk (file_of id)) text) made os text
        (record { now = disk; past = [] }) r new (inr refl) ((λ p. refl), (inl refl, tt))

  module _ (sha256 text_of : Bytes → Bytes) (disk : Disk) (dest content : Bytes) where
    -- The text of the session with the artifact in it.
    abbrev pub new_text : Bytes
    new_text = text_of (sha256 content)

    abbrev IsSeen : Option Bytes → Type 0
    IsSeen = IsOldOrNew (disk (file_of id)) new_text

    abbrev copied : Disk
    copied = put_file dest (some content) disk

    -- The caller has the digest of the copy, which is in its place, and session.json names it.
    abbrev pub IsAttached : Bytes → Moments → Type 0
    IsAttached hash m =
        (hash ≡ sha256 content)
        × ((p : Bytes)
            → m.now p ≡ put_file (file_of id) (some new_text) (put_file dest (some content) disk) p)
        × Keeps disk (file_of id) (IsOldOrNew (disk (file_of id)) new_text) m

    -- Without the copy the disk is as it was.
    drop_copy :
        (dropped : Bool) (m : Moments)
        → dropped ≡ true
        → disk dest ≡ none
        → eqb dest (file_of id) ≡ false
        → IsBack copied (file_of id) IsSeen m
        → IsBack disk (file_of id) IsSeen (remove dropped dest m)
    drop_copy false m r free apart h = absurd (ground (arith, r))
    drop_copy true m r free apart h = (
      λ p. elim (Bool-cases (eqb dest p)) [
        | inl same ↦ rw same (sym (none_at disk (file_of id) IsSeen dest p free same))
        | inr other ↦ rw other (ground (arith, h.0 p, other))
      ],
      (rw apart h.1.0, h.1),
    )

    -- If the path of the copy is free and is not that of session.json, the names of both temporary
    -- files are new and not that path, and the removals work, then AttachArtifact, whatever its
    -- other calls answer, leaves the copy and the new session and answers the digest of the copy,
    -- or fails and leaves all files as they were; and at each moment session.json is as it was or
    -- has the whole new text.
    pub attach_files-Ends :
        (copying : Answers) (made : Bool) (saving : Answers) (dropped : Bool)
        → copying.removed ≡ true
        → saving.removed ≡ true
        → dropped ≡ true
        → disk dest ≡ none
        → eqb dest (file_of id) ≡ false
        → IsNewName disk (file_of id) copying.created
        → IsNewName (put_file dest (some content) disk) (file_of id) saving.created
        → Ends IsAttached (IsBack disk (file_of id) (IsOldOrNew (disk (file_of id)) new_text)) (
            attach_files sha256 file_of text_of copying made saving dropped id dest content
              (record { now = disk; past = [] }))
    unfolding attach_files copy_from_fd
    attach_files-Ends copying made saving dropped rc rs rd free apart nc ns =
        let m : Moments = record { now = disk; past = [] } in
        let back = IsBack disk (file_of id) IsSeen in
        let placed = IsDone disk (file_of id) IsSeen dest content in
        let saved = IsDone copied (file_of id) IsSeen (file_of id) new_text in
        Ends-followed (λ hash m1. (hash ≡ sha256 content) × placed m1) IsAttached back _ _
          (Ends-followed (λ _. placed) (λ hash m1. (hash ≡ sha256 content) × placed m1) back _ _
            (through_temp-Ends disk (file_of id) IsSeen copying dest content m rc nc
              (rw apart (inl refl)) ((λ p. refl), (inl refl, tt)))
            (λ _ m1 h. (refl, h)))
          (λ hash m1 h.
            Ends-followed (λ _. saved) IsAttached back _ _
              (Ends-cleaned (λ _. saved) (IsBack copied (file_of id) IsSeen) back dropped dest
                (write_session_file file_of made saving id (text_of hash) m1)
                (rw h.0 (
                  write_session_file-Ends_from copied IsSeen made saving new_text m1 rs ns
                    (inr refl) h.1))
                (λ m2. drop_copy dropped m2 rd free apart))
              (λ _ m2 done. (h.0, done.0, done.1)))
