-- ===== src/Workbench/Store/Files/Ends.antt =====
-- internal/workbench/store.go and artifacts.go: how the calls on one temporary file end.
use c_panel_self_migration.Prelude.{
  Bool, true, false, List, [], ◌∷◌, Bytes, eqb, eqb_iff, eqb_self, if-cases, All, Option, none,
  some, Result, ok, err, ◌≡◌, refl, sym, ap, ◌∙◌, arith, Bool-cases, inl, inr,
}
use c_panel_self_migration.Workbench.Store.Files.{
  Disk, put_file, Moments, change, FileProblem, Files, followed, answer, remove, cleaned, or_remove,
  Answers, create_temp, holds_parts, write_temp, moved, rename, through_temp, ◌>>◌, sync_failed,
  chmod_failed, close_failed,
}

-- One claim for a success and one for an error.
abbrev pub Ends :
    {A : Type 0}
    → (A → Moments → Type 0)
    → (Moments → Type 0)
    → Result FileProblem A × Moments
    → Type 0
Ends good bad (ok a, m) = good a m
Ends good bad (err e, m) = bad m

pub Ends-followed :
    {A B : Type 0} (good : A → Moments → Type 0) (next : B → Moments → Type 0)
    (bad : Moments → Type 0) (f : A → Files B) (r : Result FileProblem A × Moments)
    → Ends good bad r
    → ((a : A) (m : Moments) → good a m → Ends next bad (f a m))
    → Ends next bad (followed f r)
Ends-followed good next bad f (ok a, m) h k = k a m h
Ends-followed good next bad f (err e, m) h k = h

pub Ends-cleaned :
    {A : Type 0} (good : A → Moments → Type 0) (bad clean : Moments → Type 0) (removed : Bool)
    (path : Bytes) (r : Result FileProblem A × Moments)
    → Ends good bad r
    → ((m : Moments) → bad m → clean (remove removed path m))
    → Ends good clean (cleaned removed path r)
Ends-cleaned good bad clean removed path (ok a, m) h k = h
Ends-cleaned good bad clean removed path (err e, m) h k = k m h

pub Ends-answer :
    (good bad : Moments → Type 0) (done : Bool) (e : FileProblem) (m : Moments)
    → good m
    → bad m
    → Ends (λ _. good) bad (answer done e m)
Ends-answer good bad true e m g b = g
Ends-answer good bad false e m g b = b

-- The name of a temporary file is new on the disk, and not `q`.
abbrev pub IsNewName : Disk → Bytes → Option Bytes → Type 0
IsNewName disk q none = Unit
IsNewName disk q (some tmp) = (disk tmp ≡ none) × (eqb tmp q ≡ false)

-- The disk at first, and what is to hold of the file at the path `q` at all times.
module _ (first : Disk) (q : Bytes) (P : Option Bytes → Type 0) where
  abbrev pub Keeps : Moments → Type 0
  Keeps m = All (λ d. P (d q)) (m.now ∷ m.past)

  -- All files are as at first.
  abbrev pub IsBack : Moments → Type 0
  IsBack m = ((p : Bytes) → m.now p ≡ first p) × Keeps m

  -- All files but one are as at first.
  abbrev pub IsOff : Bytes → Moments → Type 0
  IsOff tmp m = ((p : Bytes) → eqb tmp p ≡ false → m.now p ≡ first p) × Keeps m

  -- The file at `target` has the text, and all others are as at first.
  abbrev pub IsDone : Bytes → Bytes → Moments → Type 0
  IsDone target text m = ((p : Bytes) → m.now p ≡ put_file target (some text) first p) × Keeps m

  pub none_at : (tmp p : Bytes) → first tmp ≡ none → eqb tmp p ≡ true → first p ≡ none
  none_at tmp p h e = ap first (sym ((eqb_iff tmp p).0 e)) ∙ h

  change-IsOff :
      (tmp : Bytes) (c : Option Bytes) (m : Moments)
      → eqb tmp q ≡ false
      → IsOff tmp m
      → IsOff tmp (change (put_file tmp c) m)
  change-IsOff tmp c m other h = (λ p e. rw e (h.0 p e), (rw other h.1.0, h.1))

  holds_parts-IsOff :
      (tmp : Bytes) (parts : List Bytes) (m : Moments)
      → eqb tmp q ≡ false
      → IsOff tmp m
      → IsOff tmp (holds_parts tmp parts m)
  holds_parts-IsOff tmp [] m other h = h
  holds_parts-IsOff tmp (part ∷ parts) m other h =
      holds_parts-IsOff tmp parts (change (put_file tmp (some part)) m) other
        (change-IsOff tmp (some part) m other h)

  -- Without the temporary file the disk is as at first.
  pub remove-IsBack :
      (removed : Bool) (tmp : Bytes) (m : Moments)
      → removed ≡ true
      → first tmp ≡ none
      → eqb tmp q ≡ false
      → IsOff tmp m
      → IsBack (remove removed tmp m)
  remove-IsBack false tmp m r new other h = absurd (ground (arith, r))
  remove-IsBack true tmp m r new other h = (
    λ p. elim (Bool-cases (eqb tmp p)) [
      | inl same ↦ rw same (sym (none_at tmp p new same))
      | inr apart ↦ rw apart (h.0 p apart)
    ],
    (rw other h.1.0, h.1),
  )

  -- The temporary file is complete.
  abbrev IsFull : Bytes → Bytes → Moments → Type 0
  IsFull tmp text m = IsOff tmp m × (m.now tmp ≡ some text)

  write_temp-IsFull :
      (os : Answers) (tmp text : Bytes) (m : Moments)
      → eqb tmp q ≡ false
      → IsOff tmp m
      → Ends (λ _. IsFull tmp text) (IsOff tmp) (write_temp os tmp text m)
  write_temp-IsFull os tmp text m other h =
      let m1 = holds_parts tmp os.parts m in
      let off = holds_parts-IsOff tmp os.parts m other h in
      if-cases (λ r. Ends (λ _. IsFull tmp text) (IsOff tmp) r) os.written
        (λ done. (change-IsOff tmp (some text) m1 other off, rw (eqb_self tmp) refl))
        (λ failed. off)

  moved_at :
      (tmp target text : Bytes) (m : Moments)
      → first tmp ≡ none
      → IsFull tmp text m
      → (p : Bytes) → moved tmp target m.now p ≡ put_file target (some text) first p
  moved_at tmp target text m new h p = elim (Bool-cases (eqb tmp p)) [
    | inl same ↦ ground (arith, h.1, none_at tmp p new same)
    | inr apart ↦ ground (arith, h.1, h.0.0 p apart)
  ]

  rename-IsDone :
      (renamed : Bool) (tmp target text : Bytes) (m : Moments)
      → first tmp ≡ none
      → P (put_file target (some text) first q)
      → IsFull tmp text m
      → Ends (λ _. IsDone target text) (IsOff tmp) (rename renamed tmp target m)
  rename-IsDone true tmp target text m new at_end h =
      (moved_at tmp target text m new h, (rw (moved_at tmp target text m new h q) at_end, h.0.1))
  rename-IsDone false tmp target text m new at_end h = h.0

  create_temp-IsOff :
      (created : Option Bytes) (m : Moments)
      → IsNewName first q created
      → IsBack m
      → Ends
          (λ tmp m1. (first tmp ≡ none) × (eqb tmp q ≡ false) × IsOff tmp m1)
          IsBack
          (create_temp created m)
  create_temp-IsOff none m new h = h
  create_temp-IsOff (some tmp) m new h =
      (new.0, new.1, change-IsOff tmp (some []) m new.1 ((λ p e. h.0 p), h.1))

  -- After the creation of the temporary file at `tmp`, whose removal works.
  module _ (removed : Bool) (tmp : Bytes) (works : removed ≡ true) (new : first tmp ≡ none)
      (other : eqb tmp q ≡ false) where
    -- A call that may fail.
    tried :
        (good : Moments → Type 0) (r : Result FileProblem (Unit {0}) × Moments)
        → Ends (λ _. good) (IsOff tmp) r
        → Ends (λ _. good) IsBack (cleaned removed tmp r)
    tried good r h =
        Ends-cleaned (λ _. good) (IsOff tmp) IsBack removed tmp r h
          (λ m. remove-IsBack removed tmp m works new other)

    -- A call that may fail and changes no file, and those after it.
    tried_answer :
        (text : Bytes) (done : Moments → Type 0) (answered : Bool) (e : FileProblem)
        (rest : Files (Unit {0})) (m : Moments)
        → ((m1 : Moments) → IsFull tmp text m1 → Ends (λ _. done) IsBack (rest m1))
        → IsFull tmp text m
        → Ends (λ _. done) IsBack ((or_remove removed tmp (answer answered e) >> rest) m)
    tried_answer text done answered e rest m k h =
        Ends-followed (λ _. IsFull tmp text) (λ _. done) IsBack (λ _. rest)
          (cleaned removed tmp (answer answered e m))
          (tried (IsFull tmp text) (answer answered e m)
            (Ends-answer (IsFull tmp text) (IsOff tmp) answered e m h h.0))
          (λ _. k)

  -- The calls on one temporary file leave the target with the text, or all files as at first.
  pub through_temp-Ends :
      (os : Answers) (target text : Bytes) (m : Moments)
      → os.removed ≡ true
      → IsNewName first q os.created
      → P (put_file target (some text) first q)
      → IsBack m
      → Ends (λ _. IsDone target text) IsBack (through_temp os target text m)
  unfolding through_temp
  through_temp-Ends os target text m r new at_end h =
      Ends-followed (λ tmp m1. (first tmp ≡ none) × (eqb tmp q ≡ false) × IsOff tmp m1)
        (λ _. IsDone target text) IsBack _ _ (create_temp-IsOff os.created m new h)
        (λ tmp m1 made.
          let full = IsFull tmp text in
          let done = IsDone target text in
          let next = tried_answer os.removed tmp r made.0 made.1 text done in
          Ends-followed (λ _. full) (λ _. done) IsBack _ _
            (tried os.removed tmp r made.0 made.1 full (write_temp os tmp text m1)
              (write_temp-IsFull os tmp text m1 made.1 made.2))
            (λ _ m2. next os.synced sync_failed _ m2 (λ m3.
              next os.chmodded chmod_failed _ m3 (λ m4. next os.closed close_failed _ m4 (λ m5 h5.
                tried os.removed tmp r made.0 made.1 done (rename os.renamed tmp target m5)
                  (rename-IsDone os.renamed tmp target text m5 made.0 at_end h5))))))
