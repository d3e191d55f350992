-- ===== src/Workbench/Store/Files.antt =====
-- internal/workbench/store.go, `writeSession`, and internal/workbench/artifacts.go, `copyFromFD` and
-- the part of `AttachArtifact` that writes: the calls of the operating system, one by one. What each
-- call answers is an argument. The digest function of Go's library is a parameter.

pub mod Ends
pub mod Attached
use c_panel_self_migration.Prelude.{
  Bool, true, false, not, List, [], ◌∷◌, Bytes, eqb, if◌then◌else◌, Option, none, some, Result, ok,
  err,
}
use c_panel_self_migration.Workbench.Store.{is_clean_id}

-- The files of the disk by their paths.
abbrev pub Disk : Type 0
Disk = Bytes → Option Bytes

abbrev pub put_file : Bytes → Option Bytes → Disk → Disk
put_file path content disk p = if eqb path p then content else disk p

-- The disk, with all that it has been before, the latest first.
pub record Moments : Type 0 where
  pub now : Disk
  pub past : List Disk

abbrev pub change : (Disk → Disk) → Moments → Moments
change f m = record { now = f m.now; past = m.now ∷ m.past }

pub data FileProblem : Type 0 where
  unclean_folder mkdir_failed create_failed write_failed sync_failed chmod_failed close_failed
        rename_failed :
      FileProblem

abbrev pub Files : Type 0 → Type 0
Files A = Moments → Result FileProblem A × Moments

abbrev pub pure : {A : Type 0} → A → Files A
pure a m = (ok a, m)

abbrev pub followed :
    {A B : Type 0} → (A → Files B) → Result FileProblem A × Moments → Result FileProblem B × Moments
followed f (ok a, m) = f a m
followed f (err e, m) = (err e, m)

infixl 5 ◌>>=◌ ◌>>◌
abbrev pub ◌>>=◌ : {A B : Type 0} → Files A → (A → Files B) → Files B
◌>>=◌ act f m = followed f (act m)

abbrev pub ◌>>◌ : {B : Type 0} → Files (Unit {0}) → Files B → Files B
act >> rest = act >>= λ _. rest

-- A call that changes no contents: `Sync`, `Chmod`, `Close`, `MkdirAll`.
abbrev pub answer : Bool → FileProblem → Files (Unit {0})
answer done e m = (if done then ok tt else err e, m)

-- `os.Remove`, whose error the code ignores.
abbrev pub remove : Bool → Bytes → Moments → Moments
remove removed path m = if removed then change (put_file path none) m else m

-- A call after whose error the code removes a file.
abbrev pub cleaned :
    {A : Type 0} → Bool → Bytes → Result FileProblem A × Moments → Result FileProblem A × Moments
cleaned removed path (ok a, m) = (ok a, m)
cleaned removed path (err e, m) = (err e, remove removed path m)

abbrev pub or_remove : {A : Type 0} → Bool → Bytes → Files A → Files A
or_remove removed path act m = cleaned removed path (act m)

-- The answers to the calls on one temporary file: its name, if it is created; what it holds during
-- the write; and whether each later call succeeds.
pub record Answers : Type 0 where
  pub created : Option Bytes
  pub parts : List Bytes
  pub written : Bool
  pub synced : Bool
  pub chmodded : Bool
  pub closed : Bool
  pub renamed : Bool
  pub removed : Bool

abbrev pub create_temp : Option Bytes → Files Bytes
create_temp none m = (err create_failed, m)
create_temp (some tmp) m = (ok tmp, change (put_file tmp (some [])) m)

-- The contents of the file, one after the other.
abbrev pub holds_parts : Bytes → List Bytes → Moments → Moments
holds_parts tmp [] m = m
holds_parts tmp (part ∷ parts) m = holds_parts tmp parts (change (put_file tmp (some part)) m)

abbrev pub write_temp : Answers → Bytes → Bytes → Files (Unit {0})
write_temp os tmp text m =
    let m1 = holds_parts tmp os.parts m in
    if os.written then (ok tt, change (put_file tmp (some text)) m1) else (err write_failed, m1)

-- `os.Rename`
abbrev pub moved : Bytes → Bytes → Disk → Disk
moved tmp target disk = put_file target (disk tmp) (put_file tmp none disk)

abbrev pub rename : Bool → Bytes → Bytes → Files (Unit {0})
rename renamed tmp target m =
    if renamed then (ok tt, change (moved tmp target) m) else (err rename_failed, m)

-- The calls from `CreateTemp` on, the same in both functions. The `Close` in front of a removal, whose
-- error the code ignores, changes no contents; nor do `Sync` and `Chmod`, so that durability and the
-- mode of a file are outside the model.
unfoldable pub through_temp : Answers → Bytes → Bytes → Files (Unit {0})
through_temp os target text = do
  tmp ← create_temp os.created
  or_remove os.removed tmp (write_temp os tmp text)
  or_remove os.removed tmp (answer os.synced sync_failed)
  or_remove os.removed tmp (answer os.chmodded chmod_failed)
  or_remove os.removed tmp (answer os.closed close_failed)
  or_remove os.removed tmp (rename os.renamed tmp target)

-- `writeSession`. `file_of` joins a folder's id and `session.json` to the root; `text` is what the
-- session marshals to; `made` is the answer of `MkdirAll`.
unfoldable pub write_session_file :
    (file_of : Bytes → Bytes) → Bool → Answers → Bytes → Bytes → Files (Unit {0})
write_session_file file_of made os id text = do
  answer (is_clean_id id) unclean_folder
  answer made mkdir_failed
  through_temp os (file_of id) text

-- `copyFromFD`, which answers the digest of the contents.
unfoldable pub copy_from_fd : (sha256 : Bytes → Bytes) → Answers → Bytes → Bytes → Files Bytes
copy_from_fd sha256 os content dst = do through_temp os dst content; pure (sha256 content)

-- `AttachArtifact`, from the copy on. `text_of` is what the session marshals to when the artifact
-- with this digest is in it; `dropped` is the answer of the last `os.Remove`.
unfoldable pub attach_files :
    (sha256 : Bytes → Bytes) (file_of : Bytes → Bytes) (text_of : Bytes → Bytes)
    → (copying : Answers) → (made : Bool) → (saving : Answers) → (dropped : Bool)
    → (id dest content : Bytes) → Files Bytes
attach_files sha256 file_of text_of copying made saving dropped id dest content = do
  hash ← copy_from_fd sha256 copying content dest
  or_remove dropped dest (write_session_file file_of made saving id (text_of hash))
  pure hash
