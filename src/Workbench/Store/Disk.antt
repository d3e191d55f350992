-- ===== src/Workbench/Store/Disk.antt =====
-- internal/workbench/store.go: the folders of the store, each with its session.json.
use c_panel_self_migration.Prelude.{
  List, [], ◌∷◌, Bytes, eqb, eqb_iff, if◌then◌else◌, Option, none, some, ◌≡◌, refl, arith,
}
use c_panel_self_migration.Workbench.Session.{Session}

-- `no_file` is a folder with no session.json, `corrupted` one whose file does not parse.
pub data Slot : Type 0 where
  no_file corrupted : Slot
  stored : Session → Slot

abbrev pub Folders : Type 0
Folders = List (Bytes × Slot)

unfoldable pub slot_at : Bytes → Folders → Option Slot
slot_at id [] = none
slot_at id ((k, slot) ∷ st) = if eqb k id then some slot else slot_at id st

unfoldable pub put_slot : Bytes → Slot → Folders → Folders
put_slot id slot [] = (id, slot) ∷ []
put_slot id slot ((k, old) ∷ st) =
    if eqb k id then (k, slot) ∷ st else (k, old) ∷ put_slot id slot st

-- `os.RemoveAll`
unfoldable pub drop_slot : Bytes → Folders → Folders
drop_slot id [] = []
drop_slot id ((k, slot) ∷ st) =
    let rest = drop_slot id st in if eqb k id then rest else (k, slot) ∷ rest

pub slot_at-put_slot :
    (j id : Bytes) (slot : Slot) (st : Folders)
    → slot_at j (put_slot id slot st) ≡ (if eqb id j then some slot else slot_at j st)
unfolding slot_at put_slot
slot_at-put_slot j id slot [] = refl
slot_at-put_slot j id slot ((k, old) ∷ st) =
    ground (arith, eqb_iff k id, eqb_iff id j, eqb_iff k j, slot_at-put_slot j id slot st)

pub slot_at-drop_slot :
    (j id : Bytes) (st : Folders)
    → slot_at j (drop_slot id st) ≡ (if eqb id j then none else slot_at j st)
unfolding slot_at drop_slot
slot_at-drop_slot j id [] = ground arith
slot_at-drop_slot j id ((k, slot) ∷ st) =
    ground (arith, eqb_iff k id, eqb_iff id j, eqb_iff k j, slot_at-drop_slot j id st)
