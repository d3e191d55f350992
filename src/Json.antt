-- ===== src/Json.antt =====
-- A decoded JSON document, as `Decode` of encoding/json gives it after `UseNumber`: a number
-- keeps its text. A Go map is the list of its entries. The order of the list stands for the order
-- of the loop `for k, v := range m`, which Go leaves open.
use c_panel_self_migration.Prelude.{
  Bool, [], ◌∷◌, Bytes, Option, none, some, eqb, if◌then◌else◌, List,
}

mutual
  pub data Json : Type 0 where
    null : Json
    bool : Bool → Json
    num str : Bytes → Json
    arr : Items → Json
    obj : Fields → Json

  pub data Items : Type 0 where
    nil : Items
    cons : Json → Items → Items

  pub data Fields : Type 0 where
    end : Fields
    field : Bytes → Json → Fields → Fields

-- `raw, ok := m[key]`
unfoldable pub lookup : Bytes → Fields → Option Json
lookup key end = none
lookup key (field k v m) = if eqb k key then some v else lookup key m

-- The keys of a map, in the order of its loop.
abbrev pub keys : Fields → List Bytes
keys end = []
keys (field k v m) = k ∷ keys m
