-- ===== src/Paths.antt =====
-- What a path means: the lexical walk of its components, from the root for an absolute path and from
-- a directory otherwise. The checks of internal/validate/validate.go and
-- internal/executioncontract/contract.go promise where it ends.
use c_panel_self_migration.Prelude.{
  Bool, false, Option, none, some, has_prefix, contains_byte, split, ◌||◌, List, [], ◌∷◌, ◌++◌,
  Bytes, lit, eqb, is_empty, if◌then◌else◌, any, ◌≡◌, refl, arith, Bool-cases, inl, inr,
}
use mathlib.Core.List.{tail}

-- One component at a directory, which is the list of its names, the innermost first.
abbrev pub enter : List Bytes → Bytes → List Bytes
enter dir part =
    if is_empty part || eqb part (lit ".")
    then dir
    else if eqb part (lit "..")
    then tail dir
    else part ∷ dir

abbrev pub walk : List Bytes → List Bytes → List Bytes
walk dir [] = dir
walk dir (part ∷ parts) = walk (enter dir part) parts

-- An absolute path is read from the root, which is the empty list, any other from `dir`.
abbrev pub base_of : List Bytes → Bytes → List Bytes
base_of dir p = if has_prefix p (lit "/") then [] else dir

-- The file that a Unix system names by the path: none by an empty one or one with a NUL byte.
unfoldable pub resolve_unix : List Bytes → Bytes → Option (List Bytes)
resolve_unix dir p =
    if is_empty p || contains_byte 0 p then none else some (walk (base_of dir p) (split b'/' p))

-- The test that both validators make of each component.
abbrev pub is_parent : Bytes → Bool
is_parent part = eqb part (lit "..")

-- With no `..` among its parts, a walk ends at or below the directory where it starts.
pub walk_inside :
    (root below parts : List Bytes)
    → any is_parent parts ≡ false
    → (inner : List Bytes) × (walk (below ++ root) parts ≡ inner ++ root)
walk_inside root below [] h = (below, refl)
walk_inside root below (part ∷ parts) h = elim (Bool-cases (is_empty part || eqb part (lit "."))) [
  | inl skip ↦ rw skip (walk_inside root below parts (ground arith))
  | inr go ↦
      let up : eqb part (lit "..") ≡ false = ground arith in
      rw (go, up) (walk_inside root (part ∷ below) parts (ground arith))
]

-- A path that begins with no slash and has no `..` resolves at or below the directory.
pub resolve_unix_inside :
    (root : List Bytes) (p : Bytes)
    → is_empty p ≡ false
    → contains_byte 0 p ≡ false
    → has_prefix p (lit "/") ≡ false
    → any is_parent (split b'/' p) ≡ false
    → (inner : List Bytes) × (resolve_unix root p ≡ some (inner ++ root))
unfolding resolve_unix
resolve_unix_inside root p e z r u =
    let w = walk_inside root [] (split b'/' p) u in (w.0, rw (e, z, r, w.1) refl)

-- A name that is no special component is entered.
pub enter_name :
    (dir : List Bytes) (part : Bytes)
    → is_empty part ≡ false
    → eqb part (lit ".") ≡ false
    → eqb part (lit "..") ≡ false
    → enter dir part ≡ part ∷ dir
enter_name dir part e d u = rw (e, d, u)
