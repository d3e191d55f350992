-- ===== src/Contract/Artifact/Confined.antt =====
-- internal/executioncontract/contract.go, `checkArtifactPath`: where an accepted path leads.
use c_panel_self_migration.Prelude.{
  ℕ, true, false, [], ◌∷◌, ◌++◌, List, Bytes, lit, any, contains_byte, split, onto_first, ok, ◌≡◌,
  refl, arith, eqb, is_empty, has_prefix, ◌∙◌, some, ◌||◌, eqb_iff,
}
use c_panel_self_migration.Paths.{is_parent, resolve_unix, resolve_unix_inside}
use c_panel_self_migration.Contract.Artifact.{
  slash_byte, to_slash, check_artifact_path, resolve_windows,
}

-- The first part of a split, and the test of the others.
abbrev first : List Bytes → Bytes
first [] = []
first (p ∷ ps) = p

abbrev others : List Bytes → List Bytes
others [] = []
others (p ∷ ps) = ps

abbrev unix : Bytes → List Bytes
unix = split b'/'

first-onto_first : (c : ℕ) (ps : List Bytes) → first (onto_first c ps) ≡ c ∷ first ps
unfolding onto_first
first-onto_first c [] = refl
first-onto_first c (p ∷ ps) = refl

others-onto_first : (c : ℕ) (ps : List Bytes) → others (onto_first c ps) ≡ others ps
unfolding onto_first
others-onto_first c [] = refl
others-onto_first c (p ∷ ps) = refl

-- A first part with no backslash in it is first also when backslashes separate.
first-to_slash :
    (s t : Bytes)
    → contains_byte b'\\' t ≡ false
    → first (unix s) ≡ t
    → first (unix (to_slash s)) ≡ t
unfolding to_slash split
first-to_slash [] t n h = h
first-to_slash (c ∷ s) [] n h =
    ground (arith, first-onto_first c (unix s), first-onto_first (slash_byte c) (unix (to_slash s)))
first-to_slash (c ∷ s) (d ∷ t) n h = ground (
  arith,
  first-onto_first c (unix s),
  first-onto_first (slash_byte c) (unix (to_slash s)),
  first-to_slash s t,
)

-- All parts are the first one and the others.
parents :
    (parts : List Bytes)
    → any is_parent parts ≡ (is_parent (first parts) || any is_parent (others parts))
unfolding lit eqb
parents [] = refl
parents (p ∷ ps) = refl

first_parent :
    (s : Bytes) → is_parent (first (unix s)) ≡ true → is_parent (first (unix (to_slash s))) ≡ true
unfolding lit
first_parent s h =
    (eqb_iff _ _).1 (first-to_slash s (lit "..") refl ((eqb_iff (first (unix s)) (lit "..")).0 h))

others-to_slash :
    (s : Bytes)
    → any is_parent (others (unix s)) ≡ true
    → any is_parent (others (unix (to_slash s))) ≡ true
unfolding to_slash split
others-to_slash [] h = h
others-to_slash (c ∷ s) h = ground (
  arith,
  others-onto_first c (unix s),
  others-onto_first (slash_byte c) (unix (to_slash s)),
  others-to_slash s,
  parents (unix s),
  parents (unix (to_slash s)),
  first_parent s,
)

parents-to_slash :
    (s : Bytes) → any is_parent (unix (to_slash s)) ≡ false → any is_parent (unix s) ≡ false
parents-to_slash s h =
    ground (arith, parents (unix s), parents (unix (to_slash s)), first_parent s, others-to_slash s)

is_empty-to_slash : (s : Bytes) → is_empty (to_slash s) ≡ is_empty s
unfolding to_slash
is_empty-to_slash [] = refl
is_empty-to_slash (c ∷ s) = refl

no_nul-to_slash : (s : Bytes) → contains_byte 0 s ≡ false → contains_byte 0 (to_slash s) ≡ false
unfolding to_slash
no_nul-to_slash [] h = refl
no_nul-to_slash (c ∷ s) h = ground (arith, no_nul-to_slash s)

relative-to_slash :
    (s : Bytes) → has_prefix (to_slash s) (lit "/") ≡ false → has_prefix s (lit "/") ≡ false
unfolding to_slash has_prefix lit
relative-to_slash [] h = refl
relative-to_slash (c ∷ s) h = ground arith

-- The path names a file at or below the workspace, on a Unix system and on Windows.
abbrev pub IsConfined : List Bytes → Bytes → Type 0
IsConfined workspace p =
    ((inner : List Bytes) × (resolve_unix workspace p ≡ some (inner ++ workspace)))
    × ((inner : List Bytes) × (resolve_windows workspace p ≡ some (inner ++ workspace)))

-- An artifact path that checkArtifactPath accepts names a file at or below the workspace, whatever
-- the workspace is, both as Unix reads the path and as Windows does.
pub check_artifact_path-IsConfined :
    (workspace : List Bytes) (p : Bytes) → check_artifact_path p ≡ ok tt → IsConfined workspace p
unfolding check_artifact_path resolve_windows
check_artifact_path-IsConfined workspace p h =
    let filled : is_empty p ≡ false = ground arith in
    let no_nul : contains_byte 0 p ≡ false = ground arith in
    let relative : has_prefix (to_slash p) (lit "/") ≡ false = ground arith in
    let plain : contains_byte b':' p ≡ false = ground arith in
    let safe : any is_parent (split b'/' (to_slash p)) ≡ false = ground arith in
    (
      resolve_unix_inside workspace p filled no_nul (relative-to_slash p relative)
          (parents-to_slash p safe),
      rw plain (
          resolve_unix_inside workspace (to_slash p) (is_empty-to_slash p ∙ filled)
            (no_nul-to_slash p no_nul) relative safe),
    )
