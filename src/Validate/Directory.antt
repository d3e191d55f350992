-- ===== src/Validate/Directory.antt =====
-- internal/validate/validate.go: where the checked names lead, by the walk of Paths.
use c_panel_self_migration.Prelude.{
  any, some, true, false, List, [], ◌∷◌, ◌++◌, Bytes, lit, eqb, eqb_iff, is_empty, has_prefix,
  contains_byte, not-contains_byte, split, split_no_sep, split-append, ok, ◌≡◌, refl, arith, ap,
  Bool-cases, inl, inr, ◌∙◌,
}
use c_panel_self_migration.Paths.{walk, enter_name, resolve_unix, resolve_unix_inside}
use c_panel_self_migration.Validate.{mailbox_user, domain, rel_path, no_control, is_control}

no_control-none : (s : Bytes) → no_control s ≡ ok tt → any is_control s ≡ false
unfolding no_control
no_control-none [] h = refl
no_control-none (c ∷ s) h = ground (arith, no_control-none s)

-- NUL is a control byte.
nul_is_control : (s : Bytes) → any is_control s ≡ false → contains_byte 0 s ≡ false
nul_is_control [] h = refl
nul_is_control (c ∷ s) h = ground (arith, nul_is_control s)

-- A path that RelPath accepts names, on a Unix system and from any directory, a file at or below
-- that directory.
pub rel_path-resolve_unix :
    (root : List Bytes) (s : Bytes)
    → rel_path s ≡ ok tt
    → (inner : List Bytes) × (resolve_unix root s ≡ some (inner ++ root))
unfolding rel_path
rel_path-resolve_unix root s h =
    let printable : no_control s ≡ ok tt = ground arith in
    resolve_unix_inside root s (ground arith) (nul_is_control s (no_control-none s printable))
      (ground arith) (ground arith)

-- What the checks say of a name as one component of a path.
record IsComponent (s : Bytes) : Type 0 where
  not_empty : is_empty s ≡ false
  not_dot : eqb s (lit ".") ≡ false
  not_parent : eqb s (lit "..") ≡ false
  no_slash : contains_byte b'/' s ≡ false

mailbox_user-IsComponent : (s : Bytes) → mailbox_user s ≡ ok tt → IsComponent s
unfolding mailbox_user lit
mailbox_user-IsComponent s h = ground (arith, not-contains_byte b'/' (lit "/\\") s refl)

-- `.` and `..` begin with a dot.
leading_dot :
    (s t : Bytes) → has_prefix t (lit ".") ≡ true → has_prefix s (lit ".") ≡ false → eqb s t ≡ false
leading_dot s t p h = elim (Bool-cases (eqb s t)) [
  | inl e ↦ cc (p, h, (eqb_iff s t).0 e)
  | inr ne ↦ ne
]

domain-IsComponent : (s : Bytes) → domain s ≡ ok tt → IsComponent s
unfolding domain lit has_prefix
domain-IsComponent s h = ground (
  arith,
  not-contains_byte b'/' (lit "/\\?#%&'\"`;|*$(){}[]<>!") s refl,
  leading_dot s (lit ".") refl,
  leading_dot s (lit "..") refl,
)

IsComponent-enter :
    (dir : List Bytes) {s : Bytes} → IsComponent s → walk dir (split b'/' s) ≡ s ∷ dir
IsComponent-enter dir {s} c =
    rw (split_no_sep b'/' s c.no_slash) (enter_name dir s c.not_empty c.not_dot c.not_parent)

-- For a domain and a mailbox user that the validators accept, the path domain/user leads from the
-- mail directory exactly to the directory of that user in the directory of that domain.
pub mailbox_directory :
    (mail : List Bytes) (dom user : Bytes)
    → domain dom ≡ ok tt
    → mailbox_user user ≡ ok tt
    → walk mail (split b'/' (dom ++ b'/' ∷ user)) ≡ user ∷ dom ∷ mail
mailbox_directory mail dom user d u =
    let c = domain-IsComponent dom d in
    ap (walk mail) (split-append b'/' dom user c.no_slash)
    ∙ ap (λ dir. walk dir (split b'/' user))
        (enter_name mail dom c.not_empty c.not_dot c.not_parent)
    ∙ IsComponent-enter (dom ∷ mail) (mailbox_user-IsComponent user u)
