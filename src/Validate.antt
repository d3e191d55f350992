-- ===== src/Validate.antt =====
-- internal/validate/validate.go: the checks of the names and paths that reach a remote script.
-- An error keeps its reason and its byte; the name of the field, which only the text of the
-- message carries, is left out.
pub mod Directory
use c_panel_self_migration.Prelude.{
  ℕ, Bool, false, ◌||◌, ◌&&◌, [], ◌∷◌, Bytes, lit, eqb, is_empty, ltb, ◌==◌, if◌then◌else◌,
  has_prefix, contains_any, split, any, Result, ok, err, ◌>>=◌, ◌>>◌, refuse_if,
}
use c_panel_self_migration.Paths.{is_parent}

pub data Invalid : Type 0 where
  empty space traversal separator edge_dot double_dot illegal absolute : Invalid
  control : ℕ → Invalid

abbrev pub is_control : ℕ → Bool
is_control c = ltb c 0x20 || c == 0x7f

abbrev pub Check : Type 0
Check = Result Invalid (Unit {0})

unfoldable pub no_control : Bytes → Check
no_control [] = ok tt
no_control (c ∷ s) = if is_control c then err (control c) else no_control s

-- The loop of `noControlOrSpace` that follows the call of `noControl`.
unfoldable pub no_space : Bytes → Check
no_space [] = ok tt
no_space (c ∷ s) = if c == b' ' then err space else no_space s

unfoldable pub no_control_or_space : Bytes → Check
no_control_or_space s = do no_control s; no_space s

unfoldable pub mailbox_user : Bytes → Check
unfolding no_control no_space no_control_or_space
mailbox_user s = do
  refuse_if (is_empty s) empty
  no_control_or_space s
  refuse_if (eqb s (lit ".") || eqb s (lit "..")) traversal
  refuse_if (contains_any s (lit "/\\")) separator

-- `strings.HasSuffix(s, ".")`
pub ends_with_dot : Bytes → Bool
ends_with_dot [] = false
ends_with_dot (c ∷ s) = let rest = ends_with_dot s in if is_empty s then c == b'.' else rest

-- `strings.Contains(s, "..")`
pub double_dots : Bytes → Bool
double_dots [] = false
double_dots (c ∷ s) = has_prefix (c ∷ s) (lit "..") || double_dots s

unfoldable pub domain : Bytes → Check
unfolding no_control no_space no_control_or_space ends_with_dot double_dots
domain s = do
  refuse_if (is_empty s) empty
  no_control_or_space s
  refuse_if (has_prefix s (lit ".") || ends_with_dot s) edge_dot
  refuse_if (double_dots s) double_dot
  refuse_if (contains_any s (lit "/\\?#%&'\"`;|*$(){}[]<>!")) illegal

unfoldable pub db_name : Bytes → Check
unfolding no_control no_space no_control_or_space
db_name s = do
  refuse_if (is_empty s) empty
  no_control_or_space s
  refuse_if (contains_any s (lit "/\\`'\";|*$(){}[]<>!?#&")) illegal

unfoldable pub rel_path : Bytes → Check
unfolding no_control
rel_path s = do
  refuse_if (is_empty s) empty
  no_control s
  refuse_if (has_prefix s (lit "/")) absolute
  refuse_if (any is_parent (split b'/' s)) traversal
