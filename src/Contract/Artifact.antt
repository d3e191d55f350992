-- ===== src/Contract/Artifact.antt =====
-- contract.go: `checkArtifactPath`, which confines an artifact to the run workspace.
pub mod Confined
use c_panel_self_migration.Prelude.{
  ℕ, Bool, List, Option, none, [], ◌∷◌, Bytes, lit, any, map, is_empty, has_prefix, contains_byte,
  split, ◌==◌, if◌then◌else◌, Result, ok, ◌>>=◌, ◌>>◌, refuse_if,
}
use c_panel_self_migration.Paths.{is_parent, resolve_unix}

pub data ArtifactProblem : Type 0 where
  path_empty path_nul path_absolute path_colon path_parent : ArtifactProblem

-- `strings.ReplaceAll(p, "\\", "/")`
abbrev pub slash_byte : ℕ → ℕ
slash_byte c = if c == b'\\' then b'/' else c

unfoldable pub to_slash : Bytes → Bytes
to_slash = map slash_byte

-- The file that Windows names by the path, where backslashes separate too: a colon belongs to a
-- drive or to a stream of a file, and is no part of a plain file name.
unfoldable pub resolve_windows : List Bytes → Bytes → Option (List Bytes)
resolve_windows dir p = if contains_byte b':' p then none else resolve_unix dir (to_slash p)

unfoldable pub check_artifact_path : Bytes → Result ArtifactProblem (Unit {0})
check_artifact_path p = do
  refuse_if (is_empty p) path_empty
  refuse_if (contains_byte 0 p) path_nul
  refuse_if (has_prefix (to_slash p) (lit "/")) path_absolute
  refuse_if (contains_byte b':' p) path_colon
  refuse_if (any is_parent (split b'/' (to_slash p))) path_parent
