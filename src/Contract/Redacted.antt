-- ===== src/Contract/Redacted.antt =====
-- contract.go: `checkRedacted` and `redactedOK`.
pub mod Agree
use c_panel_self_migration.Prelude.{
  ℕ, suc, ◌+◌, Bool, true, false, not, ◌||◌, ◌&&◌, List, [], ◌∷◌, ◌++◌, Bytes, lit, eqb, is_empty,
  if◌then◌else◌, Result, ok, err, ◌>>=◌, ◌>>◌, refuse_if,
}
use c_panel_self_migration.Json.{
  Json, null, bool, num, str, arr, obj, Items, nil, cons, Fields, end, field,
}
use c_panel_self_migration.Strconv.{format_nat}
use c_panel_self_migration.Events.Redact.{Unicode, is_sensitive_key, redacted_placeholder}
use c_panel_self_migration.Contract.{Problem, not_redacted, Check}

unfoldable pub redacted_ok : Json → Bool
redacted_ok null = true
redacted_ok (str s) = is_empty s || eqb s redacted_placeholder
redacted_ok _ = false

-- `p := k; if path != "" { p = path + "." + k }`
abbrev pub child_path : Bytes → Bytes → Bytes
child_path [] k = k
child_path (c ∷ path) k = (c ∷ path) ++ b'.' ∷ k

-- `fmt.Sprintf("%s[%d]", path, i)`
abbrev pub item_path : Bytes → ℕ → Bytes
item_path path i = path ++ (b'[' ∷ (format_nat i ++ b']' ∷ []))

module _ (u : Unicode) where
  unfoldable mutual
    pub check_redacted : Json → Bytes → Check
    check_redacted null path = ok tt
    check_redacted (bool b) path = ok tt
    check_redacted (num n) path = ok tt
    check_redacted (str s) path = ok tt
    check_redacted (arr items) path = check_items items path 0
    check_redacted (obj m) path = check_fields m path

    pub check_items : Items → Bytes → ℕ → Check
    check_items nil path i = ok tt
    check_items (cons v items) path i = do
      check_redacted v (item_path path i)
      check_items items path (i + 1)

    pub check_fields : Fields → Bytes → Check
    check_fields end path = ok tt
    check_fields (field k v m) path = do
      refuse_if (is_sensitive_key u k && not (redacted_ok v)) (not_redacted (child_path path k))
      check_redacted v (child_path path k)
      check_fields m path
