-- ===== src/Events/Redact.antt =====
-- internal/events/redact.go on a decoded document, whose values are of the generic types throughout:
-- a value under a sensitive key is replaced by the placeholder. Events/Writer has it on any Go value.
use c_panel_self_migration.Prelude.{
  Bool, true, false, not, ◌&&◌, [], ◌∷◌, Bytes, List, lit, any, contains, is_empty, if◌then◌else◌,
  ◌≡◌, ℕ, within, ◌==◌, ◌||◌, all,
}
use c_panel_self_migration.Json.{
  Json, null, bool, num, str, arr, obj, Items, nil, cons, Fields, end, field,
}

-- A byte that neither of the two functions below changes.
abbrev pub is_plain : ℕ → Bool
is_plain c = within b'a' b'z' c || c == b'_'

-- `strings.ToLower` and `strings.TrimSpace`, whose Unicode tables belong to Go's library.
pub record Unicode : Type 0 where
  pub to_lower : Bytes → Bytes
  pub trim_space : Bytes → Bytes
  pub keeps_plain : (k : Bytes) → all is_plain k ≡ true → to_lower (trim_space k) ≡ k

unfoldable pub sensitive_substrings : List Bytes
sensitive_substrings =
    lit "token"
    ∷ lit "secret"
    ∷ lit "pass"
    ∷ lit "key"
    ∷ lit "auth"
    ∷ lit "cred"
    ∷ lit "cookie"
    ∷ lit "session"
    ∷ lit "bearer"
    ∷ []

unfoldable pub redacted_placeholder : Bytes
redacted_placeholder = lit "<redacted>"

unfoldable pub is_empty_value : Json → Bool
is_empty_value null = true
is_empty_value (str s) = is_empty s
is_empty_value _ = false

module _ (u : Unicode) where
  unfoldable pub is_sensitive_key : Bytes → Bool
  is_sensitive_key k = any (contains (u.to_lower (u.trim_space k))) sensitive_substrings

  -- The first test of `redactValue`; `rest` is what its switch returns.
  unfoldable pub redact_at : Bytes → Json → Json → Json
  redact_at key v rest =
      if is_sensitive_key key && not (is_empty_value v) then str redacted_placeholder else rest

  unfoldable mutual
    pub redact_value : Bytes → Json → Json
    redact_value key null = redact_at key null null
    redact_value key (bool b) = redact_at key (bool b) (bool b)
    redact_value key (num n) = redact_at key (num n) (num n)
    redact_value key (str s) = redact_at key (str s) (str s)
    redact_value key (arr items) = redact_at key (arr items) (arr (redact_items items))
    redact_value key (obj m) = redact_at key (obj m) (obj (redact_map m))

    -- The loop over an array: each item is redacted at the empty key.
    pub redact_items : Items → Items
    redact_items nil = nil
    redact_items (cons item items) = cons (redact_value [] item) (redact_items items)

    pub redact_map : Fields → Fields
    redact_map end = end
    redact_map (field k v m) = field k (redact_value k v) (redact_map m)
