-- ===== src/DomainName.antt =====
-- internal/domainname/domainname.go: the identity key of a domain.
pub mod Identity
use c_panel_self_migration.Prelude.{
  ℕ, Bool, ◌&&◌, [], ◌∷◌, map, Bytes, is_empty, ◌==◌, if◌then◌else◌, lower_byte, eqb, List, any,
}

-- The loop of `Key` that drops the last byte while it is a dot.
unfoldable pub strip_dots : Bytes → Bytes
strip_dots [] = []
strip_dots (c ∷ s) = let rest = strip_dots s in if is_empty rest && c == b'.' then [] else c ∷ rest

unfoldable pub key : Bytes → Bytes
unfolding strip_dots
key name = map lower_byte (strip_dots name)

-- The set is the list of the keys that map to true.
unfoldable pub has : List Bytes → Bytes → Bool
has set name = any (λ k. eqb k (key name)) set

unfoldable pub equal : Bytes → Bytes → Bool
equal a b = eqb (key a) (key b)
