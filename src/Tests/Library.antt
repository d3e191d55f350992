-- ===== src/Tests/Library.antt =====
-- Concrete stand-ins for the parts of Go's library that the model takes as parameters.
use c_panel_self_migration.Prelude.{ℕ, List, Bytes, split, lit, ltb, none, some, refl}
use c_panel_self_migration.Events.Redact.{Unicode}
use c_panel_self_migration.Contract.Timestamp.{Clock}
use c_panel_self_migration.PhpSerialize.{Library}

-- Texts of plain bytes alone.
abbrev pub plain_unicode : Unicode
plain_unicode = record { to_lower = λ s. s; trim_space = λ s. s; keeps_plain = λ k h. refl }

-- A clock that reads every text as the same instant of the year 2026.
abbrev pub still_clock : Clock
still_clock = record { Time = ℕ; parse = λ s. some 2026; year = λ t. t; before = ltb }

-- No float parses.
abbrev pub no_floats : Library
no_floats = record { Float = Unit {0}; parse_float = λ s. none; sprint = λ v. lit "0" }

-- A quoted text without its quotes, and the words between single spaces.
abbrev pub plain_quote : Bytes → Bytes
plain_quote s = s

abbrev pub space_words : Bytes → List Bytes
space_words s = split b' ' s
