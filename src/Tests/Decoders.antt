-- ===== src/Tests/Decoders.antt =====
-- Tests of the decoder of internal/phpserialize.
use c_panel_self_migration.Prelude.{lit, length, ok, ◌≡◌, ◌≤◌, refl, arith, eqb, true}
use c_panel_self_migration.Strconv.{negsuc, format_nat, format_int, digits}
use c_panel_self_migration.PhpSerialize.{
  Value, str, int, bool, array, end, entry, max_depth, max_input_bytes, max_array_elements,
  max_int32, unserialize,
}
use c_panel_self_migration.PhpSerialize.Serialize.{text, IsStorable}
use c_panel_self_migration.PhpSerialize.RoundTrip.{unserialize-text}
use c_panel_self_migration.PhpSerialize.Limits.{IsWithin, unserialize-IsWithin}
use c_panel_self_migration.Tests.Library.{no_floats}

-- `["quota" => -5, "tags" => ["a" => true, "b" => "x;\""]]`
abbrev settings : Value (Unit {0})
settings = array (
    entry (lit "quota") (int (negsuc 4)) (
      entry (lit "tags")
        (array (entry (lit "a") (bool true) (entry (lit "b") (str (lit "x;\"")) end))) end))

settings-IsStorable : IsStorable max_depth settings
unfolding IsStorable max_array_elements max_int32 eqb lit
settings-IsStorable = (
  omega arith,
  (
    omega arith,
    refl,
    omega arith,
    (
      omega arith,
      refl,
      (omega arith, (omega arith, refl, tt, (omega arith, refl, omega arith, tt))),
      tt,
    ),
  ),
)

settings_fit : length (text settings (lit "tail")) ≤ max_input_bytes
unfolding text format_nat format_int digits lit max_input_bytes
settings_fit = omega arith

unserialize-text_example : unserialize no_floats (text settings (lit "tail")) ≡ ok settings
unserialize-text_example =
    unserialize-text no_floats settings (lit "tail") settings-IsStorable settings_fit

unserialize-IsWithin_example :
    IsWithin max_depth settings × (length (text settings (lit "tail")) ≤ max_input_bytes)
unserialize-IsWithin_example =
    unserialize-IsWithin no_floats (text settings (lit "tail"))
      (unserialize-text no_floats settings (lit "tail") settings-IsStorable settings_fit)
