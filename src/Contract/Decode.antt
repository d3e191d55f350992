-- ===== src/Contract/Decode.antt =====
-- contract.go: `decodeSingleObject`, over the parts of Go's library that it calls.
use c_panel_self_migration.Prelude.{Bool, not, Bytes, Result, ok, err, ◌>>◌, refuse_if}
use c_panel_self_migration.Json.{Json, null, obj, Fields}
use c_panel_self_migration.Contract.{
  Problem, invalid_utf8, invalid_json, not_an_object, trailing_json,
}

-- One call of `Decode`: a value and the bytes behind it, `io.EOF`, or another error.
pub data Decoded : Type 0 where
  value : Json → Bytes → Decoded
  end_of_input malformed : Decoded

-- `utf8.Valid` and a `json.Decoder` over the bytes that are left.
pub record JsonDecoder : Type 0 where
  pub valid_utf8 : Bytes → Bool
  pub decode : Bytes → Decoded

-- The second `Decode` finds the end.
abbrev pub at_end : Fields → Decoded → Result Problem Fields
at_end m end_of_input = ok m
at_end m _ = err trailing_json

module _ (d : JsonDecoder) where
  -- The first `Decode`, into a map.
  abbrev pub first_object : Decoded → Result Problem Fields
  first_object (value (obj m) rest) = at_end m (d.decode rest)
  first_object (value null rest) = err not_an_object
  first_object _ = err invalid_json

  unfoldable pub decode_single_object : Bytes → Result Problem Fields
  decode_single_object raw = do
    refuse_if (not (d.valid_utf8 raw)) invalid_utf8
    first_object (d.decode raw)
