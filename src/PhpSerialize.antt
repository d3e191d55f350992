-- ===== src/PhpSerialize.antt =====
-- internal/phpserialize/phpserialize.go: the decoder of PHP's serialize format.
-- The state of a decoder is `d.s[d.pos:]`, the bytes that are left, and the number of levels that
-- arrays may still nest: `maxDepth - d.depth`. The recursion of `value` is on that number, so it
-- needs no fuel. The positions in the messages are left out.
pub mod Serialize
pub mod Literals
pub mod RoundTrip
pub mod Limits
use c_panel_self_migration.Prelude.{
  ℕ, zero, suc, ◌+◌, ◌*◌, ◌-◌, ◌^◌, Bool, true, false, [], ◌∷◌, Bytes, lit, length, take, drop, eqb,
  has_prefix, ltb, ◌==◌, if◌then◌else◌, Option, none, some, Result, ok, err, ◌>>=◌, ◌>>◌, refuse_if,
}
use c_panel_self_migration.Strconv.{ℤ, pos, negsuc, parse_int, format_int}

-- `map[string]Value` is the list of its entries; `F` is float64.
mutual
  pub data Value (F : Type 0) : Type 0 where
    str : Bytes → Value F
    int : ℤ → Value F
    double : F → Value F
    bool : Bool → Value F
    null : Value F
    array : Entries F → Value F

  pub data Entries (F : Type 0) : Type 0 where
    end : Entries F
    entry : Bytes → Value F → Entries F → Entries F

pub data DecodeError : Type 0 where
  too_large unexpected_end unsupported_type unterminated_int bad_int : DecodeError
  negative_length length_limit length_overruns bad_double truncated_bool too_deep : DecodeError
  negative_count count_limit count_exceeds_input : DecodeError
  expected : Bytes → DecodeError

unfoldable pub max_input_bytes : ℕ
max_input_bytes = 50 * 1024 * 1024

unfoldable pub max_array_elements : ℕ
max_array_elements = 100000

abbrev pub max_depth : ℕ
max_depth = 64

-- `math.MaxInt32`
unfoldable pub max_int32 : ℕ
max_int32 = 2 ^ 31 - 1

-- What the code uses of Go's library on floats: `ParseFloat`, and the verb %v for a key that is
-- no string and no integer.
pub record Library : Type 1 where
  pub Float : Type 0
  pub parse_float : Bytes → Option Float
  pub sprint : Value Float → Bytes

unfoldable pub expect : Bytes → Bytes → Result DecodeError Bytes
expect prefix s = if has_prefix s prefix then ok (drop (length prefix) s) else err (expected prefix)

-- A byte in front of the first part of a cut.
unfoldable pub onto_cut : ℕ → Option (Bytes × Bytes) → Option (Bytes × Bytes)
onto_cut c none = none
onto_cut c (some (a, b)) = some (c ∷ a, b)

-- The bytes in front of the first `delim` and those behind it.
unfoldable pub cut : ℕ → Bytes → Option (Bytes × Bytes)
unfolding onto_cut
cut delim [] = none
cut delim (c ∷ s) = let rest = cut delim s in if c == delim then some ([], s) else onto_cut c rest

abbrev pub int_before : Option (Bytes × Bytes) → Result DecodeError (ℤ × Bytes)
int_before none = err unterminated_int
int_before (some (digits, s)) = elim (parse_int digits) [ none ↦ err bad_int | some n ↦ ok (n, s) ]

unfoldable pub read_int_until : ℕ → Bytes → Result DecodeError (ℤ × Bytes)
unfolding cut
read_int_until delim s = int_before (cut delim s)

-- The three tests on a declared string length.
unfoldable pub string_length : ℤ → Bytes → Result DecodeError ℕ
string_length (negsuc n) s = err negative_length
string_length (pos n) s =
    if ltb max_int32 n
    then err length_limit
    else if ltb (length s) n
    then err length_overruns
    else ok n

-- The three tests on a declared element count.
unfoldable pub element_count : ℤ → Bytes → Result DecodeError ℕ
element_count (negsuc n) s = err negative_count
element_count (pos n) s =
    if ltb max_array_elements n
    then err count_limit
    else if ltb (length s) n
    then err count_exceeds_input
    else ok n

-- The bytes up to a `;`, or all of them, and what is left.
unfoldable pub up_to_semicolon : Bytes → Bytes × Bytes
up_to_semicolon [] = ([], [])
up_to_semicolon (c ∷ s) =
    let (a, b) = up_to_semicolon s in if c == b';' then ([], c ∷ s) else (c ∷ a, b)

module _ {F : Type 0} where
  -- `out[key] = v`
  unfoldable pub put : Bytes → Value F → Entries F → Entries F
  put key v end = entry key v end
  put key v (entry k w es) = if eqb k key then entry k v es else entry k w (put key v es)

module _ (lib : Library) where
  open lib use {Float, parse_float, sprint}

  abbrev pub Decoded : Type 0
  Decoded = Result DecodeError (Value Float × Bytes)

  unfoldable pub decode_str : Bytes → Decoded
  decode_str s = do
    s1 ← expect (lit "s:") s
    head ← read_int_until b':' s1
    s2 ← expect (lit "\"") head.1
    n ← string_length head.0 s2
    s3 ← expect (lit "\";") (drop n s2)
    ok (str (take n s2), s3)

  unfoldable pub decode_int : Bytes → Decoded
  decode_int s = do s1 ← expect (lit "i:") s; head ← read_int_until b';' s1; ok (int head.0, head.1)

  abbrev pub double_of : Option Float → Bytes → Decoded
  double_of none s = err bad_double
  double_of (some f) s = do s' ← expect (lit ";") s; ok (double f, s')

  unfoldable pub decode_double : Bytes → Decoded
  unfolding up_to_semicolon
  decode_double s = do
    s1 ← expect (lit "d:") s
    let (text, rest) = up_to_semicolon s1
    double_of (parse_float text) rest

  abbrev pub bool_at : Bytes → Decoded
  bool_at [] = err truncated_bool
  bool_at (c ∷ s) = do s' ← expect (lit ";") s; ok (bool (c == b'1'), s')

  unfoldable pub decode_bool : Bytes → Decoded
  decode_bool s = do s1 ← expect (lit "b:") s; bool_at s1

  unfoldable pub decode_null : Bytes → Decoded
  decode_null s = do s' ← expect (lit "N;") s; ok (null, s')

  unfoldable pub key_string : Value Float → Bytes
  key_string (str s) = s
  key_string (int n) = format_int n
  key_string v = sprint v

  -- The loop of `array`, over a decoder of its keys and values.
  unfoldable pub elements :
      (Bytes → Decoded) → ℕ → Bytes → Entries Float → Result DecodeError (Entries Float × Bytes)
  unfolding key_string put
  elements val zero s out = ok (out, s)
  elements val (suc n) s out = do
    k ← val s
    v ← val k.1
    elements val n v.1 (put (key_string k.0) v.0 out)

  -- `array` behind its test of the depth.
  unfoldable pub decode_array : (Bytes → Decoded) → Bytes → Decoded
  decode_array val s = do
    s1 ← expect (lit "a:") s
    head ← read_int_until b':' s1
    n ← element_count head.0 head.1
    s2 ← expect (lit "{") head.1
    out ← elements val n s2 end
    s3 ← expect (lit "}") out.1
    ok (array out.0, s3)

  -- The switch of `value`.
  unfoldable pub dispatch : (Bytes → Decoded) → Bytes → Decoded
  dispatch arr [] = err unexpected_end
  dispatch arr (c ∷ s) =
      if c == b's'
      then decode_str (c ∷ s)
      else if c == b'i'
      then decode_int (c ∷ s)
      else if c == b'd'
      then decode_double (c ∷ s)
      else if c == b'b'
      then decode_bool (c ∷ s)
      else if c == b'N'
      then decode_null (c ∷ s)
      else if c == b'a'
      then arr (c ∷ s)
      else err unsupported_type

  unfoldable pub value : ℕ → Bytes → Decoded
  value zero s = dispatch (λ _. err too_deep) s
  value (suc levels) s = dispatch (decode_array (value levels)) s

  -- `Unserialize` returns the first value and ignores what follows it.
  unfoldable pub unserialize : Bytes → Result DecodeError (Value Float)
  unserialize s = do
    refuse_if (ltb max_input_bytes (length s)) too_large
    r ← value max_depth s
    ok r.0
