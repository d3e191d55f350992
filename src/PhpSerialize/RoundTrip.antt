-- ===== src/PhpSerialize/RoundTrip.antt =====
-- internal/phpserialize/phpserialize.go: the decoder on the texts of Serialize.
use c_panel_self_migration.Prelude.{
  ℕ, zero, suc, ◌+◌, ◌≤◌, ◌<◌, Bool, true, false, ◌∷◌, ◌++◌, Bytes, length, ◌≡◌, refl, ap, ◌∙◌,
  arith, drop-length-append, take-length-append, length-append, Result, ok, err,
}
use c_panel_self_migration.Strconv.{ℤ, pos, format_nat, format_int, int64_limit}
use c_panel_self_migration.Strconv.RoundTrip.{IsInt64}
use c_panel_self_migration.PhpSerialize.{
  Value, str, int, double, bool, null, array, Entries, end, entry, max_array_elements, max_int32,
  DecodeError, element_count, put, Library, decode_str, decode_int, decode_bool, decode_null,
  elements, decode_array, dispatch, value, unserialize, key_string, max_input_bytes, max_depth,
  too_deep,
}
use c_panel_self_migration.PhpSerialize.Literals.{
  expect_tags, expect_marks, read_int-format_int, read_int-format_nat, string_length-append,
  max_int32-lt,
}
use c_panel_self_migration.PhpSerialize.Serialize.{
  size, str_text, text, texts, has_key, snoc, IsStorable, AreStorable,
}

module _ (lib : Library) where
  open lib use {Float}

  decode_str-text :
      (s rest : Bytes) → length s ≤ max_int32 → decode_str lib (str_text s rest) ≡ ok (str s, rest)
  unfolding decode_str
  decode_str-text s rest h =
      let quoted = s ++ (b'"' ∷ b';' ∷ rest) in
      ground (
        arith,
        (expect_tags (format_nat (length s) ++ (b':' ∷ b'"' ∷ quoted))).0,
        read_int-format_nat b':' (length s) (b'"' ∷ quoted) refl (max_int32-lt (length s) h),
        (expect_marks quoted).1,
        string_length-append s (b'"' ∷ b';' ∷ rest) h,
        take-length-append s (b'"' ∷ b';' ∷ rest),
        drop-length-append s (b'"' ∷ b';' ∷ rest),
        (expect_marks rest).2,
      )

  decode_int-text :
      (n : ℤ) (rest : Bytes)
      → IsInt64 n
      → decode_int lib (text {F = Float} (int n) rest) ≡ ok (int n, rest)
  unfolding decode_int text
  decode_int-text n rest h = ground (
    arith,
    (expect_tags (format_int n ++ b';' ∷ rest)).1,
    read_int-format_int b';' n rest refl refl h,
  )

  decode_bool-text :
      (b : Bool) (rest : Bytes)
      → decode_bool lib (text {F = Float} (bool b) rest) ≡ ok (bool b, rest)
  unfolding decode_bool text
  decode_bool-text true rest =
      ground (arith, (expect_tags (b'1' ∷ b';' ∷ rest)).2, (expect_marks rest).0)
  decode_bool-text false rest =
      ground (arith, (expect_tags (b'0' ∷ b';' ∷ rest)).2, (expect_marks rest).0)

  decode_null-text : (rest : Bytes) → decode_null lib (text {F = Float} null rest) ≡ ok (null, rest)
  unfolding decode_null text
  decode_null-text rest = ground (arith, (expect_tags rest).4)

  -- An entry under a new key goes to the end.
  put-snoc :
      (key : Bytes) (v : Value Float) (es : Entries Float)
      → has_key key es ≡ false
      → put key v es ≡ snoc es key v
  unfolding put
  put-snoc key v end h = refl
  put-snoc key v (entry k w es) h = ground (arith, put-snoc key v es)

  abbrev append : Entries Float → Entries Float → Entries Float
  append before end = before
  append before (entry k v es) = append (snoc before k v) es

  append-entry :
      (k : Bytes) (v : Value Float) (before es : Entries Float)
      → append (entry k v before) es ≡ entry k v (append before es)
  append-entry k v before end = refl
  append-entry k v before (entry j w es) = append-entry k v (snoc before j w) es

  append-end : (es : Entries Float) → append end es ≡ es
  append-end end = refl
  append-end (entry k v es) = append-entry k v end es ∙ ap (entry k v) (append-end es)

  length-str_text : (s rest : Bytes) → 1 + length rest ≤ length (str_text s rest)
  length-str_text s rest = omega (
    arith,
    length-append (format_nat (length s)) (b':' ∷ b'"' ∷ (s ++ (b'"' ∷ b';' ∷ rest))),
    length-append s (b'"' ∷ b';' ∷ rest),
  )

  -- Each entry takes some bytes, so the count does not exceed the input.
  mutual
    unfolding text

    length-text : (v : Value Float) (rest : Bytes) → length rest ≤ length (text v rest)
    length-text (str s) rest = omega (arith, length-str_text s rest)
    length-text (int n) rest = omega (arith, length-append (format_int n) (b';' ∷ rest))
    length-text (double f) rest = omega arith
    length-text (bool true) rest = omega arith
    length-text (bool false) rest = omega arith
    length-text null rest = omega arith
    length-text (array es) rest = omega (
      arith,
      length-append (format_nat (size es)) (b':' ∷ b'{' ∷ texts es (b'}' ∷ rest)),
      length-texts es (b'}' ∷ rest),
    )

    length-texts :
        (es : Entries Float) (rest : Bytes) → size es + length rest ≤ length (texts es rest)
    length-texts end rest = omega arith
    length-texts (entry key v es) rest = omega (
      arith,
      length-str_text key (text v (texts es rest)),
      length-text v (texts es rest),
      length-texts es rest,
    )

  element_count-texts :
      (es : Entries Float) (rest : Bytes)
      → size es ≤ max_array_elements
      → element_count (pos (size es)) (b'{' ∷ texts es rest) ≡ ok (size es)
  unfolding element_count
  element_count-texts es rest h = ground (arith, length-texts es rest)

  -- What `value` does with an array.
  abbrev array_handler : ℕ → Bytes → Result DecodeError (Value Float × Bytes)
  array_handler zero = λ _. err too_deep
  array_handler (suc levels) = decode_array lib (value lib levels)

  value-dispatch :
      (levels : ℕ) (s : Bytes) → value lib levels s ≡ dispatch lib (array_handler levels) s
  unfolding value
  value-dispatch zero s = refl
  value-dispatch (suc levels) s = refl

  value-str :
      (levels : ℕ) (s rest : Bytes)
      → length s ≤ max_int32
      → value lib levels (str_text s rest) ≡ ok (str s, rest)
  unfolding dispatch
  value-str levels s rest h = value-dispatch levels (str_text s rest) ∙ decode_str-text s rest h

  -- Room for the fields of an array, from its element count on.
  decode_array-texts :
      (levels : ℕ) (es : Entries Float) (rest : Bytes)
      → size es ≤ max_array_elements
      → elements lib (value lib levels) (size es) (texts es (b'}' ∷ rest)) end
        ≡ ok (es, b'}' ∷ rest)
      → decode_array lib (value lib levels) (text (array es) rest) ≡ ok (array es, rest)
  unfolding decode_array text
  decode_array-texts levels es rest h e =
      let fields = texts es (b'}' ∷ rest) in
      ground (
        arith,
        (expect_tags (format_nat (size es) ++ (b':' ∷ b'{' ∷ fields))).3,
        read_int-format_nat b':' (size es) (b'{' ∷ fields) refl (count-lt (size es) h),
        element_count-texts es (b'}' ∷ rest) h,
        (expect_marks fields).3,
        (expect_marks rest).4,
      )
    where
      count-lt : (n : ℕ) → n ≤ max_array_elements → n < int64_limit
      count-lt n h = unfold max_array_elements in omega arith

  elements_done :
      (levels : ℕ) (before : Entries Float) (rest : Bytes)
      → elements lib (value lib levels) 0 rest before ≡ ok (before, rest)
  unfolding elements
  elements_done levels before rest = refl

  elements_step :
      (levels : ℕ) (key : Bytes) (v : Value Float) (es before : Entries Float) (rest : Bytes)
      → length key ≤ max_int32
      → has_key key before ≡ false
      → value lib levels (text v (texts es rest)) ≡ ok (v, texts es rest)
      → elements lib (value lib levels) (size (entry key v es)) (texts (entry key v es) rest) before
        ≡ elements lib (value lib levels) (size es) (texts es rest) (snoc before key v)
  unfolding elements text key_string
  elements_step levels key v es before rest k d e =
      ground (arith, value-str levels key (text v (texts es rest)) k, e, put-snoc key v before d)

  mutual
    unfolding dispatch text IsStorable

    value-text :
        (levels : ℕ) (v : Value Float) (rest : Bytes)
        → IsStorable levels v
        → value lib levels (text v rest) ≡ ok (v, rest)
    value-text levels (str s) rest h = value-str levels s rest h
    value-text levels (int n) rest h =
        value-dispatch levels (text {F = Float} (int n) rest) ∙ decode_int-text n rest h
    value-text levels (double f) rest h = elim h [ ]
    value-text levels (bool true) rest h =
        value-dispatch levels (text {F = Float} (bool true) rest) ∙ decode_bool-text true rest
    value-text levels (bool false) rest h =
        value-dispatch levels (text {F = Float} (bool false) rest) ∙ decode_bool-text false rest
    value-text levels null rest h =
        value-dispatch levels (text {F = Float} null rest) ∙ decode_null-text rest
    value-text zero (array es) rest h = elim h [ ]
    value-text (suc levels) (array es) rest h =
        value-dispatch (suc levels) (text (array es) rest)
        ∙ decode_array-texts levels es rest h.0 (
            elements-texts levels es end (b'}' ∷ rest) h.1
            ∙ ap (λ x. ok (x, b'}' ∷ rest)) (append-end es))

    elements-texts :
        (levels : ℕ) (es before : Entries Float) (rest : Bytes)
        → AreStorable levels before es
        → elements lib (value lib levels) (size es) (texts es rest) before
          ≡ ok (append before es, rest)
    elements-texts levels end before rest h = elements_done levels before rest
    elements-texts levels (entry key v es) before rest h =
        elements_step levels key v es before rest h.0 h.1 (value-text levels v (texts es rest) h.2)
        ∙ elements-texts levels es (snoc before key v) rest h.3

  -- Unserialize gives back any value without floats that is written in PHP's format with distinct
  -- string keys and within the decoder's limits on depth, counts, lengths and input size, whatever
  -- bytes its strings hold and whatever follows it.
  pub unserialize-text :
      (v : Value Float) (rest : Bytes)
      → IsStorable max_depth v
      → length (text v rest) ≤ max_input_bytes
      → unserialize lib (text v rest) ≡ ok v
  unfolding unserialize
  unserialize-text v rest h n = ground (arith, value-text max_depth v rest h)
