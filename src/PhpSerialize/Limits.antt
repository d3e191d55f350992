-- ===== src/PhpSerialize/Limits.antt =====
-- internal/phpserialize/phpserialize.go: the bounds on a decoded value.
use c_panel_self_migration.Prelude.{
  subst, ℕ, zero, suc, ◌+◌, ◌≤◌, Bool, true, false, [], ◌∷◌, Bytes, lit, length, eqb, ◌≡◌, arith,
  Result, ok, err, ltb, bind-eq-ok, ◌⊎◌, refuse_if, ok-injective, Bool-cases, inl, inr,
}
use c_panel_self_migration.Strconv.{ℤ, pos, negsuc}
use c_panel_self_migration.PhpSerialize.{
  Value, str, int, double, bool, null, array, Entries, end, entry, max_array_elements, DecodeError,
  expect, read_int_until, element_count, put, Library, decode_str, decode_int, decode_double,
  decode_bool, decode_null, elements, decode_array, dispatch, value, unserialize, key_string,
  max_input_bytes, max_depth, too_deep, too_large,
}
use c_panel_self_migration.PhpSerialize.Serialize.{size}

module _ {F : Type 0} where
  -- At most `levels` arrays inside one another, each with at most `max_array_elements` entries.
  unfoldable mutual
    pub IsWithin : ℕ → Value F → Type 0
    IsWithin levels (str s) = Unit
    IsWithin levels (int n) = Unit
    IsWithin levels (double f) = Unit
    IsWithin levels (bool b) = Unit
    IsWithin levels null = Unit
    IsWithin zero (array es) = ⊥
    IsWithin (suc levels) (array es) = (size es ≤ max_array_elements) × AreWithin levels es

    pub AreWithin : ℕ → Entries F → Type 0
    AreWithin levels end = Unit
    AreWithin levels (entry key v es) = IsWithin levels v × AreWithin levels es

  put-AreWithin :
      (levels : ℕ) (key : Bytes) (v : Value F) (es : Entries F)
      → IsWithin levels v
      → AreWithin levels es
      → AreWithin levels (put key v es)
  unfolding put IsWithin
  put-AreWithin levels key v end h k = (h, tt)
  put-AreWithin levels key v (entry j w es) h k = elim (Bool-cases (eqb j key)) [
    | inl same ↦ rw same (h, k.1)
    | inr other ↦ rw other (k.0, put-AreWithin levels key v es h k.1)
  ]

  size-put : (key : Bytes) (v : Value F) (es : Entries F) → size (put key v es) ≤ size es + 1
  unfolding put
  size-put key v end = omega arith
  size-put key v (entry j w es) = ground (arith, size-put key v es)

module _ (lib : Library) where
  open lib use {Float}

  -- The decoder of keys and values keeps within the levels that are left.
  abbrev Keeps : ℕ → (Bytes → Result DecodeError (Value Float × Bytes)) → Type 0
  Keeps levels val = (s : Bytes) (r : Value Float × Bytes) → val s ≡ ok r → IsWithin levels r.0

  elements-AreWithin :
      (levels : ℕ) (val : Bytes → Result DecodeError (Value Float × Bytes))
      → Keeps levels val
      → (n : ℕ) (s : Bytes) (out : Entries Float) (r : Entries Float × Bytes) → AreWithin levels out
      → elements lib val n s out ≡ ok r
      → AreWithin levels r.0 × (size r.0 ≤ size out + n)
  unfolding elements
  elements-AreWithin levels val keeps zero s out r h e =
      subst (λ r. AreWithin levels r.0 × (size r.0 ≤ size out + 0)) (ok-injective e)
        (h, omega arith)
  elements-AreWithin levels val keeps (suc n) s out r h e =
      let (k, ek, e1) = bind-eq-ok (val s) _ e in
      let (v, ev, e2) = bind-eq-ok (val k.1) _ e1 in
      let (within, small) =
        elements-AreWithin levels val keeps n v.1 (put (key_string lib k.0) v.0 out) r
          (put-AreWithin levels (key_string lib k.0) v.0 out (keeps k.1 v ev) h) e2 in
      (within, omega (arith, small, size-put (key_string lib k.0) v.0 out))

  count_le : (z : ℤ) (s : Bytes) (n : ℕ) → element_count z s ≡ ok n → n ≤ max_array_elements
  unfolding element_count
  count_le (pos k) s n e = ground arith
  count_le (negsuc k) s n e = ground arith

  decode_array-IsWithin :
      (levels : ℕ) (val : Bytes → Result DecodeError (Value Float × Bytes))
      → Keeps levels val
      → Keeps (suc levels) (decode_array lib val)
  unfolding decode_array IsWithin
  decode_array-IsWithin levels val keeps s r e =
      let (s1, _, e1) = bind-eq-ok (expect (lit "a:") s) _ e in
      let (head, _, e2) = bind-eq-ok (read_int_until b':' s1) _ e1 in
      let (n, en, e3) = bind-eq-ok (element_count head.0 head.1) _ e2 in
      let (s2, _, e4) = bind-eq-ok (expect (lit "{") head.1) _ e3 in
      let (out, eo, e5) = bind-eq-ok (elements lib val n s2 end) _ e4 in
      let (s3, _, e6) = bind-eq-ok (expect (lit "}") out.1) _ e5 in
      let (within, small) = elements-AreWithin levels val keeps n s2 end out tt eo in
      subst (λ r. IsWithin (suc levels) r.0) (ok-injective e6)
        (omega (arith, small, count_le head.0 head.1 n en), within)

  abbrev is_flat : Value Float → Bool
  is_flat (array es) = false
  is_flat _ = true

  -- A value that is no array is within any limits.
  flat : (levels : ℕ) (v : Value Float) → is_flat v ≡ true → IsWithin levels v
  unfolding IsWithin
  flat levels (array es) h = cc
  flat levels (str s) h = tt
  flat levels (int n) h = tt
  flat levels (double f) h = tt
  flat levels (bool b) h = tt
  flat levels null h = tt

  abbrev AreFlat : (Bytes → Result DecodeError (Value Float × Bytes)) → Type 0
  AreFlat val = (s : Bytes) (r : Value Float × Bytes) → val s ≡ ok r → is_flat r.0 ≡ true

  decode_str-flat : AreFlat (decode_str lib)
  unfolding decode_str
  decode_str-flat s r e = ground arith

  decode_int-flat : AreFlat (decode_int lib)
  unfolding decode_int
  decode_int-flat s r e = ground arith

  decode_double-flat : AreFlat (decode_double lib)
  unfolding decode_double
  decode_double-flat s r e = ground arith

  decode_bool-flat : AreFlat (decode_bool lib)
  unfolding decode_bool
  decode_bool-flat s r e = ground arith

  decode_null-flat : AreFlat (decode_null lib)
  unfolding decode_null
  decode_null-flat s r e = ground arith

  -- Which of the decoders a first byte selects.
  dispatch_cases :
      (arr : Bytes → Result DecodeError (Value Float × Bytes)) (s : Bytes) (r : Value Float × Bytes)
      → dispatch lib arr s ≡ ok r
      → (is_flat r.0 ≡ true) ⊎ (arr s ≡ ok r)
  unfolding dispatch
  dispatch_cases arr [] r e = ground arith
  dispatch_cases arr (c ∷ s) r e = ground (
    arith,
    decode_str-flat (c ∷ s) r,
    decode_int-flat (c ∷ s) r,
    decode_double-flat (c ∷ s) r,
    decode_bool-flat (c ∷ s) r,
    decode_null-flat (c ∷ s) r,
  )

  dispatch-IsWithin :
      (levels : ℕ) (arr : Bytes → Result DecodeError (Value Float × Bytes))
      → Keeps levels arr
      → Keeps levels (dispatch lib arr)
  dispatch-IsWithin levels arr keeps s r e = elim (dispatch_cases arr s r e) [
    | inl plain ↦ flat levels r.0 plain
    | inr nested ↦ keeps s r nested
  ]

  value-IsWithin : (levels : ℕ) → Keeps levels (value lib levels)
  unfolding value
  value-IsWithin zero s r e =
      dispatch-IsWithin zero (λ _. err too_deep) (λ s r h. absurd (ground arith)) s r e
  value-IsWithin (suc levels) s r e =
      dispatch-IsWithin (suc levels) (decode_array lib (value lib levels))
        (decode_array-IsWithin levels (value lib levels) (value-IsWithin levels)) s r e

  -- Whatever the input, a value that Unserialize returns nests at most maxDepth arrays, no array of
  -- it has more than maxArrayElements entries, and the input was at most maxInputBytes long.
  pub unserialize-IsWithin :
      (s : Bytes) {v : Value Float}
      → unserialize lib s ≡ ok v
      → IsWithin max_depth v × (length s ≤ max_input_bytes)
  unfolding unserialize
  unserialize-IsWithin s e =
      let (t, small, e1) = bind-eq-ok (refuse_if (ltb max_input_bytes (length s)) too_large) _ e in
      let (r, er, e2) = bind-eq-ok (value lib max_depth s) _ e1 in
      (
        subst (λ v. IsWithin max_depth v) (ok-injective e2) (value-IsWithin max_depth s r er),
        ground arith,
      )
