-- ===== src/PhpSerialize/Serialize.antt =====
-- The format of PHP's serialize(), on the values without floats and with every key a string.
use c_panel_self_migration.Prelude.{
  ℕ, zero, suc, ◌≤◌, Bool, true, false, ◌∷◌, ◌++◌, Bytes, length, eqb, ◌||◌, ◌≡◌,
}
use c_panel_self_migration.Strconv.{format_nat, format_int}
use c_panel_self_migration.Strconv.RoundTrip.{IsInt64}
use c_panel_self_migration.PhpSerialize.{
  Value, str, int, double, bool, null, array, Entries, end, entry, max_array_elements, max_int32,
}

-- The texts stand in front of `rest`.
abbrev pub str_text : Bytes → Bytes → Bytes
str_text s rest =
    b's' ∷ b':' ∷ (format_nat (length s) ++ (b':' ∷ b'"' ∷ (s ++ (b'"' ∷ b';' ∷ rest))))

module _ {F : Type 0} where
  abbrev pub size : Entries F → ℕ
  size end = 0
  size (entry key v es) = suc (size es)

  unfoldable mutual
    pub text : Value F → Bytes → Bytes
    text (str s) rest = str_text s rest
    text (int n) rest = b'i' ∷ b':' ∷ (format_int n ++ (b';' ∷ rest))
    text (double f) rest = rest
    text (bool true) rest = b'b' ∷ b':' ∷ b'1' ∷ b';' ∷ rest
    text (bool false) rest = b'b' ∷ b':' ∷ b'0' ∷ b';' ∷ rest
    text null rest = b'N' ∷ b';' ∷ rest
    text (array es) rest =
        b'a' ∷ b':' ∷ (format_nat (size es) ++ (b':' ∷ b'{' ∷ texts es (b'}' ∷ rest)))

    pub texts : Entries F → Bytes → Bytes
    texts end rest = rest
    texts (entry key v es) rest = str_text key (text v (texts es rest))

  abbrev pub has_key : Bytes → Entries F → Bool
  has_key key end = false
  has_key key (entry k v es) = eqb k key || has_key key es

  abbrev pub snoc : Entries F → Bytes → Value F → Entries F
  snoc end key v = entry key v end
  snoc (entry k w es) key v = entry k w (snoc es key v)

  -- The values that the decoder has room for: at most `levels` arrays inside one
  -- another, with distinct keys, and no floats. `before` holds the entries in front.
  unfoldable mutual
    pub IsStorable : ℕ → Value F → Type 0
    IsStorable levels (str s) = length s ≤ max_int32
    IsStorable levels (int n) = IsInt64 n
    IsStorable levels (double f) = ⊥
    IsStorable levels (bool b) = Unit
    IsStorable levels null = Unit
    IsStorable zero (array es) = ⊥
    IsStorable (suc levels) (array es) = (size es ≤ max_array_elements) × AreStorable levels end es

    pub AreStorable : ℕ → Entries F → Entries F → Type 0
    AreStorable levels before end = Unit
    AreStorable levels before (entry key v es) =
        (length key ≤ max_int32)
        × (has_key key before ≡ false)
        × IsStorable levels v
        × AreStorable levels (snoc before key v) es
