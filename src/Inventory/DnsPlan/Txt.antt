-- ===== src/Inventory/DnsPlan/Txt.antt =====
-- internal/accountinventory/dnsplan.go: the segments of the text of a TXT record.
use c_panel_self_migration.Prelude.{
  ℕ, zero, suc, ◌≤◌, Bool, true, false, ◌||◌, List, [], ◌∷◌, ◌++◌, length, take, drop,
  take-append-drop, length-take, length-drop, joined, append-nil, Bytes, ltb, leb, ◌==◌,
  if◌then◌else◌, ◌≡◌, refl, ap, ◌∙◌, arith, Bool-cases, inl, inr,
}

unfoldable pub txt_segment_len : ℕ
txt_segment_len = 255

-- `utf8.RuneStart`: the byte does not go on with a rune.
abbrev pub rune_start : ℕ → Bool
rune_start b = ltb b 128 || leb 192 b

abbrev byte_at : ℕ → Bytes → ℕ
byte_at n [] = 0
byte_at zero (b ∷ s) = b
byte_at (suc n) (b ∷ s) = byte_at n s

-- The loop that moves the cut back to the start of a rune.
unfoldable pub back_to_rune : (cut : ℕ) → Bytes → ℕ
back_to_rune zero s = zero
back_to_rune (suc cut) s =
    let back = back_to_rune cut s in if rune_start (byte_at (suc cut) s) then suc cut else back

unfoldable pub cut_of : (limit : ℕ) → Bytes → ℕ
unfolding back_to_rune
cut_of limit s = let cut = back_to_rune limit s in if cut == 0 then limit else cut

-- The loop, on fuel: each turn takes a byte at least.
unfoldable pub segments : (limit fuel : ℕ) → Bytes → List Bytes
unfolding cut_of
segments limit zero s = s ∷ []
segments limit (suc fuel) s = elim (ltb limit (length s)) [
  | true ↦ take (cut_of limit s) s ∷ segments limit fuel (drop (cut_of limit s) s)
  | false ↦ s ∷ []
]

unfoldable pub split_txt_segments : Bytes → List Bytes
unfolding segments txt_segment_len
split_txt_segments s = segments txt_segment_len (length s) s

abbrev pub AreShort : (limit : ℕ) → List Bytes → Type 0
AreShort limit [] = Unit
AreShort limit (p ∷ ps) = (length p ≤ limit) × AreShort limit ps

back_to_rune-le : (cut : ℕ) (s : Bytes) → back_to_rune cut s ≤ cut
unfolding back_to_rune
back_to_rune-le zero s = omega arith
back_to_rune-le (suc cut) s = ground (arith, back_to_rune-le cut s)

cut_of-bounds :
    (limit : ℕ) (s : Bytes) → 1 ≤ limit → (1 ≤ cut_of limit s) × (cut_of limit s ≤ limit)
unfolding cut_of
cut_of-bounds limit s h = ground (arith, back_to_rune-le limit s, h)

segments-long :
    (limit fuel : ℕ) (s : Bytes)
    → ltb limit (length s) ≡ true
    → segments limit (suc fuel) s
      ≡ take (cut_of limit s) s ∷ segments limit fuel (drop (cut_of limit s) s)
unfolding segments
segments-long limit fuel s h = rw (h, segments) refl

segments-short :
    (limit fuel : ℕ) (s : Bytes)
    → ltb limit (length s) ≡ false
    → segments limit (suc fuel) s ≡ s ∷ []
unfolding segments
segments-short limit fuel s h = rw (h, segments) refl

segments_lem :
    (limit fuel : ℕ) (s : Bytes)
    → 1 ≤ limit
    → length s ≤ fuel
    → (joined (segments limit fuel s) ≡ s) × AreShort limit (segments limit fuel s)
unfolding segments
segments_lem limit zero s h k = (append-nil s, (omega arith, tt))
segments_lem limit (suc fuel) s h k = elim (Bool-cases (ltb limit (length s))) [
  | inr fits ↦ rw (segments-short limit fuel s fits) (append-nil s, (ground (arith, fits), tt))
  | inl long ↦
      let cut = cut_of-bounds limit s h in
      let cut_len = length-take (cut_of limit s) s (ground (arith, long, cut)) in
      let rest =
        segments_lem limit fuel (drop (cut_of limit s) s) h
          (omega (arith, length-drop (cut_of limit s) s, cut, k)) in
      rw (segments-long limit fuel s long) (
        ap (◌++◌ (take (cut_of limit s) s)) rest.0 ∙ take-append-drop (cut_of limit s) s,
        (omega (arith, cut_len, cut), rest.1),
      )
]

-- The segments of a TXT value are the value when joined, and none is longer than 255 bytes.
pub split_txt_segments-joined :
    (s : Bytes) → (joined (split_txt_segments s) ≡ s) × AreShort 255 (split_txt_segments s)
unfolding split_txt_segments txt_segment_len
split_txt_segments-joined s = segments_lem 255 (length s) s (omega arith) (omega arith)
