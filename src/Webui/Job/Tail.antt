-- ===== src/Webui/Job/Tail.antt =====
-- internal/webui/job.go, `tailBuffer`: the buffer holds the end of all that was written.
use c_panel_self_migration.Prelude.{
  ℕ, zero, suc, ◌+◌, ◌-◌, ◌≤◌, List, [], ◌∷◌, ◌++◌, append_assoc, append-nil, length, length-append,
  length-drop, joined, drop, Bytes, ltb, if-cases, ◌≡◌, refl, sym, ap, subst, ◌∙◌, arith,
}
use c_panel_self_migration.Webui.Job.{tail_write, tail_writes}

-- The last bytes of a text, as many as the limit allows.
abbrev pub last_bytes : (limit : ℕ) → Bytes → Bytes
last_bytes limit s = drop (length s - limit) s

drop-nil : (n : ℕ) → drop {A = ℕ} n [] ≡ []
drop-nil zero = refl
drop-nil (suc n) = refl

drop-drop : (n k m : ℕ) (s : Bytes) → m ≡ k + n → drop n (drop k s) ≡ drop m s
drop-drop n zero m s h = ap (λ i. drop i s) (omega arith)
drop-drop n (suc k) m [] h = drop-nil n ∙ sym (drop-nil m)
drop-drop n (suc k) zero (b ∷ s) h = absurd (omega arith)
drop-drop n (suc k) (suc m) (b ∷ s) h = drop-drop n k m s (omega arith)

drop-append : (n : ℕ) (s t : Bytes) → n ≤ length s → drop n (s ++ t) ≡ drop n s ++ t
drop-append zero s t h = refl
drop-append (suc n) [] t h = absurd (omega arith)
drop-append (suc n) (b ∷ s) t h = drop-append n s t (omega arith)

drop-none : (n : ℕ) (s : Bytes) → n ≡ 0 → s ≡ drop n s
drop-none n s h = ap (λ k. drop k s) (sym h)

tail_write-last_bytes :
    (limit : ℕ) (buf p : Bytes) → tail_write limit buf p ≡ last_bytes limit (buf ++ p)
unfolding tail_write
tail_write-last_bytes limit buf p =
    if-cases (λ out. out ≡ last_bytes limit (buf ++ p)) (ltb limit (length (buf ++ p)))
      (λ over. refl)
      (λ fits. drop-none (length (buf ++ p) - limit) (buf ++ p) (ground (arith, fits)))

-- To cut a text and go on is to cut at the end.
last_bytes-append :
    (limit : ℕ) (s t : Bytes)
    → last_bytes limit (last_bytes limit s ++ t) ≡ last_bytes limit (s ++ t)
last_bytes-append limit s t =
    let k = length s - limit in
    ap (last_bytes limit) (sym (drop-append k s t (omega arith)))
    ∙ drop-drop (length (drop k (s ++ t)) - limit) k (length (s ++ t) - limit) (s ++ t)
        (omega (arith, length-drop k (s ++ t), length-append s t))

tail_writes-last_bytes_from :
    (limit : ℕ) (written : Bytes) (ps : List Bytes)
    → tail_writes limit (last_bytes limit written) ps ≡ last_bytes limit (written ++ joined ps)
unfolding tail_writes
tail_writes-last_bytes_from limit written [] = ap (last_bytes limit) (sym (append-nil written))
tail_writes-last_bytes_from limit written (p ∷ ps) =
    ap (λ buf. tail_writes limit buf ps)
      (tail_write-last_bytes limit (last_bytes limit written) p ∙ last_bytes-append limit written p)
    ∙ tail_writes-last_bytes_from limit (written ++ p) ps
    ∙ ap (last_bytes limit) (append_assoc written p (joined ps))

-- Whatever the texts written, the buffer holds the last bytes of all of them, as many as the limit
-- allows, and never more than the limit.
pub tail_writes-last_bytes :
    (limit : ℕ) (ps : List Bytes)
    → (tail_writes limit [] ps ≡ last_bytes limit (joined ps))
      × (length (tail_writes limit [] ps) ≤ limit)
tail_writes-last_bytes limit ps =
    let kept =
      ap (λ n. tail_writes limit n ps) (sym (drop-nil (0 - limit)))
      ∙ tail_writes-last_bytes_from limit [] ps in
    (
      kept,
      subst (λ buf. length buf ≤ limit) (sym kept)
          (omega (arith, length-drop (length (joined ps) - limit) (joined ps))),
    )
