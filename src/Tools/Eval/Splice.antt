-- ===== src/Tools/Eval/Splice.antt =====
-- How consecutive captures are joined (src/tools.cpp `eval_code`, the accumulator).
use jjmcp.Base.{
  ℕ, ◌≤◌, ◌≡◌, inl, inr, refl, sym, ap, ◌∙◌, true, false, not, ◌&&◌, [], ◌∷◌, ◌++◌, length, take,
  drop, ltb, arith, Bool-cases, append_assoc, append-nil, take-append-drop, drop_all,
}
use mathlib.Core.Bool.{false≢true}
use jjmcp.Text.{Bytes, is_empty, ◌=ᵇ◌}
use jjmcp.Text.Laws.{=ᵇ_sound}
use jjmcp.Julia.Overlap.{compute_capture_overlap}
use jjmcp.Julia.Overlap.Border.{IsBest, EndsIn-le}
use jjmcp.Julia.Overlap.Best.{compute_capture_overlap-IsBest}
use jjmcp.Tools.Eval.{splice}

-- Two longest overlaps are the same.
IsBest-unique : (x s : Bytes) (k l : ℕ) → IsBest x s k → IsBest x s l → k ≡ l
IsBest-unique x s k l (ek, mk) (el, ml) = omega (arith, mk l el, ml k ek)

take_whole : (s : Bytes) → take (length s) s ≡ s
take_whole [] = refl
take_whole (c ∷ s) = ap (λ r. c ∷ r) (take_whole s)

whole_is_last : (last cap : Bytes) (k : ℕ) → IsBest last cap k → cap ≡ last → length cap ≤ k
whole_is_last last cap k (ends, longest) e =
    longest (length cap) (omega arith, ([], sym e ∙ sym (take_whole cap)))

-- A capture that adds nothing lies in the overlap.
nothing_new :
    (last cap : Bytes) (k : ℕ)
    → IsBest last cap k
    → (not (cap =ᵇ last) && ltb k (length cap)) ≡ false
    → length cap ≤ k
nothing_new last cap k best h = elim (Bool-cases (cap =ᵇ last)) [
  | inl e ↦ whole_is_last last cap k best (=ᵇ_sound cap last e)
  | inr e ↦ let none_left : ltb k (length cap) ≡ false = rw e at h in ground arith
]

empty_parts : (s t : Bytes) → is_empty (s ++ t) ≡ true → (s ++ t ≡ []) × (t ≡ [])
empty_parts [] [] h = (refl, refl)
empty_parts [] (c ∷ t) h = absurd (false≢true h)
empty_parts (c ∷ s) t h = absurd (false≢true h)

splice_at :
    (kept last cap : Bytes) (k : ℕ)
    → IsBest last cap k
    → compute_capture_overlap last cap ≡ k
    → (splice (kept ++ last) last cap).0 ≡ (kept ++ last) ++ drop k cap
unfolding splice
splice_at kept last cap k best at_k = elim (Bool-cases (is_empty (kept ++ last))) [
  | inl e ↦
      let (none_kept, none_last) = empty_parts kept last e in
      let start : k ≡ 0 = omega (arith, EndsIn-le last cap k best.0, ap length none_last) in
      rw (e, none_kept, start) refl
  | inr e ↦ elim (Bool-cases (not (cap =ᵇ last) && ltb k (length cap))) [
    | inl more ↦ rw (e, at_k, more) refl
    | inr same ↦
        rw (e, at_k, same, drop_all k cap (nothing_new last cap k best same))
          (sym (append-nil (kept ++ last)))
  ]
]

-- The accumulator that ends with the last capture is continued with what the new capture shows
-- beyond the longest overlap of the two, and with nothing else.
pub splice_lem :
    (kept last cap : Bytes) (k : ℕ)
    → IsBest last cap k
    → (splice (kept ++ last) last cap).0 ≡ (kept ++ last) ++ drop k cap
splice_lem kept last cap k best = splice_at kept last cap k best (
    IsBest-unique last cap (compute_capture_overlap last cap) k
      (compute_capture_overlap-IsBest last cap) best)

-- An accumulator that ends with the last capture ends with the new one once that is spliced in,
-- and its earlier bytes stay.
pub splice_keeps_capture :
    (kept last cap : Bytes)
    → (more kept' : Bytes) × ((splice (kept ++ last) last cap).0 ≡ (kept ++ last) ++ more)
      × ((splice (kept ++ last) last cap).0 ≡ kept' ++ cap)
splice_keeps_capture kept last cap =
    let k = compute_capture_overlap last cap in
    let best = compute_capture_overlap-IsBest last cap in
    let (fits, (p, e)) = best.0 in
    let joined = splice_lem kept last cap k best in
    let rest : (kept ++ last) ++ drop k cap ≡ (kept ++ p) ++ cap =
      ap (λ t. (kept ++ t) ++ drop k cap) e
      ∙ ap (λ t. t ++ drop k cap) (sym (append_assoc kept p (take k cap)))
      ∙ append_assoc (kept ++ p) (take k cap) (drop k cap)
      ∙ ap (λ t. (kept ++ p) ++ t) (take-append-drop k cap) in
    (drop k cap, kept ++ p, joined, joined ∙ rest)
