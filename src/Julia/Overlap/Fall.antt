-- ===== src/Julia/Overlap/Fall.antt =====
-- The fallback loop and one round behind it (`kmp_prefix_function`, `compute_capture_overlap` of
-- src/julia_wrap.cpp).
use jjmcp.Base.{
  ℕ, zero, suc, ◌+◌, ◌-◌, ◌≤◌, ◌<◌, ◌≡◌, ◌≢◌, refl, sym, ap, ◌∙◌, inl, inr, true, false, not, ◌&&◌,
  List, [], ◌∷◌, ◌++◌, length, get_or, take, drop, arith, ltb, ◌==◌, if◌then◌else◌, Bool-cases,
  ==_iff,
}
use mathlib.Core.Bool.{false≢true}
use native.Mathlib.Numerals.{add-one}
use jjmcp.Text.{Bytes}
use jjmcp.Julia.Overlap.{fall, advance}
use jjmcp.Julia.Overlap.Border.{
  EndsIn, IsBest, EndsIn-zero, EndsIn-le, EndsIn-snoc, EndsIn-unsnoc, EndsIn-nested, EndsIn-trans,
}

-- The entries below `m` are the longest proper borders of the first bytes of `s`.
abbrev pub IsTable : Bytes → List ℕ → ℕ → Type 0
IsTable s pi m = (i : ℕ) → i < m → IsBest (drop 1 (take (suc i) s)) s (get_or pi i 0)

-- A candidate for the overlap of `x` and one more byte: no longer one is left.
abbrev pub IsCandidate : Bytes → Bytes → ℕ → ℕ → Type 0
IsCandidate x s c j =
    EndsIn x s j × (j < length s) × ((k : ℕ) → EndsIn (x ++ c ∷ []) s (suc k) → k ≤ j)

-- What the fallback loop ends with.
abbrev IsSettled : Bytes → Bytes → ℕ → ℕ → Type 0
IsSettled x s c j = IsCandidate x s c j × ((ltb 0 j && not (c == get_or s j 0)) ≡ false)

pub length-tail : (s : Bytes) (i : ℕ) → length (drop 1 (take (suc i) s)) ≤ i
length-tail [] i = omega arith
length-tail (c ∷ []) zero = omega arith
length-tail (c ∷ []) (suc i) = omega arith
length-tail (c ∷ d ∷ s) zero = omega arith
length-tail (c ∷ d ∷ s) (suc i) = omega (arith, length-tail (d ∷ s) i)

-- An overlap that the next byte extends is not the candidate that the byte refuses.
differs_below :
    (x s : Bytes) (c j k : ℕ)
    → EndsIn x s j
    → (c == get_or s j 0) ≡ false
    → EndsIn (x ++ c ∷ []) s (suc k)
    → k ≤ j
    → (k < j) × EndsIn (drop 1 (take j s)) s k
differs_below x s c j k ends differs e h =
    let (shorter, extended) = EndsIn-unsnoc x s c k e in
    let apart : k ≢ j = λ same.
      false≢true
        (sym differs ∙ (==_iff c (get_or s j 0)).1 (extended ∙ ap (λ i. get_or s i 0) same)) in
    (omega arith, EndsIn-nested x s j k ends shorter (omega arith))

next-IsCandidate :
    (x s : Bytes) (c j m : ℕ) (pi : List ℕ)
    → IsTable s pi m
    → suc j ≤ m
    → IsCandidate x s c (suc j)
    → (c == get_or s (suc j) 0) ≡ false
    → IsCandidate x s c (get_or pi j 0) × (get_or pi j 0 ≤ j)
next-IsCandidate x s c j m pi table h (ends, fits, most) differs =
    let (border, longest) = table j (omega arith) in
    let short : get_or pi j 0 ≤ j =
      omega (arith, EndsIn-le _ s (get_or pi j 0) border, length-tail s j) in
    (
      (
        EndsIn-trans x s j (get_or pi j 0) ends border,
        omega arith,
        λ k e. longest k (differs_below x s c (suc j) k ends differs e (most k e)).1,
      ),
      short,
    )

fall_zero : (fuel : ℕ) (pi : List ℕ) (s : Bytes) (c : ℕ) → fall fuel pi s c 0 ≡ 0
unfolding fall
fall_zero zero pi s c = refl
fall_zero (suc fuel) pi s c = refl

fall_fits :
    (fuel : ℕ) (pi : List ℕ) (s : Bytes) (c j : ℕ)
    → (c == get_or s (suc j) 0) ≡ true
    → fall (suc fuel) pi s c (suc j) ≡ suc j
unfolding fall
fall_fits fuel pi s c j h = ground arith

fall_differs :
    (fuel : ℕ) (pi : List ℕ) (s : Bytes) (c j : ℕ)
    → (c == get_or s (suc j) 0) ≡ false
    → fall (suc fuel) pi s c (suc j) ≡ fall fuel pi s c (get_or pi j 0)
unfolding fall
fall_differs fuel pi s c j h = let e : suc j - 1 ≡ j = omega arith in rw (e) (ground arith)

-- The fallback loop keeps the candidate, and stops at the start or at a byte that fits.
fall-IsSettled :
    (fuel : ℕ) (x s : Bytes) (c j m : ℕ) (pi : List ℕ)
    → IsTable s pi m
    → j ≤ m
    → j ≤ fuel
    → IsCandidate x s c j
    → IsSettled x s c (fall fuel pi s c j)
fall-IsSettled fuel x s c zero m pi table h enough cand = rw (fall_zero fuel pi s c) (cand, refl)
fall-IsSettled zero x s c (suc j) m pi table h enough cand = absurd (omega arith)
fall-IsSettled (suc fuel) x s c (suc j) m pi table h enough cand =
    elim (Bool-cases (c == get_or s (suc j) 0)) [
      | inl fits ↦ rw (fall_fits fuel pi s c j fits) (cand, ground arith)
      | inr differs ↦
          let (cand', short) = next-IsCandidate x s c j m pi table h cand differs in
          rw (fall_differs fuel pi s c j differs)
            (fall-IsSettled fuel x s c (get_or pi j 0) m pi table (omega arith) (omega arith) cand')
    ]

-- The last test of a round, on a settled candidate.
finish : Bytes → ℕ → ℕ → ℕ
finish s c k = if c == get_or s k 0 then k + 1 else k

settled-IsBest : (x s : Bytes) (c k : ℕ) → IsSettled x s c k → IsBest (x ++ c ∷ []) s (finish s c k)
unfolding finish
settled-IsBest x s c k ((ends, fits, most), stopped) = elim (Bool-cases (c == get_or s k 0)) [
  | inl e ↦ rw (e, add-one) (EndsIn-snoc x s c k ends fits ((==_iff _ _).0 e), bound)
  | inr e ↦
      let start : k ≡ 0 = ground arith in
      rw (e, start) (EndsIn-zero (x ++ c ∷ []) s, λ k' h. refused e start k' h)
]
  where
    bound : (k' : ℕ) → EndsIn (x ++ c ∷ []) s k' → k' ≤ suc k
    bound zero h = omega arith
    bound (suc k') h = omega (arith, most k' h)

    refused : (c == get_or s k 0) ≡ false → k ≡ 0 → (k' : ℕ) → EndsIn (x ++ c ∷ []) s k' → k' ≤ 0
    refused e start zero h = omega arith
    refused e start (suc k') h =
        let same : k' ≡ k = omega (arith, most k' h) in
        let fits' = (EndsIn-unsnoc x s c k' h).1 ∙ ap (λ i. get_or s i 0) same in
        absurd (false≢true (sym e ∙ (==_iff c (get_or s k 0)).1 fits'))

-- One byte more: the longest overlap of the longer text.
pub advance-IsBest :
    (x s : Bytes) (c j m : ℕ) (pi : List ℕ)
    → IsTable s pi m
    → j ≤ m
    → IsCandidate x s c j
    → IsBest (x ++ c ∷ []) s (advance pi s c j)
unfolding advance finish
advance-IsBest x s c j m pi table h cand =
    settled-IsBest x s c (fall j pi s c j)
      (fall-IsSettled j x s c j m pi table h (omega arith) cand)
