-- ===== src/Julia/Overlap/Best.antt =====
-- The walk of src/julia_wrap.cpp `compute_capture_overlap` finds the longest overlap.
use jjmcp.Base.{
  ℕ, zero, suc, ◌+◌, ◌-◌, ◌≤◌, ◌<◌, ◌≡◌, ◌≢◌, refl, sym, ap, ◌∙◌, inl, inr, true, ◌&&◌, List, [],
  ◌∷◌, ◌++◌, length, get_or, take, drop, arith, append_assoc, append-nil, length-append, leb, ◌==◌,
  if◌then◌else◌, Bool-cases, ==_iff, &&_split, take-append,
}
use mathlib.Core.Bool.{false≢true}
use mathlib.Core.Path.{subst}
use native.Mathlib.Decide.{dec_lt}
use jjmcp.Text.{Bytes, starts_with}
use jjmcp.Julia.Overlap.{advance, prefix_loop, kmp_prefix_function, walk, compute_capture_overlap}
use jjmcp.Julia.Overlap.Border.{
  IsBest, EndsIn-zero, EndsIn-le, EndsIn-unsnoc, EndsIn-nested, EndsIn-trans,
}
use jjmcp.Julia.Overlap.Fall.{IsTable, IsCandidate, advance-IsBest, length-tail}

-- What is left of the longest overlap of `x` is a candidate for one more byte.
best-IsCandidate : (x s : Bytes) (c j : ℕ) → IsBest x s j → j < length s → IsCandidate x s c j
best-IsCandidate x s c j (ends, longest) h = (ends, h, λ k e. longest k (EndsIn-unsnoc x s c k e).0)

-- When the whole of `s` has been matched, the next candidate is its longest proper border.
full-IsCandidate :
    (x s : Bytes) (c m : ℕ) (pi : List ℕ)
    → IsTable s pi m
    → 1 ≤ length s
    → length s ≤ m
    → IsBest x s (length s)
    → IsCandidate x s c (get_or pi (length s - 1) 0)
full-IsCandidate x [] c m pi table pos h (ends, longest) = absurd (omega arith)
full-IsCandidate x (a ∷ s) c m pi table pos h (ends, longest) =
    let n = length s in
    let e : suc n - 1 ≡ n = omega arith in
    let (border, most) = table n h in
    let short : get_or pi n 0 ≤ n =
      omega (arith, EndsIn-le _ (a ∷ s) (get_or pi n 0) border, length-tail (a ∷ s) n) in
    rw e (
      EndsIn-trans x (a ∷ s) n (get_or pi n 0) ends border,
      omega arith,
      λ k ek. most k (
          EndsIn-nested x (a ∷ s) (suc n) k ends (EndsIn-unsnoc x (a ∷ s) c k ek).0
            (omega (arith, ek.0))),
    )

-- The state from which a round of the walk goes on.
abbrev resume : Bytes → List ℕ → ℕ → ℕ
resume s pi state = if state == length s then get_or pi (state - 1) 0 else state

resume-IsCandidate :
    (s : Bytes) (pi : List ℕ) (x : Bytes) (c state : ℕ)
    → IsTable s pi (length s)
    → 1 ≤ length s
    → IsBest x s state
    → IsCandidate x s c (resume s pi state)
resume-IsCandidate s pi x c state table pos best = elim (Bool-cases (state == length s)) [
  | inl e ↦
      let full : state ≡ length s = (==_iff state (length s)).0 e in
      rw (e)
        (rw full (full-IsCandidate x s c (length s) pi table pos (omega arith) (rw full at best)))
  | inr e ↦
      let apart : state ≢ length s =
        λ same. false≢true (sym e ∙ (==_iff state (length s)).1 same) in
      rw e (best-IsCandidate x s c state best (let fits = best.0.0 in omega arith))
]

walk-IsBest :
    (s : Bytes) (pi : List ℕ)
    → IsTable s pi (length s)
    → 1 ≤ length s
    → (prior x : Bytes) (state : ℕ) → IsBest x s state
    → IsBest (x ++ prior) s (walk pi s prior state)
unfolding walk
walk-IsBest s pi table pos [] x state best = rw append-nil best
walk-IsBest s pi table pos (c ∷ prior) x state best =
    let cand = resume-IsCandidate s pi x c state table pos best in
    let best' =
      advance-IsBest x s c (resume s pi state) (length s) pi table
        (let fits = cand.1 in omega arith) cand in
    rw (append_assoc x (c ∷ []) prior) at
      (walk-IsBest s pi table pos prior (x ++ c ∷ []) (advance pi s c (resume s pi state)) best')

get_or_old : (pi : List ℕ) (k i : ℕ) → i < length pi → get_or (pi ++ k ∷ []) i 0 ≡ get_or pi i 0
get_or_old [] k i h = absurd (omega arith)
get_or_old (a ∷ pi) k zero h = refl
get_or_old (a ∷ pi) k (suc i) h = get_or_old pi k i (omega arith)

get_or_new : (pi : List ℕ) (k : ℕ) → get_or (pi ++ k ∷ []) (length pi) 0 ≡ k
get_or_new [] k = refl
get_or_new (a ∷ pi) k = get_or_new pi k

-- One more entry: the longest proper border of `start` and one more byte.
IsTable-snoc :
    (s start : Bytes) (c : ℕ) (rest : Bytes) (pi : List ℕ) (k : ℕ)
    → s ≡ (start ++ c ∷ []) ++ rest
    → length pi ≡ length start
    → IsTable s pi (length pi)
    → IsBest (drop 1 (start ++ c ∷ [])) s k
    → IsTable s (pi ++ k ∷ []) (suc (length pi))
IsTable-snoc s start c rest pi k e same table best i h = elim (dec_lt i (length pi)) [
  | yes old ↦ rw (get_or_old pi k i old) (table i old)
  | no new ↦
      let last : i ≡ length pi = omega arith in
      let long : suc i ≡ length (start ++ c ∷ []) = omega (arith, length-append start (c ∷ [])) in
      let front : take (suc i) s ≡ start ++ c ∷ [] =
        rw (long, e) (take-append (start ++ c ∷ []) rest) in
      rw (front) (rw (last, get_or_new pi k) best)
]

prefix_loop-IsTable :
    (s rest start : Bytes) (pi : List ℕ) (j a : ℕ)
    → s ≡ (a ∷ start) ++ rest
    → length pi ≡ suc (length start)
    → IsTable s pi (length pi)
    → IsBest start s j
    → IsTable s (prefix_loop s rest pi j) (length s)
unfolding prefix_loop
prefix_loop-IsTable s [] start pi j a e same table best =
    let all : length s ≡ length pi = omega (arith, ap length e, length-append (a ∷ start) []) in
    λ i h. table i (omega arith)
prefix_loop-IsTable s (c ∷ rest) start pi j a e same table best =
    let size : length s ≡ length (a ∷ start) + length (c ∷ rest) =
      rw e (length-append (a ∷ start) (c ∷ rest)) in
    let short = EndsIn-le start s j best.0 in
    let cand = best-IsCandidate start s c j best (omega arith) in
    let k = advance pi s c j in
    let best' = advance-IsBest start s c j (length pi) pi table (omega arith) cand in
    let e' : s ≡ ((a ∷ start) ++ c ∷ []) ++ rest =
      e ∙ sym (append_assoc (a ∷ start) (c ∷ []) rest) in
    let more : length (pi ++ k ∷ []) ≡ suc (length pi) = omega (arith, length-append pi (k ∷ [])) in
    prefix_loop-IsTable s rest (start ++ c ∷ []) (pi ++ k ∷ []) k a e'
      (omega (arith, more, length-append start (c ∷ [])))
      (rw more (IsTable-snoc s (a ∷ start) c rest pi k e' same table best')) best'

kmp_prefix_function-IsTable : (s : Bytes) → IsTable s (kmp_prefix_function s) (length s)
unfolding kmp_prefix_function
kmp_prefix_function-IsTable [] = λ i h. absurd (omega arith)
kmp_prefix_function-IsTable (a ∷ s) =
    prefix_loop-IsTable (a ∷ s) s [] (0 ∷ []) 0 a refl refl first
      (EndsIn-zero [] (a ∷ s), λ k h. EndsIn-le [] (a ∷ s) k h)
  where
    first : IsTable (a ∷ s) (0 ∷ []) 1
    first zero h = (EndsIn-zero [] (a ∷ s), λ k hk. EndsIn-le [] (a ∷ s) k hk)
    first (suc i) h = absurd (omega arith)

starts_with_split :
    (pat text : Bytes) → starts_with pat text ≡ true → (rest : Bytes) × (text ≡ pat ++ rest)
unfolding starts_with
starts_with_split [] text h = (text, refl)
starts_with_split (p ∷ pat) [] h = absurd (false≢true h)
starts_with_split (p ∷ pat) (c ∷ text) h =
    let (same, later) = &&_split (p == c) (starts_with pat text) h in
    let (rest, e) = starts_with_split pat text later in (rest, cc ((==_iff p c).0 same, e))

length_pos : (s : Bytes) → s ≢ [] → 1 ≤ length s
length_pos [] ne = absurd (ne refl)
length_pos (c ∷ s) ne = omega arith

-- The walk alone, with no case for a pane that has not scrolled.
pub walk_lem :
    (prior current : Bytes)
    → current ≢ []
    → IsBest prior current (walk (kmp_prefix_function current) current prior 0)
walk_lem prior current ne =
    walk-IsBest current (kmp_prefix_function current) (kmp_prefix_function-IsTable current)
      (length_pos current ne) prior [] 0 (EndsIn-zero [] current, λ k h. EndsIn-le [] current k h)

whole_IsBest : (prior more : Bytes) → IsBest prior (prior ++ more) (length prior)
whole_IsBest prior more = (
  (omega (arith, length-append prior more), ([], sym (take-append prior more))),
  λ k h. EndsIn-le prior (prior ++ more) k h,
)

-- The overlap of two captures is the longest suffix of the earlier that is a prefix of the later:
-- it is one, and no such suffix is longer.
pub compute_capture_overlap-IsBest :
    (prior current : Bytes) → IsBest prior current (compute_capture_overlap prior current)
unfolding compute_capture_overlap
compute_capture_overlap-IsBest [] current =
    (EndsIn-zero [] current, λ k h. EndsIn-le [] current k h)
compute_capture_overlap-IsBest (a ∷ prior) [] = (EndsIn-zero (a ∷ prior) [], λ k h. h.0)
compute_capture_overlap-IsBest (a ∷ prior) (b ∷ current) =
    elim (Bool-cases
      (leb (length (a ∷ prior)) (length (b ∷ current)) && starts_with (a ∷ prior) (b ∷ current))) [
        | inl e ↦
            let (long, starts) = &&_split _ _ e in
            let (more, split) = starts_with_split (a ∷ prior) (b ∷ current) starts in
            rw e (
              subst (λ t. IsBest (a ∷ prior) t (length (a ∷ prior))) (sym split)
                (whole_IsBest (a ∷ prior) more))
        | inr e ↦ rw (e) (walk_lem (a ∷ prior) (b ∷ current) (cc))
      ]

-- For a current capture that is not empty, the case for a pane that has not scrolled changes no
-- result: the walk alone gives it too.
pub fast_path_redundant :
    (prior current : Bytes)
    → current ≢ []
    → compute_capture_overlap prior current ≡ walk (kmp_prefix_function current) current prior 0
fast_path_redundant prior current ne =
    let (e1, most1) = compute_capture_overlap-IsBest prior current in
    let (e2, most2) = walk_lem prior current ne in omega (arith, most1 _ e2, most2 _ e1)
