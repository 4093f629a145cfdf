-- ===== src/Julia/Overlap.antt =====
-- How much of a capture repeats the one before it (src/julia_wrap.cpp `kmp_prefix_function`,
-- `compute_capture_overlap`). A read `s[j]` inside the text is `get_or s j 0`.
pub mod Border
pub mod Fall
pub mod Best
use jjmcp.Base.{
  ℕ, zero, suc, ◌+◌, ◌-◌, Bool, not, ◌&&◌, ◌||◌, List, [], ◌∷◌, ◌++◌, length, get_or, ltb, leb,
  ◌==◌, if◌then◌else◌,
}
use jjmcp.Text.{Bytes, is_empty, starts_with}

-- `while (j > 0 && c != s[j]) j = pi[j - 1];`. An entry of `pi` is below its index plus one, so `j`
-- rounds are enough.
unfoldable pub fall : ℕ → List ℕ → Bytes → ℕ → ℕ → ℕ
fall zero pi s c j = j
fall (suc fuel) pi s c j =
    let next = fall fuel pi s c (get_or pi (j - 1) 0) in
    if ltb 0 j && not (c == get_or s j 0) then next else j

-- `if (c == s[j]) ++j;` behind that loop.
unfoldable pub advance : List ℕ → Bytes → ℕ → ℕ → ℕ
unfolding fall
advance pi s c j = let k = fall j pi s c j in if c == get_or s k 0 then k + 1 else k

-- The rounds of the `for` loop on the bytes from `s[i]` on; `pi` holds the entries so far, and `j`
-- is `pi[i - 1]`. The entries from `i` on, zero in the source, are not read.
unfoldable pub prefix_loop : Bytes → Bytes → List ℕ → ℕ → List ℕ
unfolding advance
prefix_loop s [] pi j = pi
prefix_loop s (c ∷ rest) pi j = let k = advance pi s c j in prefix_loop s rest (pi ++ k ∷ []) k

unfoldable pub kmp_prefix_function : Bytes → List ℕ
unfolding prefix_loop
kmp_prefix_function [] = []
kmp_prefix_function (c ∷ s) = prefix_loop (c ∷ s) s (0 ∷ []) 0

-- The walk over `prior` with `current` as the pattern.
unfoldable pub walk : List ℕ → Bytes → Bytes → ℕ → ℕ
unfolding advance
walk pi current [] state = state
walk pi current (c ∷ prior) state =
    let state' = if state == length current then get_or pi (state - 1) 0 else state in
    walk pi current prior (advance pi current c state')

unfoldable pub compute_capture_overlap : Bytes → Bytes → ℕ
unfolding kmp_prefix_function walk starts_with
compute_capture_overlap prior current =
    if is_empty prior || is_empty current
    then 0
    else if leb (length prior) (length current) && starts_with prior current
    then length prior
    else walk (kmp_prefix_function current) current prior 0
