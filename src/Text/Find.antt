-- ===== src/Text/Find.antt =====
-- Search in a text that is known in pieces: a pattern behind a piece in which it does not start.
use jjmcp.Base.{
  ℕ, ◌+◌, ◌≤◌, ◌≡◌, refl, inl, inr, true, false, [], ◌∷◌, ◌++◌, none, some, arith, length,
  Option-cases,
}
use jjmcp.Text.{Bytes, starts_with, find_first}

pub starts_with_self : (pat rest : Bytes) → starts_with pat (pat ++ rest) ≡ true
unfolding starts_with
starts_with_self [] rest = refl
starts_with_self (p ∷ pat) rest = ground (arith, starts_with_self pat rest)

-- No occurrence of the pattern begins inside `seg` when `rest` follows it.
abbrev pub NotWithin : Bytes → Bytes → Bytes → Type 0
NotWithin pat [] rest = Unit
NotWithin pat (c ∷ seg) rest =
    (starts_with pat (c ∷ (seg ++ rest)) ≡ false) × NotWithin pat seg rest

pub find_first-append_some :
    (pat seg rest : Bytes) (i : ℕ)
    → NotWithin pat seg rest
    → find_first pat rest ≡ some i
    → find_first pat (seg ++ rest) ≡ some (length seg + i)
unfolding find_first
find_first-append_some pat [] rest i h e = ground arith
find_first-append_some pat (c ∷ seg) rest i (h, hs) e =
    ground (arith, h, find_first-append_some pat seg rest i hs e)

pub find_first-append_none :
    (pat seg rest : Bytes)
    → NotWithin pat seg rest
    → find_first pat rest ≡ none
    → find_first pat (seg ++ rest) ≡ none
unfolding find_first
find_first-append_none pat [] rest h e = e
find_first-append_none pat (c ∷ seg) rest (h, hs) e =
    ground (arith, h, find_first-append_none pat seg rest hs e)

pub find_first_here :
    (pat text : Bytes) → starts_with pat text ≡ true → find_first pat text ≡ some 0
unfolding find_first starts_with
find_first_here [] [] h = refl
find_first_here [] (c ∷ text) h = refl
find_first_here (p ∷ pat) [] h = ground arith
find_first_here (p ∷ pat) (c ∷ text) h = ground (arith, h)

-- A pattern that does not stand at the head of the text is found further on, or not at all.
pub find_first_later :
    (pat text : Bytes) (i : ℕ) → starts_with pat text ≡ false → find_first pat text ≡ some i → 1 ≤ i
unfolding find_first starts_with
find_first_later [] [] i h e = ground arith
find_first_later (p ∷ pat) [] i h e = ground arith
find_first_later pat (c ∷ text) i h e = elim (Option-cases (find_first pat text)) [
  | inl no_more ↦ ground arith
  | inr (j, found) ↦ ground arith
]

-- A pattern right behind a piece in which it does not start is found there.
pub find_first_behind :
    (pat seg rest : Bytes)
    → NotWithin pat seg (pat ++ rest)
    → find_first pat (seg ++ (pat ++ rest)) ≡ some (length seg)
find_first_behind pat seg rest h =
    let found =
      find_first-append_some pat seg (pat ++ rest) 0 h
        (find_first_here pat (pat ++ rest) (starts_with_self pat rest)) in
    ground (arith, found)
