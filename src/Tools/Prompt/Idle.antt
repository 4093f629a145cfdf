-- ===== src/Tools/Prompt/Idle.antt =====
-- What the prompt check of src/tools.cpp sees of a REPL that waits at its prompt.
use jjmcp.Base.{
  ◌≡◌, refl, sym, false, [], ◌∷◌, ◌++◌, none, arith, ◌==◌, ==_iff, Bool-cases, inl, inr,
}
use jjmcp.Text.{Bytes, codes, starts_with, find_first, occurs}
use jjmcp.Text.Laws.{Lacks}
use jjmcp.Julia.Lines.{is_blank, trim_front, trim_ascii}
use jjmcp.Julia.Lines.Trim.{AllBlank, trim_back-append, trim_back_keep}
use jjmcp.Tools.Prompt.{is_known_non_julia_prompt}

-- A `>` stands at the end of the text, or nowhere.
abbrev EndsAtPrompt : Bytes → Type 0
EndsAtPrompt [] = Unit
EndsAtPrompt (c ∷ s) = (c ≡ b'>' → s ≡ []) × EndsAtPrompt s

prompt_end : (u : Bytes) → Lacks b'>' u → EndsAtPrompt (u ++ b'>' ∷ [])
prompt_end [] h = (λ e. refl, tt)
prompt_end (c ∷ u) (hc, hu) = (λ e. absurd (hc e), prompt_end u hu)

trim_front-EndsAtPrompt : (s : Bytes) → EndsAtPrompt s → EndsAtPrompt (trim_front s)
unfolding trim_front
trim_front-EndsAtPrompt [] h = tt
trim_front-EndsAtPrompt (c ∷ s) (hc, hs) = elim (Bool-cases (is_blank c)) [
  | inl e ↦ rw e (trim_front-EndsAtPrompt s hs)
  | inr e ↦ rw e (hc, hs)
]

-- The sought prompts go on behind the `>`.
abbrev sought : Bytes → Bytes
sought q = q ++ b'>' ∷ b' ' ∷ []

not_here : (q s : Bytes) → EndsAtPrompt s → starts_with (sought q) s ≡ false
unfolding starts_with
not_here [] [] h = refl
not_here (p ∷ q) [] h = refl
not_here [] (c ∷ s) (hc, hs) = elim (Bool-cases (b'>' == c)) [
  | inl e ↦ rw (hc (sym ((==_iff b'>' c).0 e))) (ground arith)
  | inr e ↦ rw e
]
not_here (p ∷ q) (c ∷ s) (hc, hs) = rw (not_here q s hs) (ground arith)

not_found : (q s : Bytes) → EndsAtPrompt s → find_first (sought q) s ≡ none
unfolding find_first
not_found [] [] h = refl
not_found (p ∷ q) [] h = refl
not_found q (c ∷ s) (hc, hs) = rw (not_here q (c ∷ s) (hc, hs), not_found q s hs)

not_occurs : (q s : Bytes) → EndsAtPrompt s → occurs (sought q) s ≡ false
unfolding occurs
not_occurs q s h = rw (not_found q s h, occurs)

blank_prompt : is_blank b'>' ≡ false
unfolding is_blank
blank_prompt = refl

-- A pane that waits at a prompt is never taken for another REPL mode: when the text ends in `>` and
-- blanks, with no `>` before it, the trim takes away the blank that each sought prompt ends in.
pub idle_prompt_unknown :
    (u w : Bytes)
    → Lacks b'>' u
    → AllBlank w
    → is_known_non_julia_prompt ((u ++ b'>' ∷ []) ++ w) ≡ false
unfolding is_known_non_julia_prompt trim_ascii
idle_prompt_unknown u w hu hw =
    let trimmed = trim_front-EndsAtPrompt (u ++ b'>' ∷ []) (prompt_end u hu) in
    rw (
      trim_back-append (u ++ b'>' ∷ []) w hw,
      trim_back_keep u b'>' blank_prompt,
      not_occurs (codes "pkg") _ trimmed,
      not_occurs (codes "help?") _ trimmed,
      not_occurs (codes "shell") _ trimmed,
    )
