-- ===== src/Julia/Code/Wrap.antt =====
-- The wrapper around the code (src/julia_wrap.cpp `wrap_julia_code`).
use jjmcp.Base.{
  ℕ, ◌≡◌, ◌⊎◌, inl, inr, refl, sym, ap, true, [], ◌∷◌, ◌++◌, append_assoc, Bool-cases, ==_iff,
}
use mathlib.Core.Bool.{false≢true}
use jjmcp.Text.{Bytes, codes, newline, ends_with, to_string}
use jjmcp.Julia.Marker.{Marker}
use jjmcp.Julia.Literal.{julia_string_literal}
use jjmcp.Julia.Code.{wrap_julia_code}

ends_with_split :
    (c : ℕ) (s : Bytes) → ends_with c s ≡ true → (front : Bytes) × (s ≡ front ++ c ∷ [])
unfolding ends_with
ends_with_split c [] h = absurd (false≢true h)
ends_with_split c (a ∷ []) h = ([], ap (λ x. x ∷ []) ((==_iff _ _).0 h))
ends_with_split c (a ∷ b ∷ s) h =
    let (front, e) = ends_with_split c (b ∷ s) h in (a ∷ front, ap (λ t. a ∷ t) e)

-- The line in front of the code.
abbrev pub opening_line : Marker → ℕ → Bytes
opening_line marker timeout_ms =
    codes "@JJMCP_COMMAND "
    ++ julia_string_literal marker.id
    ++ codes " "
    ++ to_string timeout_ms
    ++ codes " begin\n"

-- The code, with or without a line end of its own, or the `nothing` for no code.
abbrev pub IsBody : Bytes → Bytes → Type 0
IsBody code body =
    (body ≡ code) ⊎ ((body ++ newline ∷ [] ≡ code) ⊎ ((code ≡ []) × (body ≡ codes "nothing")))

shape :
    (marker : Marker) (timeout_ms : ℕ) (text body : Bytes)
    → text ≡ body ++ newline ∷ []
    → codes "@JJMCP_COMMAND "
        ++ julia_string_literal marker.id
        ++ codes " "
        ++ to_string timeout_ms
        ++ codes " begin\n"
        ++ text
        ++ codes "end\n"
      ≡ opening_line marker timeout_ms ++ (body ++ (newline ∷ codes "end\n"))
shape marker timeout_ms text body e = rw e (simp append_assoc)

-- The code stands on lines of its own: behind the line that opens the block, unchanged but for a
-- line end of its own or the `nothing` in place of no code, and in front of a line end and the
-- `end` that closes the block.
pub wrap_julia_code_lem :
    (code : Bytes) (marker : Marker) (timeout_ms : ℕ)
    → (body : Bytes) × (wrap_julia_code code marker timeout_ms
        ≡ opening_line marker timeout_ms ++ (body ++ (newline ∷ codes "end\n")))
      × IsBody code body
unfolding wrap_julia_code
wrap_julia_code_lem [] marker timeout_ms = (
  codes "nothing",
  shape marker timeout_ms (codes "nothing\n") (codes "nothing") refl,
  inr (inr (refl, refl)),
)
wrap_julia_code_lem (c ∷ code) marker timeout_ms =
    elim (Bool-cases (ends_with newline (c ∷ code))) [
      | inl e ↦
          let (front, split) = ends_with_split newline (c ∷ code) e in
          (front, rw e (shape marker timeout_ms (c ∷ code) front split), inr (inl (sym split)))
      | inr e ↦ (c ∷ code, rw e (shape marker timeout_ms _ (c ∷ code) refl), inl refl)
    ]
