-- ===== src/Julia/Lines/Trim.antt =====
-- `trim_ascii`: what it keeps and what it drops.
use jjmcp.Base.{ℕ, ◌≡◌, refl, true, false, [], ◌∷◌, ◌++◌}
use jjmcp.Text.{Bytes}
use jjmcp.Julia.Lines.{is_blank, trim_back, trim_ascii}

abbrev pub AllBlank : Bytes → Type 0
AllBlank [] = Unit
AllBlank (c ∷ s) = (is_blank c ≡ true) × AllBlank s

pub trim_back_keep :
    (s : Bytes) (c : ℕ) → is_blank c ≡ false → trim_back (s ++ c ∷ []) ≡ s ++ c ∷ []
unfolding trim_back
trim_back_keep [] c h = rw h
trim_back_keep (x ∷ []) c h = rw h
trim_back_keep (x ∷ y ∷ s) c h = rw (trim_back_keep (y ∷ s) c h)

pub trim_back_blank : (w : Bytes) → AllBlank w → trim_back w ≡ []
unfolding trim_back
trim_back_blank [] h = refl
trim_back_blank (c ∷ w) (h, hw) = rw (trim_back_blank w hw, h)

pub trim_back-append : (s w : Bytes) → AllBlank w → trim_back (s ++ w) ≡ trim_back s
unfolding trim_back
trim_back-append [] w h = trim_back_blank w h
trim_back-append (c ∷ s) w h = rw (trim_back-append s w h)

-- A text that begins and ends with a byte that is not blank is left alone.
pub trim_ascii_bare :
    (a : ℕ) (s : Bytes) (b : ℕ)
    → is_blank a ≡ false
    → is_blank b ≡ false
    → trim_ascii (a ∷ (s ++ b ∷ [])) ≡ a ∷ (s ++ b ∷ [])
unfolding trim_ascii
trim_ascii_bare a s b ha hb = rw (trim_back_keep (a ∷ s) b hb, ha)
