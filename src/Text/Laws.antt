-- ===== src/Text/Laws.antt =====
-- Laws of byte strings that the components share.
use jjmcp.Base.{ℕ, ◌≡◌, ◌≢◌, refl, ap, true, false, [], ◌∷◌, ◌++◌, arith}
use jjmcp.Text.{Bytes, ◌=ᵇ◌, ends_with, pop_back}

-- The byte does not stand in the text.
abbrev pub Lacks : ℕ → Bytes → Type 0
Lacks b [] = Unit
Lacks b (c ∷ s) = (c ≢ b) × Lacks b s

pub Lacks-append : (b : ℕ) (s t : Bytes) → Lacks b s → Lacks b t → Lacks b (s ++ t)
Lacks-append b [] t hs ht = ht
Lacks-append b (c ∷ s) t (hc, hs) ht = (hc, Lacks-append b s t hs ht)

pub =ᵇ_refl : (s : Bytes) → (s =ᵇ s) ≡ true
unfolding ◌=ᵇ◌
=ᵇ_refl [] = refl
=ᵇ_refl (c ∷ s) = ground (arith, =ᵇ_refl s)

pub =ᵇ_sound : (s t : Bytes) → (s =ᵇ t) ≡ true → s ≡ t
unfolding ◌=ᵇ◌
=ᵇ_sound [] [] h = refl
=ᵇ_sound [] (d ∷ t) h = ground arith
=ᵇ_sound (c ∷ s) [] h = ground arith
=ᵇ_sound (c ∷ s) (d ∷ t) h = ground (arith, =ᵇ_sound s t)

pub =ᵇ_false : (s t : Bytes) → s ≢ t → (s =ᵇ t) ≡ false
=ᵇ_false s t ne = ground (arith, =ᵇ_sound s t)

pub ends_with-append : (c : ℕ) (s : Bytes) → ends_with c (s ++ c ∷ []) ≡ true
unfolding ends_with
ends_with-append c [] = ground arith
ends_with-append c (x ∷ []) = ground arith
ends_with-append c (x ∷ y ∷ s) = ends_with-append c (y ∷ s)

pub pop_back-append : (c : ℕ) (s : Bytes) → pop_back (s ++ c ∷ []) ≡ s
unfolding pop_back
pop_back-append c [] = refl
pop_back-append c (x ∷ []) = refl
pop_back-append c (x ∷ y ∷ s) = ap (λ r. x ∷ r) (pop_back-append c (y ∷ s))
