-- ===== src/Julia/Marker/Distinct.antt =====
-- Marker ids (src/julia_wrap.cpp `make_marker_id`).
use jjmcp.Base.{
  ℕ, ◌≡◌, refl, sym, ap, ◌∙◌, true, [], ◌∷◌, ◌++◌, &&_split, drop, get_or, append_assoc,
}
use mathlib.Core.Bool.{false≢true}
use jjmcp.Text.{Bytes, to_string}
use jjmcp.Text.Words.{is_digit, all_digits}
use jjmcp.Text.Decimal.{number, number-to_string, all_digits-to_string}
use jjmcp.Julia.Marker.{make_marker_id}

to_string_inj : (m n : ℕ) → to_string m ≡ to_string n → m ≡ n
to_string_inj m n e = sym (number-to_string m) ∙ ap (λ s. number s 0) e ∙ number-to_string n

-- Digits up to an underscore are read off a text.
digits_cancel :
    (s t x y : Bytes)
    → all_digits s ≡ true
    → all_digits t ≡ true
    → s ++ b'_' ∷ x ≡ t ++ b'_' ∷ y
    → (s ≡ t) × (x ≡ y)
unfolding all_digits
digits_cancel [] [] x y hs ht e = (refl, ap (drop 1) e)
digits_cancel [] (d ∷ t) x y hs ht e =
    let same : b'_' ≡ d = ap (λ r. get_or r 0 0) e in
    absurd (false≢true (ap is_digit same ∙ (&&_split (is_digit d) (all_digits t) ht).0))
digits_cancel (c ∷ s) [] x y hs ht e =
    let same : c ≡ b'_' = ap (λ r. get_or r 0 0) e in
    absurd (false≢true (ap is_digit (sym same) ∙ (&&_split (is_digit c) (all_digits s) hs).0))
digits_cancel (c ∷ s) (d ∷ t) x y hs ht e =
    let same : c ≡ d = ap (λ r. get_or r 0 0) e in
    let (rest, tail) =
      digits_cancel s t x y (&&_split (is_digit c) (all_digits s) hs).1
        (&&_split (is_digit d) (all_digits t) ht).1 (ap (drop 1) e) in
    (rw (same, rest) refl, tail)

shape :
    (micros pid sequence : ℕ)
    → make_marker_id micros pid sequence
      ≡ to_string micros ++ b'_' ∷ (to_string pid ++ b'_' ∷ to_string sequence)
unfolding make_marker_id
shape micros pid sequence = simp append_assoc

-- Two marker ids are the same only if the clock, the process id and the sequence number are.
pub make_marker_id_distinct :
    (micros pid sequence micros' pid' sequence' : ℕ)
    → make_marker_id micros pid sequence ≡ make_marker_id micros' pid' sequence'
    → (micros ≡ micros') × (pid ≡ pid') × (sequence ≡ sequence')
make_marker_id_distinct m p s m' p' s' e =
    let (em, rest) =
      digits_cancel (to_string m) (to_string m') _ _ (all_digits-to_string m)
        (all_digits-to_string m') (sym (shape m p s) ∙ e ∙ shape m' p' s') in
    let (ep, es) =
      digits_cancel (to_string p) (to_string p') _ _ (all_digits-to_string p)
        (all_digits-to_string p') rest in
    (to_string_inj m m' em, to_string_inj p p' ep, to_string_inj s s' es)
