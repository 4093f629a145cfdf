-- ===== src/Julia/Overlap/Border.antt =====
-- A text that ends in the first bytes of another.
use jjmcp.Base.{
  ℕ, zero, suc, ◌≤◌, ◌<◌, ◌≡◌, refl, sym, ap, ◌∙◌, [], ◌∷◌, ◌++◌, length, get_or, take, drop, arith,
  append_assoc, append-nil, length-append, length-take,
}
use jjmcp.Text.{Bytes}

-- The last `k` bytes of `x` are the first `k` of `s`.
abbrev pub EndsIn : Bytes → Bytes → ℕ → Type 0
EndsIn x s k = (k ≤ length s) × ((p : Bytes) × (x ≡ p ++ take k s))

-- `k` is the longest such overlap.
abbrev pub IsBest : Bytes → Bytes → ℕ → Type 0
IsBest x s k = EndsIn x s k × ((k' : ℕ) → EndsIn x s k' → k' ≤ k)

pub EndsIn-zero : (x s : Bytes) → EndsIn x s 0
EndsIn-zero x s = (omega arith, (x, sym (append-nil x)))

pub EndsIn-le : (x s : Bytes) (k : ℕ) → EndsIn x s k → k ≤ length x
EndsIn-le x s k (fits, (p, e)) =
    omega (arith, ap length e, length-append p (take k s), length-take k s fits)

take-suc : (s : Bytes) (k : ℕ) → k < length s → take (suc k) s ≡ take k s ++ get_or s k 0 ∷ []
take-suc [] k h = absurd (omega arith)
take-suc (c ∷ s) zero h = refl
take-suc (c ∷ s) (suc k) h = ap (λ r. c ∷ r) (take-suc s k (omega arith))

snoc_inj : (s t : Bytes) (c d : ℕ) → s ++ c ∷ [] ≡ t ++ d ∷ [] → (s ≡ t) × (c ≡ d)
snoc_inj [] [] c d e = (refl, (cc))
snoc_inj [] (b ∷ t) c d e = absurd (omega (arith, ap length e, length-append t (d ∷ [])))
snoc_inj (a ∷ s) [] c d e = absurd (omega (arith, ap length e, length-append s (c ∷ [])))
snoc_inj (a ∷ s) (b ∷ t) c d e = let (et, ec) = snoc_inj s t c d (ap (drop 1) e) in (cc, ec)

pub EndsIn-snoc :
    (x s : Bytes) (c k : ℕ)
    → EndsIn x s k
    → k < length s
    → c ≡ get_or s k 0
    → EndsIn (x ++ c ∷ []) s (suc k)
EndsIn-snoc x s c k (fits, (p, e)) h ec =
    (omega arith, (p, rw (take-suc s k h, e, ec) (append_assoc p (take k s) (get_or s k 0 ∷ []))))

pub EndsIn-unsnoc :
    (x s : Bytes) (c k : ℕ) → EndsIn (x ++ c ∷ []) s (suc k) → EndsIn x s k × (c ≡ get_or s k 0)
EndsIn-unsnoc x s c k (fits, (p, e)) =
    let h : k < length s = omega arith in
    let e' : x ++ c ∷ [] ≡ (p ++ take k s) ++ get_or s k 0 ∷ [] =
      e ∙ rw (take-suc s k h) (sym (append_assoc p (take k s) (get_or s k 0 ∷ []))) in
    let (ex, ec) = snoc_inj x (p ++ take k s) c (get_or s k 0) e' in ((omega arith, (p, ex)), ec)

-- Of two ends of one text, the shorter is a proper end of the longer.
shorter_end :
    (p u q v : Bytes) → p ++ u ≡ q ++ v → length v < length u → (r : Bytes) × (drop 1 u ≡ r ++ v)
shorter_end [] u [] v e h = absurd (omega (arith, ap length e))
shorter_end [] u (b ∷ q) v e h = (q, ap (drop 1) e)
shorter_end (a ∷ p) u [] v e h = absurd (omega (arith, ap length e, length-append p u))
shorter_end (a ∷ p) u (b ∷ q) v e h = shorter_end p u q v (ap (drop 1) e) h

-- A shorter overlap is an overlap of the longer one's tail.
pub EndsIn-nested :
    (x s : Bytes) (j k : ℕ) → EndsIn x s j → EndsIn x s k → k < j → EndsIn (drop 1 (take j s)) s k
EndsIn-nested x s j k (fj, (p, ep)) (fk, (q, eq)) h = (
  fk,
  shorter_end p (take j s) q (take k s) (sym ep ∙ eq)
      (omega (arith, length-take j s fj, length-take k s fk)),
)

pub EndsIn-trans :
    (x s : Bytes) (j k : ℕ)
    → EndsIn x s (suc j)
    → EndsIn (drop 1 (take (suc j) s)) s k
    → EndsIn x s k
EndsIn-trans x [] j k (fj, (p, ep)) (fk, (r, er)) = absurd (omega arith)
EndsIn-trans x (c ∷ s) j k (fj, (p, ep)) (fk, (r, er)) =
    (fk, (p ++ c ∷ r, rw (ep, er) (sym (append_assoc p (c ∷ r) (take k (c ∷ s))))))
