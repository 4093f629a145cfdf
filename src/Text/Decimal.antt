-- ===== src/Text/Decimal.antt =====
-- Decimal print (`std::to_string`) and what reads it back.
use jjmcp.Base.{
  ℕ, zero, suc, ◌+◌, ◌-◌, ◌*◌, ◌/◌, ◌%◌, ◌<◌, ◌≡◌, refl, true, false, [], ◌∷◌, arith, ◌==◌,
  Bool-cases, inl, inr,
}
use jjmcp.Text.{Bytes, digits, to_string, is_empty}
use jjmcp.Text.Words.{all_digits}

-- The number that digits spell behind `n`.
unfoldable pub number : Bytes → ℕ → ℕ
number [] n = n
number (c ∷ s) n = number s (n * 10 + (c - b'0'))

last_digit : (n : ℕ) → n / 10 * 10 + (b'0' + n % 10 - b'0') ≡ n
last_digit n = omega arith

number-digits : (fuel n : ℕ) (out : Bytes) → n < fuel → number (digits fuel n out) 0 ≡ number out n
unfolding digits
number-digits zero n out h = absurd (omega arith)
number-digits (suc fuel) n out h = elim (Bool-cases (n == 0)) [
  | inl e ↦ let zero_n : n ≡ 0 = ground arith in rw (e, zero_n)
  | inr e ↦
      let more : number (digits fuel (n / 10) ((b'0' + n % 10) ∷ out)) 0
          ≡ number ((b'0' + n % 10) ∷ out) (n / 10) =
        number-digits fuel (n / 10) ((b'0' + n % 10) ∷ out) (ground arith) in
      rw (e, more) (unfold number in rw (last_digit n))
]

all_digits-digits :
    (fuel n : ℕ) (out : Bytes) → all_digits out ≡ true → all_digits (digits fuel n out) ≡ true
unfolding digits all_digits
all_digits-digits zero n out h = h
all_digits-digits (suc fuel) n out h = elim (Bool-cases (n == 0)) [
  | inl e ↦ rw e h
  | inr e ↦ rw e (all_digits-digits fuel (n / 10) ((b'0' + n % 10) ∷ out) (ground arith))
]

digits_grow : (fuel n c : ℕ) (out : Bytes) → is_empty (digits fuel n (c ∷ out)) ≡ false
unfolding digits
digits_grow zero n c out = refl
digits_grow (suc fuel) n c out = elim (Bool-cases (n == 0)) [
  | inl e ↦ rw e
  | inr e ↦ rw e (digits_grow fuel (n / 10) (b'0' + n % 10) (c ∷ out))
]

digits_some : (fuel n : ℕ) → (n == 0) ≡ false → is_empty (digits (suc fuel) n []) ≡ false
unfolding digits
digits_some fuel n h = rw h (digits_grow fuel (n / 10) (b'0' + n % 10) [])

pub number-to_string : (n : ℕ) → number (to_string n) 0 ≡ n
unfolding to_string number
number-to_string n = elim (Bool-cases (n == 0)) [
  | inl e ↦ rw (e) (ground arith)
  | inr e ↦ rw (e) (number-digits (suc n) n [] (omega arith))
]

pub all_digits-to_string : (n : ℕ) → all_digits (to_string n) ≡ true
unfolding to_string all_digits
all_digits-to_string n = elim (Bool-cases (n == 0)) [
  | inl e ↦ rw e
  | inr e ↦ rw e (all_digits-digits (suc n) n [] refl)
]

pub to_string_grows : (n : ℕ) → is_empty (to_string n) ≡ false
unfolding to_string
to_string_grows n = elim (Bool-cases (n == 0)) [
  | inl e ↦ rw e
  | inr e ↦ rw e (digits_some n n (ground arith))
]
