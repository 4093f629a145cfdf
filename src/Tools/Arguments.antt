-- ===== src/Tools/Arguments.antt =====
-- The arguments of a tool call (src/tools.cpp `require_string`, `optional_string`, `optional_int`).
use jjmcp.Base.{
  ℕ, min, max, Option, ◌-◌, ◌^◌, ◌%◌, ◌≤◌, ◌<◌, ◌≡◌, ◌⊎◌, inl, inr, refl, true, ◌++◌, none, some,
  ltb, if◌then◌else◌, Bool-cases, Option-cases, arith,
}
use jjmcp.Text.{Bytes, codes}
use jjmcp.Process.{Result, success, failure}
use jjmcp.Json.{Json, ℤ, pos, negsuc, string_at}

-- The 32-bit `int` that `get<int>` makes of a wider integer.
unfoldable pub to_int : ℤ → ℤ
to_int (pos n) = let r = n % 2 ^ 32 in if ltb r (2 ^ 31) then pos r else negsuc (2 ^ 32 - 1 - r)
to_int (negsuc n) = let r = n % 2 ^ 32 in if ltb r (2 ^ 31) then negsuc r else pos (2 ^ 32 - 1 - r)

-- `std::clamp` to limits that are not negative.
unfoldable pub clamp : ℤ → ℕ → ℕ → ℕ
clamp (pos n) low high = if ltb n low then low else if ltb high n then high else n
clamp (negsuc n) low high = low

-- What a number that is taken from an argument is, by the integer that the argument holds.
abbrev pub IsTaken : Option ℤ → ℕ → ℕ → ℕ → ℕ → Type 0
IsTaken none fallback low high r = r ≡ fallback
IsTaken (some (pos n)) fallback low high r =
    ((low ≤ r) × (r ≤ high)) × ((r ≡ max low (min n high)) ⊎ (2 ^ 31 ≤ n))
IsTaken (some (negsuc n)) fallback low high r =
    ((low ≤ r) × (r ≤ high)) × ((r ≡ low) ⊎ (2 ^ 31 ≤ n))

module _ (json : Json) where
  open json use {Value, find, as_integer, as_string}

  unfoldable pub require_string : Value → Bytes → Result Bytes
  require_string args key = elim (string_at json args key) [
    | none ↦ failure (codes "argument '" ++ key ++ codes "' must be a string")
    | some s ↦ success s
  ]

  unfoldable pub optional_string : Value → Bytes → Bytes → Bytes
  optional_string args key fallback = elim (string_at json args key) [
    | none ↦ fallback
    | some s ↦ s
  ]

  unfoldable pub optional_int : Value → Bytes → ℕ → ℕ → ℕ → ℕ
  optional_int args key fallback low high = elim (find args key) [
    | none ↦ fallback
    | some v ↦ elim (as_integer v) [ none ↦ fallback | some i ↦ clamp (to_int i) low high ]
  ]

  clamp_lem :
      (i : ℤ) (low high : ℕ) → low ≤ high → (low ≤ clamp i low high) × (clamp i low high ≤ high)
  unfolding clamp
  clamp_lem (pos n) low high h = elim (Bool-cases (ltb n low)) [
    | inl e ↦ rw e (omega arith, h)
    | inr e ↦ elim (Bool-cases (ltb high n)) [
      | inl f ↦ rw (e, f) (h, omega arith)
      | inr f ↦ rw (e, f) (ground arith, ground arith)
    ]
  ]
  clamp_lem (negsuc n) low high h = (omega arith, h)

  -- The integer of an argument, where it has one.
  abbrev pub integer_at : Value → Bytes → Option ℤ
  integer_at args key = elim (find args key) [ none ↦ none | some v ↦ as_integer v ]

  wide_or_narrow : (n : ℕ) → (ltb (n % 2 ^ 32) (2 ^ 31) ≡ true) × (n % 2 ^ 32 ≡ n) ⊎ (2 ^ 31 ≤ n)
  wide_or_narrow n = elim (Bool-cases (ltb n (2 ^ 31))) [
    | inl e ↦
        (let small : n < 2 ^ 31 = ground arith in
          let whole : n % 2 ^ 32 ≡ n = omega arith in inl (rw whole e, whole))
    | inr e ↦ inr (ground arith)
  ]

  clamp-max : (n low high : ℕ) → low ≤ high → clamp (pos n) low high ≡ max low (min n high)
  unfolding clamp
  clamp-max n low high h = ground arith

  to_int-IsTaken :
      (i : ℤ) (fallback low high : ℕ)
      → low ≤ high
      → IsTaken (some i) fallback low high (clamp (to_int i) low high)
  unfolding to_int clamp
  to_int-IsTaken (pos n) fallback low high h = (
    clamp_lem (to_int (pos n)) low high h,
    elim (wide_or_narrow n) [
      | inl (e, same) ↦ inl (rw (to_int, e, same) (clamp-max n low high h))
      | inr wide ↦ inr wide
    ],
  )
  to_int-IsTaken (negsuc n) fallback low high h = (
    clamp_lem (to_int (negsuc n)) low high h,
    elim (wide_or_narrow n) [ inl (e, same) ↦ inl (rw (to_int, e) refl) | inr wide ↦ inr wide ],
  )

  -- An argument that is an integer gives a number within the limits: itself where it lies in them, and
  -- the limit that it passes where it does not, if it is an `int`. Any other argument, or none, gives
  -- the fallback. The lower limit is at most the upper.
  pub optional_int_lem :
      (args : Value) (key : Bytes) (fallback low high : ℕ)
      → low ≤ high
      → IsTaken (integer_at args key) fallback low high (optional_int args key fallback low high)
  unfolding optional_int
  optional_int_lem args key fallback low high h = go (find args key)
    where
      go :
          (given : Option Value)
          → IsTaken
              (elim given [ none ↦ none | some v ↦ as_integer v ])
              fallback
              low
              high
              (elim given [
                | none ↦ fallback
                | some v ↦ elim (as_integer v) [
                  | none ↦ fallback
                  | some i ↦ clamp (to_int i) low high
                ]
              ])
      go none = refl
      go (some v) = elim (Option-cases (as_integer v)) [
        | inl f ↦ rw f refl
        | inr (i, f) ↦ rw f (to_int-IsTaken i fallback low high h)
      ]
