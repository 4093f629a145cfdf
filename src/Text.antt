-- ===== src/Text.antt =====
-- Byte strings (`std::string`): comparison, search, the last byte, decimal print.
-- `find` returns `none` where the source has `std::string::npos`.
pub mod Laws
pub mod Words
pub mod Decimal
pub mod Find
use Prim.Native.Char.{code}
use Prim.Native.String.{String}
use mathlib.Core.Option
use jjmcp.Base.{
  ℕ, zero, suc, ◌+◌, ◌/◌, ◌%◌, Bool, true, false, ◌&&◌, ◌||◌, List, [], ◌∷◌, ◌++◌, Option, none,
  some, length, drop, ltb, ◌==◌, if◌then◌else◌,
}

abbrev pub Bytes : Type 0
Bytes = List ℕ

-- The code points of a literal: its bytes, as every literal of the source is ASCII.
abbrev pub codes : String → Bytes
codes String.[] = []
codes (String.◌∷◌ c s) = code c ∷ codes s

abbrev pub newline : ℕ
newline = 10

abbrev pub carriage_return : ℕ
carriage_return = 13

infix 50 ◌=ᵇ◌
unfoldable pub ◌=ᵇ◌ : Bytes → Bytes → Bool
[] =ᵇ [] = true
[] =ᵇ (d ∷ t) = false
(c ∷ s) =ᵇ [] = false
(c ∷ s) =ᵇ (d ∷ t) = c == d && s =ᵇ t

abbrev pub is_empty {ℓ} : {A : Type ℓ} → List A → Bool
is_empty [] = true
is_empty (c ∷ s) = false

-- `text.compare(0, pat.size(), pat) == 0`.
unfoldable pub starts_with : Bytes → Bytes → Bool
starts_with [] text = true
starts_with (p ∷ pat) [] = false
starts_with (p ∷ pat) (c ∷ text) = p == c && starts_with pat text

-- The first offset at which `pat` stands in the text.
unfoldable pub find_first : Bytes → Bytes → Option ℕ
unfolding starts_with
find_first pat [] = if is_empty pat then some 0 else none
find_first pat (c ∷ text) =
    if starts_with pat (c ∷ text) then some 0 else Option.map suc (find_first pat text)

-- `text.find(pat) != npos`.
unfoldable pub occurs : Bytes → Bytes → Bool
unfolding find_first
occurs pat text = elim (find_first pat text) [ none ↦ false | some i ↦ true ]

-- `!text.empty() && text.back() == c`.
unfoldable pub ends_with : ℕ → Bytes → Bool
ends_with c [] = false
ends_with c (x ∷ []) = x == c
ends_with c (x ∷ y ∷ s) = ends_with c (y ∷ s)

-- `pop_back` of a string that is not empty.
unfoldable pub pop_back : Bytes → Bytes
pop_back [] = []
pop_back (x ∷ []) = []
pop_back (x ∷ y ∷ s) = x ∷ pop_back (y ∷ s)

unfoldable pub digits : ℕ → ℕ → Bytes → Bytes
digits zero n out = out
digits (suc fuel) n out =
    let rest = digits fuel (n / 10) ((b'0' + n % 10) ∷ out) in if n == 0 then out else rest

-- `std::to_string` of a number that is not negative: `n + 1` rounds are enough.
unfoldable pub to_string : ℕ → Bytes
to_string n = if n == 0 then b'0' ∷ [] else digits (suc n) n []
