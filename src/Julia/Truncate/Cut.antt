-- ===== src/Julia/Truncate/Cut.antt =====
-- Where the byte limits cut: at the start of a character, and nowhere else than needed.
use jjmcp.Base.{
  ℕ, zero, suc, ◌+◌, ◌-◌, ◌≤◌, ◌<◌, ◌≡◌, ◌⊎◌, inl, inr, refl, true, false, [], ◌∷◌, ◌++◌, length,
  get_or, take, drop, leb, arith, Bool-cases, take-append-drop, length-drop,
}
use native.Mathlib.Nat.{zero-add}
use jjmcp.Text.{Bytes, codes, to_string}
use jjmcp.Julia.Truncate.{
  is_utf8_continuation, back_to_start, utf8_safe_prefix_length, count_continuations,
  utf8_safe_suffix_start, end_line, truncate_bytes, truncate_bytes_tail,
}

-- The text does not begin inside a character.
abbrev pub IsWhole : Bytes → Type 0
IsWhole [] = Unit
IsWhole (c ∷ s) = is_utf8_continuation c ≡ false

abbrev pub AllContinue : Bytes → Type 0
AllContinue [] = Unit
AllContinue (c ∷ s) = (is_utf8_continuation c ≡ true) × AllContinue s

count_continuations_lem :
    (s : Bytes)
    → (count_continuations s ≤ length s)
      × AllContinue (take (count_continuations s) s)
      × IsWhole (drop (count_continuations s) s)
unfolding count_continuations
count_continuations_lem [] = (omega arith, tt, tt)
count_continuations_lem (c ∷ s) = elim (Bool-cases (is_utf8_continuation c)) [
  | inl e ↦
      let (fits, all, whole) = count_continuations_lem s in rw e (omega arith, (e, all), whole)
  | inr e ↦ rw e (omega arith, tt, e)
]

suc_add : (m n : ℕ) → suc m + n ≡ suc (m + n)
suc_add m n = omega arith

drop-drop : (m n : ℕ) (s : Bytes) → drop (m + n) s ≡ drop n (drop m s)
drop-drop zero n s = rw zero-add
drop-drop (suc m) zero [] = rw suc_add
drop-drop (suc m) (suc n) [] = rw suc_add
drop-drop (suc m) n (c ∷ s) = rw suc_add (drop-drop m n s)

utf8_safe_suffix_start_lem :
    (text : Bytes) (start : ℕ)
    → start < length text
    → (start ≤ utf8_safe_suffix_start text start)
      × (utf8_safe_suffix_start text start ≤ length text)
      × AllContinue (take (utf8_safe_suffix_start text start - start) (drop start text))
      × IsWhole (drop (utf8_safe_suffix_start text start) text)
unfolding utf8_safe_suffix_start
utf8_safe_suffix_start_lem text start h =
    let n = count_continuations (drop start text) in
    let (fits, all, whole) = count_continuations_lem (drop start text) in
    let e : leb (length text) start ≡ false = ground arith in
    let d : start + n - start ≡ n = omega arith in
    rw (e, d)
      (omega arith, omega (arith, length-drop start text), all, rw (drop-drop start n text) whole)

abbrev pub earlier_note : ℕ → Bytes
earlier_note n = codes "[JJMCP truncated: omitted " ++ to_string n ++ codes " earlier byte(s)]\n"

-- A text over a limit that is not zero is cut to its end: what is kept is at most the limit, with
-- what the note counts it is the whole text, it begins at the start of a character, and beyond the
-- bytes over the limit only the rest of a character that these had begun is dropped.
pub truncate_bytes_tail_lem :
    (text : Bytes) (max_bytes : ℕ)
    → 1 ≤ max_bytes
    → max_bytes < length text
    → (n : ℕ) × (truncate_bytes_tail text max_bytes ≡ earlier_note n ++ drop n text)
      × (take n text ++ drop n text ≡ text)
      × (length (drop n text) ≤ max_bytes)
      × IsWhole (drop n text)
      × (length text ≤ n + max_bytes)
      × AllContinue (take (n + max_bytes - length text) (drop (length text - max_bytes) text))
unfolding truncate_bytes_tail
truncate_bytes_tail_lem text max_bytes pos over =
    let start = length text - max_bytes in
    let n = utf8_safe_suffix_start text start in
    let (later, fits, all, whole) = utf8_safe_suffix_start_lem text start (omega arith) in
    let d : n + max_bytes - length text ≡ n - start = omega arith in
    (
      n,
      ground arith,
      take-append-drop n text,
      omega (arith, length-drop n text),
      whole,
      omega arith,
      rw d all,
    )

back_to_start_lem :
    (text : Bytes) (keep : ℕ)
    → (back_to_start text keep ≤ keep)
      × ((back_to_start text keep ≡ 0)
          ⊎ (is_utf8_continuation (get_or text (back_to_start text keep) 0) ≡ false))
unfolding back_to_start
back_to_start_lem text zero = (omega arith, inl refl)
back_to_start_lem text (suc keep) =
    elim (Bool-cases (is_utf8_continuation (get_or text (suc keep) 0))) [
      | inl e ↦ let (low, stop) = back_to_start_lem text keep in rw e (omega arith, stop)
      | inr e ↦ rw e (omega arith, inr e)
    ]

-- A text over a limit that is not zero is cut to its beginning: the kept bytes are at most the
-- limit and end where a character ends (or nothing is kept), and the note, on a line of its own,
-- counts the rest.
pub truncate_bytes_lem :
    (text : Bytes) (max_bytes : ℕ)
    → 1 ≤ max_bytes
    → max_bytes < length text
    → (keep : ℕ) × (truncate_bytes text max_bytes
        ≡ end_line (take keep text)
          ++ codes "[JJMCP truncated: omitted "
          ++ to_string (length (drop keep text))
          ++ codes " byte(s)]")
      × (keep ≤ max_bytes)
      × ((keep ≡ 0) ⊎ (is_utf8_continuation (get_or text keep 0) ≡ false))
unfolding truncate_bytes utf8_safe_prefix_length
truncate_bytes_lem text max_bytes pos over =
    let keep = back_to_start text max_bytes in
    let (low, stop) = back_to_start_lem text max_bytes in
    (keep, rw (length-drop keep text) (ground arith), low, stop)
