-- ===== src/Tools/Summary.antt =====
-- The Julia `Test Summary:` block (src/tools.cpp `summary_tokens` to `parse_test_summary_impl`).
pub mod Row
pub mod Counts
pub mod Reading
pub mod Block
use jjmcp.Base.{
  ℕ, zero, suc, ◌+◌, ◌-◌, ◌*◌, Bool, true, false, not, ◌&&◌, ◌||◌, List, [], ◌∷◌, ◌++◌, map, Option,
  none, some, length, drop, take, leb, ◌==◌, if◌then◌else◌, min,
}
use jjmcp.Text.{Bytes, codes, newline, is_empty, ◌=ᵇ◌, occurs, find_first}
use jjmcp.Julia.Lines.{split_lines, trim_ascii}
use jjmcp.Text.Words.{is_digit, all_digits, words}

-- `std::tolower` in the C locale.
abbrev lower_byte : ℕ → ℕ
lower_byte c = if leb b'A' c && leb c b'Z' then c + 32 else c

unfoldable pub to_lower : Bytes → Bytes
to_lower = map lower_byte

abbrev bar_to_space : ℕ → ℕ
bar_to_space c = if c == b'|' then b' ' else c

unfoldable pub summary_tokens : Bytes → List Bytes
summary_tokens text = words (map bar_to_space text)

-- The regular expression `^\d+$`.
unfoldable pub is_int_token : Bytes → Bool
is_int_token token = not (is_empty token) && all_digits token

unfoldable pub skip_digits : Bytes → Bytes
skip_digits [] = []
skip_digits (c ∷ s) = if is_digit c then skip_digits s else c ∷ s

abbrev pub starts_digit : Bytes → Bool
starts_digit [] = false
starts_digit (c ∷ s) = is_digit c

abbrev pub skip_sign : Bytes → Bytes
skip_sign [] = []
skip_sign (c ∷ s) = if c == b'+' || c == b'-' then s else c ∷ s

-- `(?:[eE][+-]?\d+)?$`
unfoldable pub is_exponent : Bytes → Bool
is_exponent [] = true
is_exponent (c ∷ s) = (c == b'e' || c == b'E') && is_int_token (skip_sign s)

-- `\.?\d*` behind digits, and `\.\d+` behind none; then the exponent.
unfoldable pub is_fraction : Bool → Bytes → Bool
is_fraction after_digits [] = after_digits
is_fraction after_digits (c ∷ s) =
    if c == b'.'
    then (after_digits || starts_digit s) && is_exponent (skip_digits s)
    else after_digits && is_exponent (c ∷ s)

-- The regular expression `^[+-]?(?:\d+\.?\d*|\.\d+)(?:[eE][+-]?\d+)?$`.
unfoldable pub is_float_token : Bytes → Bool
is_float_token token = let s = skip_sign token in is_fraction (starts_digit s) (skip_digits s)

-- The names that `normalize_summary_columns` pushes.
pub data Column : Type 0 where
  pass fail broken error total time : Column

unfoldable pub column_of : Bytes → Option Column
column_of name =
    if name =ᵇ codes "pass" || name =ᵇ codes "passes"
    then some Column.pass
    else if name =ᵇ codes "fail" || name =ᵇ codes "fails"
    then some Column.fail
    else if name =ᵇ codes "broken"
    then some Column.broken
    else if name =ᵇ codes "error" || name =ᵇ codes "errors"
    then some Column.error
    else if name =ᵇ codes "total" || name =ᵇ codes "tot"
    then some Column.total
    else if name =ᵇ codes "time"
    then some Column.time
    else none

unfoldable pub columns_of : List Bytes → List Column
columns_of [] = []
columns_of (token ∷ tokens) = elim (column_of (to_lower token)) [
  | none ↦ columns_of tokens
  | some column ↦ column ∷ columns_of tokens
]

-- The text behind the first occurrence of `pat`, or all of it.
unfoldable pub after_first : Bytes → Bytes → Bytes
after_first pat text = elim (find_first pat text) [
  | none ↦ text
  | some i ↦ drop (i + length pat) text
]

abbrev summary_marker : Bytes
summary_marker = codes "Test Summary:"

unfoldable pub normalize_summary_columns : Bytes → List Column
normalize_summary_columns summary_line =
    let tail = after_first summary_marker summary_line in
    if is_empty tail then [] else columns_of (summary_tokens (after_first (codes "|") tail))
