-- ===== src/Tools/Summary/Counts.antt =====
-- What a row of counts that was read holds (src/tools.cpp `parse_summary_counts_row`).
use mathlib.Core.Bool.{false≢true}
use mathlib.Core.Path.{subst}
use jjmcp.Base.{
  ℕ, ◌+◌, ◌-◌, ◌^◌, ◌%◌, ap, ◌<◌, ◌⊎◌, inl, inr, ltb, Bool-cases, ◌≤◌, ◌≡◌, refl, sym, ◌∙◌, Bool,
  true, false, ◌||◌, List, [], ◌∷◌, some, if◌then◌else◌, arith, chain_some, some_inj,
}
use jjmcp.Text.{Bytes, codes}
use jjmcp.Json.{ℤ, pos, negsuc}
use jjmcp.Tools.Arguments.{to_int}
use jjmcp.Tools.Summary.{Column}
use jjmcp.Tools.Summary.Row.{
  TestSummaryResult, RowState, count_limit, clamped, next_integer, put_count, count_column,
  time_tokens, time_column, parse_column, parse_columns, with_total, int_sum, row_status,
  finish_row, start_row, parse_row_tokens,
}

abbrev pub is_failure : Column → Bool
is_failure Column.pass = false
is_failure Column.fail = true
is_failure Column.broken = true
is_failure Column.error = true
is_failure Column.total = false
is_failure Column.time = false

abbrev pub is_total : Column → Bool
is_total Column.pass = false
is_total Column.fail = false
is_total Column.broken = false
is_total Column.error = false
is_total Column.total = true
is_total Column.time = false

abbrev is_time : Column → Bool
is_time Column.pass = false
is_time Column.fail = false
is_time Column.broken = false
is_time Column.error = false
is_time Column.total = false
is_time Column.time = true

abbrev pub has : (Column → Bool) → List Column → Bool
has p [] = false
has p (c ∷ columns) = p c || has p columns

-- The counts read so far are in range; a count that no column gave is zero.
abbrev pub InRange : TestSummaryResult → Type 0
InRange r =
    (r.test_pass ≤ count_limit)
    × (r.test_fail ≤ count_limit)
    × (r.test_broken ≤ count_limit)
    × (r.test_error ≤ count_limit)

-- A number from zero to the limit.
abbrev pub IsCount : ℤ → Type 0
IsCount z = (n : ℕ) × (z ≡ pos n) × (n ≤ count_limit)

-- The total that the counts give: their sum where it is an `int`, and else the negative number that it
-- wraps around to.
abbrev pub IsIntSum : TestSummaryResult → Type 0
IsIntSum r =
    let sum = r.test_pass + r.test_fail + r.test_broken + r.test_error in
    ((sum < 2 ^ 31) × (r.test_total ≡ pos sum))
    ⊎ ((2 ^ 31 ≤ sum) × (r.test_total ≡ negsuc (2 ^ 32 - 1 - sum)))

abbrev failed_flag : RowState → Bool
failed_flag s = s.parsed_fail || s.parsed_broken || s.parsed_error

-- How one state of the loop follows another, for the columns between them.
record Follows (s : RowState) (columns : List Column) (s' : RowState) : Type 0 where
  range : InRange s.tmp → InRange s'.tmp
  total_range : IsCount s.tmp.test_total → IsCount s'.tmp.test_total
  failure : failed_flag s' ≡ (failed_flag s || has is_failure columns)
  total : s'.parsed_total ≡ (s.parsed_total || has is_total columns)
  any :
      (s.parsed_total || s.parsed_pass || failed_flag s) ≡ s.parsed_any
      → (s'.parsed_total || s'.parsed_pass || failed_flag s') ≡ s'.parsed_any

next_integer_le :
    (tokens : List Bytes) (v : ℕ) (rest : List Bytes)
    → next_integer tokens ≡ some (v, rest)
    → v ≤ count_limit
unfolding next_integer clamped
next_integer_le [] v rest h = ground arith
next_integer_le (t ∷ tokens) v rest h = ground (arith, next_integer_le tokens v rest)

put_count-Follows :
    (c : Column) (v : ℕ) (tokens : List Bytes) (s : RowState)
    → v ≤ count_limit
    → is_time c ≡ false
    → Follows s (c ∷ []) (put_count c v (record s { tokens = tokens }))
unfolding put_count
put_count-Follows Column.pass v tokens s h count = record {
  range = λ r. ground arith;
  total_range = λ t. t;
  failure = ground arith;
  total = ground arith;
  any = λ e. ground arith;
}
put_count-Follows Column.total v tokens s h count = record {
  range = λ r. r;
  total_range = λ t. (v, refl, h);
  failure = ground arith;
  total = ground arith;
  any = λ e. ground arith;
}
put_count-Follows Column.time v tokens s h count = absurd (false≢true (sym count))
put_count-Follows c v tokens s h count = record {
  range = λ r. ground arith;
  total_range = λ t. t;
  failure = ground arith;
  total = ground arith;
  any = λ e. ground arith;
}

count_column-Follows :
    (c : Column) (s : RowState) {s' : RowState}
    → is_time c ≡ false
    → count_column c s ≡ some s'
    → Follows s (c ∷ []) s'
unfolding count_column
count_column-Follows c s count h =
    let (p, e, same) =
      chain_some (next_integer s.tokens) (λ p. some (put_count c p.0 (record s { tokens = p.1 })))
        h in
    subst (Follows s (c ∷ [])) (some_inj same)
      (put_count-Follows c p.0 p.1 s (next_integer_le s.tokens p.0 p.1 e) count)

time_column-Follows :
    (s : RowState) {s' : RowState} → time_column s ≡ some s' → Follows s (Column.time ∷ []) s'
unfolding time_column
time_column-Follows s h =
    let (p, e, same) =
      chain_some (time_tokens s.tokens)
        (λ p. some (record s { tmp = record s.tmp { test_time = p.0 }; tokens = p.1 })) h in
    subst (Follows s (Column.time ∷ [])) (some_inj same) (record {
      range = λ r. r;
      total_range = λ t. t;
      failure = ground arith;
      total = ground arith;
      any = λ e. e;
    })

parse_column-Follows :
    (c : Column) (s : RowState) {s' : RowState} → parse_column c s ≡ some s' → Follows s (c ∷ []) s'
unfolding parse_column
parse_column-Follows Column.time s h = time_column-Follows s h
parse_column-Follows Column.pass s h = count_column-Follows Column.pass s refl h
parse_column-Follows Column.fail s h = count_column-Follows Column.fail s refl h
parse_column-Follows Column.broken s h = count_column-Follows Column.broken s refl h
parse_column-Follows Column.error s h = count_column-Follows Column.error s refl h
parse_column-Follows Column.total s h = count_column-Follows Column.total s refl h

or_assoc : (a b c : Bool) → ((a || (b || false)) || c) ≡ (a || (b || c))
or_assoc a b c = ground arith

parse_columns-Follows :
    (columns : List Column) (s : RowState) {s' : RowState}
    → parse_columns columns s ≡ some s'
    → Follows s columns s'
unfolding parse_columns
parse_columns-Follows [] s h = subst (Follows s []) (some_inj h) (record {
  range = λ r. r;
  total_range = λ t. t;
  failure = ground arith;
  total = ground arith;
  any = λ e. e;
})
parse_columns-Follows (c ∷ columns) s h =
    let (m, e, later) = chain_some (parse_column c s) (parse_columns columns) h in
    let first = parse_column-Follows c s e in
    let rest = parse_columns-Follows columns m later in
    record {
      range = λ r. rest.range (first.range r);
      total_range = λ t. rest.total_range (first.total_range t);
      failure =
          rest.failure
          ∙ rw first.failure (or_assoc (failed_flag s) (is_failure c) (has is_failure columns));
      total =
          rest.total ∙ rw first.total (or_assoc s.parsed_total (is_total c) (has is_total columns));
      any = λ e. rest.any (first.any e);
    }

-- A row that was read: every count is at most a thousand million, the total is the 32-bit sum of the
-- counts unless a column gives it, and the status is `fail` exactly if the header has a column for
-- failures, broken tests or errors, whatever its count.
pub record IsCountedRow (columns : List Column) (r : TestSummaryResult) : Type 0 where
  pub found : r.found_summary ≡ true
  pub range : InRange r
  pub total_given : has is_total columns ≡ true → IsCount r.test_total
  pub total_summed : has is_total columns ≡ false → IsIntSum r
  pub status_of_header : r.status ≡ (if has is_failure columns then codes "fail" else codes "pass")

int_sum-IsIntSum :
    (r : TestSummaryResult)
    → InRange r
    → r.test_total ≡ int_sum r.test_pass r.test_fail r.test_broken r.test_error
    → IsIntSum r
unfolding int_sum to_int
int_sum-IsIntSum r range h =
    let sum = r.test_pass + r.test_fail + r.test_broken + r.test_error in
    let whole : sum % 2 ^ 32 ≡ sum = omega arith in
    elim (Bool-cases (ltb sum (2 ^ 31))) [
      | inl e ↦ inl (ground arith, h ∙ rw (to_int, whole, e) refl)
      | inr e ↦ inr (ground arith, h ∙ rw (to_int, whole, e) (ap negsuc (omega arith)))
    ]

finish_row-IsCountedRow :
    (columns : List Column) (tokens : List Bytes) (s : RowState) {r : TestSummaryResult}
    → Follows (start_row tokens) columns s
    → finish_row s ≡ some r
    → IsCountedRow columns r
unfolding finish_row with_total row_status
finish_row-IsCountedRow columns tokens s {r} f h =
    let range = f.range (omega arith) in
    let total = f.total in
    let failure = f.failure in
    let any = f.any refl in
    let total_range = f.total_range (0, refl, omega arith) in
    let in_range : InRange r = ground arith in
    record {
      found = ground arith;
      range = in_range;
      total_given = λ g. ground arith;
      total_summed = λ g. int_sum-IsIntSum r in_range (ground arith);
      status_of_header = ground arith;
    }

-- A row that is read has every count within its range, the status that the header's columns give, and a
-- total that is read within the range, or else is the sum of the four counts where that is below 2^31,
-- and the negative number 2^32 below the sum where it is not.
pub parse_row_tokens-IsCountedRow :
    (columns : List Column) (tokens : List Bytes) {r : TestSummaryResult}
    → parse_row_tokens columns tokens ≡ some r
    → IsCountedRow columns r
unfolding parse_row_tokens
parse_row_tokens-IsCountedRow columns [] h = cc
parse_row_tokens-IsCountedRow columns (t ∷ tokens) h =
    let (s, e, last) = chain_some (parse_columns columns (start_row (t ∷ tokens))) finish_row h in
    finish_row-IsCountedRow columns (t ∷ tokens) s
      (parse_columns-Follows columns (start_row (t ∷ tokens)) e) last
