-- ===== src/Tools/Summary/Row.antt =====
-- One row of counts (src/tools.cpp `parse_summary_counts_row`). The cursor is the list of the tokens
-- from it on, and `none` stands for `return false`, which leaves the out parameter alone.
use jjmcp.Base.{
  ℕ, ◌+◌, Bool, true, false, not, ◌&&◌, ◌||◌, List, [], ◌∷◌, ◌++◌, Option, none, some, min,
  if◌then◌else◌,
}
use jjmcp.Text.{Bytes, codes}
use jjmcp.Text.Decimal.{number}
use jjmcp.Json.{ℤ, pos}
use jjmcp.Tools.Arguments.{to_int}
use jjmcp.Tools.Summary.{Column, summary_tokens, is_int_token, is_float_token}

pub record TestSummaryResult : Type 0 where
  pub found_summary : Bool
  pub test_pass : ℕ
  pub test_fail : ℕ
  pub test_broken : ℕ
  pub test_error : ℕ
  pub test_total : ℤ
  pub test_time : Bytes
  pub status : Bytes
  pub failures : List Bytes

abbrev pub no_summary : TestSummaryResult
no_summary = record {
  found_summary = false;
  test_pass = 0;
  test_fail = 0;
  test_broken = 0;
  test_error = 0;
  test_total = pos 0;
  test_time = [];
  status = codes "unknown";
  failures = [];
}

-- The local variables of the function.
pub record RowState : Type 0 where
  pub tmp : TestSummaryResult
  pub parsed_pass : Bool
  pub parsed_fail : Bool
  pub parsed_broken : Bool
  pub parsed_error : Bool
  pub parsed_total : Bool
  pub parsed_any : Bool
  pub tokens : List Bytes

abbrev pub count_limit : ℕ
count_limit = 1000000000

-- `std::clamp<long long>(std::strtoll(...), 0, 1000000000)`: a run of digits past the range of
-- `long long` is read as its largest value, which the clamp takes down like any other.
unfoldable pub clamped : Bytes → ℕ
clamped token = min (number token 0) count_limit

unfoldable pub next_integer : List Bytes → Option (ℕ × List Bytes)
next_integer [] = none
next_integer (token ∷ tokens) =
    if is_int_token token then some (clamped token, tokens) else next_integer tokens

unfoldable pub put_count : Column → ℕ → RowState → RowState
put_count Column.pass v s = record s {
  tmp = record s.tmp { test_pass = v };
  parsed_pass = true;
  parsed_any = true;
}
put_count Column.fail v s = record s {
  tmp = record s.tmp { test_fail = v };
  parsed_fail = true;
  parsed_any = true;
}
put_count Column.broken v s = record s {
  tmp = record s.tmp { test_broken = v };
  parsed_broken = true;
  parsed_any = true;
}
put_count Column.error v s = record s {
  tmp = record s.tmp { test_error = v };
  parsed_error = true;
  parsed_any = true;
}
put_count Column.total v s = record s {
  tmp = record s.tmp { test_total = pos v };
  parsed_total = true;
  parsed_any = true;
}
put_count Column.time v s = s

unfoldable pub count_column : Column → RowState → Option RowState
count_column column s = elim (next_integer s.tokens) [
  | none ↦ none
  | some (v, rest) ↦ some (put_count column v (record s { tokens = rest }))
]

-- The time may be two tokens, as in `1m 02s`.
unfoldable pub time_tokens : List Bytes → Option (Bytes × List Bytes)
time_tokens [] = none
time_tokens (t ∷ []) = some (t, [])
time_tokens (t ∷ u ∷ rest) =
    if not (is_int_token u) && not (is_float_token u)
    then some (t ++ codes " " ++ u, rest)
    else some (t, u ∷ rest)

unfoldable pub time_column : RowState → Option RowState
time_column s = elim (time_tokens s.tokens) [
  | none ↦ none
  | some (t, rest) ↦ some (record s { tmp = record s.tmp { test_time = t }; tokens = rest })
]

unfoldable pub parse_column : Column → RowState → Option RowState
parse_column Column.time s = time_column s
parse_column Column.pass s = count_column Column.pass s
parse_column Column.fail s = count_column Column.fail s
parse_column Column.broken s = count_column Column.broken s
parse_column Column.error s = count_column Column.error s
parse_column Column.total s = count_column Column.total s

unfoldable pub parse_columns : List Column → RowState → Option RowState
parse_columns [] s = some s
parse_columns (column ∷ columns) s = elim (parse_column column s) [
  | none ↦ none
  | some s' ↦ parse_columns columns s'
]

-- The sum of four counts in an `int`. Four counts of 10^9 do not fit in it: the sum wraps around, as
-- the usual 32-bit addition does where the source leaves an overflow undefined.
unfoldable pub int_sum : ℕ → ℕ → ℕ → ℕ → ℤ
int_sum a b c d = to_int (pos (a + b + c + d))

-- `tmp.test_total = ...` where no column gave a total.
unfoldable pub with_total : RowState → RowState
with_total s =
    if not s.parsed_total && (s.parsed_pass || s.parsed_fail || s.parsed_broken || s.parsed_error)
    then record s {
      tmp = record s.tmp {
        test_total = int_sum s.tmp.test_pass s.tmp.test_fail s.tmp.test_broken s.tmp.test_error;
      };
      parsed_total = true;
    }
    else s

unfoldable pub row_status : RowState → Bytes
row_status s =
    if not s.parsed_fail && not s.parsed_broken && not s.parsed_error
    then codes "pass"
    else codes "fail"

-- What stands behind the loop over the columns.
unfoldable pub finish_row : RowState → Option TestSummaryResult
finish_row s =
    let s' = with_total s in
    if not s.parsed_any
    then none
    else if not s'.parsed_total || not s'.parsed_any
    then none
    else some (record s'.tmp { status = row_status s'; found_summary = true })

abbrev pub start_row : List Bytes → RowState
start_row tokens = record {
  tmp = no_summary;
  parsed_pass = false;
  parsed_fail = false;
  parsed_broken = false;
  parsed_error = false;
  parsed_total = false;
  parsed_any = false;
  tokens = tokens;
}

unfoldable pub parse_row_tokens : List Column → List Bytes → Option TestSummaryResult
parse_row_tokens columns [] = none
parse_row_tokens columns (token ∷ tokens) =
    elim (parse_columns columns (start_row (token ∷ tokens))) [
      | none ↦ none
      | some s ↦ finish_row s
    ]

unfoldable pub parse_summary_counts_row : List Column → Bytes → Option TestSummaryResult
parse_summary_counts_row columns line = parse_row_tokens columns (summary_tokens line)
