-- ===== src/Tests/Rows.antt =====
-- The test summary's rows at concrete inputs (`parse_summary_counts_row` of src/tools.cpp).
use jjmcp.Base.{◌≡◌, refl, true, false, List, [], ◌∷◌, ◌++◌, some, arith}
use jjmcp.Text.{Bytes, codes, to_string}
use jjmcp.Json.{pos}
use jjmcp.Text.Words.{all_digits}
use jjmcp.Text.Decimal.{number}
use jjmcp.Tools.Summary.{Column, is_int_token}
use jjmcp.Tools.Summary.Row.{
  TestSummaryResult, RowState, no_summary, parse_row_tokens, parse_columns, parse_column,
  count_column, next_integer, clamped, put_count, with_total, row_status, finish_row,
}
use jjmcp.Tools.Summary.Counts.{IsCountedRow, parse_row_tokens-IsCountedRow}
use jjmcp.Tools.Summary.Reading.{IsFilled, parse_columns-printed, name_number_counted}
use jjmcp.Tools.Summary.Reading.Columns.{Entries, header, printed}

-- A test set named `Geometry`, with 3 passes of 3.
abbrev row : List Bytes
row = codes "Geometry" ∷ codes "3" ∷ codes "3" ∷ []

abbrev read_row : TestSummaryResult
read_row = record no_summary {
  found_summary = true;
  test_pass = 3;
  test_total = pos 3;
  status = codes "pass";
}

row_read : parse_row_tokens (Column.pass ∷ Column.total ∷ []) row ≡ some read_row
unfolding parse_row_tokens parse_columns parse_column count_column next_integer clamped put_count
    with_total row_status finish_row is_int_token all_digits number
row_read = refl

parse_row_tokens-IsCountedRow_example : IsCountedRow (Column.pass ∷ Column.total ∷ []) read_row
parse_row_tokens-IsCountedRow_example =
    parse_row_tokens-IsCountedRow (Column.pass ∷ Column.total ∷ []) row row_read

abbrev counts : Entries
counts = (Column.pass, 3) ∷ (Column.fail, 1) ∷ []

abbrev before : RowState
before = record {
  tmp = no_summary;
  parsed_pass = false;
  parsed_fail = false;
  parsed_broken = false;
  parsed_error = false;
  parsed_total = false;
  parsed_any = false;
  tokens = [];
}

parse_columns-printed_example :
    (s' : RowState) × (parse_columns (header counts) (record before {
      tokens = (codes "Geometry" ∷ []) ++ (printed counts ++ codes "0.1s" ∷ []);
    })
      ≡ some s')
    × IsFilled counts before s'
    × (s'.parsed_any ≡ true)
    × (s'.tokens ≡ codes "0.1s" ∷ [])
unfolding is_int_token all_digits
parse_columns-printed_example =
    parse_columns-printed (codes "Geometry" ∷ []) counts (codes "0.1s" ∷ []) before (refl, tt)
      (refl, (omega arith), (refl, (omega arith), tt)) (omega arith)

-- `Part 2` with 5 passes of 5 is read as 2 passes of 5.
name_number_counted_example :
    (r : TestSummaryResult) × (parse_row_tokens
        (Column.pass ∷ Column.total ∷ [])
        ((codes "Part" ∷ []) ++ to_string 2 ∷ ([] ++ to_string 5 ∷ to_string 5 ∷ []))
      ≡ some r)
    × (r.test_pass ≡ 2)
    × (r.test_total ≡ pos 5)
unfolding is_int_token all_digits
name_number_counted_example =
    name_number_counted (codes "Part" ∷ []) [] [] 2 5 5 (refl, tt) tt (omega arith) (omega arith)

abbrev head_line : Bytes
head_line = codes "Test Summary: | Pass  Total"

abbrev below : List Bytes
below = codes "Demo | 3 3" ∷ []
