-- ===== src/Tools/Summary/Block.antt =====
-- The latest summary of a capture (src/tools.cpp `extract_failure_snippets`,
-- `parse_test_summary_impl`).
pub mod Latest
use jjmcp.Base.{Bool, true, not, ◌&&◌, List, [], ◌∷◌, ◌++◌, Option, none, some, take, if◌then◌else◌}
use jjmcp.Text.{Bytes, codes, newline, is_empty, ◌=ᵇ◌, occurs}
use jjmcp.Julia.Lines.{split_lines, trim_ascii}
use jjmcp.Tools.Summary.{Column, normalize_summary_columns}
use jjmcp.Tools.Summary.Row.{TestSummaryResult, no_summary, parse_summary_counts_row}

-- The loop that joins the trimmed lines that are not empty.
unfoldable pub snippet_loop : List Bytes → Bytes → Bytes
snippet_loop [] snippet = snippet
snippet_loop (l ∷ lines) snippet =
    let trimmed = trim_ascii l in
    snippet_loop lines (
      if is_empty trimmed
      then snippet
      else if is_empty snippet
      then trimmed
      else snippet ++ newline ∷ trimmed)

-- `failures.empty() || failures.back() != snippet`
unfoldable pub is_new : List Bytes → Bytes → Bool
is_new [] snippet = true
is_new (f ∷ []) snippet = not (f =ᵇ snippet)
is_new (f ∷ g ∷ failures) snippet = is_new (g ∷ failures) snippet

unfoldable pub add_failure : List Bytes → Bytes → List Bytes
add_failure failures snippet =
    if not (is_empty snippet) && is_new failures snippet then failures ++ snippet ∷ [] else failures

-- `before` is the line before the current one, or no line at the first.
unfoldable pub failures_loop : List Bytes → List Bytes → List Bytes → List Bytes
failures_loop before [] failures = failures
failures_loop before (l ∷ lines) failures = failures_loop (l ∷ []) lines (
    if occurs (codes "Test Failed at") l
    then add_failure failures (snippet_loop (before ++ l ∷ take 1 lines) [])
    else failures)

unfoldable pub extract_failure_snippets : List Bytes → List Bytes
extract_failure_snippets lines = failures_loop [] lines []

-- The first candidate that reads the line.
unfoldable pub first_candidate : List (List Column) → Bytes → Option TestSummaryResult
first_candidate [] line = none
first_candidate (columns ∷ candidates) line = elim (parse_summary_counts_row columns line) [
  | none ↦ first_candidate candidates line
  | some parsed ↦ some parsed
]

-- The rows below a header.
unfoldable pub rows_loop : List (List Column) → List Bytes → Option TestSummaryResult
rows_loop candidates [] = none
rows_loop candidates (l ∷ lines) =
    let line = trim_ascii l in
    let more = rows_loop candidates lines in
    let parsed = first_candidate candidates line in
    if is_empty line
    then more
    else if occurs (codes "Test Summary:") line
    then none
    else elim parsed [ none ↦ more | some r ↦ some r ]

abbrev non_empty : List Column → List (List Column)
non_empty [] = []
non_empty (c ∷ columns) = (c ∷ columns) ∷ []

abbrev default_candidates : List (List Column) → List (List Column)
default_candidates [] = (Column.pass ∷ Column.total ∷ Column.time ∷ []) ∷ []
default_candidates (c ∷ candidates) = c ∷ candidates

-- The columns of the line behind the header, where there is one.
abbrev next_columns : List Bytes → List (List Column)
next_columns [] = []
next_columns (l ∷ lines) = non_empty (normalize_summary_columns l)

unfoldable pub candidates_of : Bytes → List Bytes → List (List Column)
candidates_of header below =
    default_candidates (non_empty (normalize_summary_columns header) ++ next_columns below)

-- `for (i = lines.size() - 1; i >= 0; --i)`: a header further down comes first. The rows of a header
-- are the eleven lines behind it.
unfoldable pub latest_summary : List Bytes → Option TestSummaryResult
latest_summary [] = none
latest_summary (l ∷ lines) = elim (latest_summary lines) [
  | some parsed ↦ some parsed
  | none ↦
      if occurs (codes "Test Summary:") l
      then rows_loop (candidates_of l lines) (take 11 lines)
      else none
]

unfoldable pub parse_test_summary : Bytes → TestSummaryResult
parse_test_summary capture =
    let lines = split_lines capture in
    let failures = extract_failure_snippets lines in
    elim (latest_summary lines) [
      | none ↦ record no_summary { failures = failures }
      | some parsed ↦ record parsed { failures = failures }
    ]
