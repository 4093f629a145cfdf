-- ===== src/Tools/Summary/Reading.antt =====
-- Which tokens of a row become its counts (src/tools.cpp `next_integer` and the loop over the
-- columns in `parse_summary_counts_row`).
pub mod Columns
use mathlib.Core.Bool.{false≢true}
use jjmcp.Base.{
  length, ap, ℕ, ◌≤◌, ◌≡◌, refl, ◌∙◌, Bool, true, false, List, [], ◌∷◌, ◌++◌, map, some, arith,
  if◌then◌else◌,
}
use jjmcp.Json.{pos}
use jjmcp.Text.{Bytes, codes, to_string}
use jjmcp.Text.Decimal.{number-to_string, all_digits-to_string, to_string_grows}
use jjmcp.Tools.Summary.{Column, is_int_token}
use jjmcp.Tools.Summary.Row.{
  TestSummaryResult, RowState, count_limit, clamped, next_integer, put_count, count_column,
  parse_column, parse_columns, start_row, finish_row, with_total, row_status, parse_row_tokens,
  no_summary,
}
use jjmcp.Tools.Summary.Reading.Columns.{
  AreCounts, Entries, NoInteger, columns_end, columns_filled, columns_step, entry_read, filled,
  header, last_count, printed,
}

-- The state behind the loop, field by field: what the last entry of each column says, or what the field
-- was before, and the time untouched.
abbrev pub IsFilled : Entries → RowState → RowState → Type 0
IsFilled entries s s' =
    (s'.tmp.test_pass ≡ last_count Column.pass (λ n. n) entries s.tmp.test_pass)
    × (s'.tmp.test_fail ≡ last_count Column.fail (λ n. n) entries s.tmp.test_fail)
    × (s'.tmp.test_broken ≡ last_count Column.broken (λ n. n) entries s.tmp.test_broken)
    × (s'.tmp.test_error ≡ last_count Column.error (λ n. n) entries s.tmp.test_error)
    × (s'.tmp.test_total ≡ last_count Column.total pos entries s.tmp.test_total)
    × (s'.tmp.test_time ≡ s.tmp.test_time)
    × (s'.parsed_pass ≡ last_count Column.pass (λ n. true) entries s.parsed_pass)
    × (s'.parsed_fail ≡ last_count Column.fail (λ n. true) entries s.parsed_fail)
    × (s'.parsed_broken ≡ last_count Column.broken (λ n. true) entries s.parsed_broken)
    × (s'.parsed_error ≡ last_count Column.error (λ n. true) entries s.parsed_error)
    × (s'.parsed_total ≡ last_count Column.total (λ n. true) entries s.parsed_total)

filled-IsFilled :
    (entries : Entries) (s : RowState) (rest : List Bytes)
    → AreCounts entries
    → IsFilled entries s (record (filled entries s) { tokens = rest })
unfolding put_count
filled-IsFilled [] s rest counts =
    (refl, refl, refl, refl, refl, refl, refl, refl, refl, refl, refl)
filled-IsFilled ((Column.time, n) ∷ entries) s rest (count, _, _) = absurd (false≢true count)
filled-IsFilled ((Column.pass, n) ∷ entries) s rest (_, _, counts) =
    filled-IsFilled entries (put_count Column.pass n s) rest counts
filled-IsFilled ((Column.fail, n) ∷ entries) s rest (_, _, counts) =
    filled-IsFilled entries (put_count Column.fail n s) rest counts
filled-IsFilled ((Column.broken, n) ∷ entries) s rest (_, _, counts) =
    filled-IsFilled entries (put_count Column.broken n s) rest counts
filled-IsFilled ((Column.error, n) ∷ entries) s rest (_, _, counts) =
    filled-IsFilled entries (put_count Column.error n s) rest counts
filled-IsFilled ((Column.total, n) ∷ entries) s rest (_, _, counts) =
    filled-IsFilled entries (put_count Column.total n s) rest counts

filled_any :
    (entries : Entries) (s : RowState)
    → AreCounts entries
    → s.parsed_any ≡ true
    → (filled entries s).parsed_any ≡ true
unfolding put_count
filled_any [] s counts h = h
filled_any ((Column.time, n) ∷ entries) s (count, _, _) h = absurd (false≢true count)
filled_any ((c, n) ∷ entries) s (_, _, counts) h = filled_any entries (put_count c n s) counts refl

filled_some :
    (entries : Entries) (s : RowState)
    → AreCounts entries
    → 1 ≤ length entries
    → (filled entries s).parsed_any ≡ true
unfolding put_count
filled_some [] s counts h = absurd (omega arith)
filled_some ((Column.time, n) ∷ entries) s (count, _, _) h = absurd (false≢true count)
filled_some ((c, n) ∷ entries) s (_, _, counts) h = filled_any entries (put_count c n s) counts refl

-- Behind a name with no run of digits, the printed counts, at least one and each at most the limit, are
-- read: each field then holds the count that stands under the last column of its name, and is as it was
-- if there is no such column, the flag of each such column is set, and the cursor stands behind the
-- counts.
pub parse_columns-printed :
    (ws : List Bytes) (entries : Entries) (rest : List Bytes) (s : RowState)
    → NoInteger ws
    → AreCounts entries
    → 1 ≤ length entries
    → (s' : RowState) × (parse_columns
          (header entries)
          (record s { tokens = ws ++ (printed entries ++ rest) })
        ≡ some s')
      × IsFilled entries s s'
      × (s'.parsed_any ≡ true)
      × (s'.tokens ≡ rest)
parse_columns-printed ws entries rest s name counts h = (
  record (filled entries s) { tokens = rest },
  columns_filled ws entries rest s name counts h,
  filled-IsFilled entries s rest counts,
  filled_some entries s counts h,
  refl,
)

parse_row_tokens-some :
    (columns : List Column) (ws : List Bytes) (t : Bytes) (rest : List Bytes) {s : RowState}
    {r : TestSummaryResult}
    → parse_columns columns (start_row (ws ++ t ∷ rest)) ≡ some s
    → finish_row s ≡ some r
    → parse_row_tokens columns (ws ++ t ∷ rest) ≡ some r
unfolding parse_row_tokens
parse_row_tokens-some columns [] t rest h e = rw (h, parse_row_tokens) e
parse_row_tokens-some columns (w ∷ ws) t rest h e = rw (h, parse_row_tokens) e

two_columns :
    (ws more behind : List Bytes) (d n : ℕ) (s : RowState)
    → NoInteger ws
    → NoInteger more
    → d ≤ count_limit
    → n ≤ count_limit
    → parse_columns
        (Column.pass ∷ Column.total ∷ [])
        (record s { tokens = ws ++ to_string d ∷ (more ++ to_string n ∷ behind) })
      ≡ some (record (put_count Column.total n (put_count Column.pass d s)) { tokens = behind })
two_columns ws more behind d n s name name' hd hn =
    columns_step Column.pass _ _ _
      (entry_read Column.pass d ws (more ++ to_string n ∷ behind) s refl name hd)
    ∙ columns_step Column.total _ _ _
        (entry_read Column.total n more behind (put_count Column.pass d s) refl name' hn)
    ∙ columns_end _

-- A run of digits in the name of a test set is read as its first count: in a row of passes and
-- totals, the number in the name is reported as the passes, and the passes as the total, where
-- both are at most the limit and the rest of the name has no run of digits.
pub name_number_counted :
    (ws more rest : List Bytes) (d passes total : ℕ)
    → NoInteger ws
    → NoInteger more
    → d ≤ count_limit
    → passes ≤ count_limit
    → (r : TestSummaryResult) × (parse_row_tokens
          (Column.pass ∷ Column.total ∷ [])
          (ws ++ to_string d ∷ (more ++ to_string passes ∷ to_string total ∷ rest))
        ≡ some r)
      × (r.test_pass ≡ d)
      × (r.test_total ≡ pos passes)
unfolding finish_row with_total row_status
name_number_counted ws more rest d passes total name name' hd hp =
    let behind = to_string total ∷ rest in
    let s0 = start_row [] in
    let s1 : RowState = put_count Column.pass d s0 in
    let s2 : RowState = record (put_count Column.total passes s1) { tokens = behind } in
    let read : parse_columns (Column.pass ∷ Column.total ∷ [])
          (start_row (ws ++ to_string d ∷ (more ++ to_string passes ∷ behind)))
        ≡ some s2 =
      two_columns ws more behind d passes s0 name name' hd hp in
    (
      record no_summary {
        test_pass = d;
        test_total = pos passes;
        status = codes "pass";
        found_summary = true;
      },
      parse_row_tokens-some _ ws (to_string d) _ read (unfold put_count in refl),
      refl,
      refl,
    )
