-- ===== src/Tools/Summary/Reading/Columns.antt =====
-- The loop over the columns of a header, with the counts of its row printed behind a name (src/tools.cpp
-- `parse_summary_counts_row`).
use mathlib.Core.Bool.{false≢true}
use jjmcp.Base.{
  length, ap, ℕ, ◌≤◌, ◌≡◌, refl, ◌∙◌, Bool, true, false, List, [], ◌∷◌, ◌++◌, map, some, arith,
  if◌then◌else◌,
}
use jjmcp.Text.{Bytes, to_string}
use jjmcp.Text.Decimal.{number-to_string, all_digits-to_string, to_string_grows}
use jjmcp.Tools.Summary.{Column, is_int_token}
use jjmcp.Tools.Summary.Row.{
  RowState, count_limit, clamped, next_integer, put_count, count_column, parse_column,
  parse_columns,
}

-- Words of a test set's name, none of which is a run of digits.
abbrev pub NoInteger : List Bytes → Type 0
NoInteger [] = Unit
NoInteger (w ∷ ws) = (is_int_token w ≡ false) × NoInteger ws

pub next_integer_skip :
    (ws tokens : List Bytes) → NoInteger ws → next_integer (ws ++ tokens) ≡ next_integer tokens
unfolding next_integer
next_integer_skip [] tokens h = refl
next_integer_skip (w ∷ ws) tokens (hw, h) = rw hw (next_integer_skip ws tokens h)

clamped-to_string : (n : ℕ) → n ≤ count_limit → clamped (to_string n) ≡ n
unfolding clamped
clamped-to_string n h = omega (arith, number-to_string n)

is_int_token-to_string : (n : ℕ) → is_int_token (to_string n) ≡ true
unfolding is_int_token
is_int_token-to_string n = rw (to_string_grows n, all_digits-to_string n)

next_integer-to_string :
    (n : ℕ) (tokens : List Bytes)
    → n ≤ count_limit
    → next_integer (to_string n ∷ tokens) ≡ some (n, tokens)
unfolding next_integer
next_integer-to_string n tokens h = rw (is_int_token-to_string n, clamped-to_string n h)

abbrev pub is_count : Column → Bool
is_count Column.time = false
is_count Column.pass = true
is_count Column.fail = true
is_count Column.broken = true
is_count Column.error = true
is_count Column.total = true

-- The columns with a count, in the order of the header, each with the count that the row prints.
abbrev pub Entries : Type 0
Entries = List (Column × ℕ)

abbrev pub AreCounts : Entries → Type 0
AreCounts [] = Unit
AreCounts ((c, n) ∷ entries) = (is_count c ≡ true) × (n ≤ count_limit) × AreCounts entries

abbrev pub header : Entries → List Column
header = map (λ e. e.0)

abbrev pub printed : Entries → List Bytes
printed = map (λ e. to_string e.1)

abbrev same_column : Column → Column → Bool
same_column Column.pass Column.pass = true
same_column Column.fail Column.fail = true
same_column Column.broken Column.broken = true
same_column Column.error Column.error = true
same_column Column.total Column.total = true
same_column Column.time Column.time = true
same_column _ _ = false

-- What the last entry of a column makes of its count, or a value that stands where there is none.
abbrev pub last_count : {A : Type 0} → Column → (ℕ → A) → Entries → A → A
last_count column f [] old = old
last_count column f ((c, n) ∷ entries) old =
    last_count column f entries (if same_column column c then f n else old)

abbrev pub filled : Entries → RowState → RowState
filled [] s = s
filled ((c, n) ∷ entries) s = filled entries (put_count c n s)

count_column_reads :
    (c : Column) (n : ℕ) (ws rest : List Bytes) (s : RowState)
    → NoInteger ws
    → n ≤ count_limit
    → count_column c (record s { tokens = ws ++ to_string n ∷ rest })
      ≡ some (put_count c n (record s { tokens = rest }))
unfolding count_column
count_column_reads c n ws rest s name h =
    rw (
      next_integer_skip ws (to_string n ∷ rest) name,
      next_integer-to_string n rest h,
      count_column,
    )

parse_column_count :
    (c : Column) (s : RowState) → is_count c ≡ true → parse_column c s ≡ count_column c s
unfolding parse_column
parse_column_count Column.time s h = absurd (false≢true h)
parse_column_count Column.pass s h = refl
parse_column_count Column.fail s h = refl
parse_column_count Column.broken s h = refl
parse_column_count Column.error s h = refl
parse_column_count Column.total s h = refl

put_count_tokens :
    (c : Column) (n : ℕ) (s : RowState) (rest : List Bytes)
    → put_count c n (record s { tokens = rest }) ≡ record (put_count c n s) { tokens = rest }
unfolding put_count
put_count_tokens Column.time n s rest = refl
put_count_tokens _ n s rest = refl

filled_tokens :
    (entries : Entries) (s : RowState) (rest : List Bytes)
    → filled entries (record s { tokens = rest }) ≡ record (filled entries s) { tokens = rest }
filled_tokens [] s rest = refl
filled_tokens ((c, n) ∷ entries) s rest =
    ap (filled entries) (put_count_tokens c n s rest) ∙ filled_tokens entries (put_count c n s) rest

pub entry_read :
    (c : Column) (n : ℕ) (ws rest : List Bytes) (s : RowState)
    → is_count c ≡ true
    → NoInteger ws
    → n ≤ count_limit
    → parse_column c (record s { tokens = ws ++ to_string n ∷ rest })
      ≡ some (record (put_count c n s) { tokens = rest })
entry_read c n ws rest s count name low =
    parse_column_count c (record s { tokens = ws ++ to_string n ∷ rest }) count
    ∙ count_column_reads c n ws rest s name low
    ∙ ap some (put_count_tokens c n s rest)

pub columns_step :
    (c : Column) (columns : List Column) (s s' : RowState)
    → parse_column c s ≡ some s'
    → parse_columns (c ∷ columns) s ≡ parse_columns columns s'
unfolding parse_columns
columns_step c columns s s' e = rw (e, parse_columns)

pub columns_end : (s : RowState) → parse_columns [] s ≡ some s
unfolding parse_columns
columns_end s = refl

pub columns_filled :
    (ws : List Bytes) (entries : Entries) (rest : List Bytes) (s : RowState)
    → NoInteger ws
    → AreCounts entries
    → 1 ≤ length entries
    → parse_columns (header entries) (record s { tokens = ws ++ (printed entries ++ rest) })
      ≡ some (record (filled entries s) { tokens = rest })
columns_filled ws [] rest s name counts h = absurd (omega arith)
columns_filled ws ((c, n) ∷ []) rest s name (count, low, counts) h =
    columns_step c [] _ _ (entry_read c n ws rest s count name low) ∙ columns_end _
columns_filled ws ((c, n) ∷ e ∷ entries) rest s name (count, low, counts) h =
    columns_step c (header (e ∷ entries)) _ _
      (entry_read c n ws (printed (e ∷ entries) ++ rest) s count name low)
    ∙ columns_filled [] (e ∷ entries) rest (put_count c n s) tt counts (omega arith)
