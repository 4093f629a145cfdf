-- ===== src/Tmux/Fields.antt =====
-- Format fields and their separator (src/tmux.cpp `join_format`, `tabs_for_separators`,
-- `split_tmux_fields`). Text from `start` on stands for the position `start`.
pub mod RoundTrip
use jjmcp.Base.{
  ℕ, zero, suc, ◌+◌, Bool, true, false, not, ◌&&◌, ◌||◌, List, [], ◌∷◌, ◌++◌, Option, none, some,
  length, take, drop, ◌==◌, if◌then◌else◌,
}
use jjmcp.Text.{Bytes, codes, newline, carriage_return, is_empty, find_first}

abbrev pub field_sep : Bytes
field_sep = codes "<jjmcp|sep>"

unfoldable pub join_rest : List Bytes → Bytes → Bytes
join_rest [] fmt = fmt
join_rest (f ∷ fields) fmt = join_rest fields ((fmt ++ field_sep) ++ f)

-- `if (i > 0) fmt += sep;` for every field but the first.
unfoldable pub join_format : List Bytes → Bytes
join_format [] = []
join_format (f ∷ fields) = join_rest fields f

-- The bytes that are not line ends.
unfoldable pub drop_line_ends : Bytes → Bytes
drop_line_ends [] = []
drop_line_ends (c ∷ s) =
    if not (c == carriage_return) && not (c == newline)
    then c ∷ drop_line_ends s
    else drop_line_ends s

-- `for (pos = clean.find(sep); pos != npos; pos = clean.find(sep, start))`; each round passes a
-- separator, so a round for each byte, and one, are enough.
unfoldable pub split_loop : ℕ → Bytes → List Bytes → List Bytes
split_loop zero rest fields = fields ++ rest ∷ []
split_loop (suc fuel) rest fields = elim (find_first field_sep rest) [
  | none ↦ fields ++ rest ∷ []
  | some pos ↦ split_loop fuel (drop (pos + length field_sep) rest) (fields ++ take pos rest ∷ [])
]

unfoldable pub split_tmux_fields : Bytes → List Bytes
split_tmux_fields line = let clean = drop_line_ends line in split_loop (suc (length clean)) clean []

unfoldable pub tabs_loop : ℕ → Bytes → Bytes → Bytes
tabs_loop zero rest out = out ++ rest
tabs_loop (suc fuel) rest out = elim (find_first field_sep rest) [
  | none ↦ out ++ rest
  | some pos ↦
      tabs_loop fuel (drop (pos + length field_sep) rest) ((out ++ take pos rest) ++ b'\t' ∷ [])
]

unfoldable pub tabs_for_separators : Bytes → Bytes
tabs_for_separators text = tabs_loop (suc (length text)) text []
