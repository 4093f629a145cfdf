-- ===== src/Julia/Truncate.antt =====
-- The size limits on returned text (src/julia_wrap.cpp `truncate_lines`, `truncate_lines_tail`,
-- `truncate_bytes`, `truncate_bytes_tail` and the UTF-8 helpers).
pub mod Cut
use Prim.Native.Nat.{bit_and}
use jjmcp.Base.{
  ℕ, zero, suc, ◌+◌, ◌-◌, Bool, not, ◌&&◌, List, [], ◌∷◌, ◌++◌, length, get_or, take, drop, leb,
  ltb, ◌==◌, if◌then◌else◌,
}
use jjmcp.Text.{Bytes, codes, newline, is_empty, ends_with, to_string}
use jjmcp.Julia.Lines.{split_lines, join_lines}

unfoldable pub is_utf8_continuation : ℕ → Bool
is_utf8_continuation c = bit_and c 0xc0 == 0x80

-- `while (keep > 0 && continuation(text[keep])) --keep;`
unfoldable pub back_to_start : Bytes → ℕ → ℕ
back_to_start text zero = 0
back_to_start text (suc keep) =
    let before = back_to_start text keep in
    if is_utf8_continuation (get_or text (suc keep) 0) then before else suc keep

unfoldable pub utf8_safe_prefix_length : Bytes → ℕ → ℕ
utf8_safe_prefix_length text max_bytes =
    if leb (length text) max_bytes then length text else back_to_start text max_bytes

-- The rounds of `while (start < text.size() && continuation(text[start])) ++start;` on the text from
-- `start` on.
unfoldable pub count_continuations : Bytes → ℕ
count_continuations [] = 0
count_continuations (c ∷ s) =
    let more = suc (count_continuations s) in if is_utf8_continuation c then more else 0

unfoldable pub utf8_safe_suffix_start : Bytes → ℕ → ℕ
utf8_safe_suffix_start text start =
    if leb (length text) start then length text else start + count_continuations (drop start text)

abbrev pub hidden_lines : Bytes
hidden_lines = codes "[JJMCP truncated: output hidden because max line count is 0]"

abbrev pub hidden_bytes : Bytes
hidden_bytes = codes "[JJMCP truncated: output hidden because max byte count is 0]"

-- `if (!lines.empty() && lines.back().empty()) lines.pop_back();`
unfoldable pub drop_last_empty : List Bytes → List Bytes
drop_last_empty [] = []
drop_last_empty (l ∷ []) = if is_empty l then [] else l ∷ []
drop_last_empty (l ∷ m ∷ lines) = l ∷ drop_last_empty (m ∷ lines)

-- `if (!out.empty()) out.push_back('\n');`
abbrev pub newline_after : Bytes → Bytes
newline_after out = if is_empty out then out else out ++ newline ∷ []

-- `if (!out.empty() && out.back() != '\n') out.push_back('\n');`
unfoldable pub end_line : Bytes → Bytes
unfolding ends_with
end_line out =
    if not (is_empty out) && not (ends_with newline out) then out ++ newline ∷ [] else out

unfoldable pub truncate_lines : Bytes → ℕ → Bytes
truncate_lines text max_lines =
    let lines = drop_last_empty (split_lines text) in
    let omitted = length lines - max_lines in
    if max_lines == 0
    then hidden_lines
    else if leb (length lines) max_lines
    then text
    else newline_after (join_lines lines 0 max_lines)
      ++ codes "[JJMCP truncated: omitted "
      ++ to_string omitted
      ++ codes " line(s)]"

unfoldable pub truncate_lines_tail : Bytes → ℕ → Bytes
truncate_lines_tail text max_lines =
    let lines = drop_last_empty (split_lines text) in
    let omitted = length lines - max_lines in
    if max_lines == 0
    then hidden_lines
    else if leb (length lines) max_lines
    then text
    else codes "[JJMCP truncated: omitted "
      ++ to_string omitted
      ++ codes " earlier line(s)]\n"
      ++ join_lines lines omitted (length lines)

unfoldable pub truncate_bytes : Bytes → ℕ → Bytes
truncate_bytes text max_bytes =
    let keep = utf8_safe_prefix_length text max_bytes in
    if max_bytes == 0
    then hidden_bytes
    else if leb (length text) max_bytes
    then text
    else end_line (take keep text)
      ++ codes "[JJMCP truncated: omitted "
      ++ to_string (length text - keep)
      ++ codes " byte(s)]"

unfoldable pub truncate_bytes_tail : Bytes → ℕ → Bytes
truncate_bytes_tail text max_bytes =
    let start = utf8_safe_suffix_start text (length text - max_bytes) in
    if max_bytes == 0
    then hidden_bytes
    else if leb (length text) max_bytes
    then text
    else codes "[JJMCP truncated: omitted "
      ++ to_string start
      ++ codes " earlier byte(s)]\n"
      ++ drop start text
