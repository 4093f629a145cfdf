-- ===== src/Julia/Lines.antt =====
-- Lines and blanks (src/julia_wrap.cpp `split_lines`, `trim_ascii`, `join_lines`).
pub mod Trim
use jjmcp.Base.{
  ℕ, zero, suc, ◌-◌, Bool, not, ◌&&◌, ◌||◌, List, [], ◌∷◌, ◌++◌, ◌==◌, if◌then◌else◌, take, drop,
}
use jjmcp.Text.{Bytes, newline, carriage_return, is_empty, ends_with}

unfoldable pub is_blank : ℕ → Bool
is_blank c = c == b' ' || c == b'\t' || c == carriage_return || c == newline

-- `while (!text.empty() && blank(text.back())) text.pop_back();`
unfoldable pub trim_back : Bytes → Bytes
unfolding is_blank
trim_back [] = []
trim_back (c ∷ s) = let r = trim_back s in if is_empty r && is_blank c then [] else c ∷ r

-- `while (first < text.size() && blank(text[first])) ++first; text.erase(0, first);`
unfoldable pub trim_front : Bytes → Bytes
unfolding is_blank
trim_front [] = []
trim_front (c ∷ s) = let r = trim_front s in if is_blank c then r else c ∷ s

unfoldable pub trim_ascii : Bytes → Bytes
unfolding trim_back trim_front
trim_ascii text = trim_front (trim_back text)

-- The loop of `split_lines` over the text: the lines so far, and the current one.
unfoldable pub split_loop : Bytes → List Bytes → Bytes → List Bytes × Bytes
split_loop [] lines current = (lines, current)
split_loop (c ∷ text) lines current =
    if c == carriage_return
    then split_loop text lines current
    else if c == newline
    then split_loop text (lines ++ current ∷ []) []
    else split_loop text lines (current ++ c ∷ [])

unfoldable pub split_lines : Bytes → List Bytes
unfolding split_loop ends_with
split_lines text =
    let (lines, current) = split_loop text [] [] in
    if not (is_empty current) || ends_with newline text then lines ++ current ∷ [] else lines

-- `for (i = first; i < last; ++i)`: a newline goes between two lines unless nothing is written yet.
unfoldable pub join_loop : List Bytes → Bytes → Bytes
join_loop [] out = out
join_loop (l ∷ lines) out =
    join_loop lines ((if is_empty out then out else out ++ newline ∷ []) ++ l)

unfoldable pub join_lines : List Bytes → ℕ → ℕ → Bytes
unfolding join_loop
join_lines lines first last = join_loop (take (last - first) (drop first lines)) []
