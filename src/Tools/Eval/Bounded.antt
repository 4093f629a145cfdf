-- ===== src/Tools/Eval/Bounded.antt =====
-- The size of the accumulator while the begin marker is not seen (src/tools.cpp `eval_code`).
use jjmcp.Base.{
  ◌≤◌, ◌+◌, ◌-◌, ◌/◌, ◌≡◌, false, [], ◌∷◌, length, drop, ltb, arith, Bool-cases, Option-cases,
  length-drop, inl, inr,
}
use jjmcp.Text.{Bytes, newline, find_first}
use jjmcp.Julia.Marker.{Marker}
use jjmcp.Tools.Output.{max_eval_accumulator_bytes}
use jjmcp.Tools.Eval.{Polling, drop_head, bound_accumulator}

drop_head_short : (text : Bytes) → length (drop_head text) ≤ max_eval_accumulator_bytes / 2
unfolding drop_head
drop_head_short text =
    let n = length text - max_eval_accumulator_bytes / 2 in
    let rest = drop n text in
    let short : length rest ≤ max_eval_accumulator_bytes / 2 = omega (arith, length-drop n text) in
    elim (Option-cases (find_first (newline ∷ []) rest)) [
      | inl e ↦ rw (e, drop_head) short
      | inr (i, e) ↦ rw (e, drop_head) (omega (arith, length-drop (i + 1) rest))
    ]

-- As long as neither the begin marker nor the end marker has been found, the accumulator is within
-- its limit behind every round, however long it was.
pub bound_accumulator_short :
    (m : Marker) (s : Polling)
    → s.last_extract.found_begin ≡ false
    → s.last_extract.found_end ≡ false
    → length (bound_accumulator m s).accumulator ≤ max_eval_accumulator_bytes
unfolding bound_accumulator
bound_accumulator_short m s no_begin no_end =
    elim (Bool-cases (ltb max_eval_accumulator_bytes (length s.accumulator))) [
      | inl long ↦ rw (no_begin, no_end, long) (omega (arith, drop_head_short s.accumulator))
      | inr fits ↦ rw (no_begin, no_end, fits) (ground arith)
    ]
