-- ===== src/Tools/Output.antt =====
-- The limits on tool output and the compacted accumulator (src/tools.cpp `truncate_tool_tail`,
-- `append_line`, `append_block`, `compact_marker_accumulator`).
use jjmcp.Base.{ℕ, ◌*◌, Bool, [], ◌∷◌, ◌++◌, if◌then◌else◌}
use jjmcp.Text.{Bytes, newline, is_empty, ends_with}
use jjmcp.Julia.Marker.{Marker}
use jjmcp.Julia.Extract.{ExtractedOutput}
use jjmcp.Julia.Truncate.{truncate_bytes_tail, truncate_lines_tail}

abbrev pub max_mcp_text_bytes : ℕ
max_mcp_text_bytes = 256 * 1024

abbrev pub max_mcp_backtrace_bytes : ℕ
max_mcp_backtrace_bytes = 128 * 1024

abbrev pub max_eval_accumulator_bytes : ℕ
max_eval_accumulator_bytes = 1024 * 1024

abbrev pub eval_accumulator_tail_lines : ℕ
eval_accumulator_tail_lines = 2000

unfoldable pub truncate_tool_tail : Bytes → ℕ → ℕ → Bytes
truncate_tool_tail text max_lines max_bytes =
    truncate_bytes_tail (truncate_lines_tail text max_lines) max_bytes

unfoldable pub append_line : Bytes → Bytes → Bytes
append_line out line = (out ++ line) ++ newline ∷ []

unfoldable pub append_block : Bytes → Bytes → Bytes
append_block out text =
    let out' = out ++ text in
    if is_empty text then out else if ends_with newline out' then out' else out' ++ newline ∷ []

unfoldable pub compact_marker_accumulator :
    ExtractedOutput → Marker → Bool → Bool → Bool → Bool → Bool → Bytes
compact_marker_accumulator extracted marker saw_out_end saw_val_end saw_error saw_backtrace
      saw_end =
    let tail =
      λ (text : Bytes). truncate_tool_tail text eval_accumulator_tail_lines max_mcp_text_bytes in
    let head = append_block (append_line [] marker.begin) (tail extracted.stdout_text) in
    let failed = append_block (append_line head marker.error) (tail extracted.error_message) in
    let traced =
      append_block (append_line failed marker.bt)
        (truncate_tool_tail extracted.backtrace 200 max_mcp_backtrace_bytes) in
    let valued = append_block (append_line head marker.out_end) (tail extracted.value_repr) in
    let out =
      if saw_error
      then (if saw_backtrace then traced else failed)
      else if saw_out_end
      then (if saw_val_end then append_line valued marker.val_end else valued)
      else head in
    if saw_end then append_line out marker.end else out
