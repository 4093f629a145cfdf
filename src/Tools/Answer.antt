-- ===== src/Tools/Answer.antt =====
-- What an evaluation answers (src/tools.hpp `ToolResult`, the end of `run_marker_eval` and the retry
-- of `eval_code` in src/tools.cpp). The structured payload, a JSON value, is left out.
pub mod Complete
pub mod Retry
use jjmcp.Base.{ℕ, min, Bool, true, false, not, ◌&&◌, [], ◌∷◌, ◌++◌, List, ◌≡◌, ◌≢◌, if◌then◌else◌}
use jjmcp.Text.{Bytes, codes, is_empty, to_string}
use jjmcp.Process.{Result, success, failure}
use jjmcp.Julia.Marker.{Marker}
use jjmcp.Tools.Output.{truncate_tool_tail, max_mcp_text_bytes}
use jjmcp.Tools.Eval.{
  Polling, polling_start, Outcome, waiting, runtime_missing, failed, ended, poll_loop,
}

pub record ToolResult : Type 0 where
  pub is_error : Bool
  pub text : Bytes
  pub full_output : Bytes

-- The message of a run that met its deadline.
unfoldable pub timeout_text : Marker → ℕ → ℕ → Polling → Bytes
timeout_text marker timeout_ms capture_lines s =
    let out =
      codes "Timed out after " ++ to_string timeout_ms ++ codes " ms waiting for " ++ marker.end in
    if s.last_extract.found_begin && not (is_empty s.last_extract.text)
    then out
      ++ codes "\nPartial output between markers:\n"
      ++ truncate_tool_tail s.last_extract.text capture_lines max_mcp_text_bytes
    else if not (is_empty s.last_capture)
    then out
      ++ codes "\nRecent pane output:\n"
      ++ truncate_tool_tail s.last_capture (min capture_lines 200) max_mcp_text_bytes
    else out

unfoldable pub timeout_full : ℕ → Polling → Bytes
timeout_full timeout_ms s =
    if s.last_extract.found_begin && not (is_empty s.last_extract.text)
    then codes "Timed out after "
      ++ to_string timeout_ms
      ++ codes " ms; output between markers so far:\n"
      ++ s.last_extract.text
    else []

-- The result behind the loop.
unfoldable pub finish_eval : Marker → ℕ → ℕ → Bool → Polling → ToolResult
finish_eval marker timeout_ms capture_lines timed_out s =
    if not timed_out
    then record {
      is_error = s.last_extract.julia_error;
      text = truncate_tool_tail s.last_extract.text capture_lines max_mcp_text_bytes;
      full_output = s.last_extract.text;
    }
    else record {
      is_error = true;
      text = timeout_text marker timeout_ms capture_lines s;
      full_output = timeout_full timeout_ms s;
    }

abbrev pub error_result : Bytes → ToolResult
error_result text = record { is_error = true; text = text; full_output = [] }

-- What `run_marker_eval` returns: nothing as long as it polls, the `nullopt`, or a result.
pub data Attempt : Type 0 where
  polling : Attempt
  rejected : Attempt
  answered : ToolResult → Attempt

unfoldable pub attempt_of : Marker → ℕ → ℕ → Outcome → Attempt
attempt_of marker timeout_ms capture_lines (waiting s) = polling
attempt_of marker timeout_ms capture_lines runtime_missing = rejected
attempt_of marker timeout_ms capture_lines (failed e) = answered (error_result e)
attempt_of marker timeout_ms capture_lines (ended timed_out s) =
    answered (finish_eval marker timeout_ms capture_lines timed_out s)

-- `send_text` in front of the polls.
unfoldable pub run_marker_eval :
    Marker → ℕ → ℕ → Bool → Bool → Result (Unit {0}) → List (Result Bytes × Bool) → Attempt
run_marker_eval marker timeout_ms capture_lines detect active (failure e) polls =
    answered (error_result e)
run_marker_eval marker timeout_ms capture_lines detect active (success u) polls =
    attempt_of marker timeout_ms capture_lines (poll_loop marker detect active polling_start polls)

abbrev pub not_accepted : Bytes → ToolResult
not_accepted target = error_result (
    codes "the Julia REPL in "
    ++ target
    ++ codes " does not accept @JJMCP_COMMAND after reinstalling the runtime")

-- The second attempt, behind the second installation.
unfoldable pub retry_eval : Bytes → Attempt → Result (Unit {0}) → Attempt → Attempt
retry_eval target polling runtime second = polling
retry_eval target (answered r) runtime second = answered r
retry_eval target rejected (failure e) second = answered (error_result e)
retry_eval target rejected (success u) polling = polling
retry_eval target rejected (success u) (answered r) = answered r
retry_eval target rejected (success u) rejected = answered (not_accepted target)
