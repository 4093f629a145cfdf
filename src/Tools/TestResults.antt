-- ===== src/Tools/TestResults.antt =====
-- The tool that reads a test summary off the pane (src/tools.cpp `capture_test_results`).
use jjmcp.Base.{ℕ, ◌+◌, Bool, true, false, not, ◌&&◌, List, [], ◌∷◌, ◌++◌, map, ◌==◌, if◌then◌else◌}
use jjmcp.Text.{Bytes, codes, newline, is_empty, to_string}
use jjmcp.Json.{Json, ℤ, pos, negsuc, value_boolean}
use jjmcp.State.{Binding}
use jjmcp.Julia.Lines.{trim_ascii}
use jjmcp.Tmux.Commands.{capture_pane}
use jjmcp.Tools.Output.{truncate_tool_tail, max_mcp_text_bytes}
use jjmcp.Tools.Summary.Row.{TestSummaryResult}
use jjmcp.Tools.Summary.Block.{parse_test_summary}
use jjmcp.Tools.Answer.{error_result}
use jjmcp.Tools.Arguments.{optional_int}
use jjmcp.Tools.Dispatcher.{Host, Reply, ◌>>=◌, return, outside_of, target_of}
use jjmcp.Tools.Stages.{or_fail, bound, max_capture_lines}
use jjmcp.Tools.Handlers.{Handler, or_throw, default_capture_lines}

-- The status is told anew from the counts.
unfoldable pub reported : TestSummaryResult → TestSummaryResult
reported parsed = record parsed {
  test_time = trim_ascii parsed.test_time;
  status =
      if not parsed.found_summary
      then codes "unknown"
      else if parsed.test_fail == 0 && parsed.test_broken == 0 && parsed.test_error == 0
      then codes "pass"
      else codes "fail";
}

unfoldable pub failure_lines : List Bytes → Bytes
failure_lines [] = []
failure_lines (f ∷ fs) = newline ∷ f ++ failure_lines fs

-- An `int` as a stream prints it.
unfoldable pub signed_string : ℤ → Bytes
signed_string (pos n) = to_string n
signed_string (negsuc n) = codes "-" ++ to_string (n + 1)

-- The text without the raw output.
unfoldable pub summary_text : TestSummaryResult → Bytes
summary_text parsed =
    if parsed.found_summary
    then (codes "Test Summary: pass="
        ++ to_string parsed.test_pass
        ++ codes ", fail="
        ++ to_string parsed.test_fail
        ++ codes ", broken="
        ++ to_string parsed.test_broken
        ++ codes ", error="
        ++ to_string parsed.test_error
        ++ codes ", total="
        ++ signed_string parsed.test_total)
      ++ (if is_empty parsed.test_time then [] else codes ", time=" ++ parsed.test_time)
      ++ (if is_empty parsed.failures
          then []
          else codes "\nfailures:" ++ failure_lines parsed.failures)
    else codes "No test summary found in captured output"

module _ (json : Json) where
  open json use {Value, string, boolean, integer, array, object}

  unfoldable pub summary_json : TestSummaryResult → ℕ → Bool → Bytes → Value
  summary_json parsed lines include_raw raw = object (
      (codes "found_summary", boolean parsed.found_summary)
      ∷ (codes "test_pass", integer (pos parsed.test_pass))
      ∷ (codes "test_fail", integer (pos parsed.test_fail))
      ∷ (codes "test_broken", integer (pos parsed.test_broken))
      ∷ (codes "test_error", integer (pos parsed.test_error))
      ∷ (codes "test_total", integer parsed.test_total)
      ∷ (codes "test_time", string parsed.test_time)
      ∷ (codes "status", string parsed.status)
      ∷ (codes "failures", array (map string parsed.failures))
      ∷ (codes "capture_lines", integer (pos lines))
      ∷ (if include_raw then (codes "raw_output", string raw) ∷ [] else []))

  unfoldable pub test_reply : Bytes → ℕ → Bool → Bool → Reply Value
  test_reply raw lines require_summary include_raw =
      let parsed = reported (parse_test_summary raw) in
      record {
        result =
            if not parsed.found_summary && require_summary
            then error_result (codes "no test summary found in captured tmux output")
            else record {
              is_error = false;
              text = if include_raw then raw else summary_text parsed;
              full_output = [];
            };
        structured = summary_json parsed lines include_raw raw;
      }

  module _ {W : Type 0} (host : Host W) where
    unfoldable pub capture_tests : Binding → ℕ → Bool → Bool → Handler host json
    capture_tests binding lines require_summary include_raw = do
      captured ← outside_of (capture_pane host.run (target_of binding) lines)
      text ← or_fail host json captured
      return (
          test_reply (truncate_tool_tail text lines max_mcp_text_bytes) lines require_summary
            include_raw)

    unfoldable pub capture_test_results : Value → Handler host json
    capture_test_results arguments = do
      binding ← bound host json
      require_summary ←
          or_throw host json (value_boolean json arguments (codes "require_summary") false)
      include_raw ← or_throw host json (value_boolean json arguments (codes "include_raw") true)
      capture_tests binding
          (optional_int json arguments (codes "lines") default_capture_lines 1 max_capture_lines)
          require_summary include_raw
