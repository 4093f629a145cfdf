-- ===== src/Tools/Dispatch.antt =====
-- The dispatch of a tool call (src/tools.cpp `call`, `dispatch`, `record_transcript`), with the tools
-- that evaluate code and the one that sets the transcript. `fuel` is for the loops on the pane.
pub mod Unbound
pub mod Calls
use jjmcp.Base.{
  ℕ, ◌+◌, Bool, true, false, not, ◌&&◌, ◌||◌, List, [], ◌∷◌, ◌++◌, Option, none, some,
  if◌then◌else◌,
}
use jjmcp.Text.{Bytes, codes, is_empty, starts_with, ◌=ᵇ◌}
use jjmcp.Process.{Result, success, failure}
use jjmcp.Json.{Json, value_boolean, boolean_at, string_at}
use jjmcp.State.{ServerState, path_join}
use jjmcp.Julia.Code.{make_activate_code, make_revise_code, make_test_code}
use jjmcp.Transcript.{
  Transcript, TranscriptEntry, TranscriptFormat, enable, disable, enabled,
  transcript_format_from_string, transcript_format_name,
}
use jjmcp.Tools.Arguments.{require_string, optional_string, optional_int}
use jjmcp.Tools.Dispatcher.{
  Host, Dispatcher, Reply, Stage, answered, going, threw, unfinished, Flow, ◌>>=◌, ◌>>◌, return,
  answer, target_of,
}
use jjmcp.Tools.Stages.{fail, or_fail, max_capture_lines}
use jjmcp.Tools.Evaluate.{eval_code}
use jjmcp.Tools.Handlers.{
  Handler, text_reply, or_throw, default_timeout_ms, default_capture_lines, transcript_line,
  list_tmux, bind, status, capture, interrupt,
}
use jjmcp.Tools.TestResults.{capture_test_results}

-- The tests on the name of the tool, in their order.
pub data Tool : Type 0 where
  list_tmux_tool bind_tool status_tool eval_tool capture_tool capture_test_results_tool
        interrupt_tool revise_tool activate_tool :
      Tool
  test_tool pkg_status_tool transcript_tool unknown_tool : Tool

unfoldable pub tool_named : Bytes → Tool
tool_named name =
    if name =ᵇ codes "jjmcp_list_tmux"
    then Tool.list_tmux_tool
    else if name =ᵇ codes "jjmcp_bind"
    then Tool.bind_tool
    else if name =ᵇ codes "jjmcp_status"
    then Tool.status_tool
    else if name =ᵇ codes "jjmcp_eval"
    then Tool.eval_tool
    else if name =ᵇ codes "jjmcp_capture"
    then Tool.capture_tool
    else if name =ᵇ codes "jjmcp_capture_test_results"
    then Tool.capture_test_results_tool
    else if name =ᵇ codes "jjmcp_interrupt"
    then Tool.interrupt_tool
    else if name =ᵇ codes "jjmcp_revise"
    then Tool.revise_tool
    else if name =ᵇ codes "jjmcp_activate"
    then Tool.activate_tool
    else if name =ᵇ codes "jjmcp_test"
    then Tool.test_tool
    else if name =ᵇ codes "jjmcp_pkg_status"
    then Tool.pkg_status_tool
    else if name =ᵇ codes "jjmcp_transcript"
    then Tool.transcript_tool
    else Tool.unknown_tool

abbrev pub is_format : Bytes → Bool
is_format name = name =ᵇ codes "text" || name =ᵇ codes "jsonl"

abbrev pub is_transport : Bytes → Bool
is_transport name = name =ᵇ codes "auto" || (name =ᵇ codes "tmux" || name =ᵇ codes "socket")

module _ {W : Type 0} (host : Host W) (json : Json) (fuel : ℕ) (active : Bool) (cwd : Bytes)
    (lexically_normal : Bytes → Bytes) (save_config : ServerState → W → Result (Unit {0}) × W)
    (validate : Bytes → W → Result (Unit {0}) × W) where
  open json use {Value, null, string, boolean, object}

  abbrev Handling : Type 0
  Handling = Handler host json

  -- `optional_int` for the timeout and the lines, with the limits of the state.
  abbrev pub run_code : Value → ℕ → Bool → Bytes → Bytes → Handling
  run_code arguments default_timeout force transport code d =
      let timeout_ms =
        optional_int json arguments (codes "timeout_ms") default_timeout 1 d.state.max_timeout_ms in
      let lines =
        optional_int json arguments (codes "capture_lines") default_capture_lines 1
          max_capture_lines in
      eval_code host json fuel code timeout_ms lines force active transport d

  abbrev pub syntax_checked : Result (Unit {0}) → Flow W Value (Unit {0})
  syntax_checked (success u) d = (going tt, d)
  syntax_checked (failure e) d =
      fail host json (codes "syntax error before eval (set validate_syntax=false to skip):\n" ++ e)
        d

  abbrev pub check_syntax : Bool → Bytes → Flow W Value (Unit {0})
  check_syntax false code d = (going tt, d)
  check_syntax true code d =
      let (ok, w) = validate code d.outside in syntax_checked ok (record d { outside = w })

  unfoldable pub eval : Value → Handling
  eval arguments = do
    code ← or_fail host json (require_string json arguments (codes "code"))
    force ← or_throw host json (value_boolean json arguments (codes "force") false)
    validate_syntax ←
        or_throw host json (value_boolean json arguments (codes "validate_syntax") true)
    let transport = optional_string json arguments (codes "transport") (codes "auto") in
        if is_transport transport
        then check_syntax validate_syntax code
          >> run_code arguments default_timeout_ms force transport code
        else fail host json (codes "transport must be one of: auto, tmux, socket")

  unfoldable pub revise : Value → Handling
  revise arguments = run_code arguments default_timeout_ms false (codes "auto") make_revise_code

  unfoldable pub activate : Value → Handling
  activate arguments = do
    path ← or_fail host json (require_string json arguments (codes "path"))
    run_code arguments default_timeout_ms false (codes "auto") (make_activate_code path)

  unfoldable pub test : Value → Handling
  test arguments =
      let expr = optional_string json arguments (codes "test_expr") [] in
      let file = optional_string json arguments (codes "file") [] in
      let pattern = optional_string json arguments (codes "test_item_pattern") [] in
      run_code arguments 120000 false (codes "auto") (make_test_code expr file pattern)

  unfoldable pub pkg_status : Value → Handling
  pkg_status arguments =
      run_code arguments default_timeout_ms false (codes "auto") (codes "using Pkg\nPkg.status()")

  unfoldable pub report : Transcript → Reply Value
  report t = record {
    result = record {
      is_error = false;
      text =
          if enabled t then codes "transcript: " ++ transcript_line t else codes "transcript: off";
      full_output = [];
    };
    structured = object (
        (codes "enabled", boolean (enabled t))
        ∷ (codes "path", string t.path)
        ∷ (codes "format", string (transcript_format_name t.format))
        ∷ []);
  }

  abbrev pub set_transcript : Transcript → Handling
  set_transcript t d = (going (report t), record d { transcript = t })

  unfoldable pub set_transcript_tool : Value → Handling
  set_transcript_tool arguments d =
      let format = optional_string json arguments (codes "format") [] in
      let path = optional_string json arguments (codes "path") [] in
      let full = if starts_with (codes "/") path then path else path_join cwd path in
      if not (is_empty format) && not (is_format format)
      then fail host json (codes "format must be one of: text, jsonl") d
      else if (elim (boolean_at json arguments (codes "enabled")) [
        | none ↦ false
        | some on ↦ not on
      ])
      then set_transcript (disable d.transcript) d
      else if not (is_empty path)
      then set_transcript
          (enable d.transcript full
            (if is_empty format then d.transcript.format else transcript_format_from_string format))
          d
      else if is_empty format
      then set_transcript d.transcript d
      else if not (enabled d.transcript)
      then fail host json (codes "no transcript is enabled; pass path to start one") d
      else set_transcript
          (enable d.transcript d.transcript.path (transcript_format_from_string format)) d

  unfoldable pub dispatch_tool : Tool → Bytes → Value → Handling
  dispatch_tool Tool.list_tmux_tool name arguments = list_tmux host json
  dispatch_tool Tool.bind_tool name arguments =
      bind host json lexically_normal save_config cwd arguments
  dispatch_tool Tool.status_tool name arguments = status host json
  dispatch_tool Tool.eval_tool name arguments = eval arguments
  dispatch_tool Tool.capture_tool name arguments = capture host json arguments
  dispatch_tool Tool.capture_test_results_tool name arguments =
      capture_test_results json host arguments
  dispatch_tool Tool.interrupt_tool name arguments = interrupt host json
  dispatch_tool Tool.revise_tool name arguments = revise arguments
  dispatch_tool Tool.activate_tool name arguments = activate arguments
  dispatch_tool Tool.test_tool name arguments = test arguments
  dispatch_tool Tool.pkg_status_tool name arguments = pkg_status arguments
  dispatch_tool Tool.transcript_tool name arguments = set_transcript_tool arguments
  dispatch_tool Tool.unknown_tool name arguments = fail host json (codes "unknown tool: " ++ name)

  unfoldable pub dispatch : Bytes → Value → Handling
  dispatch name arguments = dispatch_tool (tool_named name) name arguments

  -- The entry of a call in the transcript; the dump of the arguments is a parameter.
  unfoldable pub entry_of :
      (Value → Option Bytes) → Bytes → Value → Reply Value → ℕ → Dispatcher W → TranscriptEntry
  entry_of dump name arguments reply elapsed_ms d = record {
    timestamp = host.timestamp d.outside;
    sequence = 0;
    tool = name;
    target = elim d.state.binding [
      | none ↦ []
      | some b ↦
          if not (is_empty b.pane_id) && not (b.pane_id =ᵇ b.target)
          then b.target ++ codes " (" ++ b.pane_id ++ codes ")"
          else b.target
    ];
    code = d.last_code;
    arguments = if is_empty d.last_code then dump arguments else none;
    is_error = reply.result.is_error;
    elapsed_ms = elapsed_ms;
    transport =
        if json.is_object reply.structured
        then elim (string_at json reply.structured (codes "transport")) [ none ↦ [] | some s ↦ s ]
        else [];
    output =
        if is_empty reply.result.full_output then reply.result.text else reply.result.full_output;
  }
