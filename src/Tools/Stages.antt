-- ===== src/Tools/Stages.antt =====
-- The stages of an evaluation in front of the attempts (src/tools.cpp `eval_code`): the checks on the
-- pane, the socket, the prompt, and the lock.
use jjmcp.Base.{
  ℕ, ◌+◌, ◌%◌, min, max, Bool, true, false, not, ◌&&◌, [], ◌∷◌, ◌++◌, Option, none, some, ◌==◌,
  if◌then◌else◌,
}
use jjmcp.Text.{Bytes, codes, newline, is_empty, ends_with, to_string, ◌=ᵇ◌}
use jjmcp.Process.{Result, success, failure}
use jjmcp.Json.{Json}
use jjmcp.State.{Binding, ServerState, path_join}
use jjmcp.Julia.Truncate.{truncate_bytes_tail}
use jjmcp.Tmux.Commands.{PaneInfo, alive, pane_info, capture_pane, send_key}
use jjmcp.Tools.Output.{truncate_tool_tail, max_mcp_text_bytes, max_mcp_backtrace_bytes}
use jjmcp.Tools.Prompt.{is_known_non_julia_prompt}
use jjmcp.Tools.Lock.{acquire}
use jjmcp.Tools.Answer.{error_result}
use jjmcp.Tools.Dispatcher.{
  SocketEvalResponse, Host, Reply, Flow, ◌>>=◌, ◌>>◌, return, answer, outside_of, target_of,
  bound_target,
}

abbrev pub max_capture_lines : ℕ
max_capture_lines = 50000

-- The lines of a poll: `std::clamp(capture_lines + 8000, 10000, kMaxCaptureLines)`.
unfoldable pub poll_capture_lines : ℕ → ℕ
poll_capture_lines capture_lines = min (max (capture_lines + 8000) 10000) max_capture_lines

-- `path.parent_path()` of a path that does not stand in the root.
unfoldable pub parent_path : Bytes → Option Bytes
parent_path [] = none
parent_path (c ∷ path) = elim (parent_path path) [
  | some parent ↦ some (c ∷ parent)
  | none ↦ if c == b'/' then some [] else none
]

unfoldable pub lock_path : ServerState → Bytes
unfolding parent_path
lock_path state =
    path_join (elim (parent_path state.config_path) [ none ↦ [] | some parent ↦ parent ])
      (codes "lock")

abbrev pub next_sequence : ServerState → ℕ
next_sequence state = (state.marker_sequence + 1) % 18446744073709551616

-- Two texts on lines of their own.
unfoldable pub joined : Bytes → Bytes → Bytes
joined first second =
    if is_empty second
    then first
    else (if not (is_empty first) && not (ends_with newline first)
        then first ++ newline ∷ []
        else first)
      ++ second

module _ {W : Type 0} (host : Host W) (json : Json) where
  open json use {Value, null, string, boolean, integer, object}

  abbrev pub Step : Type 0 → Type 0
  Step A = Flow W Value A

  abbrev pub error_reply : Bytes → Reply Value
  error_reply text = record { result = error_result text; structured = null }

  abbrev pub fail : {A : Type 0} → Bytes → Step A
  fail e = answer (error_reply e)

  abbrev pub or_fail : {A : Type 0} → Result A → Step A
  or_fail (success a) = return a
  or_fail (failure e) = fail e

  abbrev pub not_bound : Bytes
  not_bound = codes "no tmux pane is bound; call jjmcp_bind first"

  unfoldable pub bound : Step Binding
  bound d = elim d.state.binding [ none ↦ fail not_bound d | some binding ↦ return binding d ]

  -- The pane that is bound, if it lives.
  unfoldable pub bound_pane : Step PaneInfo
  bound_pane = do
    binding ← bound
    info ← outside_of (pane_info host.run (target_of binding))
    pane ← or_fail info
    if alive pane
        then return pane
        else fail (codes "bound tmux pane appears dead: " ++ target_of binding)

  unfoldable pub socket_reply : SocketEvalResponse → ℕ → Reply Value
  socket_reply resp capture_lines =
      let out = truncate_tool_tail resp.stdout_text capture_lines max_mcp_text_bytes in
      let value = truncate_tool_tail resp.value_show capture_lines max_mcp_text_bytes in
      let message = truncate_tool_tail resp.error_message capture_lines max_mcp_text_bytes in
      let backtrace = truncate_tool_tail resp.backtrace 200 max_mcp_backtrace_bytes in
      record {
        result =
            if resp.ok
            then record {
              is_error = false;
              text = truncate_bytes_tail (joined out value) max_mcp_text_bytes;
              full_output = joined resp.stdout_text resp.value_show;
            }
            else record {
              is_error = true;
              text = truncate_bytes_tail (joined message backtrace) max_mcp_text_bytes;
              full_output = joined (joined resp.stdout_text resp.error_message) resp.backtrace;
            };
        structured = object (
            (codes "elapsed_ms", integer resp.elapsed_ms)
            ∷ (codes "timed_out", boolean false)
            ∷ (codes "found_begin", boolean true)
            ∷ (codes "found_end", boolean true)
            ∷ (codes "julia_error", boolean (not resp.ok))
            ∷ (codes "marker_id", string [])
            ∷ (codes "stdout", string out)
            ∷ (codes "value_repr", string value)
            ∷ (codes "error_message", string message)
            ∷ (codes "backtrace", string backtrace)
            ∷ (codes "transport", string (codes "socket"))
            ∷ []);
      }

  unfoldable pub after_socket : Bytes → ℕ → Result SocketEvalResponse → Step (Unit {0})
  after_socket transport capture_lines (success r) = answer (socket_reply r capture_lines)
  after_socket transport capture_lines (failure e) =
      if transport =ᵇ codes "socket"
      then fail (codes "socket transport failed: " ++ e)
      else return tt

  -- The answer over the socket, or the way on to the pane.
  unfoldable pub route : Bytes → ℕ → ℕ → Bytes → Step (Unit {0})
  route code timeout_ms capture_lines transport d =
      let path = host.default_socket_path (bound_target d.state) d.outside in
      if transport =ᵇ codes "tmux"
      then return tt d
      else if host.socket_exists path d.outside
      then (outside_of (host.socket_eval path code timeout_ms)
            >>= after_socket transport capture_lines)
          d
      else if transport =ᵇ codes "socket"
      then fail
          (codes "socket transport requested but no JJMCPHelper socket at "
            ++ path
            ++ codes " (start it with `using JJMCPHelper; JJMCPHelper.start()`)")
          d
      else return tt d

  abbrev pub prompt_error : Bytes → Bytes
  prompt_error line =
      codes "bound pane appears to be in a non-julia REPL mode (pkg>/help?>/shell>). Last line: \""
      ++ line
      ++ codes "\". Press backspace in the pane to return to julia>, or pass force=true."

  abbrev pub last_line : Step (Result Bytes)
  last_line d = outside_of (capture_pane host.run (bound_target d.state) 1) d

  abbrev pub backspace : Step (Result (Unit {0}))
  backspace d = outside_of (send_key host.run (bound_target d.state) (codes "BSpace")) d

  abbrev pub pause : ℕ → Step (Unit {0})
  pause ms d = return tt (record d { outside = host.sleep ms d.outside })

  unfoldable pub rechecked : Bytes → Result Bytes → Step (Unit {0})
  rechecked line (failure e) = fail (prompt_error line)
  rechecked line (success line') =
      if is_known_non_julia_prompt line' then fail (prompt_error line') else return tt

  unfoldable pub recheck : Bytes → Step (Unit {0})
  recheck line = backspace >> pause 100 >> (last_line >>= rechecked line)

  unfoldable pub after_last_line : Result Bytes → Step (Unit {0})
  after_last_line (failure e) = return tt
  after_last_line (success line) =
      if is_known_non_julia_prompt line then recheck line else return tt

  unfoldable pub check_prompt : Bool → Step (Unit {0})
  check_prompt true = return tt
  check_prompt false = last_line >>= after_last_line

  -- The lock around what follows: the destructor releases it on every way out.
  unfoldable pub locked_by : {A : Type 0} → Result (Unit {0}) × Option Bytes → Step A → Step A
  locked_by (failure e, file) body d = fail e (record d { lock_file = file })
  locked_by (success u, file) body d =
      let (stage, d') = body (record d { lock_file = file }) in
      (stage, record d' { lock_file = none })

  unfoldable pub with_lock : {A : Type 0} → Step A → Step A
  with_lock body d =
      locked_by
        (acquire (host.gone d.outside) (lock_path d.state) host.pid
          (to_string (next_sequence d.state)) d.lock_file)
        body d
