-- ===== src/Tools/Handlers.antt =====
-- The handlers of the tools (src/tools.cpp, from `list_tmux` to `pkg_status`, and `transcript_tool`).
-- `validate` is the check of the syntax by a Julia process. A default that an integer argument has not
-- is a constant of the source.
use jjmcp.Base.{ℕ, false, [], ◌∷◌, ◌++◌, none, some, if◌then◌else◌}
use jjmcp.Text.{Bytes, codes, newline, is_empty, starts_with}
use jjmcp.Process.{Result, success, failure}
use jjmcp.Json.{Json}
use jjmcp.State.{Binding, ServerState, path_join, set_binding}
use jjmcp.Tmux.Commands.{PaneInfo, alive, list_all, pane_info, capture_pane, send_ctrl_c}
use jjmcp.Transcript.{Transcript, enabled, transcript_format_name}
use jjmcp.Tools.Output.{truncate_tool_tail, max_mcp_text_bytes}
use jjmcp.Tools.PaneText.{format_pane_info}
use jjmcp.Tools.RuntimeCache.{invalidate}
use jjmcp.Tools.Arguments.{require_string, optional_string, optional_int}
use jjmcp.Tools.Dispatcher.{
  Host, Dispatcher, Reply, going, threw, Flow, ◌>>=◌, ◌>>◌, return, outside_of, target_of,
}
use jjmcp.Tools.Stages.{fail, or_fail, bound, max_capture_lines}

abbrev pub default_timeout_ms : ℕ
default_timeout_ms = 10000

abbrev pub default_capture_lines : ℕ
default_capture_lines = 2000

-- `config_base_from_project`, with the lexical normal form as a parameter.
unfoldable pub config_base_from_project : (Bytes → Bytes) → Bytes → Bytes → Bytes
config_base_from_project lexically_normal cwd project_root =
    if is_empty project_root
    then cwd
    else lexically_normal
        (if starts_with (codes "/") project_root then project_root else path_join cwd project_root)

unfoldable pub transcript_line : Transcript → Bytes
transcript_line t =
    if enabled t
    then t.path ++ codes " (" ++ transcript_format_name t.format ++ codes ")"
    else codes "off"

abbrev pub field : Bytes → Bytes → Bytes
field label value = label ++ codes ": " ++ value ++ newline ∷ []

module _ {W : Type 0} (host : Host W) (json : Json) where
  open json use {Value, null, string, boolean, integer, array, object}

  abbrev pub Handler : Type 0
  Handler = Flow W Value (Reply Value)

  abbrev pub text_reply : Bytes → Reply Value
  text_reply text = record {
    result = record { is_error = false; text = text; full_output = [] };
    structured = null;
  }

  -- An exception of the JSON library leaves the handler.
  abbrev pub or_throw : {A : Type 0} → Result A → Flow W Value A
  or_throw (success a) d = (going a, d)
  or_throw (failure what) d = (threw what, d)

  unfoldable pub list_tmux : Handler
  list_tmux = do
    listed ← outside_of (list_all host.run)
    text ← or_fail host json listed
    return (text_reply text)

  -- `saved` is what `save_config` gives.
  unfoldable pub bound_text : Result (Unit {0}) → Binding → ServerState → PaneInfo → Bytes
  bound_text saved binding state info =
      codes "Bound to tmux pane "
      ++ binding.pane_id
      ++ newline ∷ []
      ++ format_pane_info info
      ++ field (codes "config_path") state.config_path
      ++ elim saved [ success u ↦ [] | failure e ↦ field (codes "config_warning") e ]

  unfoldable pub bind_pane :
      (Bytes → Bytes)
      → (ServerState → W → Result (Unit {0}) × W)
      → Bytes
      → Bytes
      → Bytes
      → PaneInfo
      → Handler
  bind_pane lexically_normal save_config cwd target project_root info d =
      let binding : Binding = record {
        target = target;
        pane_id = info.pane_id;
        project_root = project_root;
        bound_at = host.timestamp d.outside;
      } in
      let state =
        set_binding d.state binding (config_base_from_project lexically_normal cwd project_root) in
      let (saved, w) = save_config state d.outside in
      (
        going (text_reply (bound_text saved binding state info)),
        record d { state = state; cache = invalidate d.cache (target_of binding); outside = w },
      )

  unfoldable pub bind :
      (Bytes → Bytes) → (ServerState → W → Result (Unit {0}) × W) → Bytes → Value → Handler
  bind lexically_normal save_config cwd arguments = do
    target ← or_fail host json (require_string json arguments (codes "target"))
    info ← outside_of (pane_info host.run target)
    pane ← or_fail host json info
    let root = optional_string json arguments (codes "project_root") [] in
        if alive pane
        then bind_pane lexically_normal save_config cwd target root pane
        else fail host json (codes "tmux pane exists but appears dead: " ++ target)

  unfoldable pub status_head : Dispatcher W → Bytes
  status_head d =
      field (codes "config_path") d.state.config_path
      ++ field (codes "last_marker") d.state.last_marker
      ++ field (codes "last_command_timestamp") d.state.last_command_timestamp
      ++ field (codes "transcript") (transcript_line d.transcript)

  unfoldable pub status_binding : Binding → Bytes
  status_binding b =
      field (codes "binding_target") b.target
      ++ field (codes "binding_pane_id") b.pane_id
      ++ field (codes "project_root") b.project_root
      ++ field (codes "bound_at") b.bound_at

  unfoldable pub status_pane : Result PaneInfo → Bytes
  status_pane (failure e) = codes "alive: false\n" ++ field (codes "pane_error") e
  status_pane (success info) =
      field (codes "alive") (if alive info then codes "true" else codes "false")
      ++ format_pane_info info

  unfoldable pub status : Handler
  status d = elim d.state.binding [
    | none ↦ return (text_reply (status_head d ++ codes "binding: none\n")) d
    | some binding ↦
        (outside_of (pane_info host.run (target_of binding)) >>= λ info.
        return (text_reply (status_head d ++ status_binding binding ++ status_pane info)))
          d
  ]

  unfoldable pub capture_lines : Binding → ℕ → Handler
  capture_lines binding lines = do
    captured ← outside_of (capture_pane host.run (target_of binding) lines)
    text ← or_fail host json captured
    return (text_reply (truncate_tool_tail text lines max_mcp_text_bytes))

  unfoldable pub capture : Value → Handler
  capture arguments = do
    binding ← bound host json
    capture_lines binding (optional_int json arguments (codes "lines") 200 1 max_capture_lines)

  unfoldable pub interrupt : Handler
  interrupt = do
    binding ← bound host json
    sent ← outside_of (send_ctrl_c host.run (target_of binding))
    or_fail host json sent
    return (text_reply (codes "Sent Ctrl-C to " ++ target_of binding))
