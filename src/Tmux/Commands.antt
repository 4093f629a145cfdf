-- ===== src/Tmux/Commands.antt =====
-- The commands that the server sends to tmux (the methods of `Tmux` in src/tmux.cpp). The process
-- runner is a parameter `run`: what running one command gives. The state behind it, that of the tmux
-- server, is a parameter too, and is handed from call to call.
pub mod Failures
use jjmcp.Base.{
  ℕ, zero, suc, ◌+◌, Bool, true, false, not, ◌&&◌, ◌||◌, List, [], ◌∷◌, ◌++◌, Option, none, some,
  get_or, length, ltb, leb, ◌*◌, ◌==◌, if◌then◌else◌,
}
use jjmcp.Text.{Bytes, codes, newline, is_empty, ends_with, starts_with, to_string, ◌=ᵇ◌}
use jjmcp.Process.{Result, success, failure, RunSpec, ProcessResult, describe_process_result}
use jjmcp.Tmux.Fields.{join_format, split_tmux_fields, tabs_for_separators}

unfoldable pub command_failure : Bytes → ProcessResult → Bytes
command_failure label result =
    let message = label ++ codes " failed: " ++ describe_process_result result in
    if not (is_empty result.stderr_text)
    then message ++ codes ": " ++ result.stderr_text
    else if not (is_empty result.stdout_text)
    then message ++ codes ": " ++ result.stdout_text
    else message

unfoldable pub make_tmux_argv : List Bytes → List Bytes
make_tmux_argv args = codes "tmux" ∷ args

pub record PaneInfo : Type 0 where
  pub pane_id : Bytes
  pub session_name : Bytes
  pub window_index : Bytes
  pub pane_index : Bytes
  pub current_command : Bytes
  pub title : Bytes
  pub active : Bytes
  pub dead : Bytes
  pub current_path : Bytes
  pub pane_pid : Bytes

unfoldable pub alive : PaneInfo → Bool
alive info = not (info.dead =ᵇ codes "1") && not (is_empty info.pane_id)

-- The fields of the answer, where there are enough.
unfoldable pub pane_info_of : List Bytes → Result PaneInfo
pane_info_of fields =
    let field = λ (i : ℕ). get_or fields i [] in
    if ltb (length fields) 9 || is_empty (field 0)
    then failure (codes "tmux returned malformed pane info")
    else success (record {
      pane_id = field 0;
      session_name = field 1;
      window_index = field 2;
      pane_index = field 3;
      current_command = field 4;
      title = field 5;
      active = field 6;
      dead = field 7;
      current_path = field 8;
      pane_pid = if ltb 9 (length fields) then field 9 else [];
    })

-- `if (!r) return failure(r.error()); if (r.value().exit_code != 0) return
-- failure(command_failure(label, r.value()));`
unfoldable pub checked : Bytes → Result ProcessResult → Result ProcessResult
checked label (failure e) = failure e
checked label (success r) =
    if r.exit_code == 0 then success r else failure (command_failure label r)

abbrev pub command_timeout : ℕ
command_timeout = 5000

-- `list_all` ends the text of each part with a line end.
unfoldable pub close_line : Bytes → Bytes
close_line out =
    if not (is_empty out) && not (ends_with newline out) then out ++ newline ∷ [] else out

unfoldable pub listing : Bytes → Bytes → Bytes → Bytes
listing sessions windows panes =
    let s = close_line (
      codes "Sessions: session_name\\tsession_id\\twindows\\tattached\n"
      ++ tabs_for_separators sessions) in
    let w = close_line (
      s
      ++ codes "\nWindows: session_name\\twindow_index\\twindow_id\\twindow_name\\tactive\\tpanes\n"
      ++ tabs_for_separators windows) in
    w
    ++ codes
        "\nPanes: session_name\\twindow_index\\twindow_name\\tpane_index\\tpane_id\\tactive\\tcurrent_command\\ttitle\\tcurrent_path\n"
    ++ tabs_for_separators panes

-- What a call does to the state behind the runner.
abbrev pub Action : Type 0 → Type 0 → Type 0
Action W A = W → Result A × W

infixl 5 ◌>>=◌ ◌>>◌
unfoldable pub ◌>>=◌ : {W A B : Type 0} → Action W A → (A → Action W B) → Action W B
◌>>=◌ m f w = let (r, w') = m w in elim r [ success a ↦ f a w' | failure e ↦ (failure e, w') ]

abbrev pub ◌>>◌ : {W A B : Type 0} → Action W A → Action W B → Action W B
m >> k = m >>= λ _. k

abbrev pub return : {W A : Type 0} → A → Action W A
return a w = (success a, w)

-- The text that is put into the buffer.
unfoldable pub payload_of : Bytes → Bytes
payload_of text =
    if is_empty text || not (ends_with newline text) then text ++ newline ∷ [] else text

unfoldable pub window_fmt : Bytes
unfolding join_format
window_fmt = join_format (
    codes "#{session_name}"
    ∷ codes "#{window_index}"
    ∷ codes "#{window_id}"
    ∷ codes "#{window_name}"
    ∷ codes "#{window_active}"
    ∷ codes "#{window_panes}"
    ∷ [])

unfoldable pub session_fmt : Bytes
unfolding join_format
session_fmt = join_format (
    codes "#{session_name}"
    ∷ codes "#{session_id}"
    ∷ codes "#{session_windows}"
    ∷ codes "#{session_attached}"
    ∷ [])

unfoldable pub pane_fmt : Bytes
unfolding join_format
pane_fmt = join_format (
    codes "#{session_name}"
    ∷ codes "#{window_index}"
    ∷ codes "#{window_name}"
    ∷ codes "#{pane_index}"
    ∷ codes "#{pane_id}"
    ∷ codes "#{pane_active}"
    ∷ codes "#{pane_current_command}"
    ∷ codes "#{pane_title}"
    ∷ codes "#{pane_current_path}"
    ∷ [])

unfoldable pub info_fmt : Bytes
unfolding join_format
info_fmt = join_format (
    codes "#{pane_id}"
    ∷ codes "#{session_name}"
    ∷ codes "#{window_index}"
    ∷ codes "#{pane_index}"
    ∷ codes "#{pane_current_command}"
    ∷ codes "#{pane_title}"
    ∷ codes "#{pane_active}"
    ∷ codes "#{pane_dead}"
    ∷ codes "#{pane_current_path}"
    ∷ codes "#{pane_pid}"
    ∷ [])

module _ {W : Type 0} (run : RunSpec → Action W ProcessResult) where
  unfoldable pub run_tmux : List Bytes → Bytes → Action W ProcessResult
  run_tmux args stdin_data =
      run
        (record { argv = make_tmux_argv args; stdin_data = stdin_data; timeout = command_timeout })

  -- A command and the two tests behind it.
  unfoldable pub command : Bytes → List Bytes → Bytes → Action W ProcessResult
  command label args stdin_data w =
      let (r, w') = run_tmux args stdin_data w in (checked label r, w')

  unfoldable pub list_all : Action W Bytes
  list_all = do
    sessions ←
        command (codes "tmux list-sessions") (codes "list-sessions" ∷ codes "-F" ∷ session_fmt ∷ [])
          []
    windows ←
        command (codes "tmux list-windows")
          (codes "list-windows" ∷ codes "-a" ∷ codes "-F" ∷ window_fmt ∷ []) []
    panes ←
        command (codes "tmux list-panes")
          (codes "list-panes" ∷ codes "-a" ∷ codes "-F" ∷ pane_fmt ∷ []) []
    return (listing sessions.stdout_text windows.stdout_text panes.stdout_text)

  unfoldable pub pane_info : Bytes → Action W PaneInfo
  pane_info target = do
    r ←
        command (codes "tmux display-message")
          (codes "display-message" ∷ codes "-p" ∷ codes "-t" ∷ target ∷ info_fmt ∷ []) []
    λ w. (pane_info_of (split_tmux_fields r.stdout_text), w)

  unfoldable pub capture_pane : Bytes → ℕ → Action W Bytes
  capture_pane target lines = do
    r ←
        command (codes "tmux capture-pane")
          (codes "capture-pane"
            ∷ codes "-p"
            ∷ codes "-J"
            ∷ codes "-t"
            ∷ target
            ∷ codes "-S"
            ∷ (codes "-" ++ to_string (if ltb lines 1 then 1 else lines))
            ∷ [])
          []
    return r.stdout_text

  -- The flag is on: the command ran, exited with 0, and printed a text that starts with `1`.
  unfoldable pub flag_on : Result ProcessResult → Bool
  flag_on (failure e) = false
  flag_on (success r) = r.exit_code == 0 && starts_with (codes "1") r.stdout_text

  unfoldable pub poll_flag : Bytes → Action W ProcessResult
  poll_flag target =
      run_tmux
        (codes "display-message"
          ∷ codes "-p"
          ∷ codes "-t"
          ∷ target
          ∷ codes "#{bracket_paste_flag}"
          ∷ [])
        []

  unfoldable pub send_key : Bytes → Bytes → Action W (Unit {0})
  send_key target key = do
    command (codes "tmux send-keys") (codes "send-keys" ∷ codes "-t" ∷ target ∷ key ∷ []) []
    return tt

  unfoldable pub send_ctrl_c : Bytes → Action W (Unit {0})
  send_ctrl_c target = send_key target (codes "C-c")

-- A number of milliseconds on a clock in nanoseconds.
abbrev pub ns_per_ms : ℕ
ns_per_ms = 1000000

abbrev pub paste_wait_ms : ℕ
paste_wait_ms = 3000

-- `clock` is the steady clock in nanoseconds, and `sleep` takes milliseconds. A loop has `fuel` rounds,
-- and `none` stands for a loop that has had them.
module _ {W : Type 0} (run : RunSpec → Action W ProcessResult) (clock : W → ℕ)
    (sleep : ℕ → W → W) where
  -- The loop of `wait_for_bracketed_paste`, behind the reading of its deadline.
  unfoldable pub paste_loop : ℕ → ℕ → Bytes → W → Option Bool × W
  paste_loop zero deadline target w = (none, w)
  paste_loop (suc fuel) deadline target w =
      let (flag, w') = poll_flag run target w in
      let again = paste_loop fuel deadline target (sleep 20 w') in
      if flag_on run flag
      then (some true, w')
      else if leb deadline (clock w')
      then (some false, w')
      else again

  unfoldable pub wait_for_bracketed_paste : ℕ → Bytes → ℕ → W → Option Bool × W
  wait_for_bracketed_paste fuel target timeout_ms w =
      paste_loop fuel (clock w + timeout_ms * ns_per_ms) target w

  abbrev pub load : Bytes → Bytes → Action W ProcessResult
  load text buffer_name =
      command run (codes "tmux load-buffer")
        (codes "load-buffer" ∷ codes "-b" ∷ buffer_name ∷ codes "-" ∷ []) (payload_of text)

  abbrev pub paste : Bytes → Bytes → Action W ProcessResult
  paste target buffer_name =
      command run (codes "tmux paste-buffer")
        (codes "paste-buffer"
          ∷ codes "-p"
          ∷ codes "-d"
          ∷ codes "-b"
          ∷ buffer_name
          ∷ codes "-t"
          ∷ target
          ∷ [])
        []

  -- The paste behind the wait, whether the flag came on or not.
  abbrev pub paste_behind : Bytes → Bytes → Option Bool × W → Option (Result (Unit {0})) × W
  paste_behind target buffer_name (none, w) = (none, w)
  paste_behind target buffer_name (some flag, w) =
      let (r, w') = (paste target buffer_name >> return tt) w in (some r, w')

  abbrev pub behind_load :
      ℕ → Bytes → Bytes → Result ProcessResult × W → Option (Result (Unit {0})) × W
  behind_load fuel target buffer_name (failure e, w) = (some (failure e), w)
  behind_load fuel target buffer_name (success r, w) =
      paste_behind target buffer_name (wait_for_bracketed_paste fuel target paste_wait_ms w)

  unfoldable pub send_text : ℕ → Bytes → Bytes → Bytes → W → Option (Result (Unit {0})) × W
  send_text fuel target text buffer_name w =
      behind_load fuel target buffer_name (load text buffer_name w)
