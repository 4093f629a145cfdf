-- ===== src/Tests/Hosts.antt =====
-- A world for the runs of the tools: a clock, and the number of commands that put text into the pane.
use jjmcp.Base.{
  ℕ, suc, ◌+◌, ◌*◌, ◌≡◌, Bool, false, ◌||◌, List, [], ◌∷◌, Option, none, if◌then◌else◌, arith,
}
use jjmcp.Text.{Bytes, codes, ◌=ᵇ◌}
use jjmcp.Process.{success, failure, RunSpec, ProcessResult}
use jjmcp.State.{Binding, ServerState}
use jjmcp.Tmux.Fields.{join_format}
use jjmcp.Tmux.Commands.{
  Action, ◌>>=◌, command, run_tmux, checked, make_tmux_argv, pane_info, capture_pane, send_key,
}
use jjmcp.Transcript.{TranscriptFormat}
use jjmcp.Tools.Dispatcher.{Host, Dispatcher}
use jjmcp.Tools.Evaluate.Quiet.{IsQuiet}
use jjmcp.Tools.Evaluate.Sends.{IsTimely}

abbrev pub World : Type 0
World = ℕ × ℕ

abbrev pub puts_text : List Bytes → Bool
puts_text (tmux ∷ name ∷ args) = name =ᵇ codes "load-buffer" || name =ᵇ codes "paste-buffer"
puts_text _ = false

-- The pane of every command, and the text of it.
abbrev pub screen : Bytes
screen = join_format (
    codes "%1"
    ∷ codes "main"
    ∷ codes "0"
    ∷ codes "0"
    ∷ codes "julia"
    ∷ codes "t"
    ∷ codes "1"
    ∷ codes "0"
    ∷ codes "/home"
    ∷ codes "77"
    ∷ [])

abbrev pub run_command : RunSpec → Action World ProcessResult
run_command spec (time, puts) = (
  success (record {
    exit_code = 0;
    signaled = false;
    signal_number = 0;
    timed_out = false;
    stdout_text = screen;
    stderr_text = [];
  }),
  (suc time, if puts_text spec.argv then suc puts else puts),
)

abbrev pub host : Host World
host = record {
  run = run_command;
  clock = λ w. w.0;
  micros = λ w. w.0;
  timestamp = λ w. codes "now";
  sleep = λ ms w. (w.0 + ms * 1000000, w.1);
  stat = λ pid w. none;
  gone = λ w pid. false;
  pid = 5;
  default_socket_path = λ pane w. codes "/tmp/s";
  socket_exists = λ path w. false;
  socket_eval = λ path code ms w. (failure (codes "no socket"), w);
}

pub host-IsTimely : IsTimely host
host-IsTimely = record { run_clock = λ spec w. omega arith; sleep_clock = λ ms w. omega arith }

-- No text has been put into the pane.
abbrev pub Untouched : World → Type 0
Untouched w = w.1 ≡ 0

pub host-IsQuiet : IsQuiet host Untouched
unfolding pane_info capture_pane send_key command run_tmux checked make_tmux_argv ◌>>=◌ ◌=ᵇ◌
host-IsQuiet = record {
  quiet_info = λ target w u. u;
  quiet_capture = λ target lines w u. u;
  quiet_key = λ target w u. u;
  quiet_socket = λ path code ms w u. u;
  quiet_sleep = λ ms w u. u;
}

abbrev pub state : Option Binding → ServerState
state binding = record {
  config_path = codes "/home/.jjmcp/config.json";
  binding = binding;
  marker_sequence = 0;
  last_marker = [];
  last_command_timestamp = [];
  max_timeout_ms = 600000;
}

abbrev pub pane : Binding
pane = record {
  target = codes "main:0.0";
  pane_id = codes "%1";
  project_root = codes "/home/p";
  bound_at = codes "now";
}

abbrev pub dispatcher : Option Binding → Option Bytes → Dispatcher World
dispatcher binding lock_file = record {
  state = state binding;
  cache = record { generations = [] };
  transcript = record { path = []; format = TranscriptFormat.text; sequence = 0 };
  last_code = [];
  lock_file = lock_file;
  outside = (0, 0);
}
