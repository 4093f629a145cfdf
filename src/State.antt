-- ===== src/State.antt =====
-- The server's state (src/state.hpp, src/state.cpp): the binding to a pane and the marker sequence.
-- Paths are texts. The clock and the process id are given.
pub mod Config
use jjmcp.Base.{◌||◌, if◌then◌else◌, ℕ, ◌≢◌, ◌+◌, ◌%◌, ◌++◌, ◌∷◌, Option, some, arith}
use jjmcp.Text.{Bytes, codes, is_empty, ends_with}
use jjmcp.Julia.Marker.{make_marker_id}
use jjmcp.Julia.Marker.Distinct.{make_marker_id_distinct}

pub record Binding : Type 0 where
  pub target : Bytes
  pub pane_id : Bytes
  pub project_root : Bytes
  pub bound_at : Bytes

pub record ServerState : Type 0 where
  pub config_path : Bytes
  pub binding : Option Binding
  pub marker_sequence : ℕ
  pub last_marker : Bytes
  pub last_command_timestamp : Bytes
  pub max_timeout_ms : ℕ

-- `base / name`: a separator, unless the base is empty or ends in one.
unfoldable pub path_join : Bytes → Bytes → Bytes
path_join base name =
    if is_empty base || ends_with b'/' base then base ++ name else base ++ b'/' ∷ name

unfoldable pub default_config_path : Bytes → Bytes
default_config_path base = path_join (path_join base (codes ".jjmcp")) (codes "config.json")

-- The id, and the state behind it. The sequence number is a 64-bit word.
unfoldable pub next_marker_id :
    (micros pid : ℕ) (timestamp : Bytes) → ServerState → Bytes × ServerState
next_marker_id micros pid timestamp state =
    let sequence = (state.marker_sequence + 1) % 18446744073709551616 in
    let id = make_marker_id micros pid sequence in
    (
      id,
      record state {
        marker_sequence = sequence;
        last_marker = id;
        last_command_timestamp = timestamp;
      },
    )

unfoldable pub set_binding : ServerState → Binding → Bytes → ServerState
set_binding state binding base_for_config = record state {
  binding = some binding;
  config_path = default_config_path base_for_config;
}

-- Two ids in a row differ, even if the clock stands still.
pub next_marker_id_fresh :
    (micros pid micros' pid' : ℕ) (timestamp timestamp' : Bytes) (state : ServerState)
    → (next_marker_id micros pid timestamp state).0
      ≢ (next_marker_id micros' pid' timestamp' (next_marker_id micros pid timestamp state).1).0
unfolding next_marker_id
next_marker_id_fresh micros pid micros' pid' timestamp timestamp' state same =
    let (_, _, sequences) = make_marker_id_distinct micros pid _ micros' pid' _ same in omega arith
