-- ===== src/Tools/Dispatcher.antt =====
-- The state of the tool dispatcher (`ToolDispatcher` of src/tools.hpp) and of what is around it. The
-- world outside is a state that is handed from call to call; its operations are an interface. A sleep
-- is one of them. The lock file is kept apart from the world: nothing but the lock touches it.
use jjmcp.Base.{ℕ, Bool, [], Option, none, some, if◌then◌else◌}
use jjmcp.Text.{Bytes, is_empty}
use jjmcp.Process.{Result, RunSpec, ProcessResult}
use jjmcp.State.{Binding, ServerState}
use jjmcp.Json.{ℤ}
use jjmcp.Tmux.Commands.{Action}
use jjmcp.Tools.Answer.{ToolResult}
use jjmcp.Tools.RuntimeCache.{RuntimeBootstrapCache}
use jjmcp.Transcript.{Transcript}

pub record SocketEvalResponse : Type 0 where
  pub ok : Bool
  pub stdout_text : Bytes
  pub stderr_text : Bytes
  pub value_show : Bytes
  pub error_message : Bytes
  pub backtrace : Bytes
  pub elapsed_ms : ℤ

-- The process runner, the steady clock in nanoseconds, the system clock in microseconds, sleeping for
-- a number of milliseconds, the first line of `/proc/<pid>/stat`, the processes that are gone, the
-- process id, and the socket client.
pub record Host (W : Type 0) : Type 0 where
  pub run : RunSpec → Action W ProcessResult
  pub clock : W → ℕ
  pub micros : W → ℕ
  pub timestamp : W → Bytes
  pub sleep : ℕ → W → W
  pub stat : Bytes → W → Option Bytes
  pub gone : W → ℕ → Bool
  pub pid : ℕ
  pub default_socket_path : Bytes → W → Bytes
  pub socket_exists : Bytes → W → Bool
  pub socket_eval : Bytes → Bytes → ℕ → Action W SocketEvalResponse

pub record Dispatcher (W : Type 0) : Type 0 where
  pub state : ServerState
  pub cache : RuntimeBootstrapCache
  pub transcript : Transcript
  pub last_code : Bytes
  pub lock_file : Option Bytes
  pub outside : W

-- A result with its structured payload, null where it has none.
pub record Reply (V : Type 0) : Type 0 where
  pub result : ToolResult
  pub structured : V

-- A handler up to a point: it has answered, it goes on with a value, it has thrown an exception, or a
-- loop on the pane has had its rounds.
pub data Stage (V : Type 0) (A : Type 0) : Type 0 where
  answered : Reply V → Stage V A
  going : A → Stage V A
  threw : Bytes → Stage V A
  unfinished : Stage V A

abbrev pub Flow : Type 0 → Type 0 → Type 0 → Type 0
Flow W V A = Dispatcher W → Stage V A × Dispatcher W

infixl 5 ◌>>=◌ ◌>>◌
unfoldable pub ◌>>=◌ : {W V A B : Type 0} → Flow W V A → (A → Flow W V B) → Flow W V B
◌>>=◌ m f d =
    let (stage, d') = m d in
    elim stage [
      | answered r ↦ (answered r, d')
      | going a ↦ f a d'
      | threw what ↦ (threw what, d')
      | unfinished ↦ (unfinished, d')
    ]

abbrev pub ◌>>◌ : {W V A B : Type 0} → Flow W V A → Flow W V B → Flow W V B
m >> k = m >>= λ _. k

abbrev pub return : {W V A : Type 0} → A → Flow W V A
return a d = (going a, d)

abbrev pub answer : {W V A : Type 0} → Reply V → Flow W V A
answer r d = (answered r, d)

abbrev pub timed_stage : {V A : Type 0} → Option A → Stage V A
timed_stage none = unfinished
timed_stage (some a) = going a

-- An action on the world that may have had its rounds, and whose result is handed on.
abbrev pub timed : {W V A : Type 0} → (W → Option A × W) → Flow W V A
timed m d = let (r, w) = m d.outside in (timed_stage r, record d { outside = w })

-- An action on the world, whose result is handed on.
abbrev pub outside_of : {W V A : Type 0} → Action W A → Flow W V (Result A)
outside_of m d = let (r, w) = m d.outside in (going r, record d { outside = w })

-- `bound_target` where a pane is bound.
unfoldable pub target_of : Binding → Bytes
target_of binding = if is_empty binding.pane_id then binding.target else binding.pane_id

unfoldable pub bound_target : ServerState → Bytes
bound_target state = elim state.binding [ none ↦ [] | some binding ↦ target_of binding ]
