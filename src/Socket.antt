-- ===== src/Socket.antt =====
-- The client of the helper's socket (src/socket_client.hpp, src/socket_client.cpp). What the calls of
-- the system give is an input: whether the connection is made, how many bytes each `send` takes, and
-- what each `recv` gives.
pub mod Lines
use jjmcp.Base.{
  ℕ, suc, ◌+◌, Bool, true, false, List, [], ◌∷◌, ◌++◌, Option, none, some, length, drop, leb, ◌==◌,
  if◌then◌else◌,
}
use jjmcp.Text.{Bytes, codes, newline, is_empty}
use jjmcp.Process.{Result, success, failure, ◌>>=◌}
use jjmcp.Json.{Json, ℤ, pos, value_string, value_boolean, value_number}
use jjmcp.Tools.Dispatcher.{SocketEvalResponse}

-- `std::remove` of the percent signs.
unfoldable pub sanitize : Bytes → Bytes
sanitize [] = []
sanitize (c ∷ s) = let rest = sanitize s in if c == b'%' then rest else c ∷ rest

-- `runtime` is the variable XDG_RUNTIME_DIR.
unfoldable pub default_socket_path : Option Bytes → Bytes → Bytes
default_socket_path runtime pane_id =
    let dir : Bytes = elim runtime [
      | none ↦ codes "/tmp"
      | some r ↦ if is_empty r then codes "/tmp" else r
    ] in
    let name = sanitize pane_id in
    dir ++ codes "/jjmcp-" ++ (if is_empty name then codes "default" else name) ++ codes ".sock"

-- The loop on `send`: how many bytes each call takes, or its error; `none` while it goes on.
unfoldable pub send_loop : Bytes → List (Result ℕ) → Option (Result (Unit {0}))
send_loop [] sends = some (success tt)
send_loop (c ∷ payload) [] = none
send_loop (c ∷ payload) (failure e ∷ sends) = some (failure (codes "send(): " ++ e))
send_loop (c ∷ payload) (success n ∷ sends) = send_loop (drop n (c ∷ payload)) sends

-- What a call of `recv` gives.
pub data Received : Type 0 where
  chunk : Bytes → Received
  closed timed_out : Received
  broken : Bytes → Received

-- `buf.substr(0, buf.find('\n'))`, where there is a line end.
unfoldable pub first_line : Bytes → Option Bytes
first_line [] = none
first_line (c ∷ s) =
    let more = first_line s in
    if c == newline then some [] else elim more [ none ↦ none | some line ↦ some (c ∷ line) ]

-- The end of the loop for a call that gave no bytes.
unfoldable pub recv_error : Received → Bytes
recv_error (chunk bytes) = []
recv_error closed = codes "server closed the connection before responding"
recv_error timed_out = codes "socket read timed out"
recv_error (broken e) = codes "recv(): " ++ e

-- The loop on `recv`, up to the first line.
unfoldable pub recv_loop : Bytes → List Received → Option (Result Bytes)
recv_loop buf [] = elim (first_line buf) [ none ↦ none | some line ↦ some (success line) ]
recv_loop buf (chunk bytes ∷ calls) =
    let more = recv_loop (buf ++ bytes) calls in
    elim (first_line buf) [ none ↦ more | some line ↦ some (success line) ]
recv_loop buf (closed ∷ calls) = elim (first_line buf) [
  | none ↦ some (failure (recv_error closed))
  | some line ↦ some (success line)
]
recv_loop buf (timed_out ∷ calls) = elim (first_line buf) [
  | none ↦ some (failure (recv_error timed_out))
  | some line ↦ some (success line)
]
recv_loop buf (broken e ∷ calls) = elim (first_line buf) [
  | none ↦ some (failure (recv_error (broken e)))
  | some line ↦ some (success line)
]

module _ (json : Json) where
  open json use {Value, string, integer, object, is_object, type_error}

  unfoldable pub request_json : Bytes → ℕ → Value
  request_json code max_output_bytes = object (
      (codes "op", string (codes "eval"))
      ∷ (codes "code", string code)
      ∷ (codes "max_output_bytes", integer (pos max_output_bytes))
      ∷ [])

  -- `doc.value` throws where the document is no object.
  unfoldable pub response_of : Value → Result SocketEvalResponse
  response_of doc =
      if is_object doc then members_of doc else failure (type_error (codes "object") doc)
    where
      members_of : Value → Result SocketEvalResponse
      members_of doc = do
        ok ← value_boolean json doc (codes "ok") false
        stdout_text ← value_string json doc (codes "stdout") []
        stderr_text ← value_string json doc (codes "stderr") []
        value_show ← value_string json doc (codes "value_show") []
        error_message ← value_string json doc (codes "error_message") []
        backtrace ← value_string json doc (codes "backtrace") []
        elapsed_ms ← value_number json doc (codes "elapsed_ms") (pos 0)
        success (record {
          ok = ok;
          stdout_text = stdout_text;
          stderr_text = stderr_text;
          value_show = value_show;
          error_message = error_message;
          backtrace = backtrace;
          elapsed_ms = elapsed_ms;
        })

  unfoldable pub parse_response : (Bytes → Result Value) → Bytes → Result SocketEvalResponse
  parse_response parse line = elim (parse line >>= response_of) [
    | success r ↦ success r
    | failure e ↦ failure (codes "could not parse response JSON: " ++ e)
  ]

  unfoldable pub respond_to :
      (Bytes → Result Value)
      → Option (Result (Unit {0}))
      → List Received
      → Option (Result SocketEvalResponse)
  respond_to parse none calls = none
  respond_to parse (some (failure e)) calls = some (failure e)
  respond_to parse (some (success u)) calls = elim (recv_loop [] calls) [
    | none ↦ none
    | some (failure e) ↦ some (failure e)
    | some (success line) ↦ some (parse_response parse line)
  ]

  -- `limit` is the size of `sun_path`. `opened` and `connected` are what the calls before the request
  -- give.
  unfoldable pub socket_eval :
      (Bytes → Result Value)
      → (Value → Bytes)
      → ℕ
      → Result (Unit {0})
      → Result (Unit {0})
      → Bytes
      → Bytes
      → ℕ
      → List (Result ℕ)
      → List Received
      → Option (Result SocketEvalResponse)
  socket_eval parse dump limit (failure e) connected path code max_output_bytes sends calls =
      some (failure (codes "socket(): " ++ e))
  socket_eval parse dump limit (success u) (failure e) path code max_output_bytes sends calls =
      if leb limit (length path)
      then some (failure (codes "socket path exceeds sockaddr_un.sun_path: " ++ path))
      else some (failure (codes "connect(" ++ path ++ codes "): " ++ e))
  socket_eval parse dump limit (success u) (success v) path code max_output_bytes sends calls =
      if leb limit (length path)
      then some (failure (codes "socket path exceeds sockaddr_un.sun_path: " ++ path))
      else respond_to parse
          (send_loop (dump (request_json code max_output_bytes) ++ newline ∷ []) sends) calls
