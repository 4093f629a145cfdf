-- ===== src/Server.antt =====
-- The two threads of the server (src/main.cpp `serve`): the read thread, which queues the requests
-- for the tools and answers the others itself, and the worker, which runs the queued ones. Each
-- frame is written under the mutex of stdout, so a frame is one step, and so is a change of the
-- queue under its mutex. A run ends with the end of the input.
pub mod Reads
pub mod Shape
pub mod Refinement
pub mod Progress
use jjmcp.Base.{Bool, true, false, List, [], ◌∷◌, ◌++◌, Option, none, some, ◌≡◌, if◌then◌else◌}
use jjmcp.Text.{Bytes, codes}
use jjmcp.Process.{Result, success, failure}
use jjmcp.Json.{Json, negsuc}
use jjmcp.Mcp.{
  ReadMessage, read_mcp_message, Tools, handle_request, needs_worker, method_or_empty,
  make_jsonrpc_error,
}

pub data Source : Type 0 where
  reader worker : Source

-- The read thread: it goes round the loop, with the frames that it still has to write; it has begun
-- `stop_worker`; it has returned.
pub data Reader (V : Type 0) : Type 0 where
  running : List V → Reader V
  stopping stopped : Reader V

-- The worker: it waits for a job; it has taken one; it writes the frames of one; it has returned.
pub data Worker (V : Type 0) : Type 0 where
  idle : Worker V
  busy : V → Worker V
  writing : List V → Worker V
  exited : Worker V

module _ (json : Json) (parse : Bytes → Result json.Value) (tools : Tools json.Value) where
  open json use {Value, null}

  pub record Server : Type 0 where
    pub input : List Bytes
    pub reader : Reader Value
    pub jobs : List Value
    pub shutting_down : Bool
    pub worker : Worker Value
    pub state : tools.State
    pub output : List (Source × Value)

  abbrev pub started : List Bytes → tools.State → Server
  started input state = record {
    input = input;
    reader = running [];
    jobs = [];
    shutting_down = false;
    worker = idle;
    state = state;
    output = [];
  }

  abbrev pub parse_error : Bytes → Value
  parse_error what = make_jsonrpc_error json null (negsuc 32699) (codes "Parse error: " ++ what)

  -- A parsed request is queued, or handled at once.
  unfoldable pub accept : Value → Server → Server
  accept request s =
      let (frames, state) = handle_request json tools request s.state in
      if needs_worker (method_or_empty json request)
      then record s { jobs = s.jobs ++ request ∷ [] }
      else record s { reader = running frames; state = state }

  unfoldable pub take_message : Result Value → Server → Server
  take_message (failure what) s = record s { reader = running (parse_error what ∷ []) }
  take_message (success request) s = accept request s

  unfoldable pub act_on : ReadMessage × List Bytes → Server → Server
  act_on (message, rest) s =
      if message.eof
      then record s { input = rest; reader = stopping; shutting_down = true }
      else take_message (parse message.body) (record s { input = rest })

  -- One round of the read loop, up to the frames that it writes.
  unfoldable pub read_round : Server → Server
  read_round s = act_on (read_mcp_message s.input) s

  abbrev pub write : Source → Value → Server → List (Source × Value)
  write source frame s = s.output ++ (source, frame) ∷ []

  pub data Step (s : Server) : Server → Type 0 where
    reads : s.reader ≡ running [] → Step s (read_round s)
    reader_writes :
        (f : Value) (fs : List Value)
        → s.reader ≡ running (f ∷ fs)
        → Step s (record s { reader = running fs; output = write Source.reader f s })
    takes :
        (r : Value) (rest : List Value)
        → s.worker ≡ idle
        → s.jobs ≡ r ∷ rest
        → Step s (record s { worker = busy r; jobs = rest })
    works :
        (r : Value)
        → s.worker ≡ busy r
        → Step s (record s {
          worker = writing (handle_request json tools r s.state).0;
          state = (handle_request json tools r s.state).1;
        })
    worker_writes :
        (f : Value) (fs : List Value)
        → s.worker ≡ writing (f ∷ fs)
        → Step s (record s { worker = writing fs; output = write Source.worker f s })
    rests : s.worker ≡ writing [] → Step s (record s { worker = idle })
    exits :
        s.worker ≡ idle
        → s.jobs ≡ []
        → s.shutting_down ≡ true
        → Step s (record s { worker = exited })
    joins : s.reader ≡ stopping → s.worker ≡ exited → Step s (record s { reader = stopped })

  pub data Run (s : Server) : Server → Type 0 where
    here : Run s s
    later : {t u : Server} → Run s t → Step t u → Run s u
