-- ===== src/Server/Reads.antt =====
-- What a round of the read loop leaves alone (src/main.cpp `serve`): the frames that are still to be
-- written, by either thread.
use jjmcp.Base.{
  ◌≡◌, refl, sym, ap, true, List, [], ◌∷◌, ◌++◌, append_assoc, inl, inr, Bool-cases, if◌then◌else◌,
}
use mathlib.Core.Bool.{false≢true}
use jjmcp.Text.{Bytes, carriage_return, is_empty, ends_with, pop_back}
use jjmcp.Process.{Result, success, failure}
use jjmcp.Json.{Json}
use jjmcp.Mcp.{ReadMessage, read_mcp_message, Tools, handle_request, needs_worker, method_or_empty}
use jjmcp.Mcp.Silent.{inline_apart}
use jjmcp.Server.{
  Source, Reader, running, stopping, stopped, Worker, idle, busy, writing, exited, Server,
  parse_error, accept, take_message, act_on, read_round,
}

-- The messages of the input: its lines, without a carriage return at their end, that are not empty.
unfoldable pub messages : List Bytes → List Bytes
messages [] = []
messages (line ∷ input) =
    let line' = if ends_with carriage_return line then pop_back line else line in
    let more = messages input in if is_empty line' then more else line' ∷ more

-- What a read does to the messages.
abbrev pub ReadsOne : List Bytes → ReadMessage × List Bytes → Type 0
ReadsOne ms (m, rest) =
    (if m.eof then [] else m.body ∷ messages rest) ≡ ms × (m.eof ≡ true → messages rest ≡ [])

pub read_mcp_message-messages :
    (input : List Bytes) → ReadsOne (messages input) (read_mcp_message input)
unfolding messages read_mcp_message
read_mcp_message-messages [] = (refl, λ e. refl)
read_mcp_message-messages (line ∷ input) =
    elim (Bool-cases (is_empty (if ends_with carriage_return line then pop_back line else line))) [
      | inl e ↦ rw e (read_mcp_message-messages input)
      | inr e ↦ rw e (refl, λ h. absurd (false≢true h))
    ]

module _ (json : Json) (parse : Bytes → Result json.Value) (tools : Tools json.Value) where
  open json use {Value}

  abbrev pub queued_by : Result Value → List Value
  queued_by (failure what) = []
  queued_by (success request) =
      if needs_worker (method_or_empty json request) then request ∷ [] else []

  -- The requests for the tools, in the order of the input.
  unfoldable pub tool_requests : List Bytes → List Value
  tool_requests [] = []
  tool_requests (body ∷ bodies) = queued_by (parse body) ++ tool_requests bodies

  abbrev pub written_by : tools.State → Result Value → List Value
  written_by state (failure what) = parse_error json parse tools what ∷ []
  written_by state (success request) =
      if needs_worker (method_or_empty json request)
      then []
      else (handle_request json tools request state).0

  -- The frames that the other messages write, given any state of the tools.
  unfoldable pub inline_frames : tools.State → List Bytes → List Value
  inline_frames state [] = []
  inline_frames state (body ∷ bodies) = written_by state (parse body) ++ inline_frames state bodies

  -- The requests handled one after the other: the frames, and the tools behind them.
  unfoldable pub handle_all : List Value → tools.State → List Value × tools.State
  handle_all [] state = ([], state)
  handle_all (r ∷ rs) state =
      let (frames, state') = handle_request json tools r state in
      let (more, last) = handle_all rs state' in (frames ++ more, last)

  abbrev pub from : Source → List (Source × Value) → List Value
  from source [] = []
  from Source.reader ((Source.reader, f) ∷ out) = f ∷ from Source.reader out
  from Source.reader ((Source.worker, f) ∷ out) = from Source.reader out
  from Source.worker ((Source.reader, f) ∷ out) = from Source.worker out
  from Source.worker ((Source.worker, f) ∷ out) = f ∷ from Source.worker out

  abbrev pub unread : Server json parse tools → List Value
  unread s = tool_requests (messages s.input)

  -- What the worker has still to handle, and to write.
  abbrev pub taken : Worker Value → List Value
  taken idle = []
  taken (busy r) = r ∷ []
  taken (writing fs) = []
  taken exited = []

  abbrev pub unwritten : Worker Value → List Value
  unwritten idle = []
  unwritten (busy r) = []
  unwritten (writing fs) = fs
  unwritten exited = []

  abbrev pub unread_frames : Reader Value → List Value
  unread_frames (running fs) = fs
  unread_frames stopping = []
  unread_frames stopped = []

  abbrev pub queue : Server json parse tools → List Value
  queue s = taken s.worker ++ (s.jobs ++ unread s)

  -- What the read thread has still to write, with any state of the tools.
  abbrev pub coming : tools.State → Server json parse tools → List Value
  coming state s = unread_frames s.reader ++ inline_frames state (messages s.input)

  -- What a read leaves alone.
  pub record IsSame (start : tools.State) (s t : Server json parse tools) : Type 0 where
    pub same_output : t.output ≡ s.output
    pub same_worker : t.worker ≡ s.worker
    pub same_state : t.state ≡ s.state
    pub same_queue : queue t ≡ queue s
    pub same_coming : coming start t ≡ coming start s

  accept-IsSame :
      (start : tools.State) (request : Value) (body : Bytes) (rest : List Bytes)
      (s : Server json parse tools)
      → s.reader ≡ running []
      → messages s.input ≡ body ∷ messages rest
      → parse body ≡ success request
      → IsSame start s (accept json parse tools request (record s { input = rest }))
  unfolding accept tool_requests inline_frames
  accept-IsSame start request body rest s reader input parsed =
      elim (Bool-cases (needs_worker (method_or_empty json request))) [
        | inl e ↦ rw e (record {
          same_output = refl;
          same_worker = refl;
          same_state = refl;
          same_queue =
              rw (input, parsed, e)
                (ap (λ xs. taken s.worker ++ xs) (append_assoc s.jobs (request ∷ []) _));
          same_coming = rw (reader, input, parsed, e) refl;
        })
        | inr e ↦
            let (frames, apart) = inline_apart json tools request e in
            rw (e, apart s.state)
              (record {
                same_output = refl;
                same_worker = refl;
                same_state = refl;
                same_queue = rw (input, parsed, e) refl;
                same_coming = rw (reader, input, parsed, e, apart start) refl;
              })
      ]

  take_message-IsSame :
      (start : tools.State) (message : Result Value) (body : Bytes) (rest : List Bytes)
      (s : Server json parse tools)
      → s.reader ≡ running []
      → messages s.input ≡ body ∷ messages rest
      → parse body ≡ message
      → IsSame start s (take_message json parse tools message (record s { input = rest }))
  unfolding take_message tool_requests inline_frames
  take_message-IsSame start (success request) body rest s reader input parsed =
      accept-IsSame start request body rest s reader input parsed
  take_message-IsSame start (failure what) body rest s reader input parsed = record {
    same_output = refl;
    same_worker = refl;
    same_state = refl;
    same_queue = rw (input, parsed) refl;
    same_coming = rw (reader, input, parsed) refl;
  }

  act_on-IsSame :
      (start : tools.State) (m : ReadMessage) (rest : List Bytes) (s : Server json parse tools)
      → s.reader ≡ running []
      → ReadsOne (messages s.input) (m, rest)
      → IsSame start s (act_on json parse tools (m, rest) s)
  unfolding act_on tool_requests inline_frames
  act_on-IsSame start m rest s reader (one, last) = elim (Bool-cases m.eof) [
    | inl e ↦
        let nothing : messages s.input ≡ [] = sym (rw e at one) in
        rw e (record {
          same_output = refl;
          same_worker = refl;
          same_state = refl;
          same_queue = rw (nothing, last e) refl;
          same_coming = rw (reader, nothing, last e) refl;
        })
    | inr e ↦
        rw e
          (take_message-IsSame start (parse m.body) m.body rest s reader (sym (rw e at one)) refl)
  ]

  pub read_round-IsSame :
      (start : tools.State) (s : Server json parse tools)
      → s.reader ≡ running []
      → IsSame start s (read_round json parse tools s)
  unfolding read_round
  read_round-IsSame start s reader =
      let (m, rest) = read_mcp_message s.input in
      act_on-IsSame start m rest s reader (read_mcp_message-messages s.input)
