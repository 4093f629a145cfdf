-- ===== src/Server/Shape.antt =====
-- What holds of every state that the server reaches (src/main.cpp `serve`): when the worker may have
-- returned, and how far a round of the read loop has come.
use jjmcp.Base.{
  ◌+◌, ◌≤◌, ◌≡◌, ◌≢◌, ◌⊎◌, inl, inr, refl, sym, ap, ◌∙◌, Bool, true, false, not, List, [], ◌∷◌,
  length, length-append, Bool-cases, if◌then◌else◌, arith,
}
use mathlib.Core.Bool.{false≢true}
use jjmcp.Text.{Bytes, carriage_return, is_empty, ends_with, pop_back}
use jjmcp.Process.{Result, success, failure}
use jjmcp.Json.{Json}
use jjmcp.Mcp.{read_mcp_message, Tools, needs_worker, method_or_empty}
use jjmcp.Server.{
  Reader, running, stopping, stopped, exited, Server, started, accept, take_message, act_on,
  read_round, Step, reads, reader_writes, takes, works, worker_writes, rests, exits, joins, Run,
  here, later,
}
use jjmcp.Server.Reads.{messages, read_mcp_message-messages}

-- A message takes a line of the input at least.
read_mcp_message-length :
    (input : List Bytes)
    → ((read_mcp_message input).0.eof ≡ true → length (read_mcp_message input).1 ≤ length input)
      × ((read_mcp_message input).0.eof ≡ false
          → length (read_mcp_message input).1 + 1 ≤ length input)
unfolding read_mcp_message
read_mcp_message-length [] = (λ e. omega arith, λ e. absurd (false≢true (sym e)))
read_mcp_message-length (line ∷ input) =
    let (at_end, before) = read_mcp_message-length input in
    elim (Bool-cases (is_empty (if ends_with carriage_return line then pop_back line else line))) [
      | inl e ↦ rw e (λ h. let k = at_end h in omega arith, λ h. let k = before h in omega arith)
      | inr e ↦ rw e (λ h. absurd (false≢true h), λ h. omega arith)
    ]

module _ (json : Json) (parse : Bytes → Result json.Value) (tools : Tools json.Value) where
  open json use {Value}

  abbrev pub is_running : Reader Value → Bool
  is_running (running fs) = true
  is_running stopping = false
  is_running stopped = false

  -- A round that finds the end of the input.
  pub record IsEnd (s t : Server json parse tools) : Type 0 where
    pub end_reader : t.reader ≡ stopping
    pub end_flag : t.shutting_down ≡ true
    pub end_jobs : t.jobs ≡ s.jobs
    pub end_worker : t.worker ≡ s.worker
    pub end_messages : messages t.input ≡ []
    pub end_input : length t.input ≤ length s.input

  -- A round that reads a message.
  pub record IsRound (s t : Server json parse tools) : Type 0 where
    pub round_reader : is_running t.reader ≡ true
    pub round_flag : t.shutting_down ≡ s.shutting_down
    pub round_jobs : length t.jobs ≤ length s.jobs + 1
    pub round_worker : t.worker ≡ s.worker
    pub round_input : length t.input + 1 ≤ length s.input

  take_message-IsRound :
      (message : Result Value) (rest : List Bytes) (s : Server json parse tools)
      → s.reader ≡ running []
      → length rest + 1 ≤ length s.input
      → IsRound s (take_message json parse tools message (record s { input = rest }))
  unfolding take_message accept
  take_message-IsRound (failure what) rest s h shorter = record {
    round_reader = refl;
    round_flag = refl;
    round_jobs = omega arith;
    round_worker = refl;
    round_input = shorter;
  }
  take_message-IsRound (success request) rest s h shorter =
      elim (Bool-cases (needs_worker (method_or_empty json request))) [
        | inl e ↦ rw e (record {
          round_reader = rw h refl;
          round_flag = refl;
          round_jobs = rw (length-append s.jobs (request ∷ [])) (omega arith);
          round_worker = refl;
          round_input = shorter;
        })
        | inr e ↦ rw e (record {
          round_reader = refl;
          round_flag = refl;
          round_jobs = omega arith;
          round_worker = refl;
          round_input = shorter;
        })
      ]

  pub read_round-cases :
      (s : Server json parse tools)
      → s.reader ≡ running []
      → IsEnd s (read_round json parse tools s) ⊎ IsRound s (read_round json parse tools s)
  unfolding read_round act_on
  read_round-cases s h =
      let (m, rest) = read_mcp_message s.input in
      let (one, last) = read_mcp_message-messages s.input in
      let (at_end, before) = read_mcp_message-length s.input in
      elim (Bool-cases m.eof) [
        | inl e ↦ rw e (
            inl (record {
              end_reader = refl;
              end_flag = refl;
              end_jobs = refl;
              end_worker = refl;
              end_messages = last e;
              end_input = at_end e;
            }))
        | inr e ↦ rw e (inr (take_message-IsRound (parse m.body) rest s h (before e)))
      ]

  -- The read thread sets the flag at the end of the input; the worker returns behind that, with no
  -- job left; the read thread returns behind the worker.
  pub record IsShaped (s : Server json parse tools) : Type 0 where
    pub flag : s.shutting_down ≡ not (is_running s.reader)
    pub ended : is_running s.reader ≡ false → messages s.input ≡ []
    pub drained : s.worker ≡ exited → (s.jobs ≡ []) × (s.shutting_down ≡ true)
    pub joined : s.reader ≡ stopped → s.worker ≡ exited

  pub started-IsShaped :
      (input : List Bytes) (start : tools.State) → IsShaped (started json parse tools input start)
  started-IsShaped input start = record {
    flag = refl;
    ended = λ h. absurd (false≢true (sym h));
    drained = λ h. cc;
    joined = λ h. cc;
  }

  -- The worker is at work while the read thread is.
  not_exited :
      (s : Server json parse tools) → IsShaped s → is_running s.reader ≡ true → s.worker ≢ exited
  not_exited s shaped h e =
      absurd (false≢true (sym (ap not h) ∙ sym shaped.flag ∙ (shaped.drained e).1))

  round-IsShaped :
      (s t : Server json parse tools)
      → IsShaped s
      → is_running s.reader ≡ true
      → IsEnd s t ⊎ IsRound s t
      → IsShaped t
  round-IsShaped s t shaped h (inl end) = record {
    flag = rw (end.end_flag, end.end_reader) refl;
    ended = λ e. end.end_messages;
    drained = λ e. absurd (not_exited s shaped h (sym end.end_worker ∙ e));
    joined = λ e. cc;
  }
  round-IsShaped s t shaped h (inr round) = record {
    flag = rw (round.round_flag, round.round_reader) (shaped.flag ∙ ap not h);
    ended = λ e. absurd (false≢true (sym e ∙ round.round_reader));
    drained = λ e. absurd (not_exited s shaped h (sym round.round_worker ∙ e));
    joined = λ e. absurd (false≢true (rw e at round.round_reader));
  }

  Step-IsShaped :
      (s t : Server json parse tools) → Step json parse tools s t → IsShaped s → IsShaped t
  Step-IsShaped s _ (reads h) shaped =
      round-IsShaped s _ shaped (ap is_running h) (read_round-cases s h)
  Step-IsShaped s _ (reader_writes f fs h) shaped = record {
    flag = shaped.flag ∙ ap (λ r. not (is_running r)) h;
    ended = λ e. absurd (false≢true (sym e));
    drained = shaped.drained;
    joined = λ e. cc;
  }
  Step-IsShaped s _ (takes job rest h j) shaped = record {
    flag = shaped.flag;
    ended = shaped.ended;
    drained = λ e. cc;
    joined = λ e. let k = shaped.joined e in cc;
  }
  Step-IsShaped s _ (works job h) shaped = record {
    flag = shaped.flag;
    ended = shaped.ended;
    drained = λ e. cc;
    joined = λ e. let k = shaped.joined e in cc;
  }
  Step-IsShaped s _ (worker_writes f fs h) shaped = record {
    flag = shaped.flag;
    ended = shaped.ended;
    drained = λ e. cc;
    joined = λ e. let k = shaped.joined e in cc;
  }
  Step-IsShaped s _ (rests h) shaped = record {
    flag = shaped.flag;
    ended = shaped.ended;
    drained = λ e. cc;
    joined = λ e. let k = shaped.joined e in cc;
  }
  Step-IsShaped s _ (exits h j d) shaped = record {
    flag = shaped.flag;
    ended = shaped.ended;
    drained = λ e. (j, d);
    joined = λ e. refl;
  }
  Step-IsShaped s _ (joins h e) shaped = record {
    flag = shaped.flag ∙ ap (λ r. not (is_running r)) h;
    ended = λ i. shaped.ended (ap is_running h);
    drained = shaped.drained;
    joined = λ i. e;
  }

  pub Run-IsShaped :
      (s t : Server json parse tools) → Run json parse tools s t → IsShaped s → IsShaped t
  Run-IsShaped s _ here shaped = shaped
  Run-IsShaped s _ (later run step) shaped = Step-IsShaped _ _ step (Run-IsShaped s _ run shaped)
