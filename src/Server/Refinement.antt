-- ===== src/Server/Refinement.antt =====
-- The two threads against the requests one after the other (src/main.cpp `serve`).
use jjmcp.Base.{◌≡◌, refl, sym, ap, ◌∙◌, List, [], ◌∷◌, ◌++◌, append-nil, append_assoc}
use jjmcp.Text.{Bytes}
use jjmcp.Process.{Result}
use jjmcp.Json.{Json}
use jjmcp.Mcp.{Tools}
use jjmcp.Server.{
  Source, stopped, Server, started, write, Step, reads, reader_writes, takes, works, worker_writes,
  rests, exits, joins, Run, here, later,
}
use jjmcp.Server.Reads.{
  messages, tool_requests, inline_frames, handle_all, from, unwritten, queue, coming, IsSame,
  read_round-IsSame,
}
use jjmcp.Server.Shape.{is_running, started-IsShaped, Run-IsShaped}

module _ (json : Json) (parse : Bytes → Result json.Value) (tools : Tools json.Value) where
  open json use {Value}

  from-append :
      (source : Source) (out : List (Source × Value)) (p : Source × Value)
      → from json parse tools source (out ++ p ∷ [])
        ≡ from json parse tools source out ++ from json parse tools source (p ∷ [])
  from-append source [] p = refl
  from-append Source.reader ((Source.reader, g) ∷ out) p =
      ap (λ xs. g ∷ xs) (from-append Source.reader out p)
  from-append Source.reader ((Source.worker, g) ∷ out) p = from-append Source.reader out p
  from-append Source.worker ((Source.reader, g) ∷ out) p = from-append Source.worker out p
  from-append Source.worker ((Source.worker, g) ∷ out) p =
      ap (λ xs. g ∷ xs) (from-append Source.worker out p)

  -- A frame of the thread itself, and one of the other thread.
  from-write :
      (source : Source) (f : Value) (s : Server json parse tools) (more : List Value)
      → from json parse tools source (write json parse tools source f s) ++ more
        ≡ from json parse tools source s.output ++ f ∷ more
  from-write Source.reader f s more =
      rw (from-append Source.reader s.output (Source.reader, f)) (append_assoc _ (f ∷ []) more)
  from-write Source.worker f s more =
      rw (from-append Source.worker s.output (Source.worker, f)) (append_assoc _ (f ∷ []) more)

  from-other_reader :
      (f : Value) (s : Server json parse tools)
      → from json parse tools Source.worker (write json parse tools Source.reader f s)
        ≡ from json parse tools Source.worker s.output
  from-other_reader f s = from-append Source.worker s.output (Source.reader, f) ∙ append-nil _

  from-other_worker :
      (f : Value) (s : Server json parse tools)
      → from json parse tools Source.reader (write json parse tools Source.worker f s)
        ≡ from json parse tools Source.reader s.output
  from-other_worker f s = from-append Source.reader s.output (Source.worker, f) ∙ append-nil _

  -- Written so far and still to come: the frames `w` of the worker, the frames `r` of the read thread,
  -- and the tools as `last` leaves them.
  record IsOn (start : tools.State) (w r : List Value) (last : tools.State)
      (s : Server json parse tools) : Type 0 where
    by_worker :
        from json parse tools Source.worker s.output
          ++ (unwritten json parse tools s.worker
              ++ (handle_all json parse tools (queue json parse tools s) s.state).0)
        ≡ w
    by_reader : from json parse tools Source.reader s.output ++ coming json parse tools start s ≡ r
    in_the_end : (handle_all json parse tools (queue json parse tools s) s.state).1 ≡ last

  IsSame-IsOn :
      (start : tools.State) (w r : List Value) (last : tools.State) (s t : Server json parse tools)
      → IsSame json parse tools start s t
      → IsOn start w r last s
      → IsOn start w r last t
  IsSame-IsOn start w r last s t same on = record {
    by_worker =
        rw (same.same_queue, same.same_output, same.same_worker, same.same_state) on.by_worker;
    by_reader = rw (same.same_output, same.same_coming) on.by_reader;
    in_the_end = rw (same.same_queue, same.same_state) on.in_the_end;
  }

  Step-IsOn :
      (start : tools.State) (w r : List Value) (last : tools.State) (s t : Server json parse tools)
      → Step json parse tools s t
      → IsOn start w r last s
      → IsOn start w r last t
  unfolding handle_all
  Step-IsOn start w r last s _ (reads h) on =
      IsSame-IsOn start w r last s _ (read_round-IsSame json parse tools start s h) on
  Step-IsOn start w r last s _ (reader_writes f fs h) on = record {
    by_worker = rw (from-other_reader f s) on.by_worker;
    by_reader = from-write Source.reader f s _ ∙ rw h at on.by_reader;
    in_the_end = on.in_the_end;
  }
  Step-IsOn start w r last s _ (takes job rest h j) on = record {
    by_worker = rw (h, j) at on.by_worker;
    by_reader = on.by_reader;
    in_the_end = rw (h, j) at on.in_the_end;
  }
  Step-IsOn start w r last s _ (works job h) on = record {
    by_worker = rw h at on.by_worker;
    by_reader = on.by_reader;
    in_the_end = rw h at on.in_the_end;
  }
  Step-IsOn start w r last s _ (worker_writes f fs h) on = record {
    by_worker = from-write Source.worker f s _ ∙ rw h at on.by_worker;
    by_reader = rw (from-other_worker f s) on.by_reader;
    in_the_end = rw h at on.in_the_end;
  }
  Step-IsOn start w r last s _ (rests h) on = record {
    by_worker = rw h at on.by_worker;
    by_reader = on.by_reader;
    in_the_end = rw h at on.in_the_end;
  }
  Step-IsOn start w r last s _ (exits h j d) on = record {
    by_worker = rw h at on.by_worker;
    by_reader = on.by_reader;
    in_the_end = rw h at on.in_the_end;
  }
  Step-IsOn start w r last s _ (joins h e) on = record {
    by_worker = on.by_worker;
    by_reader = rw h at on.by_reader;
    in_the_end = on.in_the_end;
  }

  Run-IsOn :
      (start : tools.State) (w r : List Value) (last : tools.State) (s t : Server json parse tools)
      → Run json parse tools s t
      → IsOn start w r last s
      → IsOn start w r last t
  Run-IsOn start w r last s _ here on = on
  Run-IsOn start w r last s _ (later run step) on =
      Step-IsOn start w r last _ _ step (Run-IsOn start w r last s _ run on)

  started-IsOn :
      (input : List Bytes) (start : tools.State)
      → IsOn start
          (handle_all json parse tools (tool_requests json parse tools (messages input)) start).0
          (inline_frames json parse tools start (messages input))
          (handle_all json parse tools (tool_requests json parse tools (messages input)) start).1
          (started json parse tools input start)
  started-IsOn input start = record { by_worker = refl; by_reader = refl; in_the_end = refl }

  -- However the threads interleave: when `serve` returns, the worker has written the frames that the
  -- requests for the tools give when they are handled one after the other in the order of the input,
  -- the read thread has written the frames of the other messages in their order, and the tools are as
  -- the last of these requests leaves them.
  pub serve_refines :
      (input : List Bytes) (start : tools.State) (t : Server json parse tools)
      → Run json parse tools (started json parse tools input start) t
      → t.reader ≡ stopped
      → (from json parse tools Source.worker t.output
          ≡ (handle_all json parse tools (tool_requests json parse tools (messages input)) start).0)
        × (from json parse tools Source.reader t.output
            ≡ inline_frames json parse tools start (messages input))
        × (t.state
            ≡ (handle_all json parse tools
                (tool_requests json parse tools (messages input))
                start).1)
  unfolding handle_all tool_requests inline_frames
  serve_refines input start t run h =
      let on = Run-IsOn start _ _ _ _ t run (started-IsOn input start) in
      let shaped =
        Run-IsShaped json parse tools _ t run (started-IsShaped json parse tools input start) in
      let worker = shaped.joined h in
      let jobs = (shaped.drained worker).0 in
      let read : messages t.input ≡ [] = shaped.ended (ap (is_running json parse tools) h) in
      (
        sym (append-nil _) ∙ rw (worker, jobs, read) at on.by_worker,
        sym (append-nil _) ∙ rw (h, read) at on.by_reader,
        rw (worker, jobs, read) at on.in_the_end,
      )
