-- ===== src/Server/Progress.antt =====
-- The server comes to an end behind the end of its input (src/main.cpp `serve`): no state that it
-- reaches is stuck, and each step comes nearer to the end.
use jjmcp.Base.{
  ℕ, zero, suc, ◌+◌, ◌*◌, ◌≤◌, ◌≡◌, ◌≢◌, ◌⊎◌, inl, inr, refl, ap, ◌∙◌, true, not, List, [], ◌∷◌,
  ◌++◌, length, length-append, arith,
}
use mathlib.Core.Bool.{false≢true}
use jjmcp.Text.{Bytes}
use jjmcp.Process.{Result}
use jjmcp.Json.{Json}
use jjmcp.Mcp.{Tools, handle_request}
use jjmcp.Server.{
  Reader, running, stopping, stopped, Worker, idle, busy, writing, exited, Server, started, Step,
  reads, reader_writes, takes, works, worker_writes, rests, exits, joins, Run, here, later,
}
use jjmcp.Server.Reads.{
  messages, tool_requests, inline_frames, handle_all, unwritten, queue, coming, IsSame,
  read_round-IsSame,
}
use jjmcp.Server.Shape.{
  is_running, IsEnd, IsRound, read_round-cases, IsShaped, started-IsShaped, Run-IsShaped,
}

module _ (json : Json) (parse : Bytes → Result json.Value) (tools : Tools json.Value) where
  open json use {Value}

  worker_weight : Worker Value → ℕ
  worker_weight exited = 0
  worker_weight idle = 1
  worker_weight (writing fs) = 2
  worker_weight (busy r) = 3

  reader_weight : Reader Value → ℕ
  reader_weight stopped = 0
  reader_weight stopping = 1
  reader_weight (running fs) = 2

  reader_weight-is_running :
      (r : Reader Value) → is_running json parse tools r ≡ true → reader_weight r ≡ 2
  unfolding reader_weight
  reader_weight-is_running (running fs) h = refl
  reader_weight-is_running stopping h = absurd (false≢true h)
  reader_weight-is_running stopped h = absurd (false≢true h)

  -- The frames that the worker has still to write.
  abbrev pub owed : Server json parse tools → List Value
  owed s =
      unwritten json parse tools s.worker
      ++ (handle_all json parse tools (queue json parse tools s) s.state).0

  -- The steps that are left at most: the frames of both threads, and what they have still to do.
  unfoldable pub steps_left : tools.State → Server json parse tools → ℕ
  unfolding worker_weight reader_weight
  steps_left start s =
      length (owed s)
      + length (coming json parse tools start s)
      + (4 * length s.input + 3 * length s.jobs)
      + (worker_weight s.worker + reader_weight s.reader)

  IsSame-owed :
      (start : tools.State) (s t : Server json parse tools)
      → IsSame json parse tools start s t
      → owed t ≡ owed s
  IsSame-owed start s t same = rw (same.same_queue, same.same_worker, same.same_state) refl

  round-steps_left :
      (start : tools.State) (s t : Server json parse tools)
      → s.reader ≡ running []
      → IsSame json parse tools start s t
      → IsEnd json parse tools s t ⊎ IsRound json parse tools s t
      → steps_left start t + 1 ≤ steps_left start s
  unfolding steps_left reader_weight
  round-steps_left start s t h same (inl end) =
      let shorter = end.end_input in
      rw
        (
          IsSame-owed start s t same,
          same.same_coming,
          end.end_reader,
          end.end_worker,
          end.end_jobs,
          h,
        )
        (omega arith)
  round-steps_left start s t h same (inr round) =
      let shorter = round.round_input in
      let one_more = round.round_jobs in
      rw
        (
          IsSame-owed start s t same,
          same.same_coming,
          reader_weight-is_running t.reader round.round_reader,
          round.round_worker,
          h,
        )
        (omega arith)

  pub step_comes_nearer :
      (start : tools.State) (s t : Server json parse tools)
      → Step json parse tools s t
      → steps_left start t + 1 ≤ steps_left start s
  unfolding steps_left worker_weight reader_weight handle_all
  step_comes_nearer start s _ (reads h) =
      round-steps_left start s _ h (read_round-IsSame json parse tools start s h)
        (read_round-cases json parse tools s h)
  step_comes_nearer start s _ (reader_writes f fs h) = rw h (omega arith)
  step_comes_nearer start s _ (takes job rest h j) = rw (h, j) (omega arith)
  step_comes_nearer start s _ (works job h) =
      rw (h, handle_all) (omega (arith, length-append (handle_request json tools job s.state).0 _))
  step_comes_nearer start s _ (worker_writes f fs h) = rw h (omega arith)
  step_comes_nearer start s _ (rests h) = rw h (omega arith)
  step_comes_nearer start s _ (exits h j d) = rw h (omega arith)
  step_comes_nearer start s _ (joins h e) = rw h (omega arith)

  -- The worker can go on while it has not returned, once the input has ended.
  worker_can_step :
      (s : Server json parse tools)
      → s.shutting_down ≡ true
      → s.worker ≢ exited
      → (t : Server json parse tools) × Step json parse tools s t
  worker_can_step s flag not_exited = go s.worker s.jobs refl refl
    where
      go :
          (w : Worker Value) (js : List Value)
          → s.worker ≡ w
          → s.jobs ≡ js
          → (t : Server json parse tools) × Step json parse tools s t
      go idle [] w j = (_, exits w j flag)
      go idle (job ∷ js) w j = (_, takes job js w j)
      go (busy job) js w j = (_, works job w)
      go (writing []) js w j = (_, rests w)
      go (writing (f ∷ fs)) js w j = (_, worker_writes f fs w)
      go exited js w j = absurd (not_exited w)

  can_step :
      (s : Server json parse tools)
      → IsShaped json parse tools s
      → (s.reader ≡ stopped) ⊎ ((t : Server json parse tools) × Step json parse tools s t)
  can_step s shaped = go s.reader s.worker refl refl
    where
      go :
          (r : Reader Value) (w : Worker Value)
          → s.reader ≡ r
          → s.worker ≡ w
          → (s.reader ≡ stopped) ⊎ ((t : Server json parse tools) × Step json parse tools s t)
      go (running []) w h k = inr (_, reads h)
      go (running (f ∷ fs)) w h k = inr (_, reader_writes f fs h)
      go stopping exited h k = inr (_, joins h k)
      go stopping idle h k = inr (
          worker_can_step s (shaped.flag ∙ ap (λ r. not (is_running json parse tools r)) h)
            (λ e. cc))
      go stopping (busy job) h k = inr (
          worker_can_step s (shaped.flag ∙ ap (λ r. not (is_running json parse tools r)) h)
            (λ e. cc))
      go stopping (writing fs) h k = inr (
          worker_can_step s (shaped.flag ∙ ap (λ r. not (is_running json parse tools r)) h)
            (λ e. cc))
      go stopped w h k = inl h

  -- The steps of a run.
  abbrev pub run_length : {s t : Server json parse tools} → Run json parse tools s t → ℕ
  run_length here = 0
  run_length (later run step) = run_length run + 1

  run_comes_nearer :
      (start : tools.State) (s t : Server json parse tools) (run : Run json parse tools s t)
      → run_length run + steps_left start t ≤ steps_left start s
  run_comes_nearer start s _ here = omega arith
  run_comes_nearer start s u (later run step) =
      let before = run_comes_nearer start s _ run in
      let nearer = step_comes_nearer start _ u step in omega arith

  -- From any state the server can go on to its end.
  finishes :
      (start : tools.State) (n : ℕ) (s t : Server json parse tools)
      → IsShaped json parse tools s
      → Run json parse tools s t
      → steps_left start t ≤ n
      → (u : Server json parse tools) × Run json parse tools s u × (u.reader ≡ stopped)
  finishes start zero s t shaped run enough =
      elim (can_step t (Run-IsShaped json parse tools s t run shaped)) [
        | inl e ↦ (t, run, e)
        | inr (u, step) ↦ let nearer = step_comes_nearer start t u step in absurd (omega arith)
      ]
  finishes start (suc n) s t shaped run enough =
      elim (can_step t (Run-IsShaped json parse tools s t run shaped)) [
        | inl e ↦ (t, run, e)
        | inr (u, step) ↦
            let nearer = step_comes_nearer start t u step in
            finishes start n s u shaped (later run step) (omega arith)
      ]

  -- A run has at most so many steps: one for each frame, four for each line of the input, and three.
  -- Any run can be continued until `serve` returns.
  pub serve_finishes :
      (input : List Bytes) (start : tools.State) (t : Server json parse tools)
      (run : Run json parse tools (started json parse tools input start) t)
      → (run_length run
          ≤ length
              (handle_all json parse tools
                (tool_requests json parse tools (messages input))
                start).0
            + length (inline_frames json parse tools start (messages input))
            + 4 * length input
            + 3)
        × ((u : Server json parse tools) × Run json parse tools t u × (u.reader ≡ stopped))
  unfolding steps_left worker_weight reader_weight
  serve_finishes input start t run =
      let s = started json parse tools input start in
      let nearer = run_comes_nearer start s t run in
      let shaped =
        Run-IsShaped json parse tools s t run (started-IsShaped json parse tools input start) in
      (omega arith, finishes start (steps_left start t) t t shaped here (omega arith))
