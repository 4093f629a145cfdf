-- ===== src/Tools/Evaluate.antt =====
-- An evaluation as a whole (src/tools.cpp `eval_code` and, with its loop, `ensure_jjmcp_runtime`).
-- `fuel` is the number of rounds that a loop on the pane may take. The progress frames stay in the
-- state of the polls.
pub mod Sends
pub mod Waits
pub mod Quiet
pub mod Locked
pub mod Returns
use jjmcp.Base.{
  ℕ, zero, suc, ◌+◌, ◌-◌, ◌*◌, ◌/◌, min, max, Bool, true, false, List, [], ◌∷◌, ◌++◌, Option, none,
  some, leb, if◌then◌else◌,
}
use jjmcp.Text.{Bytes, codes}
use jjmcp.Process.{Result, success, failure}
use jjmcp.Json.{Json, pos}
use jjmcp.State.{ServerState, next_marker_id}
use jjmcp.Julia.Marker.{Marker, make_marker, make_marker_id}
use jjmcp.Julia.Code.{wrap_julia_code}
use jjmcp.Julia.Bootstrap.{make_jjmcp_runtime_bootstrap_code}
use jjmcp.Tmux.Commands.{PaneInfo, ns_per_ms, capture_pane, send_text}
use jjmcp.Tools.Output.{truncate_tool_tail, max_mcp_text_bytes, max_mcp_backtrace_bytes}
use jjmcp.Tools.Generation.{pane_foreground_generation}
use jjmcp.Tools.RuntimeCache.{is_current, mark, invalidate}
use jjmcp.Tools.Eval.{
  Polling, polling_start, Outcome, waiting, runtime_missing, failed, ended, poll_round, backoff_max,
  splice, extract_live,
}
use jjmcp.Tools.Runtime.{Installing, pending, installed, install_result, install_timed_out}
use jjmcp.Tools.Answer.{finish_eval, not_accepted}
use jjmcp.Tools.Dispatcher.{
  Host, Dispatcher, Reply, Stage, answered, going, unfinished, Flow, ◌>>=◌, ◌>>◌, return, answer,
  timed, target_of, bound_target,
}
use jjmcp.Tools.Stages.{
  poll_capture_lines, next_sequence, error_reply, or_fail, bound, bound_pane, route, check_prompt,
  with_lock,
}

module _ {W : Type 0} (host : Host W) (json : Json) where
  open json use {Value, string, boolean, integer, object}

  -- The sleep behind a round: at most up to the deadline, whose distance is cut to whole milliseconds,
  -- so that it may be a sleep of no length.
  abbrev pub nap : ℕ → ℕ → W → W
  nap ms deadline w = host.sleep (min ms ((deadline - host.clock w) / ns_per_ms)) w

  -- What a poll of `ensure_jjmcp_runtime` gives, if it is the last one.
  unfoldable pub install_round :
      Marker → Bytes → Bytes → Result Bytes → Bool → Option (Result (Unit {0}))
  install_round marker accumulator last_capture (failure e) late = some (failure e)
  install_round marker accumulator last_capture (success cap) late =
      let extract = extract_live cap (splice accumulator last_capture cap).0 marker in
      if extract.found_end
      then some (install_result extract)
      else if late
      then some (failure (install_timed_out marker cap))
      else none

  abbrev pub capture_or : Bytes → Result Bytes → Bytes
  capture_or last_capture (failure e) = last_capture
  capture_or last_capture (success cap) = cap

  -- Its loop.
  unfoldable pub install_wait : ℕ → Marker → Bytes → ℕ → ℕ → Bytes → Bytes → W → Installing × W
  install_wait zero marker target deadline backoff accumulator last_capture w = (pending, w)
  install_wait (suc fuel) marker target deadline backoff accumulator last_capture w =
      let (captured, w') = capture_pane host.run target 2000 w in
      let cap = capture_or last_capture captured in
      let more =
        install_wait fuel marker target deadline (min (backoff * 2) 500)
          (splice accumulator last_capture cap).0 cap (nap backoff deadline w') in
      elim (install_round marker accumulator last_capture captured (leb deadline (host.clock w'))) [
        | some r ↦ (installed r, w')
        | none ↦ more
      ]

  -- What the installation gives, and the mark behind a success.
  unfoldable pub after_install : Bytes → Bytes → Installing → Flow W Value (Unit {0})
  after_install key generation pending d = (unfinished, d)
  after_install key generation (installed (failure e)) d = (answered (error_reply host json e), d)
  after_install key generation (installed (success u)) d =
      (going tt, record d { cache = mark d.cache key generation })

  unfoldable pub install : ℕ → ℕ → Bytes → Bytes → Flow W Value (Unit {0})
  install fuel timeout_ms key generation d =
      let marker =
        make_marker (make_marker_id (host.micros d.outside) host.pid (next_sequence d.state)) in
      let code = make_jjmcp_runtime_bootstrap_code marker in
      let send = λ (w : W).
        send_text host.run host.clock host.sleep fuel key code
          (codes "jjmcp_bootstrap_" ++ marker.id) w in
      let wait = λ (w : W).
        install_wait fuel marker key (host.clock w + max 1000 (min timeout_ms 30000) * ns_per_ms) 50
          [] [] w in
      (do
        sent ← timed send
        or_fail host json sent
        λ d'.
            let (outcome, w) = wait d'.outside in
            after_install key generation outcome (record d' { outside = w }))
        (record d { state = record d.state { marker_sequence = next_sequence d.state } })

  unfoldable pub ensure_jjmcp_runtime : ℕ → ℕ → Bytes → Flow W Value (Unit {0})
  ensure_jjmcp_runtime fuel timeout_ms pane_pid = do
    binding ← bound host json
    λ d.
        let key = target_of binding in
        let generation = pane_foreground_generation pane_pid (host.stat pane_pid d.outside) in
        if is_current d.cache key generation
        then (going tt, d)
        else install fuel timeout_ms key generation d

  -- The pause behind a round that goes on: a failed capture waits the longest.
  unfoldable pub pause_of : Result Bytes → Polling → ℕ
  pause_of (failure e) s = backoff_max
  pause_of (success cap) s = s.backoff

  -- The end of a round: the next ones, or what the loop is left with.
  abbrev pub after_poll : Outcome → W → (Polling → Outcome × W) → Outcome × W
  after_poll (waiting s) w more = more s
  after_poll runtime_missing w more = (runtime_missing, w)
  after_poll (failed e) w more = (failed e, w)
  after_poll (ended timed_out s) w more = (ended timed_out s, w)

  -- The loop of `run_marker_eval`.
  unfoldable pub wait_loop : ℕ → Marker → Bool → Bool → Bytes → ℕ → ℕ → Polling → W → Outcome × W
  wait_loop zero marker detect active target lines deadline s w = (waiting s, w)
  wait_loop (suc fuel) marker detect active target lines deadline s w =
      let (captured, w') = capture_pane host.run target lines w in
      after_poll (poll_round marker detect active s captured (leb deadline (host.clock w'))) w'
        (λ s'.
          wait_loop fuel marker detect active target lines deadline s'
            (nap (pause_of captured s') deadline w'))

  unfoldable pub structured_json : ℕ → Bool → Marker → ℕ → Polling → Value
  structured_json elapsed timed_out marker capture_lines s =
      let tail =
        λ (text : Bytes). string (truncate_tool_tail text capture_lines max_mcp_text_bytes) in
      let e = s.last_extract in
      object (
        (codes "elapsed_ms", integer (pos elapsed))
        ∷ (codes "timed_out", boolean timed_out)
        ∷ (codes "found_begin", boolean e.found_begin)
        ∷ (codes "found_end", boolean e.found_end)
        ∷ (codes "julia_error", boolean e.julia_error)
        ∷ (codes "marker_id", string marker.id)
        ∷ (codes "stdout", tail e.stdout_text)
        ∷ (codes "value_repr", tail e.value_repr)
        ∷ (codes "error_message", tail e.error_message)
        ∷ (codes "backtrace", string (truncate_tool_tail e.backtrace 200 max_mcp_backtrace_bytes))
        ∷ (codes "transport", string (codes "tmux"))
        ∷ [])

  -- What `run_marker_eval` gives; `none` is its `nullopt`.
  unfoldable pub attempt_end : Marker → ℕ → ℕ → ℕ → Outcome → Stage Value (Option (Reply Value))
  attempt_end marker timeout_ms capture_lines elapsed (waiting s) = unfinished
  attempt_end marker timeout_ms capture_lines elapsed runtime_missing = going none
  attempt_end marker timeout_ms capture_lines elapsed (failed e) =
      answered (error_reply host json e)
  attempt_end marker timeout_ms capture_lines elapsed (ended timed_out s) = going (
      some (record {
        result = finish_eval marker timeout_ms capture_lines timed_out s;
        structured = structured_json elapsed timed_out marker capture_lines s;
      }))

  unfoldable pub attempt : ℕ → Bytes → ℕ → ℕ → Bool → Bool → Flow W Value (Option (Reply Value))
  attempt fuel code timeout_ms capture_lines active detect d =
      let target = bound_target d.state in
      let (id, state) =
        next_marker_id (host.micros d.outside) host.pid (host.timestamp d.outside) d.state in
      let marker = make_marker id in
      let start = host.clock d.outside in
      let send = λ (w : W).
        send_text host.run host.clock host.sleep fuel target
          (wrap_julia_code code marker timeout_ms) (codes "jjmcp_" ++ id) w in
      let wait = λ (w : W).
        wait_loop fuel marker detect active target (poll_capture_lines capture_lines)
          (start + timeout_ms * ns_per_ms) polling_start w in
      (do
        sent ← timed send
        or_fail host json sent
        λ d'.
            let (outcome, w) = wait d'.outside in
            (
              attempt_end marker timeout_ms capture_lines ((host.clock w - start) / ns_per_ms)
                  outcome,
              record d' { outside = w },
            ))
        (record d { state = state })

  unfoldable pub second_reply : Option (Reply Value) → Flow W Value (Reply Value)
  second_reply (some reply) d = (going reply, d)
  second_reply none d = (
    answered (record { result = not_accepted (bound_target d.state); structured = json.null }),
    d,
  )

  -- The second attempt, behind a second installation.
  unfoldable pub retry :
      ℕ → Bytes → ℕ → ℕ → Bool → PaneInfo → Option (Reply Value) → Flow W Value (Reply Value)
  retry fuel code timeout_ms capture_lines active pane (some reply) = return reply
  retry fuel code timeout_ms capture_lines active pane none = do
    λ d. (going tt, record d { cache = invalidate d.cache (bound_target d.state) })
    ensure_jjmcp_runtime fuel timeout_ms pane.pane_pid
    second ← attempt fuel code timeout_ms capture_lines active false
    second_reply second

  unfoldable pub marker_eval : ℕ → Bytes → ℕ → ℕ → Bool → PaneInfo → Flow W Value (Reply Value)
  marker_eval fuel code timeout_ms capture_lines active pane = do
    ensure_jjmcp_runtime fuel timeout_ms pane.pane_pid
    first ← attempt fuel code timeout_ms capture_lines active true
    retry fuel code timeout_ms capture_lines active pane first

  unfoldable pub eval_code : ℕ → Bytes → ℕ → ℕ → Bool → Bool → Bytes → Flow W Value (Reply Value)
  eval_code fuel code timeout_ms capture_lines force active transport d =
      (do
        pane ← bound_pane host json
        route host json code timeout_ms capture_lines transport
        check_prompt host json force
        with_lock host json (marker_eval fuel code timeout_ms capture_lines active pane))
        (record d { last_code = code })
