-- ===== src/Tools/Evaluate/Waits.antt =====
-- The loops on the pane end by their deadlines (src/tools.cpp `eval_code`, `ensure_jjmcp_runtime`).
use jjmcp.Base.{
  ℕ, zero, suc, ◌+◌, ◌-◌, ◌*◌, ◌/◌, ◌⊎◌, ◌≤◌, ◌<◌, min, ◌≡◌, ◌≢◌, inl, inr, refl, ◌∙◌, Bool, true,
  false, not, ◌&&◌, length, leb, ltb, if◌then◌else◌, Bool-cases, none, Option-cases, arith,
}
use jjmcp.Text.{Bytes}
use jjmcp.Process.{Result, success, failure}
use jjmcp.Json.{Json}
use jjmcp.Julia.Marker.{Marker}
use jjmcp.Julia.Extract.{ExtractedOutput}
use jjmcp.Tools.Output.{max_eval_accumulator_bytes}
use jjmcp.Tools.Prompt.{jjmcp_runtime_missing}
use jjmcp.Tmux.Commands.{capture_pane, ns_per_ms}
use jjmcp.Tools.Eval.{
  Polling, Outcome, waiting, runtime_missing, failed, ended, poll_round, read_capture, close_round,
  absorb, bound_accumulator, emit_progress, max_capture_failures, progress_min_delta, splice,
  extract_live,
}
use jjmcp.Tools.Runtime.{Installing, pending, installed}
use jjmcp.Tools.Dispatcher.{Host}
use jjmcp.Tools.Evaluate.Sends.{IsTimely, capture_pane_later}
use jjmcp.Tools.Evaluate.{nap, install_round, install_wait, pause_of, after_poll, wait_loop}

-- A round that goes on had not met the deadline, and pauses before the next.
abbrev GoesOn : Bool → Outcome → Type 0
GoesOn late (waiting s) = (late ≡ false) × (1 ≤ s.backoff)
GoesOn late runtime_missing = Unit
GoesOn late (failed e) = Unit
GoesOn late (ended timed_out s) = Unit

if_backoff :
    (b : Bool) (s t : Polling) → s.backoff ≡ t.backoff → (if b then s else t).backoff ≡ t.backoff
if_backoff true s t h = h
if_backoff false s t h = refl

bound_accumulator-backoff :
    (marker : Marker) (s : Polling) → (bound_accumulator marker s).backoff ≡ s.backoff
unfolding bound_accumulator
bound_accumulator-backoff marker s =
    if_backoff
      (not s.last_extract.found_end && ltb max_eval_accumulator_bytes (length s.accumulator)) _ s
      (if_backoff s.last_extract.found_begin _ _ refl)

emit_progress-backoff :
    (active : Bool) (extract : ExtractedOutput) (s : Polling)
    → (emit_progress active extract s).backoff ≡ s.backoff
unfolding emit_progress
emit_progress-backoff active extract s =
    if_backoff
      (active
        && extract.found_begin
        && leb (s.last_progress_size + progress_min_delta) (length extract.text))
      _ s refl

close_round-GoesOn :
    (s : Polling) (grew late : Bool) → 1 ≤ s.backoff → GoesOn late (close_round s grew late)
unfolding close_round
close_round-GoesOn s grew late h = elim (Bool-cases s.last_extract.found_end) [
  | inl e ↦ rw e tt
  | inr e ↦ elim (Bool-cases late) [
    | inl l ↦ rw (e, l) tt
    | inr l ↦ elim (Bool-cases grew) [
      | inl g ↦ rw (e, l, g) (refl, omega arith)
      | inr g ↦ rw (e, l, g) (refl, omega arith)
    ]
  ]
]

read_capture-GoesOn :
    (marker : Marker) (detect active : Bool) (s : Polling) (cap : Bytes) (late : Bool)
    → 1 ≤ s.backoff
    → GoesOn late (read_capture marker detect active s cap late)
unfolding read_capture absorb
read_capture-GoesOn marker detect active s cap late h =
    let (s', grew) = absorb marker s cap in
    let emitted = emit_progress active s'.last_extract s' in
    let steady : (bound_accumulator marker emitted).backoff ≡ s.backoff =
      bound_accumulator-backoff marker emitted ∙ emit_progress-backoff active s'.last_extract s' in
    elim (Bool-cases
      (detect && not s'.last_extract.found_begin && jjmcp_runtime_missing cap marker.id)) [
        | inl e ↦ rw e tt
        | inr e ↦
            rw e (close_round-GoesOn (bound_accumulator marker emitted) grew late (rw steady h))
      ]

poll_round-GoesOn :
    (marker : Marker) (detect active : Bool) (s : Polling) (captured : Result Bytes) (late : Bool)
    → 1 ≤ s.backoff
    → GoesOn late (poll_round marker detect active s captured late)
unfolding poll_round
poll_round-GoesOn marker detect active s (success cap) late h =
    read_capture-GoesOn marker detect active s cap late h
poll_round-GoesOn marker detect active s (failure e) late h =
    elim (Bool-cases (ltb max_capture_failures (s.capture_failures + 1))) [
      | inl f ↦ rw f tt
      | inr f ↦ elim (Bool-cases late) [ inl l ↦ rw (f, l) tt | inr l ↦ rw (f, l) (refl, h) ]
    ]

abbrev pub NotWaiting : Outcome → Type 0
NotWaiting (waiting s) = ⊥
NotWaiting runtime_missing = Unit
NotWaiting (failed e) = Unit
NotWaiting (ended timed_out s) = Unit

abbrev pub NotPending : Installing → Type 0
NotPending pending = ⊥
NotPending (installed r) = Unit

module _ {W : Type 0} (host : Host W) (json : Json) (timely : IsTimely host) where
  -- The rounds that a loop still has: one for each whole millisecond up to the deadline, since it sleeps
  -- one at least, and one for each nanosecond of the last, where it does not sleep.
  abbrev pub rounds_left : ℕ → W → ℕ
  rounds_left deadline w =
      let left = deadline - host.clock w in left / ns_per_ms + min left ns_per_ms

  -- A round puts the clock forward, by a whole millisecond where there is one left.
  nap_later :
      (ms deadline : ℕ) (w w' : W)
      → 1 ≤ ms
      → host.clock w + 1 ≤ host.clock w'
      → host.clock w' < deadline
      → rounds_left deadline (nap host json ms deadline w') < rounds_left deadline w
  nap_later ms deadline w w' some_time on early =
      let left = (deadline - host.clock w') / ns_per_ms in
      let slept = timely.sleep_clock (min ms left) w' in
      let length : (left ≡ 0) ⊎ (1 ≤ min ms left) = ground arith in
      elim length [ inl e ↦ omega arith | inr e ↦ omega arith ]

  pause_of_positive :
      (captured : Result Bytes) (s : Polling) → 1 ≤ s.backoff → 1 ≤ pause_of host json captured s
  unfolding pause_of
  pause_of_positive (failure e) s h = omega arith
  pause_of_positive (success cap) s h = h

  after_poll_ends :
      (late : Bool) (outcome : Outcome) (w : W) (more : Polling → Outcome × W)
      → GoesOn late outcome
      → ((s : Polling) → late ≡ false → 1 ≤ s.backoff → NotWaiting (more s).0)
      → NotWaiting (after_poll host json outcome w more).0
  after_poll_ends late (waiting s) w more (early, backoff) rest = rest s early backoff
  after_poll_ends late runtime_missing w more g rest = tt
  after_poll_ends late (failed e) w more g rest = tt
  after_poll_ends late (ended timed_out s) w more g rest = tt

  pub wait_loop_ends :
      (fuel : ℕ) (marker : Marker) (detect active : Bool) (target : Bytes) (lines deadline : ℕ)
      (s : Polling) (w : W)
      → 1 ≤ s.backoff
      → rounds_left deadline w < fuel
      → NotWaiting (wait_loop host json fuel marker detect active target lines deadline s w).0
  unfolding wait_loop
  wait_loop_ends zero marker detect active target lines deadline s w backoff enough =
      absurd (omega arith)
  wait_loop_ends (suc fuel) marker detect active target lines deadline s w backoff enough =
      let (captured, w') = capture_pane host.run target lines w in
      let late = leb deadline (host.clock w') in
      let on : host.clock w + 1 ≤ host.clock w' = capture_pane_later host timely target lines w in
      after_poll_ends late (poll_round marker detect active s captured late) w' _
        (poll_round-GoesOn marker detect active s captured late backoff)
        (λ s' early backoff'.
          let before : host.clock w' < deadline = ground arith in
          let paused = pause_of_positive captured s' backoff' in
          let later = nap_later (pause_of host json captured s') deadline w w' paused on before in
          wait_loop_ends fuel marker detect active target lines deadline s' _ backoff'
            (omega arith))

  install_round_late :
      (marker : Marker) (accumulator last_capture : Bytes) (captured : Result Bytes)
      → install_round host json marker accumulator last_capture captured true ≢ none
  unfolding install_round
  install_round_late marker accumulator last_capture (failure e) h = cc
  install_round_late marker accumulator last_capture (success cap) h =
      let extract = extract_live cap (splice accumulator last_capture cap).0 marker in
      elim (Bool-cases extract.found_end) [
        | inl e ↦ absurd (let k = rw e at h in cc)
        | inr e ↦ absurd (let k = rw e at h in cc)
      ]

  pub install_wait_ends :
      (fuel : ℕ) (marker : Marker) (target : Bytes) (deadline backoff : ℕ)
      (accumulator last_capture : Bytes) (w : W)
      → 1 ≤ backoff
      → rounds_left deadline w < fuel
      → NotPending
          (install_wait host json fuel marker target deadline backoff accumulator last_capture w).0
  unfolding install_wait
  install_wait_ends zero marker target deadline backoff accumulator last_capture w some_time
        enough =
      absurd (omega arith)
  install_wait_ends (suc fuel) marker target deadline backoff accumulator last_capture w some_time
        enough =
      let (captured, w') = capture_pane host.run target 2000 w in
      let late = leb deadline (host.clock w') in
      let on : host.clock w + 1 ≤ host.clock w' = capture_pane_later host timely target 2000 w in
      elim (Option-cases (install_round host json marker accumulator last_capture captured late)) [
        | inr (r, e) ↦ rw (install_wait, e) tt
        | inl e ↦
            let early : late ≡ false = elim (Bool-cases late) [
              | inl l ↦
                  absurd (install_round_late marker accumulator last_capture captured (rw l at e))
              | inr l ↦ l
            ] in
            let before : host.clock w' < deadline = ground arith in
            let later = nap_later backoff deadline w w' some_time on before in
            rw (install_wait, e)
              (install_wait_ends fuel marker target deadline (min (backoff * 2) 500) _ _ _
                (omega arith) (omega arith))
      ]
