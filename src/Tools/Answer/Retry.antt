-- ===== src/Tools/Answer/Retry.antt =====
-- The second attempt of an evaluation (src/tools.cpp `eval_code`, behind `run_marker_eval(true)`).
use jjmcp.Base.{ℕ, ◌≡◌, ◌≢◌, refl, ◌+◌, Bool, false, List, [], ◌∷◌, ltb, inl, inr, Bool-cases}
use jjmcp.Text.{Bytes}
use jjmcp.Process.{Result, success, failure}
use jjmcp.Julia.Marker.{Marker}
use jjmcp.Tools.Eval.{
  Polling, polling_start, Outcome, waiting, runtime_missing, failed, ended, absorb,
  bound_accumulator, emit_progress, close_round, read_capture, poll_round, after_round, poll_loop,
  max_capture_failures,
}
use jjmcp.Tools.Answer.{rejected, attempt_of, run_marker_eval, retry_eval}

close_round_goes_on : (s : Polling) (grew late : Bool) → close_round s grew late ≢ runtime_missing
unfolding close_round
close_round_goes_on s grew late = elim (Bool-cases s.last_extract.found_end) [
  | inl e ↦ rw e (λ h. cc)
  | inr e ↦ elim (Bool-cases late) [ inl l ↦ rw (e, l) (λ h. cc) | inr l ↦ rw (e, l) (λ h. cc) ]
]

round_undetected :
    (m : Marker) (active : Bool) (s : Polling) (captured : Result Bytes) (late : Bool)
    → poll_round m false active s captured late ≢ runtime_missing
unfolding poll_round read_capture
round_undetected m active s (success cap) late =
    let (s1, grew) = absorb m s cap in
    close_round_goes_on (bound_accumulator m (emit_progress active s1.last_extract s1)) grew late
round_undetected m active s (failure e) late =
    elim (Bool-cases (ltb max_capture_failures (s.capture_failures + 1))) [
      | inl h ↦ rw h (λ x. cc)
      | inr h ↦ elim (Bool-cases late) [ inl l ↦ rw (h, l) (λ x. cc) | inr l ↦ rw (h, l) (λ x. cc) ]
    ]

poll_loop_undetected :
    (m : Marker) (active : Bool) (s : Polling) (polls : List (Result Bytes × Bool))
    → poll_loop m false active s polls ≢ runtime_missing
unfolding poll_loop after_round
poll_loop_undetected m active s [] = λ h. cc
poll_loop_undetected m active s ((captured, late) ∷ polls) =
    go (poll_round m false active s captured late) (round_undetected m active s captured late)
      (λ t. poll_loop_undetected m active t polls)
  where
    go :
        (o : Outcome)
        → o ≢ runtime_missing
        → ((t : Polling) → poll_loop m false active t polls ≢ runtime_missing)
        → after_round o (λ t. poll_loop m false active t polls) ≢ runtime_missing
    go (waiting t) h next = next t
    go runtime_missing h next = h
    go (failed e) h next = h
    go (ended b t) h next = h

-- A second attempt, which does not look for the missing runtime, is never rejected: the answer to a
-- rejected first attempt and a working installation is always that of the second, and never that
-- the REPL does not accept the macro.
pub second_attempt_decides :
    (target : Bytes) (m : Marker) (timeout_ms capture_lines : ℕ) (active : Bool)
    (sent : Result (Unit {0})) (polls : List (Result Bytes × Bool))
    → retry_eval target rejected
        (success tt)
        (run_marker_eval m timeout_ms capture_lines false active sent polls)
      ≡ run_marker_eval m timeout_ms capture_lines false active sent polls
unfolding retry_eval run_marker_eval attempt_of
second_attempt_decides target m timeout_ms capture_lines active (failure e) polls = refl
second_attempt_decides target m timeout_ms capture_lines active (success u) polls =
    go (poll_loop m false active polling_start polls)
      (poll_loop_undetected m active polling_start polls)
  where
    go :
        (o : Outcome)
        → o ≢ runtime_missing
        → retry_eval target rejected (success tt) (attempt_of m timeout_ms capture_lines o)
          ≡ attempt_of m timeout_ms capture_lines o
    go (waiting t) h = refl
    go runtime_missing h = absurd (h refl)
    go (failed e) h = refl
    go (ended b t) h = refl
