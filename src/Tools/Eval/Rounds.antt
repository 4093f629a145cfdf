-- ===== src/Tools/Eval/Rounds.antt =====
-- How the polls of a run end (src/tools.cpp `eval_code`, its loop).
use jjmcp.Base.{
  ◌+◌, ◌≡◌, inl, inr, refl, Bool, true, not, ◌&&◌, List, [], ◌∷◌, ◌++◌, ltb, Bool-cases,
}
use jjmcp.Text.{Bytes}
use jjmcp.Process.{Result, success, failure}
use jjmcp.Julia.Marker.{Marker}
use jjmcp.Julia.Extract.Script.{Script}
use jjmcp.Tools.Prompt.{jjmcp_runtime_missing}
use jjmcp.Tools.Eval.{
  Polling, emit_progress, bound_accumulator, Outcome, waiting, runtime_missing, failed, ended,
  close_round, read_capture, poll_round, poll_loop, after_round, absorb, max_capture_failures,
}

-- A round that waits has not found the end marker, and its clock was not late.
abbrev pub IsWaiting : Outcome → Type 0
IsWaiting (waiting s) = Unit {0}
IsWaiting runtime_missing = ⊥
IsWaiting (failed e) = ⊥
IsWaiting (ended timed_out s) = ⊥

late_close : (s : Polling) (grew : Bool) → ¬ IsWaiting (close_round s grew true)
unfolding close_round
late_close s grew = elim (Bool-cases s.last_extract.found_end) [
  | inl e ↦ rw e (λ h. h)
  | inr e ↦ rw e (λ h. h)
]

late_round :
    (m : Marker) (detect active : Bool) (s : Polling) (captured : Result Bytes)
    → ¬ IsWaiting (poll_round m detect active s captured true)
unfolding poll_round read_capture
late_round m detect active s (failure e) =
    elim (Bool-cases (ltb max_capture_failures (s.capture_failures + 1))) [
      | inl h ↦ rw h (λ x. x)
      | inr h ↦ rw h (λ x. x)
    ]
late_round m detect active s (success cap) =
    let (s1, grew) = absorb m s cap in
    elim (Bool-cases
      (detect && not s1.last_extract.found_begin && jjmcp_runtime_missing cap m.id)) [
        | inl h ↦ rw h (λ x. x)
        | inr h ↦
            rw h (late_close (bound_accumulator m (emit_progress active s1.last_extract s1)) grew)
      ]

-- A poll behind the deadline is the last: whatever the polls before it gave, and whether its own
-- capture worked or not, the loop has been left, and no poll that would follow is read.
pub poll_loop_stops :
    (m : Marker) (detect active : Bool) (s : Polling) (polls : List (Result Bytes × Bool))
    (captured : Result Bytes) (more : List (Result Bytes × Bool))
    → (¬ IsWaiting (poll_loop m detect active s (polls ++ (captured, true) ∷ [])))
      × (poll_loop m detect active s (polls ++ (captured, true) ∷ more)
          ≡ poll_loop m detect active s (polls ++ (captured, true) ∷ []))
unfolding poll_loop after_round
poll_loop_stops m detect active s [] captured more =
    go (poll_round m detect active s captured true) (late_round m detect active s captured)
  where
    go :
        (o : Outcome)
        → ¬ IsWaiting o
        → (¬ IsWaiting (after_round o waiting))
          × (after_round o (λ t. poll_loop m detect active t more) ≡ after_round o waiting)
    go (waiting t) h = absurd (h tt)
    go runtime_missing h = (h, refl)
    go (failed x) h = (h, refl)
    go (ended b t) h = (h, refl)
poll_loop_stops m detect active s ((earlier, late) ∷ polls) captured more =
    go (λ t. poll_loop_stops m detect active t polls captured more)
      (poll_round m detect active s earlier late)
  where
    go :
        ((t : Polling)
          → (¬ IsWaiting (poll_loop m detect active t (polls ++ (captured, true) ∷ [])))
            × (poll_loop m detect active t (polls ++ (captured, true) ∷ more)
                ≡ poll_loop m detect active t (polls ++ (captured, true) ∷ [])))
        → (o : Outcome)
        → (¬ IsWaiting
            (after_round o (λ t. poll_loop m detect active t (polls ++ (captured, true) ∷ []))))
          × (after_round o (λ t. poll_loop m detect active t (polls ++ (captured, true) ∷ more))
              ≡ after_round o (λ t. poll_loop m detect active t (polls ++ (captured, true) ∷ [])))
    go next (waiting t) = next t
    go next runtime_missing = ((λ h. h), refl)
    go next (failed x) = ((λ h. h), refl)
    go next (ended b t) = ((λ h. h), refl)
