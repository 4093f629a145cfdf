-- ===== src/Tools/Evaluate/Sends.antt =====
-- Sending a text ends by the deadline of its wait (src/tmux.cpp `send_text`,
-- `wait_for_bracketed_paste`), and a command to tmux puts the clock forward.
use jjmcp.Base.{
  ℕ, zero, suc, ◌+◌, ◌-◌, ◌*◌, Option, some, ◌≤◌, ◌<◌, inl, inr, Bool, List, leb, Bool-cases, none,
  arith,
}
use jjmcp.Text.{Bytes}
use jjmcp.Process.{Result, success, failure, RunSpec, ProcessResult}
use jjmcp.Tmux.Commands.{
  Action, ◌>>=◌, command, run_tmux, capture_pane, wait_for_bracketed_paste, paste_loop, ns_per_ms,
  paste_wait_ms, paste_behind, behind_load, paste, return, poll_flag, flag_on, send_text,
}
use jjmcp.Tools.Dispatcher.{Host}

-- A steady clock in nanoseconds: it goes on while a command runs, for which a process is started, and a
-- sleep puts it forward by its milliseconds, which may be none.
pub record IsTimely {W : Type 0} (host : Host W) : Type 0 where
  pub run_clock : (spec : RunSpec) (w : W) → host.clock w + 1 ≤ host.clock (host.run spec w).1
  pub sleep_clock : (ms : ℕ) (w : W) → host.clock w + ms * ns_per_ms ≤ host.clock (host.sleep ms w)

module _ {W : Type 0} (host : Host W) (timely : IsTimely host) where
  -- The clock does not go back during an action.
  abbrev pub IsForward : {A : Type 0} → Action W A → Type 0
  IsForward m = (w : W) → host.clock w ≤ host.clock (m w).1

  bind-IsForward :
      {A B : Type 0} (m : Action W A) (f : A → Action W B)
      → IsForward m
      → ((a : A) → IsForward (f a))
      → IsForward (m >>= f)
  unfolding ◌>>=◌
  bind-IsForward {A} {B} m f hm hf w = go (m w).0 (m w).1 (hm w)
    where
      go :
          (r : Result A) (w' : W)
          → host.clock w ≤ host.clock w'
          → host.clock w
            ≤ host.clock
                (elim r as (λ _. Result B × W) [
                  | success a ↦ f a w'
                  | failure e ↦ (failure e, w')
                ]).1
      go (success a) w' h = let k = hf a w' in omega arith
      go (failure e) w' h = h

  command_later :
      (label : Bytes) (args : List Bytes) (stdin : Bytes) (w : W)
      → host.clock w + 1 ≤ host.clock (command host.run label args stdin w).1
  unfolding command run_tmux
  command_later label args stdin w = timely.run_clock _ w

  command-IsForward :
      (label : Bytes) (args : List Bytes) (stdin : Bytes)
      → IsForward (command host.run label args stdin)
  command-IsForward label args stdin w = let later = command_later label args stdin w in omega arith

  pub capture_pane_later :
      (target : Bytes) (lines : ℕ) (w : W)
      → host.clock w + 1 ≤ host.clock (capture_pane host.run target lines w).1
  unfolding capture_pane ◌>>=◌
  capture_pane_later target lines w = go _ _ (command_later _ _ _ w)
    where
      go :
          (r : Result ProcessResult) (w' : W)
          → host.clock w + 1 ≤ host.clock w'
          → host.clock w + 1
            ≤ host.clock
                (elim r as (λ _. Result Bytes × W) [
                  | success a ↦ (success a.stdout_text, w')
                  | failure e ↦ (failure e, w')
                ]).1
      go (success a) w' h = h
      go (failure e) w' h = h

  -- A loop that ends within its rounds, later than it began.
  abbrev pub EndsLater : {A : Type 0} → W → Option A × W → Type 0
  EndsLater w (none, w') = ⊥
  EndsLater w (some a, w') = host.clock w ≤ host.clock w'

  -- A round of the wait for the bracketed paste sleeps 20 milliseconds, or ends it.
  paste_loop_ends :
      (fuel deadline : ℕ) (target : Bytes) (w0 w : W)
      → host.clock w0 ≤ host.clock w
      → (deadline - host.clock w) + 20 * ns_per_ms ≤ 20 * ns_per_ms * fuel
      → EndsLater w0 (paste_loop host.run host.clock host.sleep fuel deadline target w)
  unfolding paste_loop poll_flag run_tmux
  paste_loop_ends zero deadline target w0 w later enough = absurd (omega arith)
  paste_loop_ends (suc fuel) deadline target w0 w later enough =
      let (flag, w') = poll_flag host.run target w in
      let on : host.clock w + 1 ≤ host.clock w' = timely.run_clock _ w in
      let slept = timely.sleep_clock 20 w' in
      elim (Bool-cases (flag_on host.run flag)) [
        | inl e ↦ rw (paste_loop, e) (omega arith)
        | inr e ↦ elim (Bool-cases (leb deadline (host.clock w'))) [
          | inl l ↦ rw (paste_loop, e, l) (omega arith)
          | inr l ↦
              let early : host.clock w' < deadline = ground arith in
              rw (paste_loop, e, l)
                (paste_loop_ends fuel deadline target w0 (host.sleep 20 w') (omega arith)
                  (omega arith))
        ]
      ]

  paste_behind_ends :
      (target buffer_name : Bytes) (w0 : W) (wait : Option Bool × W)
      → EndsLater w0 wait
      → EndsLater w0 (paste_behind host.run host.clock host.sleep target buffer_name wait)
  paste_behind_ends target buffer_name w0 (none, w) h = h
  paste_behind_ends target buffer_name w0 (some flag, w) h =
      let pasted =
        bind-IsForward (paste host.run host.clock host.sleep target buffer_name) (λ r. return tt)
          (command-IsForward _ _ _) (λ r w. omega arith) w in
      omega arith

  behind_load_ends :
      (fuel : ℕ) (target buffer_name : Bytes) (w0 : W) (r : Result ProcessResult) (w : W)
      → 150 < fuel
      → host.clock w0 ≤ host.clock w
      → EndsLater w0 (behind_load host.run host.clock host.sleep fuel target buffer_name (r, w))
  unfolding wait_for_bracketed_paste
  behind_load_ends fuel target buffer_name w0 (failure e) w enough later = later
  behind_load_ends fuel target buffer_name w0 (success p) w enough later =
      paste_behind_ends target buffer_name w0 _ (
        paste_loop_ends fuel (host.clock w + paste_wait_ms * ns_per_ms) target w0 w later
          (omega arith))

  -- Sending a text ends within the 3000 milliseconds of its wait, 20 for each round.
  pub send_text_ends :
      (fuel : ℕ) (target text buffer_name : Bytes) (w : W)
      → 150 < fuel
      → EndsLater w (send_text host.run host.clock host.sleep fuel target text buffer_name w)
  unfolding send_text
  send_text_ends fuel target text buffer_name w enough =
      behind_load_ends fuel target buffer_name w _ _ enough (command-IsForward _ _ _ w)
