-- ===== src/Tmux/Commands/Failures.antt =====
-- How the commands to tmux end, and what they have done by then.
use jjmcp.Base.{
  ℕ, ◌≡◌, inl, inr, refl, true, false, not, Bool, Option, none, some, some_inj, ◌||◌, [], ◌∷◌, ◌++◌,
  ◌==◌, arith, Bool-cases, ==_iff,
}
use jjmcp.Text.{Bytes, codes, newline, is_empty, ends_with}
use jjmcp.Text.Laws.{ends_with-append}
use jjmcp.Process.{Result, success, failure, RunSpec, ProcessResult}
use jjmcp.Tmux.Fields.{join_format, split_tmux_fields}
use jjmcp.Tmux.Fields.RoundTrip.{AllLack, AreApart, split-join_format}
use jjmcp.Tmux.Commands.{
  Action, ◌>>=◌, return, command_failure, make_tmux_argv, PaneInfo, pane_info_of, checked,
  command_timeout, payload_of, run_tmux, command, wait_for_bracketed_paste, send_text, load, paste,
  paste_behind, behind_load, paste_wait_ms,
}

pub payload_of-ends_with : (text : Bytes) → ends_with newline (payload_of text) ≡ true
unfolding payload_of
payload_of-ends_with text = elim (Bool-cases (is_empty text || not (ends_with newline text))) [
  | inl e ↦ rw e (ends_with-append newline text)
  | inr e ↦ rw e (ground arith)
]

-- The command ran and exited with 0.
abbrev pub Ran : Result ProcessResult → Type 0
Ran r = (p : ProcessResult) × (r ≡ success p) × (p.exit_code ≡ 0)

-- The tests behind a command let through what ran and exited with 0, and nothing else.
checked_success :
    (label : Bytes) (r : Result ProcessResult) (p : ProcessResult)
    → checked label r ≡ success p
    → Ran r
unfolding checked
checked_success label (failure e) p h = cc
checked_success label (success q) p h = elim (Bool-cases (q.exit_code == 0)) [
  | inl e ↦ (q, refl, (==_iff q.exit_code 0).0 e)
  | inr e ↦ let g : failure (command_failure label q) ≡ success p = rw e at h in cc
]

bind_success :
    {W A B : Type 0} {b : B} (m : Action W A) (f : A → Action W B) (w : W)
    → ((m >>= f) w).0 ≡ success b
    → (a : A) × ((m w).0 ≡ success a) × ((f a (m w).1).0 ≡ success b)
unfolding ◌>>=◌
bind_success {W} {A} {B} {b} m f w h = go (m w).0 refl h
  where
    go :
        (r : Result A)
        → (m w).0 ≡ r
        → (elim r as (λ _. Result B × W) [
          | success a ↦ f a (m w).1
          | failure x ↦ (failure x, (m w).1)
        ]).0
          ≡ success b
        → (a : A) × ((m w).0 ≡ success a) × ((f a (m w).1).0 ≡ success b)
    go (success a) e g = (a, e, g)
    go (failure x) e g = cc

-- The two commands of `send_text`.
abbrev pub load_spec : Bytes → Bytes → RunSpec
load_spec text buffer_name = record {
  argv = make_tmux_argv (codes "load-buffer" ∷ codes "-b" ∷ buffer_name ∷ codes "-" ∷ []);
  stdin_data = payload_of text;
  timeout = command_timeout;
}

abbrev pub paste_spec : Bytes → Bytes → RunSpec
paste_spec target buffer_name = record {
  argv = make_tmux_argv (
      codes "paste-buffer"
      ∷ codes "-p"
      ∷ codes "-d"
      ∷ codes "-b"
      ∷ buffer_name
      ∷ codes "-t"
      ∷ target
      ∷ []);
  stdin_data = [];
  timeout = command_timeout;
}

module _ {W : Type 0} (run : RunSpec → Action W ProcessResult) (clock : W → ℕ)
    (sleep : ℕ → W → W) where
  -- The states between the calls of `send_text`.
  abbrev pub loaded : Bytes → Bytes → W → W
  loaded text buffer_name w = (run (load_spec text buffer_name) w).1

  abbrev pub waited : ℕ → Bytes → Bytes → Bytes → W → W
  waited fuel target text buffer_name w =
      (wait_for_bracketed_paste run clock sleep fuel target paste_wait_ms
        (loaded text buffer_name w)).1

  paste_success :
      (target buffer_name : Bytes) (wait : Option Bool × W)
      → (paste_behind run clock sleep target buffer_name wait).0 ≡ some (success tt)
      → Ran (run (paste_spec target buffer_name) wait.1).0
  unfolding command run_tmux
  paste_success target buffer_name (none, w) h = cc
  paste_success target buffer_name (some flag, w) h =
      let (q, pastes, _) =
        bind_success (paste run clock sleep target buffer_name) (λ _. return tt) w (some_inj h) in
      checked_success _ _ q pastes

  loaded_success :
      (fuel : ℕ) (target buffer_name : Bytes) (r : Result ProcessResult) (w : W)
      → (behind_load run clock sleep fuel target buffer_name (r, w)).0 ≡ some (success tt)
      → (p : ProcessResult) × (r ≡ success p)
        × Ran
            (run
              (paste_spec target buffer_name)
              (wait_for_bracketed_paste run clock sleep fuel target paste_wait_ms w).1).0
  loaded_success fuel target buffer_name (failure e) w h = absurd (let k = some_inj h in cc)
  loaded_success fuel target buffer_name (success p) w h =
      (p, refl, paste_success target buffer_name _ h)

  -- A text is reported as sent only if the buffer was loaded with it, closed by a line end, and then
  -- pasted to the target, each command with exit code 0, the paste behind the wait for the REPL.
  pub send_text_success :
      (fuel : ℕ) (target text buffer_name : Bytes) (w : W)
      → (send_text run clock sleep fuel target text buffer_name w).0 ≡ some (success tt)
      → (ends_with newline (payload_of text) ≡ true)
        × Ran (run (load_spec text buffer_name) w).0
        × Ran (run (paste_spec target buffer_name) (waited fuel target text buffer_name w)).0
  unfolding send_text command run_tmux
  send_text_success fuel target text buffer_name w h =
      let (p, loads, pastes) =
        loaded_success fuel target buffer_name (load run clock sleep text buffer_name w).0
          (loaded text buffer_name w) h in
      (payload_of-ends_with text, checked_success _ _ p loads, pastes)

-- What tmux prints for a pane is read back: if no field holds a line end or starts a separator, and
-- the pane id is not empty, the line of the ten fields gives exactly the pane that they describe.
pub pane_info_of-printed :
    (p : PaneInfo)
    → is_empty p.pane_id ≡ false
    → let rest =
        p.session_name ∷ p.window_index ∷ p.pane_index ∷ p.current_command ∷ p.title ∷ p.active
        ∷ p.dead ∷ p.current_path ∷ p.pane_pid ∷ [] in
      AllLack 13 (p.pane_id ∷ rest)
      → AllLack 10 (p.pane_id ∷ rest)
      → AreApart p.pane_id rest
      → pane_info_of (split_tmux_fields (join_format (p.pane_id ∷ rest) ++ newline ∷ []))
        ≡ success p
unfolding pane_info_of
pane_info_of-printed p some_id hr hn apart = rw (split-join_format p.pane_id _ hr hn apart, some_id)
