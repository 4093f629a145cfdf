-- ===== src/Tests/Pane.antt =====
-- The commands to tmux, and what is read from the system about a pane, at concrete inputs
-- (src/tmux.cpp, `pane_foreground_generation` and `is_known_non_julia_prompt` of src/tools.cpp).
use jjmcp.Base.{ℕ, ◌≡◌, refl, ap, get_or, true, false, [], ◌∷◌, ◌++◌, some, arith, suc}
use jjmcp.Text.{Bytes, codes, newline, starts_with, ends_with}
use jjmcp.Text.Words.{all_digits}
use jjmcp.Process.{success, failure, RunSpec, ProcessResult}
use jjmcp.Julia.Marker.{make_marker}
use jjmcp.Tmux.Fields.{join_format, split_tmux_fields}
use jjmcp.Tmux.Fields.RoundTrip.{split-join_format}
use jjmcp.Tmux.Commands.{
  Action, PaneInfo, pane_info_of, checked, payload_of, command_failure, send_text,
}
use jjmcp.Tmux.Commands.Failures.{
  Ran, load_spec, paste_spec, waited, send_text_success, pane_info_of-printed,
}
use jjmcp.Tools.Prompt.{is_known_non_julia_prompt}
use jjmcp.Tools.Prompt.Idle.{idle_prompt_unknown}
use jjmcp.Tools.Generation.{pane_foreground_generation}
use jjmcp.Tools.Generation.Stat.{fields, pane_foreground_generation_lem}
use jjmcp.Tools.RuntimeCache.{RuntimeBootstrapCache}
use jjmcp.Tools.Runtime.{ensure_jjmcp_runtime}
use jjmcp.Tools.Runtime.Install.{Agrees, ensure_jjmcp_runtime-Agrees}

abbrev ran : ℕ → Bytes → ProcessResult
ran exit_code text = record {
  exit_code = exit_code;
  signaled = false;
  signal_number = 0;
  timed_out = false;
  stdout_text = text;
  stderr_text = [];
}

-- A runner that counts its calls, and whose every command prints `1`.
abbrev works : RunSpec → Action ℕ ProcessResult
works spec calls = (success (ran 0 (codes "1\n")), suc calls)

-- A clock that does not move, and a sleep that does nothing.
abbrev still : ℕ → ℕ
still w = 0

abbrev no_sleep : ℕ → ℕ → ℕ
no_sleep ms w = w

sent :
    (send_text works still no_sleep 1 (codes "%1") (codes "1 + 1") (codes "b") 0).0
    ≡ some (success tt)
unfolding send_text jjmcp.Tmux.Commands.command jjmcp.Tmux.Commands.run_tmux checked
    jjmcp.Tmux.Commands.◌>>=◌ jjmcp.Tmux.Commands.paste_loop
    jjmcp.Tmux.Commands.wait_for_bracketed_paste jjmcp.Tmux.Commands.poll_flag
    jjmcp.Tmux.Commands.flag_on starts_with
sent = refl

send_text_success_example :
    (ends_with newline (payload_of (codes "1 + 1")) ≡ true)
    × Ran (works (load_spec (codes "1 + 1") (codes "b")) 0).0
    × Ran
        (works
          (paste_spec (codes "%1") (codes "b"))
          (waited works still no_sleep 1 (codes "%1") (codes "1 + 1") (codes "b") 0)).0
send_text_success_example =
    send_text_success works still no_sleep 1 (codes "%1") (codes "1 + 1") (codes "b") 0 sent

split-join_format_example :
    split_tmux_fields (join_format (codes "%1" ∷ codes "a" ∷ []) ++ newline ∷ [])
    ≡ codes "%1" ∷ codes "a" ∷ []
unfolding starts_with
split-join_format_example =
    split-join_format (codes "%1") (codes "a" ∷ []) (omega arith) (omega arith)
      ((refl, (refl, tt)), (refl, tt))

abbrev pane : PaneInfo
pane = record {
  pane_id = codes "%1";
  session_name = codes "s";
  window_index = codes "0";
  pane_index = codes "0";
  current_command = codes "j";
  title = codes "t";
  active = codes "1";
  dead = codes "0";
  current_path = codes "/";
  pane_pid = codes "7";
}

pane_info_of-printed_example :
    pane_info_of (
      split_tmux_fields (
        join_format (
          codes "%1"
          ∷ codes "s"
          ∷ codes "0"
          ∷ codes "0"
          ∷ codes "j"
          ∷ codes "t"
          ∷ codes "1"
          ∷ codes "0"
          ∷ codes "/"
          ∷ codes "7"
          ∷ [])
        ++ newline ∷ []))
    ≡ success pane
unfolding starts_with
pane_info_of-printed_example = pane_info_of-printed pane refl (omega arith) (omega arith) (
  (refl, (refl, tt)),
  (
    (refl, tt),
    (
      (refl, tt),
      (
        (refl, tt),
        ((refl, tt), ((refl, tt), ((refl, tt), ((refl, tt), ((refl, tt), (refl, tt)))))),
      ),
    ),
  ),
)

idle_prompt_unknown_example : is_known_non_julia_prompt (codes "(@v1.10) pkg> ") ≡ false
unfolding jjmcp.Julia.Lines.is_blank
idle_prompt_unknown_example =
    idle_prompt_unknown (codes "(@v1.10) pkg") (codes " ") (omega arith) (refl, tt)

pane_foreground_generation_lem_example :
    pane_foreground_generation (codes "7") (
      some (
        codes "7 (ju) lia"
        ++ b')'
          ∷ fields
              (codes "S" ∷ codes "1" ∷ codes "7" ∷ codes "7" ∷ codes "9" ∷ codes "12" ∷ [])
              (codes "0")))
    ≡ codes "7" ++ codes ":" ++ codes "12"
unfolding all_digits
pane_foreground_generation_lem_example =
    pane_foreground_generation_lem (codes "7") (codes "7 (ju) lia") (codes "S") (codes "1")
      (codes "7") (codes "7") (codes "9") (codes "12") (codes "0") refl refl
      (
        (refl, (refl, tt)),
        (
          (refl, (refl, tt)),
          (
            (refl, (refl, tt)),
            ((refl, (refl, tt)), ((refl, (refl, tt)), ((refl, (refl, (refl, tt))), tt))),
          ),
        ),
      )
      (omega arith) (λ e. let d = ap (λ s. get_or s 0 0) e in omega arith)

abbrev no_panes : RuntimeBootstrapCache
no_panes = record { generations = [] }

ensure_jjmcp_runtime-Agrees_example : Agrees no_panes (codes "%1") (codes "7:12") (
    ensure_jjmcp_runtime no_panes
      (codes "%1")
      (codes "7:12")
      (make_marker (codes "7"))
      (failure (codes "x"))
      [])
ensure_jjmcp_runtime-Agrees_example =
    ensure_jjmcp_runtime-Agrees no_panes (codes "%1") (codes "7:12") (make_marker (codes "7"))
      (failure (codes "x")) []
