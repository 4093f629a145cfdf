-- ===== src/Tools/Dispatch/Unbound.antt =====
-- The tools without a bound pane (src/tools.cpp `dispatch`).
use jjmcp.Base.{ℕ, ◌≡◌, ◌⊎◌, inl, inr, refl, Bool, true, false, Option, none, if◌then◌else◌}
use mathlib.Core.Bool.{false≢true}
use jjmcp.Text.{Bytes, codes}
use jjmcp.Process.{Result, success, failure}
use jjmcp.Json.{Json, value_boolean}
use jjmcp.State.{Binding, ServerState}
use jjmcp.Julia.Code.{make_activate_code}
use jjmcp.Tools.Arguments.{require_string}
use jjmcp.Tools.Dispatcher.{
  Host, Dispatcher, Reply, Stage, answered, going, threw, unfinished, Flow, ◌>>=◌,
}
use jjmcp.Tools.Stages.{or_fail, error_reply, not_bound, bound, bound_pane, fail}
use jjmcp.Tools.Evaluate.{eval_code}
use jjmcp.Tools.Handlers.{default_timeout_ms, capture, interrupt, or_throw}
use jjmcp.Tools.TestResults.{capture_test_results}
use jjmcp.Tools.Dispatch.{
  Tool, revise, activate, test, pkg_status, run_code, dispatch_tool, eval, syntax_checked,
  check_syntax,
}

-- The tools that need a bound pane: all but the list of panes, the binding, the status and the
-- transcript.
abbrev pub needs_binding : Tool → Bool
needs_binding Tool.capture_tool = true
needs_binding Tool.capture_test_results_tool = true
needs_binding Tool.interrupt_tool = true
needs_binding Tool.revise_tool = true
needs_binding Tool.activate_tool = true
needs_binding Tool.test_tool = true
needs_binding Tool.pkg_status_tool = true
needs_binding Tool.eval_tool = true
needs_binding Tool.list_tmux_tool = false
needs_binding Tool.bind_tool = false
needs_binding Tool.status_tool = false
needs_binding Tool.transcript_tool = false
needs_binding Tool.unknown_tool = false

-- A call that fails, with the lock file left alone and the world as `S` says.
abbrev pub IsRefusal :
    {W V : Type 0} → (W → Type 0) → Option Bytes → Stage V (Reply V) × Dispatcher W → Type 0
IsRefusal S file (answered r, d') =
    (r.result.is_error ≡ true) × S d'.outside × (d'.lock_file ≡ file)
IsRefusal S file (threw what, d') = S d'.outside × (d'.lock_file ≡ file)
IsRefusal S file (going r, d') = ⊥
IsRefusal S file (unfinished, d') = ⊥

module _ {W : Type 0} (host : Host W) (json : Json) where
  open json use {Value}

  bound_refused :
      (f : Binding → Flow W Value (Reply Value)) (d : Dispatcher W)
      → d.state.binding ≡ none
      → ◌≡◌ {A = Stage Value (Reply Value) × Dispatcher W}
          ((bound host json >>= f) d)
          (answered (error_reply host json (not_bound host json)), d)
  unfolding ◌>>=◌ bound
  bound_refused f d none_bound = rw none_bound refl

  bound-IsRefusal :
      (S : W → Type 0) (f : Binding → Flow W Value (Reply Value)) (d : Dispatcher W)
      → S d.outside
      → d.state.binding ≡ none
      → IsRefusal S d.lock_file ((bound host json >>= f) d)
  bound-IsRefusal S f d same none_bound = rw (bound_refused f d none_bound) (refl, same, refl)

  eval_code_refused :
      (fuel : ℕ) (code : Bytes) (timeout_ms capture_lines : ℕ) (force active : Bool)
      (transport : Bytes) (d : Dispatcher W)
      → d.state.binding ≡ none
      → ◌≡◌ {A = Stage Value (Reply Value) × Dispatcher W}
          (eval_code host json fuel code timeout_ms capture_lines force active transport d)
          (answered (error_reply host json (not_bound host json)), record d { last_code = code })
  unfolding eval_code ◌>>=◌ bound bound_pane
  eval_code_refused fuel code timeout_ms capture_lines force active transport d none_bound =
      rw none_bound refl

  module _ (fuel : ℕ) (active : Bool) (cwd : Bytes) (lexically_normal : Bytes → Bytes)
      (save_config : ServerState → W → Result (Unit {0}) × W)
      (validate : Bytes → W → Result (Unit {0}) × W) where
    run_code_refused :
        (S : W → Type 0) (arguments : Value) (default_timeout : ℕ) (force : Bool)
        (transport code : Bytes) (d : Dispatcher W)
        → S d.outside
        → d.state.binding ≡ none
        → IsRefusal S d.lock_file (
            run_code host json fuel active cwd lexically_normal save_config validate arguments
              default_timeout force transport code d)
    run_code_refused S arguments default_timeout force transport code d same none_bound =
        rw (eval_code_refused fuel code _ _ force active transport d none_bound) (refl, same, refl)

    activate_refused :
        (S : W → Type 0) (path : Result Bytes) (arguments : Value) (d : Dispatcher W)
        → S d.outside
        → d.state.binding ≡ none
        → IsRefusal S d.lock_file (
            (or_fail host json path >>= λ p.
            run_code host json fuel active cwd lexically_normal save_config validate arguments
              default_timeout_ms false
              (codes "auto")
              (make_activate_code p))
              d)
    unfolding ◌>>=◌
    activate_refused S (failure e) arguments d same none_bound = (refl, same, refl)
    activate_refused S (success p) arguments d same none_bound =
        run_code_refused S arguments _ _ _ _ d same none_bound

    syntax_refused :
        (S : W → Type 0) (ok : Result (Unit {0})) (arguments : Value) (force : Bool)
        (transport code : Bytes) (d : Dispatcher W)
        → S d.outside
        → d.state.binding ≡ none
        → IsRefusal S d.lock_file (
            (syntax_checked host json fuel active cwd lexically_normal save_config validate ok
                >>= λ u.
                    run_code host json fuel active cwd lexically_normal save_config validate
                      arguments default_timeout_ms force transport code)
              d)
    unfolding ◌>>=◌
    syntax_refused S (failure e) arguments force transport code d same none_bound =
        (refl, same, refl)
    syntax_refused S (success u) arguments force transport code d same none_bound =
        run_code_refused S arguments _ force transport code d same none_bound

    -- What a refused evaluation does to the world: nothing, or the check of the syntax of its code, if
    -- the arguments ask for it.
    abbrev pub Checked : Value → W → W → Type 0
    Checked arguments w w' =
        (w' ≡ w)
        ⊎ ((code : Bytes) × (require_string json arguments (codes "code") ≡ success code)
            × (value_boolean json arguments (codes "validate_syntax") true ≡ success true)
            × (w' ≡ (validate code w).1))

    eval_refused :
        (code : Result Bytes) (force check : Result Bool) (good : Bool) (transport : Bytes)
        (arguments : Value) (d : Dispatcher W)
        → require_string json arguments (codes "code") ≡ code
        → value_boolean json arguments (codes "validate_syntax") true ≡ check
        → d.state.binding ≡ none
        → IsRefusal (Checked arguments d.outside) d.lock_file (
            (or_fail host json code >>= λ c. or_throw host json force >>= λ f.
            or_throw host json check >>= λ v.
            if good
            then (check_syntax host json fuel active cwd lexically_normal save_config validate v c
                >>= λ u.
                    run_code host json fuel active cwd lexically_normal save_config validate
                      arguments default_timeout_ms f transport c)
            else fail host json (codes "transport must be one of: auto, tmux, socket"))
              d)
    unfolding ◌>>=◌
    eval_refused (failure e) force check good transport arguments d ec ev none_bound =
        (refl, inl refl, refl)
    eval_refused (success c) (failure e) check good transport arguments d ec ev none_bound =
        (inl refl, refl)
    eval_refused (success c) (success f) (failure e) good transport arguments d ec ev none_bound =
        (inl refl, refl)
    eval_refused (success c) (success f) (success v) false transport arguments d ec ev none_bound =
        (refl, inl refl, refl)
    eval_refused (success c) (success f) (success false) true transport arguments d ec ev
          none_bound =
        run_code_refused (Checked arguments d.outside) arguments _ f transport c d (inl refl)
          none_bound
    eval_refused (success c) (success f) (success true) true transport arguments d ec ev
          none_bound =
        syntax_refused (Checked arguments d.outside) (validate c d.outside).0 arguments f transport
          c (record d { outside = (validate c d.outside).1 }) (inr (c, ec, ev, refl)) none_bound

    -- How the world may stand behind the refusal of a tool.
    abbrev pub Spared : Tool → Value → W → W → Type 0
    Spared Tool.eval_tool arguments w w' = Checked arguments w w'
    Spared _ arguments w w' = w' ≡ w

    -- Without a binding, every tool that needs a bound pane fails and leaves the lock file alone,
    -- whatever its arguments. It runs no command, except that an evaluation whose arguments ask for it
    -- checks the syntax of its code first.
    pub unbound_refused :
        (tool : Tool) (name : Bytes) (arguments : Value) (d : Dispatcher W)
        → needs_binding tool ≡ true
        → d.state.binding ≡ none
        → IsRefusal (Spared tool arguments d.outside) d.lock_file (
            dispatch_tool host json fuel active cwd lexically_normal save_config validate tool name
              arguments d)
    unfolding dispatch_tool capture interrupt capture_test_results revise activate test pkg_status
        eval
    unbound_refused Tool.capture_tool name arguments d needs none_bound =
        bound-IsRefusal _ _ d refl none_bound
    unbound_refused Tool.capture_test_results_tool name arguments d needs none_bound =
        bound-IsRefusal _ _ d refl none_bound
    unbound_refused Tool.interrupt_tool name arguments d needs none_bound =
        bound-IsRefusal _ _ d refl none_bound
    unbound_refused Tool.revise_tool name arguments d needs none_bound =
        run_code_refused _ arguments _ _ _ _ d refl none_bound
    unbound_refused Tool.activate_tool name arguments d needs none_bound =
        activate_refused _ (require_string json arguments (codes "path")) arguments d refl
          none_bound
    unbound_refused Tool.test_tool name arguments d needs none_bound =
        run_code_refused _ arguments _ _ _ _ d refl none_bound
    unbound_refused Tool.pkg_status_tool name arguments d needs none_bound =
        run_code_refused _ arguments _ _ _ _ d refl none_bound
    unbound_refused Tool.eval_tool name arguments d needs none_bound =
        eval_refused (require_string json arguments (codes "code")) _
          (value_boolean json arguments (codes "validate_syntax") true) _ _ arguments d refl refl
          none_bound
    unbound_refused Tool.list_tmux_tool name arguments d needs none_bound =
        absurd (false≢true needs)
    unbound_refused Tool.bind_tool name arguments d needs none_bound = absurd (false≢true needs)
    unbound_refused Tool.status_tool name arguments d needs none_bound = absurd (false≢true needs)
    unbound_refused Tool.transcript_tool name arguments d needs none_bound =
        absurd (false≢true needs)
    unbound_refused Tool.unknown_tool name arguments d needs none_bound = absurd (false≢true needs)
