-- ===== src/Tools/Evaluate/Quiet.antt =====
-- What the stages in front of the lock keep (src/tools.cpp `eval_code`).
use jjmcp.Base.{
  ℕ, inl, inr, Bool, true, false, Option, if◌then◌else◌, Bool-cases, Option-cases, ◌++◌,
}
use jjmcp.Text.{Bytes, codes, ◌=ᵇ◌}
use jjmcp.Process.{Result, success, failure}
use jjmcp.Json.{Json}
use jjmcp.Tmux.Commands.{PaneInfo, alive, pane_info, capture_pane, send_key}
use jjmcp.Tools.Prompt.{is_known_non_julia_prompt}
use jjmcp.Tools.Dispatcher.{
  SocketEvalResponse, Host, Dispatcher, Stage, answered, going, threw, unfinished, Flow, ◌>>=◌,
  return, outside_of, target_of, bound_target,
}
use jjmcp.Tools.Stages.{
  or_fail, bound, bound_pane, route, after_socket, rechecked, recheck, after_last_line,
  check_prompt, with_lock, last_line, backspace, fail,
}
use jjmcp.Tools.Evaluate.{marker_eval, eval_code}

-- A handler is done, except where a loop has had its rounds, which is as `U` says.
abbrev pub IsDone : {V A : Type 0} → Type 0 → Stage V A → Type 0
IsDone U (answered r) = Unit {0}
IsDone U (going a) = Unit {0}
IsDone U (threw what) = Unit {0}
IsDone U unfinished = U

-- What holds of the dispatcher still holds behind a handler, and the handler is done.
abbrev pub Keeps : {W V A : Type 0} → (Dispatcher W → Type 0) → Type 0 → Flow W V A → Type 0
Keeps {W} P U m = (d : Dispatcher W) → P d → P (m d).1 × IsDone U (m d).0

module _ {W V : Type 0} (P : Dispatcher W → Type 0) (U : Type 0) where
  pub bind-Keeps :
      {A B : Type 0} (m : Flow W V A) (f : A → Flow W V B)
      → Keeps P U m
      → ((a : A) → Keeps P U (f a))
      → Keeps P U (m >>= f)
  unfolding ◌>>=◌
  bind-Keeps {A} {B} m f hm hf d p = go (m d).0 (m d).1 (hm d p)
    where
      Behind : Stage V B × Dispatcher W → Type 0
      Behind (stage, d') = P d' × IsDone U stage

      go :
          (stage : Stage V A) (d' : Dispatcher W)
          → P d' × IsDone U stage
          → Behind (elim stage as (λ _. Stage V B × Dispatcher W) [
            | answered r ↦ (answered r, d')
            | going a ↦ f a d'
            | threw what ↦ (threw what, d')
            | unfinished ↦ (unfinished, d')
          ])
      go (answered r) d' q = q
      go (going a) d' q = hf a d' q.0
      go (threw what) d' q = q
      go unfinished d' q = q

  if-Keeps :
      {A : Type 0} (b : Bool) (m n : Flow W V A)
      → Keeps P U m
      → Keeps P U n
      → Keeps P U (if b then m else n)
  if-Keeps true m n hm hn = hm
  if-Keeps false m n hm hn = hn

-- The commands in front of the lock: they look at the pane, and press backspace.
pub record IsQuiet {W : Type 0} (host : Host W) (I : W → Type 0) : Type 0 where
  pub quiet_info : (target : Bytes) (w : W) → I w → I (pane_info host.run target w).1
  pub quiet_capture :
      (target : Bytes) (lines : ℕ) (w : W) → I w → I (capture_pane host.run target lines w).1
  pub quiet_key : (target : Bytes) (w : W) → I w → I (send_key host.run target (codes "BSpace") w).1
  pub quiet_socket :
      (path code : Bytes) (timeout_ms : ℕ) (w : W)
      → I w
      → I (host.socket_eval path code timeout_ms w).1
  pub quiet_sleep : (ms : ℕ) (w : W) → I w → I (host.sleep ms w)

-- Where nothing has to be kept.
pub any_quiet : {W : Type 0} (host : Host W) → IsQuiet host (λ w. Unit {0})
any_quiet host = record {
  quiet_info = λ target w u. u;
  quiet_capture = λ target lines w u. u;
  quiet_key = λ target w u. u;
  quiet_socket = λ path code timeout_ms w u. u;
  quiet_sleep = λ ms w u. u;
}

module _ {W : Type 0} (host : Host W) (json : Json) (I : W → Type 0) (quiet : IsQuiet host I)
    (L : Option Bytes → Type 0) (U : Type 0) where
  open json use {Value}

  -- The world is as it has to be, and so is the lock file.
  abbrev pub Still : Dispatcher W → Type 0
  Still d = I d.outside × L d.lock_file

  pub or_fail-Keeps : {A : Type 0} (r : Result A) → Keeps Still U (or_fail host json r)
  or_fail-Keeps (success a) d p = (p, tt)
  or_fail-Keeps (failure e) d p = (p, tt)

  pub bound-Keeps : Keeps Still U (bound host json)
  unfolding bound
  bound-Keeps d p = elim (Option-cases d.state.binding) [
    | inl e ↦ rw e (p, tt)
    | inr (binding, e) ↦ rw e (p, tt)
  ]

  bound_pane-Keeps : Keeps Still U (bound_pane host json)
  unfolding bound_pane
  bound_pane-Keeps = bind-Keeps Still U (bound host json) _ bound-Keeps (λ binding.
      bind-Keeps Still U (outside_of (pane_info host.run (target_of binding))) _
        (λ d p. ((quiet.quiet_info _ d.outside p.0, p.1), tt))
        (λ info. bind-Keeps Still U (or_fail host json info) _ (or_fail-Keeps info) (λ pane.
          if-Keeps Still U (alive pane) (return pane)
            (fail host json (codes "bound tmux pane appears dead: " ++ target_of binding))
            (λ d p. (p, tt)) (λ d p. (p, tt)))))

  after_socket-Keeps :
      (transport : Bytes) (capture_lines : ℕ) (resp : Result SocketEvalResponse)
      → Keeps Still U (after_socket host json transport capture_lines resp)
  unfolding after_socket
  after_socket-Keeps transport capture_lines (success r) d p = (p, tt)
  after_socket-Keeps transport capture_lines (failure e) d p =
      elim (Bool-cases (transport =ᵇ codes "socket")) [
        | inl t ↦ rw t (p, tt)
        | inr t ↦ rw t (p, tt)
      ]

  route-Keeps :
      (code : Bytes) (timeout_ms capture_lines : ℕ) (transport : Bytes)
      → Keeps Still U (route host json code timeout_ms capture_lines transport)
  unfolding route
  route-Keeps code timeout_ms capture_lines transport d p =
      let path = host.default_socket_path (bound_target d.state) d.outside in
      let over_socket =
        bind-Keeps Still U (outside_of (host.socket_eval path code timeout_ms))
          (after_socket host json transport capture_lines)
          (λ d p. ((quiet.quiet_socket path code timeout_ms d.outside p.0, p.1), tt))
          (after_socket-Keeps transport capture_lines) d p in
      elim (Bool-cases (transport =ᵇ codes "tmux")) [
        | inl e ↦ rw e (p, tt)
        | inr e ↦ elim (Bool-cases (host.socket_exists path d.outside)) [
          | inl s ↦ rw (e, s) over_socket
          | inr s ↦ elim (Bool-cases (transport =ᵇ codes "socket")) [
            | inl t ↦ rw (e, s, t) (p, tt)
            | inr t ↦ rw (e, s, t) (p, tt)
          ]
        ]
      ]

  last_line-Keeps : Keeps Still U (last_line host json)
  last_line-Keeps d p = ((quiet.quiet_capture _ 1 d.outside p.0, p.1), tt)

  rechecked-Keeps :
      (line : Bytes) (again : Result Bytes) → Keeps Still U (rechecked host json line again)
  unfolding rechecked
  rechecked-Keeps line (failure e) d p = (p, tt)
  rechecked-Keeps line (success line') d p = elim (Bool-cases (is_known_non_julia_prompt line')) [
    | inl e ↦ rw e (p, tt)
    | inr e ↦ rw e (p, tt)
  ]

  recheck-Keeps : (line : Bytes) → Keeps Still U (recheck host json line)
  unfolding recheck
  recheck-Keeps line =
      let pressed =
        bind-Keeps Still U (backspace host json) _
          (λ d p. ((quiet.quiet_key _ d.outside p.0, p.1), tt))
          (λ sent d p. ((quiet.quiet_sleep 100 d.outside p.0, p.1), tt)) in
      bind-Keeps Still U _ _ pressed
        (λ u. bind-Keeps Still U (last_line host json) _ last_line-Keeps (rechecked-Keeps line))

  after_last_line-Keeps : (last : Result Bytes) → Keeps Still U (after_last_line host json last)
  unfolding after_last_line
  after_last_line-Keeps (failure e) d p = (p, tt)
  after_last_line-Keeps (success line) d p = elim (Bool-cases (is_known_non_julia_prompt line)) [
    | inl e ↦ rw e (recheck-Keeps line d p)
    | inr e ↦ rw e (p, tt)
  ]

  check_prompt-Keeps : (force : Bool) → Keeps Still U (check_prompt host json force)
  unfolding check_prompt
  check_prompt-Keeps true d p = (p, tt)
  check_prompt-Keeps false d p =
      bind-Keeps Still U (last_line host json) _ last_line-Keeps after_last_line-Keeps d p

  pub eval_code-Keeps :
      (fuel : ℕ) (code : Bytes) (timeout_ms capture_lines : ℕ) (force active : Bool)
      (transport : Bytes)
      → ((pane : PaneInfo)
          → Keeps Still U (
              with_lock host json
                (marker_eval host json fuel code timeout_ms capture_lines active pane)))
      → Keeps Still U
          (eval_code host json fuel code timeout_ms capture_lines force active transport)
  unfolding eval_code
  eval_code-Keeps fuel code timeout_ms capture_lines force active transport locked d p =
      bind-Keeps Still U (bound_pane host json) _ bound_pane-Keeps
        (λ pane.
          bind-Keeps Still U (route host json code timeout_ms capture_lines transport) _
            (route-Keeps code timeout_ms capture_lines transport)
            (λ u.
              bind-Keeps Still U (check_prompt host json force) _ (check_prompt-Keeps force)
                (λ v. locked pane)))
        (record d { last_code = code }) p
