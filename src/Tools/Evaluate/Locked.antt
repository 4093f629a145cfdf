-- ===== src/Tools/Evaluate/Locked.antt =====
-- The advisory lock around an evaluation (src/tools.cpp `eval_code`).
use jjmcp.Base.{ℕ, ◌≡◌, ◌⊎◌, inl, inr, refl, sym, Bool, false, Option, none, some, Bool-cases}
use mathlib.Core.Path.{subst}
use jjmcp.Text.{Bytes, to_string}
use jjmcp.Process.{Result, success, failure}
use jjmcp.Json.{Json}
use jjmcp.Tools.Lock.{acquire, acquire_loop, lock_content, is_stale, in_progress}
use jjmcp.Tools.Dispatcher.{Host, Dispatcher, Stage, answered, going, threw, unfinished, Flow}
use jjmcp.Tools.Stages.{with_lock, locked_by, lock_path, next_sequence}
use jjmcp.Tools.Evaluate.{eval_code}
use jjmcp.Tools.Evaluate.Quiet.{IsDone, Keeps, IsQuiet, any_quiet, eval_code-Keeps}

-- The lock is taken, or the file stays.
acquire_cases :
    (gone : ℕ → Bool) (path : Bytes) (pid : ℕ) (id : Bytes) (file : Option Bytes)
    → ((file' : Option Bytes) × (◌≡◌ {A = Result (Unit {0}) × Option Bytes}
          (acquire gone path pid id file)
          (success tt, file')))
      ⊎ ((e : Bytes) × (◌≡◌ {A = Result (Unit {0}) × Option Bytes}
            (acquire gone path pid id file)
            (failure e, file)))
unfolding acquire acquire_loop
acquire_cases gone path pid id none = inl (_, refl)
acquire_cases gone path pid id (some content) = elim (Bool-cases (is_stale gone content)) [
  | inl e ↦ inl (some (lock_content pid id), rw e refl)
  | inr e ↦ inr (in_progress path, rw e refl)
]

acquire_held :
    (gone : ℕ → Bool) (path : Bytes) (pid : ℕ) (id content : Bytes)
    → is_stale gone content ≡ false
    → ◌≡◌ {A = Result (Unit {0}) × Option Bytes}
        (acquire gone path pid id (some content))
        (failure (in_progress path), some content)
unfolding acquire acquire_loop
acquire_held gone path pid id content held = rw held refl

IsDone-any : {V A : Type 0} (stage : Stage V A) → IsDone (Unit {0}) stage
IsDone-any (answered r) = tt
IsDone-any (going a) = tt
IsDone-any (threw what) = tt
IsDone-any unfinished = tt

module _ {W : Type 0} (host : Host W) (json : Json) where
  with_lock-held :
      {A : Type 0} (body : Flow W json.Value A) (I : W → Type 0) (content : Bytes)
      → ((w : W) → is_stale (host.gone w) content ≡ false)
      → Keeps
          (λ d. I d.outside × (d.lock_file ≡ some content))
          (Unit {0})
          (with_lock host json body)
  unfolding with_lock locked_by
  with_lock-held body I content held d (same, file) =
      let id = to_string (next_sequence d.state) in
      let e =
        subst
          (λ f.
            ◌≡◌ {A = Result (Unit {0}) × Option Bytes}
              (acquire (host.gone d.outside) (lock_path d.state) host.pid id f)
              (failure (in_progress (lock_path d.state)), some content))
          (sym file)
          (acquire_held (host.gone d.outside) (lock_path d.state) host.pid id content
            (held d.outside)) in
      rw (with_lock, e) ((same, refl), tt)

  with_lock-free :
      {A : Type 0} (body : Flow W json.Value A) (file : Option Bytes)
      → Keeps
          (λ d. Unit {0} × ((d.lock_file ≡ none) ⊎ (d.lock_file ≡ file)))
          (Unit {0})
          (with_lock host json body)
  unfolding with_lock locked_by
  with_lock-free body file d (u, before) =
      elim (acquire_cases (host.gone d.outside) (lock_path d.state) host.pid
        (to_string (next_sequence d.state)) d.lock_file) [
          | inl (file', e) ↦ rw (with_lock, e) ((tt, inl refl), IsDone-any _)
          | inr (why, e) ↦ rw (with_lock, e) ((tt, before), tt)
        ]

  -- While the lock file names a process that is at no time found gone, an evaluation leaves it in place,
  -- and whatever holds of the world and is kept by a look at the pane, the backspace key, a request to
  -- the socket and a sleep still holds behind it.
  pub eval_code_excluded :
      (I : W → Type 0) (content : Bytes) (fuel : ℕ) (code : Bytes) (timeout_ms capture_lines : ℕ)
      (force active : Bool) (transport : Bytes) (d : Dispatcher W)
      → IsQuiet host I
      → ((w : W) → is_stale (host.gone w) content ≡ false)
      → d.lock_file ≡ some content
      → I d.outside
      → I
          (eval_code host json fuel code timeout_ms capture_lines force active transport
            d).1.outside
        × ((eval_code host json fuel code timeout_ms capture_lines force active transport
              d).1.lock_file
            ≡ some content)
  eval_code_excluded I content fuel code timeout_ms capture_lines force active transport d quiet
        held file same =
      (eval_code-Keeps host json I quiet (λ f. f ≡ some content) (Unit {0}) fuel code timeout_ms
        capture_lines force active transport (λ pane. with_lock-held _ I content held) d
        (same, file)).0

  -- On every way out of an evaluation the lock is released: the lock file is gone, or it is the one
  -- that was there before.
  pub eval_code_releases :
      (fuel : ℕ) (code : Bytes) (timeout_ms capture_lines : ℕ) (force active : Bool)
      (transport : Bytes) (d : Dispatcher W)
      → ((eval_code host json fuel code timeout_ms capture_lines force active transport
            d).1.lock_file
          ≡ none)
        ⊎ ((eval_code host json fuel code timeout_ms capture_lines force active transport
              d).1.lock_file
            ≡ d.lock_file)
  eval_code_releases fuel code timeout_ms capture_lines force active transport d =
      (eval_code-Keeps host json (λ w. Unit {0}) (any_quiet host)
        (λ f. (f ≡ none) ⊎ (f ≡ d.lock_file)) (Unit {0}) fuel code timeout_ms capture_lines force
        active transport (λ pane. with_lock-free _ d.lock_file) d (tt, inr refl)).0.1
