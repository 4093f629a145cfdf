-- ===== src/Process.antt =====
-- Results, and the outcome of a subprocess (src/result.hpp, src/process.hpp, and
-- `describe_process_result` of src/process.cpp). The runner itself is a parameter of its users.
use jjmcp.Base.{ℕ, ◌≡◌, refl, Bool, true, false, ◌++◌, List, if◌then◌else◌}
use jjmcp.Text.{Bytes, codes, to_string}

-- `value_` is set by `success` and `error_` by `failure`.
pub data Result {ℓ} (A : Type ℓ) : Type ℓ where
  success : A → Result A
  failure : Bytes → Result A

-- `if (!r) return failure(r.error());` in front of what follows.
infixl 5 ◌>>=◌
abbrev pub ◌>>=◌ {ℓ κ} : {A : Type ℓ} {B : Type κ} → Result A → (A → Result B) → Result B
success a >>= f = f a
failure e >>= f = failure e

pub record RunSpec : Type 0 where
  pub argv : List Bytes
  pub stdin_data : Bytes
  pub timeout : ℕ

pub record ProcessResult : Type 0 where
  pub exit_code : ℕ
  pub signaled : Bool
  pub signal_number : ℕ
  pub timed_out : Bool
  pub stdout_text : Bytes
  pub stderr_text : Bytes

unfoldable pub describe_process_result : ProcessResult → Bytes
describe_process_result result =
    if result.timed_out
    then codes "timed out"
    else if result.signaled
    then codes "terminated by signal " ++ to_string result.signal_number
    else codes "exit code " ++ to_string result.exit_code

-- A result behind `if (b) return failure(e);`.
pub guard_success {ℓ} :
    {A : Type ℓ} {a : A} (b : Bool) (e : Bytes) (r : Result A)
    → (if b then failure e else r) ≡ success a
    → (b ≡ false) × (r ≡ success a)
guard_success true e r h = absurd (let k : failure e ≡ success _ = h in cc)
guard_success false e r h = (refl, h)
