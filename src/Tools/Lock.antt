-- ===== src/Tools/Lock.antt =====
-- The advisory lock (src/tools.cpp `AdvisoryLock`). The lock file is its content, or none. The file
-- is opened with `O_CREAT | O_EXCL`, and opening it and writing it count as one step. The parameter
-- `gone` is the test that `kill(pid, 0)` fails with `ESRCH`, on the number that was read.
pub mod Exclusion
pub mod Race
use jjmcp.Base.{
  ℕ, zero, suc, ◌+◌, ◌-◌, ◌^◌, ◌*◌, Bool, true, false, not, ◌&&◌, List, [], ◌∷◌, ◌++◌, Option, none,
  some, ltb, ◌==◌, if◌then◌else◌,
}
use jjmcp.Text.{Bytes, codes, newline, to_string}
use jjmcp.Process.{Result, success, failure}
use jjmcp.Text.Words.{is_digit, is_space}

-- The content that a process writes.
unfoldable pub lock_content : ℕ → Bytes → Bytes
unfolding to_string
lock_content pid marker_id = to_string pid ++ (b' ' ∷ (marker_id ++ newline ∷ []))

unfoldable pub skip_spaces : Bytes → Bytes
skip_spaces [] = []
skip_spaces (c ∷ s) = let rest = skip_spaces s in if is_space c then rest else c ∷ s

-- The digits at the start of a text, as a number behind `n`.
unfoldable pub leading_number : Bytes → ℕ → ℕ
leading_number [] n = n
leading_number (c ∷ s) n =
    let more = leading_number s (n * 10 + (c - b'0')) in if is_digit c then more else n

abbrev pub max_pid : ℕ
max_pid = 9223372036854775807

-- `f >> pid`: a sign and digits behind white space. A number that is not positive, and a text that
-- is no number, count as 0, which the test behind it treats alike; one that is too large is the
-- largest `long long`.
unfoldable pub read_signed : Bytes → ℕ
unfolding leading_number
read_signed [] = 0
read_signed (c ∷ s) =
    let clamped = λ (n : ℕ). if ltb max_pid n then max_pid else n in
    if c == b'-'
    then 0
    else if c == b'+'
    then clamped (leading_number s 0)
    else clamped (leading_number (c ∷ s) 0)

unfoldable pub read_pid : Bytes → ℕ
unfolding read_signed skip_spaces
read_pid content = read_signed (skip_spaces content)

unfoldable pub is_stale : (ℕ → Bool) → Bytes → Bool
unfolding read_pid
is_stale gone content = let pid = read_pid content in ltb 0 pid && gone pid

-- Where a process is in `acquire`: it is about to open the file, with some attempts left; it found
-- the file stale and is about to unlink it; it holds the lock; or it was refused.
pub data Local : Type 0 where
  opening : (attempts : ℕ) → Local
  unlinking : (attempts : ℕ) → Local
  holding : Local
  refused : Bytes → Local

abbrev pub in_progress : Bytes → Bytes
in_progress path = codes "an evaluation is already in progress (lock at " ++ path ++ codes ")"

abbrev pub retried : Bytes
retried = codes "could not acquire advisory lock after retry"

-- One step of a process: what becomes of the file and of the process. A process that holds the lock
-- releases it and may start again.
unfoldable pub lock_step : (ℕ → Bool) → Bytes → Bytes → Option Bytes → Local → Option Bytes × Local
unfolding is_stale
lock_step gone path mine file (opening zero) = (file, refused retried)
lock_step gone path mine none (opening (suc attempts)) = (some mine, holding)
lock_step gone path mine (some content) (opening (suc attempts)) =
    if is_stale gone content
    then (some content, unlinking attempts)
    else (some content, refused (in_progress path))
lock_step gone path mine file (unlinking attempts) = (none, opening attempts)
lock_step gone path mine file holding = (none, opening 2)
lock_step gone path mine file (refused e) = (file, opening 2)

-- The loop of `acquire` with no other process in between.
unfoldable pub acquire_loop :
    ℕ → (ℕ → Bool) → Bytes → Bytes → Option Bytes → Result (Unit {0}) × Option Bytes
unfolding is_stale
acquire_loop zero gone path mine file = (failure retried, file)
acquire_loop (suc attempts) gone path mine none = (success tt, some mine)
acquire_loop (suc attempts) gone path mine (some content) =
    let again = acquire_loop attempts gone path mine none in
    if is_stale gone content then again else (failure (in_progress path), some content)

unfoldable pub acquire :
    (ℕ → Bool) → Bytes → ℕ → Bytes → Option Bytes → Result (Unit {0}) × Option Bytes
unfolding acquire_loop lock_content
acquire gone path pid marker_id file = acquire_loop 2 gone path (lock_content pid marker_id) file
