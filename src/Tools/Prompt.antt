-- ===== src/Tools/Prompt.antt =====
-- The check for a pane in another REPL mode (src/tools.cpp `is_known_non_julia_prompt`), and the
-- check for a REPL that lost the runtime (`jjmcp_runtime_missing`).
pub mod Idle
use jjmcp.Base.{
  ℕ, ◌≡◌, ◌≢◌, refl, Bool, true, false, ◌&&◌, ◌||◌, [], ◌∷◌, ◌++◌, Option, none, some, drop, arith,
  if◌then◌else◌,
}
use jjmcp.Text.{Bytes, codes, occurs, find_first, starts_with}
use jjmcp.Julia.Lines.{trim_ascii}

unfoldable pub is_known_non_julia_prompt : Bytes → Bool
is_known_non_julia_prompt last_line =
    let trimmed = trim_ascii last_line in
    if occurs (codes "pkg> ") trimmed
    then true
    else if occurs (codes "help?> ") trimmed
    then true
    else if occurs (codes "shell> ") trimmed
    then true
    else false

-- `text.rfind(pat)`, as the text from the last occurrence on.
unfoldable pub from_last : Bytes → Bytes → Option Bytes
from_last pat [] = if starts_with pat [] then some [] else none
from_last pat (c ∷ text) = elim (from_last pat text) [
  | some rest ↦ some rest
  | none ↦ if starts_with pat (c ∷ text) then some (c ∷ text) else none
]

unfoldable pub jjmcp_runtime_missing : Bytes → Bytes → Bool
jjmcp_runtime_missing capture marker_id = elim (from_last marker_id capture) [
  | none ↦ false
  | some echo ↦ elim (find_first (codes "UndefVarError") echo) [
    | none ↦ false
    | some error_pos ↦ occurs (codes "JJMCP_COMMAND") (drop error_pos echo)
  ]
]
