-- ===== src/Tools/Runtime.antt =====
-- The installation of the runtime in the bound pane (src/tools.cpp `ensure_jjmcp_runtime`). What
-- `send_text` gave and the polls behind it are inputs, as for an evaluation.
pub mod Install
use jjmcp.Base.{ℕ, ◌≤◌, Bool, true, false, not, ◌&&◌, ◌||◌, List, [], ◌∷◌, ◌++◌, if◌then◌else◌}
use jjmcp.Text.{Bytes, codes, newline, is_empty, ends_with}
use jjmcp.Process.{Result, success, failure}
use jjmcp.Julia.Marker.{Marker}
use jjmcp.Julia.Extract.{ExtractedOutput}
use jjmcp.Tools.Output.{truncate_tool_tail, max_mcp_text_bytes}
use jjmcp.Tools.RuntimeCache.{RuntimeBootstrapCache, is_current, mark}
use jjmcp.Tools.Eval.{splice, extract_live}

unfoldable pub install_timed_out : Marker → Bytes → Bytes
install_timed_out marker last_capture =
    let out = codes "Timed out while installing JJMCP Julia runtime before " ++ marker.end in
    if is_empty last_capture
    then out
    else out
      ++ codes "\nRecent pane output:\n"
      ++ truncate_tool_tail last_capture 120 max_mcp_text_bytes

unfoldable pub install_error : ExtractedOutput → Bytes
install_error e =
    let text = e.error_message in
    let closed =
      if not (is_empty text) && not (ends_with newline text) then text ++ newline ∷ [] else text in
    codes "failed to install JJMCP Julia runtime:\n"
    ++ (if is_empty e.backtrace then text else closed ++ e.backtrace)

-- What follows the loop.
unfoldable pub install_result : ExtractedOutput → Result (Unit {0})
install_result e = if e.julia_error then failure (install_error e) else success tt

-- The loop on the polls: the pane has not answered yet, or what the installation has given.
pub data Installing : Type 0 where
  pending : Installing
  installed : Result (Unit {0}) → Installing

unfoldable pub install_loop : Marker → Bytes → Bytes → List (Result Bytes × Bool) → Installing
install_loop marker accumulator last_capture [] = pending
install_loop marker accumulator last_capture ((failure e, late) ∷ polls) = installed (failure e)
install_loop marker accumulator last_capture ((success cap, late) ∷ polls) =
    let accumulator' = (splice accumulator last_capture cap).0 in
    let e = extract_live cap accumulator' marker in
    let more = install_loop marker accumulator' cap polls in
    if e.found_end
    then installed (install_result e)
    else if late
    then installed (failure (install_timed_out marker cap))
    else more

-- The mark behind a success.
unfoldable pub record_install :
    RuntimeBootstrapCache → Bytes → Bytes → Installing → Installing × RuntimeBootstrapCache
record_install cache pane_key generation (installed (success u)) =
    (installed (success u), mark cache pane_key generation)
record_install cache pane_key generation (installed (failure e)) = (installed (failure e), cache)
record_install cache pane_key generation pending = (pending, cache)

-- A pane is bound; `sent` is what `send_text` gives.
unfoldable pub ensure_jjmcp_runtime :
    RuntimeBootstrapCache
    → Bytes
    → Bytes
    → Marker
    → Result (Unit {0})
    → List (Result Bytes × Bool)
    → Installing × RuntimeBootstrapCache
ensure_jjmcp_runtime cache pane_key generation marker (failure e) polls =
    if is_current cache pane_key generation
    then (installed (success tt), cache)
    else (installed (failure e), cache)
ensure_jjmcp_runtime cache pane_key generation marker (success u) polls =
    if is_current cache pane_key generation
    then (installed (success tt), cache)
    else record_install cache pane_key generation (install_loop marker [] [] polls)
