-- ===== src/Tools/Runtime/Install.antt =====
-- When a pane counts as carrying the runtime (src/tools.cpp `ensure_jjmcp_runtime`).
use jjmcp.Base.{◌≡◌, inl, inr, refl, ◌∙◌, Bool, true, List, [], arith, Bool-cases}
use jjmcp.Text.{Bytes}
use jjmcp.Text.Laws.{=ᵇ_refl}
use jjmcp.Process.{Result, success, failure}
use jjmcp.Julia.Marker.{Marker}
use jjmcp.Tools.RuntimeCache.{RuntimeBootstrapCache, is_current, mark, is_current-mark}
use jjmcp.Tools.Runtime.{
  Installing, pending, installed, install_loop, record_install, ensure_jjmcp_runtime,
}

-- What the answer says of the cache behind it.
abbrev pub Agrees :
    RuntimeBootstrapCache → Bytes → Bytes → Installing × RuntimeBootstrapCache → Type 0
Agrees cache key generation (installed (success u), cache') =
    is_current cache' key generation ≡ true
Agrees cache key generation (installed (failure e), cache') = cache' ≡ cache
Agrees cache key generation (pending, cache') = cache' ≡ cache

is_current_marked :
    (cache : RuntimeBootstrapCache) (key generation : Bytes)
    → is_current (mark cache key generation) key generation ≡ true
is_current_marked cache key generation =
    is_current-mark cache key generation key generation
    ∙ rw (=ᵇ_refl key, =ᵇ_refl generation) (ground arith)

record_install-Agrees :
    (cache : RuntimeBootstrapCache) (key generation : Bytes) (i : Installing)
    → Agrees cache key generation (record_install cache key generation i)
unfolding record_install
record_install-Agrees cache key generation (installed (success u)) =
    is_current_marked cache key generation
record_install-Agrees cache key generation (installed (failure e)) = refl
record_install-Agrees cache key generation pending = refl

-- A call that succeeds leaves the pane current for the generation it asked for, whether it had to
-- install or not; a call that fails, or that is still waiting, leaves the cache as it was.
pub ensure_jjmcp_runtime-Agrees :
    (cache : RuntimeBootstrapCache) (key generation : Bytes) (marker : Marker)
    (sent : Result (Unit {0})) (polls : List (Result Bytes × Bool))
    → Agrees cache key generation (ensure_jjmcp_runtime cache key generation marker sent polls)
unfolding ensure_jjmcp_runtime
ensure_jjmcp_runtime-Agrees cache key generation marker (failure e) polls =
    elim (Bool-cases (is_current cache key generation)) [ inl h ↦ rw h h | inr h ↦ rw h refl ]
ensure_jjmcp_runtime-Agrees cache key generation marker (success u) polls =
    elim (Bool-cases (is_current cache key generation)) [
      | inl h ↦ rw h h
      | inr h ↦ rw h (record_install-Agrees cache key generation (install_loop marker [] [] polls))
    ]
