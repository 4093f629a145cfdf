-- ===== src/Tests/Starts.antt =====
-- The options of serve and the helper's socket at concrete inputs (src/main.cpp, src/socket_client.cpp).
use jjmcp.Base.{◌≡◌, refl, [], ◌∷◌, Option, none, some, if◌then◌else◌, arith}
use jjmcp.Text.{Bytes, codes, ◌=ᵇ◌}
use jjmcp.Process.{success}
use jjmcp.Options.{ServeOptions}
use jjmcp.Socket.{chunk, closed, recv_loop}
use jjmcp.Socket.Lines.{recv_loop-line}

-- A home directory whose settings file sets a transcript.
abbrev env : Bytes → Option Bytes
env name = if name =ᵇ codes "HOME" then some (codes "/home") else none

abbrev settings : Bytes → ServeOptions
settings path = record { transcript = codes "file.log"; transcript_format = codes "jsonl" }

recv_loop-line_example :
    recv_loop [] (chunk (codes "{") ∷ chunk (codes "}\n{") ∷ closed ∷ [])
    ≡ some (success (codes "{}"))
recv_loop-line_example =
    recv_loop-line (codes "{" ∷ codes "}\n{" ∷ []) (codes "{}") (codes "{") (closed ∷ [])
      (λ e. omega arith, (λ e. omega arith, tt)) refl
