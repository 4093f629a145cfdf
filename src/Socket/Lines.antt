-- ===== src/Socket/Lines.antt =====
-- The response of the helper, however it comes in pieces (src/socket_client.cpp `eval`).
use jjmcp.Base.{
  ◌≡◌, refl, sym, ap, ◌∙◌, inl, inr, false, List, [], ◌∷◌, ◌++◌, append-nil, append_assoc, map,
  none, some, Option-cases, Bool-cases, ◌==◌, arith,
}
use jjmcp.Text.{Bytes, newline}
use jjmcp.Text.Laws.{Lacks}
use jjmcp.Process.{success}
use jjmcp.Socket.{Received, chunk, closed, timed_out, broken, first_line, recv_loop}

-- The bytes of the pieces.
abbrev pub all_bytes : List Bytes → Bytes
all_bytes [] = []
all_bytes (b ∷ bs) = b ++ all_bytes bs

first_line-append : (s t line : Bytes) → first_line s ≡ some line → first_line (s ++ t) ≡ some line
unfolding first_line
first_line-append [] t line h = cc
first_line-append (c ∷ s) t line h = elim (Bool-cases (c == newline)) [
  | inl e ↦ rw e (rw e at h)
  | inr e ↦ elim (Option-cases (first_line s)) [
    | inl f ↦ absurd (let k = rw (e, f) at h in cc)
    | inr (rest, f) ↦ rw (e, first_line-append s t rest f) (rw (e, f) at h)
  ]
]

first_line-line :
    (line rest : Bytes) → Lacks newline line → first_line (line ++ newline ∷ rest) ≡ some line
unfolding first_line
first_line-line [] rest h = refl
first_line-line (c ∷ line) rest (hc, h) =
    let other : (c == newline) ≡ false = ground arith in
    rw (other, first_line-line line rest h) refl

recv_loop_ready :
    (line buf : Bytes)
    → first_line buf ≡ some line
    → (calls : List Received) → recv_loop buf calls ≡ some (success line)
unfolding recv_loop
recv_loop_ready line buf h [] = rw (recv_loop, h) refl
recv_loop_ready line buf h (chunk bytes ∷ calls) = rw (recv_loop, h) refl
recv_loop_ready line buf h (closed ∷ calls) = rw (recv_loop, h) refl
recv_loop_ready line buf h (timed_out ∷ calls) = rw (recv_loop, h) refl
recv_loop_ready line buf h (broken e ∷ calls) = rw (recv_loop, h) refl

recv_loop_more :
    (buf bytes : Bytes) (calls : List Received)
    → first_line buf ≡ none
    → recv_loop buf (chunk bytes ∷ calls) ≡ recv_loop (buf ++ bytes) calls
unfolding recv_loop
recv_loop_more buf bytes calls h = rw (recv_loop, h) refl

-- The first line that comes in is read, however the bytes are cut into pieces, and whatever would
-- come behind them.
pub recv_loop-line :
    (chunks : List Bytes) (line rest : Bytes) (calls : List Received)
    → Lacks newline line
    → all_bytes chunks ≡ line ++ newline ∷ rest
    → recv_loop [] (map chunk chunks ++ calls) ≡ some (success line)
recv_loop-line chunks line rest calls lacks whole = from [] chunks whole
  where
    ready :
        (buf : Bytes)
        → first_line buf ≡ some line
        → (more : List Received) → recv_loop buf more ≡ some (success line)
    ready = recv_loop_ready line

    from :
        (buf : Bytes) (chunks : List Bytes)
        → buf ++ all_bytes chunks ≡ line ++ newline ∷ rest
        → recv_loop buf (map chunk chunks ++ calls) ≡ some (success line)
    from buf [] whole =
        ready buf (ap first_line (sym (append-nil buf) ∙ whole) ∙ first_line-line line rest lacks)
          calls
    from buf (b ∷ bs) whole = elim (Option-cases (first_line buf)) [
      | inl none_yet ↦
          recv_loop_more buf b (map chunk bs ++ calls) none_yet
          ∙ from (buf ++ b) bs (append_assoc buf b (all_bytes bs) ∙ whole)
      | inr (l, found) ↦
          let same : some line ≡ some l =
            sym (ap first_line whole ∙ first_line-line line rest lacks)
            ∙ first_line-append buf (b ++ all_bytes bs) l found in
          ready buf (found ∙ sym same) (map chunk (b ∷ bs) ++ calls)
    ]
