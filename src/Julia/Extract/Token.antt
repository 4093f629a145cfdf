-- ===== src/Julia/Extract/Token.antt =====
-- The next marker token of a text that is known in pieces (`find_next_marker_token` of
-- src/julia_wrap.cpp).
use jjmcp.Base.{
  ℕ, ◌≤◌, ◌<◌, ◌≡◌, ◌≢◌, refl, inl, inr, false, ◌++◌, Option, none, some, length, ◌⊎◌, arith,
  Option-cases,
}
use jjmcp.Text.{Bytes, starts_with, find_first}
use jjmcp.Text.Find.{
  NotWithin, find_first_later, find_first-append_some, find_first-append_none, find_first_behind,
}
use jjmcp.Julia.Marker.{Marker, make_marker}
use jjmcp.Julia.Extract.{Kind, FoundMarkerToken, consider, find_next_marker_token}

abbrev pub token_text : Marker → Kind → Bytes
token_text m Kind.end = m.end
token_text m Kind.error = m.error
token_text m Kind.out_end = m.out_end
token_text m Kind.val_end = m.val_end
token_text m Kind.backtrace = m.bt

abbrev IsPast : ℕ → Option ℕ → Type 0
IsPast p none = Unit
IsPast p (some i) = p < i

abbrev IsBeaten : ℕ → Option FoundMarkerToken → Type 0
IsBeaten p none = Unit
IsBeaten p (some t) = p < t.pos

consider-IsBeaten :
    (rest text : Bytes) (k : Kind) (p : ℕ) (best : Option FoundMarkerToken)
    → IsPast p (find_first text rest)
    → IsBeaten p best
    → IsBeaten p (consider rest text k best)
unfolding consider
consider-IsBeaten rest text k p none past beaten = elim (Option-cases (find_first text rest)) [
  | inl e ↦ ground arith
  | inr (i, e) ↦ ground arith
]
consider-IsBeaten rest text k p (some t) past beaten = elim (Option-cases (find_first text rest)) [
  | inl e ↦ ground arith
  | inr (i, e) ↦ ground arith
]

consider_wins :
    (rest text : Bytes) (k : Kind) (p : ℕ) (best : Option FoundMarkerToken)
    → find_first text rest ≡ some p
    → IsBeaten p best
    → consider rest text k best ≡ some (record { pos = p; marker = text; kind = k })
unfolding consider
consider_wins rest text k p none e beaten = ground arith
consider_wins rest text k p (some t) e beaten = ground arith

consider_keeps :
    (rest text : Bytes) (k : Kind) (best : FoundMarkerToken)
    → IsPast best.pos (find_first text rest)
    → consider rest text k (some best) ≡ some best
unfolding consider
consider_keeps rest text k best past = elim (Option-cases (find_first text rest)) [
  | inl e ↦ ground arith
  | inr (i, e) ↦ ground arith
]

-- A marker that neither starts in the segment nor at its end is found past it, if at all.
find_first-IsPast :
    (pat seg rest : Bytes)
    → NotWithin pat seg rest
    → starts_with pat rest ≡ false
    → IsPast (length seg) (find_first pat (seg ++ rest))
find_first-IsPast pat seg rest quiet h = elim (Option-cases (find_first pat rest)) [
  | inl e ↦ rw (find_first-append_none pat seg rest quiet e) tt
  | inr (i, e) ↦
      rw (find_first-append_some pat seg rest i quiet e)
        (let l : 1 ≤ i = find_first_later pat rest i h e in omega arith)
]

-- No marker of the evaluation starts inside the segment.
abbrev pub IsQuiet : Marker → Bytes → Bytes → Type 0
IsQuiet m seg rest =
    NotWithin m.end seg rest
    × NotWithin m.error seg rest
    × NotWithin m.out_end seg rest
    × NotWithin m.val_end seg rest
    × NotWithin m.bt seg rest

token_differs :
    (id rest : Bytes) (j k : Kind)
    → (j ≡ k)
      ⊎ (starts_with (token_text (make_marker id) j) (token_text (make_marker id) k ++ rest)
          ≡ false)
unfolding make_marker starts_with
token_differs id rest Kind.end Kind.end = inl refl
token_differs id rest Kind.error Kind.error = inl refl
token_differs id rest Kind.out_end Kind.out_end = inl refl
token_differs id rest Kind.val_end Kind.val_end = inl refl
token_differs id rest Kind.backtrace Kind.backtrace = inl refl
token_differs id rest _ _ = inr refl

module _ (id seg : Bytes) (k : Kind) (rest : Bytes) where
  abbrev m : Marker
  m = make_marker id

  abbrev behind : Bytes
  behind = token_text (make_marker id) k ++ rest

  -- A marker of another kind is found past the end of the segment, if at all.
  rival :
      (j : Kind)
      → j ≢ k
      → NotWithin (token_text m j) seg behind
      → IsPast (length seg) (find_first (token_text m j) (seg ++ behind))
  rival j ne quiet = elim (token_differs id rest j k) [
    | inl e ↦ absurd (ne e)
    | inr differs ↦ find_first-IsPast (token_text m j) seg behind quiet differs
  ]

abbrev pub found : Bytes → Bytes → Kind → FoundMarkerToken
found id seg k = record { pos = length seg; marker = token_text (make_marker id) k; kind = k }

-- The next token behind a quiet segment is the marker that stands there.
pub find_next_marker_token_lem :
    (id seg : Bytes) (k : Kind) (rest : Bytes)
    → IsQuiet (make_marker id) seg (token_text (make_marker id) k ++ rest)
    → find_next_marker_token (seg ++ (token_text (make_marker id) k ++ rest)) (make_marker id)
      ≡ some (found id seg k)
unfolding find_next_marker_token
find_next_marker_token_lem id seg Kind.end rest (q_end, q_error, q_out, q_val, q_bt) =
    let mk = make_marker id in
    let t = seg ++ (mk.end ++ rest) in
    let past = rival id seg Kind.end rest in
    rw (
      consider_wins t mk.end Kind.end (length seg) none (find_first_behind mk.end seg rest q_end)
          tt,
      consider_keeps t mk.error Kind.error (found id seg Kind.end) (past Kind.error (cc) q_error),
      consider_keeps t mk.out_end Kind.out_end (found id seg Kind.end)
          (past Kind.out_end (cc) q_out),
      consider_keeps t mk.val_end Kind.val_end (found id seg Kind.end)
          (past Kind.val_end (cc) q_val),
      consider_keeps t mk.bt Kind.backtrace (found id seg Kind.end) (past Kind.backtrace (cc) q_bt),
    )
find_next_marker_token_lem id seg Kind.error rest (q_end, q_error, q_out, q_val, q_bt) =
    let mk = make_marker id in
    let t = seg ++ (mk.error ++ rest) in
    let past = rival id seg Kind.error rest in
    let c0 : Option FoundMarkerToken = consider t mk.end Kind.end none in
    let b0 : IsBeaten (length seg) c0 =
      consider-IsBeaten t mk.end Kind.end (length seg) none (past Kind.end (cc) q_end) tt in
    rw (
      consider_wins t mk.error Kind.error (length seg) c0
          (find_first_behind mk.error seg rest q_error) b0,
      consider_keeps t mk.out_end Kind.out_end (found id seg Kind.error)
          (past Kind.out_end (cc) q_out),
      consider_keeps t mk.val_end Kind.val_end (found id seg Kind.error)
          (past Kind.val_end (cc) q_val),
      consider_keeps t mk.bt Kind.backtrace (found id seg Kind.error)
          (past Kind.backtrace (cc) q_bt),
    )
find_next_marker_token_lem id seg Kind.out_end rest (q_end, q_error, q_out, q_val, q_bt) =
    let mk = make_marker id in
    let t = seg ++ (mk.out_end ++ rest) in
    let past = rival id seg Kind.out_end rest in
    let c0 : Option FoundMarkerToken = consider t mk.end Kind.end none in
    let b0 : IsBeaten (length seg) c0 =
      consider-IsBeaten t mk.end Kind.end (length seg) none (past Kind.end (cc) q_end) tt in
    let c1 : Option FoundMarkerToken = consider t mk.error Kind.error c0 in
    let b1 : IsBeaten (length seg) c1 =
      consider-IsBeaten t mk.error Kind.error (length seg) c0 (past Kind.error (cc) q_error) b0 in
    rw (
      consider_wins t mk.out_end Kind.out_end (length seg) c1
          (find_first_behind mk.out_end seg rest q_out) b1,
      consider_keeps t mk.val_end Kind.val_end (found id seg Kind.out_end)
          (past Kind.val_end (cc) q_val),
      consider_keeps t mk.bt Kind.backtrace (found id seg Kind.out_end)
          (past Kind.backtrace (cc) q_bt),
    )
find_next_marker_token_lem id seg Kind.val_end rest (q_end, q_error, q_out, q_val, q_bt) =
    let mk = make_marker id in
    let t = seg ++ (mk.val_end ++ rest) in
    let past = rival id seg Kind.val_end rest in
    let c0 : Option FoundMarkerToken = consider t mk.end Kind.end none in
    let b0 : IsBeaten (length seg) c0 =
      consider-IsBeaten t mk.end Kind.end (length seg) none (past Kind.end (cc) q_end) tt in
    let c1 : Option FoundMarkerToken = consider t mk.error Kind.error c0 in
    let b1 : IsBeaten (length seg) c1 =
      consider-IsBeaten t mk.error Kind.error (length seg) c0 (past Kind.error (cc) q_error) b0 in
    let c2 : Option FoundMarkerToken = consider t mk.out_end Kind.out_end c1 in
    let b2 : IsBeaten (length seg) c2 =
      consider-IsBeaten t mk.out_end Kind.out_end (length seg) c1 (past Kind.out_end (cc) q_out)
        b1 in
    rw (
      consider_wins t mk.val_end Kind.val_end (length seg) c2
          (find_first_behind mk.val_end seg rest q_val) b2,
      consider_keeps t mk.bt Kind.backtrace (found id seg Kind.val_end)
          (past Kind.backtrace (cc) q_bt),
    )
find_next_marker_token_lem id seg Kind.backtrace rest (q_end, q_error, q_out, q_val, q_bt) =
    let mk = make_marker id in
    let t = seg ++ (mk.bt ++ rest) in
    let past = rival id seg Kind.backtrace rest in
    let c0 : Option FoundMarkerToken = consider t mk.end Kind.end none in
    let b0 : IsBeaten (length seg) c0 =
      consider-IsBeaten t mk.end Kind.end (length seg) none (past Kind.end (cc) q_end) tt in
    let c1 : Option FoundMarkerToken = consider t mk.error Kind.error c0 in
    let b1 : IsBeaten (length seg) c1 =
      consider-IsBeaten t mk.error Kind.error (length seg) c0 (past Kind.error (cc) q_error) b0 in
    let c2 : Option FoundMarkerToken = consider t mk.out_end Kind.out_end c1 in
    let b2 : IsBeaten (length seg) c2 =
      consider-IsBeaten t mk.out_end Kind.out_end (length seg) c1 (past Kind.out_end (cc) q_out)
        b1 in
    let c3 : Option FoundMarkerToken = consider t mk.val_end Kind.val_end c2 in
    let b3 : IsBeaten (length seg) c3 =
      consider-IsBeaten t mk.val_end Kind.val_end (length seg) c2 (past Kind.val_end (cc) q_val)
        b2 in
    consider_wins t mk.bt Kind.backtrace (length seg) c3 (find_first_behind mk.bt seg rest q_bt) b3
