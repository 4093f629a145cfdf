-- ===== src/Julia/Extract/Script.antt =====
-- The extraction against a script: the run of segments and markers that an evaluation prints
-- (`extract_between_markers` of src/julia_wrap.cpp).
use jjmcp.Base.{
  ℕ, suc, ◌+◌, ◌≤◌, ◌≡◌, ◌≢◌, false, List, [], ◌∷◌, ◌++◌, Option, some, length, take, drop,
  if◌then◌else◌, arith,
}
use jjmcp.Text.{Bytes, newline}
use jjmcp.Text.Laws.{Lacks}
use jjmcp.Julia.Lines.{trim_ascii}
use jjmcp.Julia.Marker.{Marker, make_marker}
use jjmcp.Julia.Extract.{
  Kind, FoundMarkerToken, find_next_marker_token, skip_marker_line_ending, ExtractedOutput, Phase,
  add_segment, mark_kind, next_phase, is_end, extract_loop,
}
use jjmcp.Julia.Extract.Token.{token_text, IsQuiet}

-- Each event is a segment and the marker line behind it.
abbrev pub Script : Type 0
Script = List (Bytes × Kind)

-- The text of a script: its events, the last segment and the end marker, and what follows.
abbrev pub render : Marker → Script → Bytes → Bytes → Bytes
render m [] last post = last ++ (m.end ++ post)
render m ((seg, k) ∷ events) last post =
    seg ++ (token_text m k ++ newline ∷ render m events last post)

-- What the script means: each segment goes to the phase in which it was printed.
abbrev pub interpret : Script → Bytes → Phase → ExtractedOutput → ExtractedOutput
interpret [] last phase r = mark_kind Kind.end (add_segment phase last r)
interpret ((seg, k) ∷ events) last phase r =
    interpret events last (next_phase k phase) (mark_kind k (add_segment phase seg r))

-- No marker starts inside a segment, and only the last marker is the end marker.
abbrev pub IsScript : Marker → Script → Bytes → Bytes → Type 0
IsScript m [] last post = IsQuiet m last (m.end ++ post)
IsScript m ((seg, k) ∷ events) last post =
    IsQuiet m seg (token_text m k ++ newline ∷ render m events last post)
    × (is_end k ≡ false)
    × IsScript m events last post

pub length-token_text : (id : Bytes) (k : Kind) → 1 ≤ length (token_text (make_marker id) k)
unfolding make_marker
length-token_text id Kind.end = omega arith
length-token_text id Kind.error = omega arith
length-token_text id Kind.out_end = omega arith
length-token_text id Kind.val_end = omega arith
length-token_text id Kind.backtrace = omega arith

-- One round of the loop at a token.
abbrev after_token :
    ℕ → Marker → Bytes → Phase → ExtractedOutput → FoundMarkerToken → Option ExtractedOutput
after_token fuel m text phase r token =
    let r' = mark_kind token.kind (add_segment phase (take token.pos text) r) in
    let after = drop (token.pos + length token.marker) text in
    if is_end token.kind
    then some r'
    else extract_loop fuel m (skip_marker_line_ending after) (next_phase token.kind phase) r'

pub extract_loop_step :
    (fuel : ℕ) (m : Marker) (text : Bytes) (phase : Phase) (r : ExtractedOutput)
    (token : FoundMarkerToken)
    → 1 ≤ length text
    → find_next_marker_token text m ≡ some token
    → extract_loop (suc fuel) m text phase r ≡ after_token fuel m text phase r token
unfolding extract_loop
extract_loop_step fuel m [] phase r token h e = absurd (omega arith)
extract_loop_step fuel m (c ∷ text) phase r token h e = rw (e, extract_loop)

-- The lines of the pane before the evaluation: none of them is the begin marker.
abbrev pub lines_text : List Bytes → Bytes
lines_text [] = []
lines_text (l ∷ ls) = l ++ newline ∷ lines_text ls

abbrev pub AreOtherLines : Bytes → List Bytes → Type 0
AreOtherLines marker [] = Unit
AreOtherLines marker (l ∷ ls) = Lacks newline l × (trim_ascii l ≢ marker) × AreOtherLines marker ls

-- The pane text of a whole evaluation.
abbrev pub pane_text : Bytes → List Bytes → Script → Bytes → Bytes → Bytes
pane_text id ls events last post =
    lines_text ls ++ ((make_marker id).begin ++ newline ∷ render (make_marker id) events last post)
