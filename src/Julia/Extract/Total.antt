-- ===== src/Julia/Extract/Total.antt =====
-- `extract_between_markers` ends on every capture: each round passes a marker.
use jjmcp.Base.{
  ◌++◌, ℕ, zero, suc, ◌+◌, ◌≤◌, ◌<◌, ◌≡◌, refl, inl, inr, true, [], ◌∷◌, Option, none, some, length,
  take, drop, arith, Bool-cases, Option-cases, length-drop,
}
use jjmcp.Text.{Bytes, find_first}
use jjmcp.Julia.Marker.{make_marker}
use jjmcp.Julia.Extract.{
  Kind, FoundMarkerToken, is_before, consider, find_next_marker_token, skip_marker_line_ending,
  ExtractedOutput, Phase, add_segment, mark_kind, next_phase, is_end, extract_loop,
  find_payload_loop, find_marker_line_payload_start, extract_between_markers, no_output,
}
use jjmcp.Julia.Extract.Script.{length-token_text, extract_loop_step}

abbrev IsLong : Option FoundMarkerToken → Type 0
IsLong none = Unit
IsLong (some t) = 1 ≤ length t.marker

consider-IsLong :
    (rest text : Bytes) (k : Kind) (best : Option FoundMarkerToken)
    → 1 ≤ length text
    → IsLong best
    → IsLong (consider rest text k best)
unfolding consider
consider-IsLong rest text k best h hb = elim (Option-cases (find_first text rest)) [
  | inl e ↦ rw (e, consider) hb
  | inr (i, e) ↦ elim (Bool-cases (is_before i best)) [
    | inl sooner ↦ rw (e, consider, sooner) h
    | inr later ↦ rw (e, consider, later) hb
  ]
]

find_next_marker_token-IsLong :
    (rest id : Bytes) → IsLong (find_next_marker_token rest (make_marker id))
unfolding find_next_marker_token
find_next_marker_token-IsLong rest id =
    let m = make_marker id in
    let long = length-token_text id in
    consider-IsLong rest m.bt Kind.backtrace _ (long Kind.backtrace) (
      consider-IsLong rest m.val_end Kind.val_end _ (long Kind.val_end) (
        consider-IsLong rest m.out_end Kind.out_end _ (long Kind.out_end) (
          consider-IsLong rest m.error Kind.error _ (long Kind.error)
            (consider-IsLong rest m.end Kind.end none (long Kind.end) tt))))

length-skip : (rest : Bytes) → length (skip_marker_line_ending rest) ≤ length rest
unfolding skip_marker_line_ending
length-skip [] = omega arith
length-skip (c ∷ []) = ground arith
length-skip (c ∷ d ∷ rest) = ground arith

extract_loop_total :
    (id : Bytes) (fuel : ℕ) (rest : Bytes) (phase : Phase) (r : ExtractedOutput)
    → length rest < fuel
    → (r' : ExtractedOutput) × (extract_loop fuel (make_marker id) rest phase r ≡ some r')
extract_loop_total id zero rest phase r h = absurd (omega arith)
extract_loop_total id (suc fuel) [] phase r h = (r, unfold extract_loop in refl)
extract_loop_total id (suc fuel) (c ∷ rest) phase r h =
    elim (Option-cases (find_next_marker_token (c ∷ rest) (make_marker id))) [
      | inl e ↦ (add_segment phase (c ∷ rest) r, unfold extract_loop in rw (e, extract_loop))
      | inr (t, e) ↦
          let long : 1 ≤ length t.marker = rw e at (find_next_marker_token-IsLong (c ∷ rest) id) in
          let r' = mark_kind t.kind (add_segment phase (take t.pos (c ∷ rest)) r) in
          let after = drop (t.pos + length t.marker) (c ∷ rest) in
          let shorter : length (skip_marker_line_ending after) < fuel =
            omega (arith, length-skip after, length-drop (t.pos + length t.marker) (c ∷ rest)) in
          let (r'', more) =
            extract_loop_total id fuel (skip_marker_line_ending after) (next_phase t.kind phase) r'
              shorter in
          elim (Bool-cases (is_end t.kind)) [
            | inl ends ↦ (
              r',
              rw (
                extract_loop_step fuel (make_marker id) (c ∷ rest) phase r t (omega arith) e,
                ends,
              ),
            )
            | inr goes_on ↦ (
              r'',
              rw
                  (
                    extract_loop_step fuel (make_marker id) (c ∷ rest) phase r t (omega arith) e,
                    goes_on,
                  )
                  more,
            )
          ]
    ]

find_payload_loop_shorter :
    (marker line capture rest : Bytes)
    → find_payload_loop marker line capture ≡ some rest
    → length rest ≤ length capture
unfolding find_payload_loop
find_payload_loop_shorter marker line [] rest h = ground arith
find_payload_loop_shorter marker line (c ∷ capture) rest h = ground (
  arith,
  find_payload_loop_shorter marker [] capture rest,
  find_payload_loop_shorter marker (line ++ c ∷ []) capture rest,
)

-- Every capture is read to an end, with or without markers in it.
pub extract_total :
    (capture id : Bytes)
    → (r : ExtractedOutput) × (extract_between_markers capture (make_marker id) ≡ some r)
unfolding extract_between_markers
extract_total capture id =
    elim (Option-cases (find_marker_line_payload_start capture (make_marker id).begin)) [
      | inl e ↦ (no_output, rw (e, extract_between_markers))
      | inr (rest, e) ↦
          let (r, done) =
            extract_loop_total id (suc (length capture)) rest Phase.stdout
              (record no_output { found_begin = true })
              (omega (arith, find_payload_loop_shorter _ [] capture rest e)) in
          (r, rw (e, extract_between_markers) done)
    ]
