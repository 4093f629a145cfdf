-- ===== src/Julia/Extract.antt =====
-- What stands between the markers of an evaluation (src/julia_wrap.cpp `extract_between_markers`
-- and its helpers). A position in the capture is given by the text from it on: `rest` is
-- `capture.substr(pos)`, and the offset of a token counts from `pos`.
pub mod Token
pub mod Total
pub mod Script
use jjmcp.Base.{
  ℕ, zero, suc, ◌+◌, Bool, true, false, not, ◌&&◌, List, [], ◌∷◌, ◌++◌, Option, none, some, length,
  take, drop, ltb, ◌==◌, if◌then◌else◌,
}
use jjmcp.Text.{
  Bytes, newline, carriage_return, is_empty, ends_with, pop_back, starts_with, find_first, ◌=ᵇ◌,
}
use jjmcp.Julia.Lines.{trim_ascii}
use jjmcp.Julia.Marker.{Marker}

unfoldable pub remove_returns : Bytes → Bytes
remove_returns [] = []
remove_returns (c ∷ s) = if c == carriage_return then remove_returns s else c ∷ remove_returns s

unfoldable pub marker_segment_text : Bytes → Bytes
unfolding remove_returns ends_with pop_back
marker_segment_text segment =
    let out = remove_returns segment in if ends_with newline out then pop_back out else out

unfoldable pub append_segment : Bytes → Bytes → Bytes
unfolding marker_segment_text starts_with
append_segment out segment =
    let text = marker_segment_text segment in
    if is_empty text
    then out
    else if not (is_empty out)
        && not (ends_with newline out)
        && not (starts_with (newline ∷ []) text)
    then out ++ newline ∷ text
    else out ++ text

-- `line` is the current line so far. The result is the text behind the marker's line.
unfoldable pub find_payload_loop : Bytes → Bytes → Bytes → Option Bytes
unfolding trim_ascii ◌=ᵇ◌
find_payload_loop marker line [] = if trim_ascii line =ᵇ marker then some [] else none
find_payload_loop marker line (c ∷ rest) =
    let next_line = find_payload_loop marker [] rest in
    let same_line = find_payload_loop marker (line ++ c ∷ []) rest in
    if c == newline then (if trim_ascii line =ᵇ marker then some rest else next_line) else same_line

unfoldable pub find_marker_line_payload_start : Bytes → Bytes → Option Bytes
unfolding find_payload_loop
find_marker_line_payload_start capture marker = find_payload_loop marker [] capture

pub data Kind : Type 0 where
  end error out_end val_end backtrace : Kind

pub record FoundMarkerToken : Type 0 where
  pub pos : ℕ
  pub marker : Bytes
  pub kind : Kind

-- `pos < best.pos`; no token yet is `npos`, which every position is below.
unfoldable pub is_before : ℕ → Option FoundMarkerToken → Bool
is_before pos none = true
is_before pos (some best) = ltb pos best.pos

unfoldable pub consider : Bytes → Bytes → Kind → Option FoundMarkerToken → Option FoundMarkerToken
unfolding is_before find_first
consider rest text kind best = elim (find_first text rest) [
  | none ↦ best
  | some pos ↦
      if is_before pos best then some (record { pos = pos; marker = text; kind = kind }) else best
]

unfoldable pub find_next_marker_token : Bytes → Marker → Option FoundMarkerToken
unfolding consider
find_next_marker_token rest marker = consider rest marker.bt Kind.backtrace (
    consider rest marker.val_end Kind.val_end (
      consider rest marker.out_end Kind.out_end
        (consider rest marker.error Kind.error (consider rest marker.end Kind.end none))))

unfoldable pub skip_return : Bytes → Bytes
skip_return [] = []
skip_return (c ∷ s) = if c == carriage_return then s else c ∷ s

unfoldable pub skip_newline : Bytes → Bytes
skip_newline [] = []
skip_newline (c ∷ s) = if c == newline then s else c ∷ s

unfoldable pub skip_marker_line_ending : Bytes → Bytes
unfolding skip_return skip_newline
skip_marker_line_ending rest = skip_newline (skip_return rest)

pub record ExtractedOutput : Type 0 where
  pub found_begin : Bool
  pub found_end : Bool
  pub julia_error : Bool
  pub text : Bytes
  pub stdout_text : Bytes
  pub value_repr : Bytes
  pub error_message : Bytes
  pub backtrace : Bytes

pub data Phase : Type 0 where
  stdout value error backtrace : Phase

-- The two `switch (phase)` blocks: the segment goes to `text` and to the field of the phase.
unfoldable pub add_segment : Phase → Bytes → ExtractedOutput → ExtractedOutput
unfolding append_segment
add_segment Phase.stdout s r = record r {
  text = append_segment r.text s;
  stdout_text = append_segment r.stdout_text s;
}
add_segment Phase.value s r = record r {
  text = append_segment r.text s;
  value_repr = append_segment r.value_repr s;
}
add_segment Phase.error s r = record r {
  text = append_segment r.text s;
  error_message = append_segment r.error_message s;
}
add_segment Phase.backtrace s r = record r {
  text = append_segment r.text s;
  backtrace = append_segment r.backtrace s;
}

-- What a token other than the end does to the flags, and the phase that follows it.
unfoldable pub mark_kind : Kind → ExtractedOutput → ExtractedOutput
mark_kind Kind.end r = record r { found_end = true }
mark_kind Kind.error r = record r { julia_error = true }
mark_kind Kind.out_end r = r
mark_kind Kind.val_end r = r
mark_kind Kind.backtrace r = r

unfoldable pub next_phase : Kind → Phase → Phase
next_phase Kind.end p = p
next_phase Kind.error p = Phase.error
next_phase Kind.out_end p = Phase.value
next_phase Kind.val_end p = Phase.stdout
next_phase Kind.backtrace p = Phase.backtrace

abbrev pub is_end : Kind → Bool
is_end Kind.end = true
is_end Kind.error = false
is_end Kind.out_end = false
is_end Kind.val_end = false
is_end Kind.backtrace = false

-- `while (pos < capture.size())`, each round with one unit of fuel; `none` if it runs out.
unfoldable pub extract_loop : ℕ → Marker → Bytes → Phase → ExtractedOutput → Option ExtractedOutput
unfolding find_next_marker_token add_segment mark_kind next_phase skip_marker_line_ending
extract_loop zero marker rest phase result = none
extract_loop (suc fuel) marker [] phase result = some result
extract_loop (suc fuel) marker (c ∷ rest) phase result =
    elim (find_next_marker_token (c ∷ rest) marker) [
      | none ↦ some (add_segment phase (c ∷ rest) result)
      | some token ↦
          let segment = take token.pos (c ∷ rest) in
          let result' = mark_kind token.kind (add_segment phase segment result) in
          let after = drop (token.pos + length token.marker) (c ∷ rest) in
          let more =
            extract_loop fuel marker (skip_marker_line_ending after) (next_phase token.kind phase)
              result' in
          if is_end token.kind then some result' else more
    ]

abbrev pub no_output : ExtractedOutput
no_output = record {
  found_begin = false;
  found_end = false;
  julia_error = false;
  text = [];
  stdout_text = [];
  value_repr = [];
  error_message = [];
  backtrace = [];
}

-- A marker is not empty, so a round for each byte of the capture is enough.
unfoldable pub extract_between_markers : Bytes → Marker → Option ExtractedOutput
unfolding find_marker_line_payload_start extract_loop
extract_between_markers capture marker =
    elim (find_marker_line_payload_start capture marker.begin) [
      | none ↦ some no_output
      | some rest ↦
          extract_loop (suc (length capture)) marker rest Phase.stdout
            (record no_output { found_begin = true })
    ]
