-- ===== src/Tools/Eval.antt =====
-- The polls behind a pasted command (`run_marker_eval` in src/tools.cpp `eval_code`): what each
-- captured text does to the state of the loop. The captures and the clock are inputs: a poll is what
-- `capture_pane` gave, and whether the deadline had passed when the clock was read behind it.
pub mod Rounds
pub mod Splice
pub mod Bounded
use jjmcp.Base.{
  ℕ, ◌+◌, ◌-◌, ◌*◌, ◌/◌, min, Bool, true, false, not, ◌&&◌, ◌||◌, List, [], ◌∷◌, ◌++◌, Option, none,
  some, length, take, drop, ltb, leb, ◌==◌, if◌then◌else◌,
}
use jjmcp.Text.{Bytes, newline, is_empty, find_first, occurs, ◌=ᵇ◌}
use jjmcp.Process.{Result, success, failure}
use jjmcp.Julia.Marker.{Marker}
use jjmcp.Julia.Extract.{ExtractedOutput, no_output, extract_between_markers}
use jjmcp.Julia.Overlap.{compute_capture_overlap}
use jjmcp.Julia.Truncate.{truncate_bytes_tail}
use jjmcp.Tools.Output.{compact_marker_accumulator, max_eval_accumulator_bytes}
use jjmcp.Tools.Prompt.{jjmcp_runtime_missing}

abbrev pub max_capture_failures : ℕ
max_capture_failures = 5

abbrev pub progress_min_delta : ℕ
progress_min_delta = 4096

abbrev pub progress_max_tail : ℕ
progress_max_tail = 4096

abbrev pub backoff_min : ℕ
backoff_min = 50

abbrev pub backoff_max : ℕ
backoff_max = 1000

-- The locals of the loop, and the notifications emitted so far.
pub record Polling : Type 0 where
  pub backoff : ℕ
  pub accumulator : Bytes
  pub last_capture : Bytes
  pub last_extract : ExtractedOutput
  pub begin_trimmed : Bool
  pub capture_failures : ℕ
  pub last_progress_size : ℕ
  pub progress : List Bytes

abbrev pub polling_start : Polling
polling_start = record {
  backoff = backoff_min;
  accumulator = [];
  last_capture = [];
  last_extract = no_output;
  begin_trimmed = false;
  capture_failures = 0;
  last_progress_size = 0;
  progress = [];
}

-- The new accumulator, and whether it grew.
unfoldable pub splice : Bytes → Bytes → Bytes → Bytes × Bool
splice accumulator last_capture cap =
    let overlap = compute_capture_overlap last_capture cap in
    if is_empty accumulator
    then (cap, not (is_empty cap))
    else if not (cap =ᵇ last_capture) && ltb overlap (length cap)
    then (accumulator ++ drop overlap cap, true)
    else (accumulator, false)

-- The extraction; it is never out of fuel (`extract_total`).
unfoldable pub extracted : Bytes → Marker → ExtractedOutput
extracted text marker = elim (extract_between_markers text marker) [ none ↦ no_output | some r ↦ r ]

-- The live capture first, and the accumulator where it has no begin marker.
unfoldable pub extract_live : Bytes → Bytes → Marker → ExtractedOutput
extract_live cap accumulator marker =
    let live = extracted cap marker in
    let spliced = extracted accumulator marker in if not live.found_begin then spliced else live

-- `rfind('\n')` plus one, or 0: where the last line of a text starts.
unfoldable pub last_line_start : Bytes → ℕ
last_line_start [] = 0
last_line_start (c ∷ text) =
    let later = last_line_start text in
    if ltb 0 later then later + 1 else if c == newline then 1 else 0

unfoldable pub trim_to_begin : Bytes → Marker → Bytes
trim_to_begin accumulator marker = elim (find_first marker.begin accumulator) [
  | none ↦ accumulator
  | some begin_pos ↦ drop (last_line_start (take (begin_pos + 1) accumulator)) accumulator
]

-- A notification for the growth since the last one, if it is large enough.
unfoldable pub emit_progress : Bool → ExtractedOutput → Polling → Polling
emit_progress active extract s =
    let cur = length extract.text in
    let tail = truncate_bytes_tail (drop s.last_progress_size extract.text) progress_max_tail in
    if active && extract.found_begin && leb (s.last_progress_size + progress_min_delta) cur
    then record s { last_progress_size = cur; progress = s.progress ++ tail ∷ [] }
    else s

-- Without a begin marker, the head is dropped: half of the limit stays, from the next line on.
unfoldable pub drop_head : Bytes → Bytes
drop_head accumulator =
    let rest = drop (length accumulator - max_eval_accumulator_bytes / 2) accumulator in
    elim (find_first (newline ∷ []) rest) [ none ↦ rest | some line_end ↦ drop (line_end + 1) rest ]

unfoldable pub compacted : Bytes → Marker → ExtractedOutput → Bytes
compacted accumulator marker extract =
    compact_marker_accumulator extract marker (occurs marker.out_end accumulator)
      (occurs marker.val_end accumulator) (occurs marker.error accumulator)
      (occurs marker.bt accumulator) (occurs marker.end accumulator)

-- The accumulator over its limit is compacted, or loses its head.
unfoldable pub bound_accumulator : Marker → Polling → Polling
bound_accumulator marker s =
    let small = compacted s.accumulator marker s.last_extract in
    if not s.last_extract.found_end && ltb max_eval_accumulator_bytes (length s.accumulator)
    then if s.last_extract.found_begin
      then record s {
        accumulator = small;
        last_extract = extracted small marker;
        last_progress_size = 0;
      }
      else record s { accumulator = drop_head s.accumulator }
    else s

-- How a round ends: another one follows, or the loop is left. `runtime_missing` is the `nullopt`.
pub data Outcome : Type 0 where
  waiting : Polling → Outcome
  runtime_missing : Outcome
  failed : Bytes → Outcome
  ended : (timed_out : Bool) → Polling → Outcome

-- The end of a round.
unfoldable pub close_round : Polling → Bool → Bool → Outcome
close_round s grew late =
    if s.last_extract.found_end
    then ended false s
    else if late
    then ended true s
    else waiting
        (record s { backoff = if grew then backoff_min else min (s.backoff * 2) backoff_max })

-- What a capture does to the accumulator and the extraction, and whether the accumulator grew.
unfoldable pub absorb : Marker → Polling → Bytes → Polling × Bool
absorb marker s cap =
    let (accumulator, grew) = splice s.accumulator s.last_capture cap in
    let extract = extract_live cap accumulator marker in
    let trims = not s.begin_trimmed && extract.found_begin in
    (
      record s {
        accumulator = if trims then trim_to_begin accumulator marker else accumulator;
        last_capture = cap;
        last_extract = extract;
        begin_trimmed = s.begin_trimmed || extract.found_begin;
        capture_failures = 0;
      },
      grew,
    )

-- A round whose capture worked.
unfoldable pub read_capture : Marker → Bool → Bool → Polling → Bytes → Bool → Outcome
read_capture marker detect_missing_runtime active s cap late =
    let (s', grew) = absorb marker s cap in
    if detect_missing_runtime
      && not s'.last_extract.found_begin
      && jjmcp_runtime_missing cap marker.id
    then runtime_missing
    else close_round (bound_accumulator marker (emit_progress active s'.last_extract s')) grew late

unfoldable pub poll_round : Marker → Bool → Bool → Polling → Result Bytes → Bool → Outcome
poll_round marker detect_missing_runtime active s (success cap) late =
    read_capture marker detect_missing_runtime active s cap late
poll_round marker detect_missing_runtime active s (failure e) late =
    let failures = s.capture_failures + 1 in
    let s' = record s { capture_failures = failures } in
    if ltb max_capture_failures failures
    then failed e
    else if late
    then ended true s'
    else waiting s'

-- The next rounds, where one follows.
unfoldable pub after_round : Outcome → (Polling → Outcome) → Outcome
after_round (waiting s) next = next s
after_round runtime_missing next = runtime_missing
after_round (failed e) next = failed e
after_round (ended timed_out s) next = ended timed_out s

-- The rounds on the polls of a run, until one leaves the loop.
unfoldable pub poll_loop : Marker → Bool → Bool → Polling → List (Result Bytes × Bool) → Outcome
poll_loop marker detect_missing_runtime active s [] = waiting s
poll_loop marker detect_missing_runtime active s ((captured, late) ∷ polls) =
    after_round (poll_round marker detect_missing_runtime active s captured late)
      (λ s'. poll_loop marker detect_missing_runtime active s' polls)
