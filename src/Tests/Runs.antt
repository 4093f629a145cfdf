-- ===== src/Tests/Runs.antt =====
-- An evaluation at concrete inputs (src/julia_wrap.cpp, `eval_code` of src/tools.cpp).
use jjmcp.Base.{
  ℕ, ◌+◌, ◌-◌, ◌≤◌, ◌≡◌, refl, Bool, true, false, List, [], ◌∷◌, ◌++◌, none, some, length, take,
  drop, arith,
}
use jjmcp.Text.{Bytes, codes, starts_with}
use jjmcp.Process.{Result, success, failure}
use jjmcp.Julia.Marker.{make_marker}
use jjmcp.Julia.Marker.Distinct.{make_marker_id_distinct}
use jjmcp.Julia.Literal.{julia_string_literal, read_literal, read-julia_string_literal}
use jjmcp.Julia.Extract.{Kind, ExtractedOutput, no_output, extract_between_markers}
use jjmcp.Julia.Extract.Script.{Script, pane_text}
use jjmcp.Julia.Extract.Total.{extract_total}
use jjmcp.Julia.Overlap.{
  compute_capture_overlap, walk, kmp_prefix_function, advance, fall, prefix_loop,
}
use jjmcp.Julia.Overlap.Border.{IsBest}
use jjmcp.Julia.Overlap.Best.{compute_capture_overlap-IsBest, fast_path_redundant}
use jjmcp.Julia.Truncate.{truncate_bytes_tail}
use jjmcp.Julia.Truncate.Cut.{IsWhole, AllContinue, earlier_note, truncate_bytes_tail_lem}
use jjmcp.State.{ServerState}
use jjmcp.Tools.Eval.{Polling, polling_start, poll_loop, splice}
use jjmcp.Tools.Eval.Rounds.{IsWaiting, poll_loop_stops}
use jjmcp.Tools.Eval.Splice.{splice_lem}
use jjmcp.Tools.Answer.{rejected, run_marker_eval, retry_eval}
use jjmcp.Tools.Answer.Retry.{second_attempt_decides}
use jjmcp.Text.{newline}
use jjmcp.Julia.Code.{wrap_julia_code}
use jjmcp.Julia.Code.Wrap.{opening_line, IsBody, wrap_julia_code_lem}

abbrev id : Bytes
id = codes "7"

abbrev echo : List Bytes
echo = codes "julia> " ∷ codes "       4" ∷ []

-- `hi` on the standard output, and the value 4.
abbrev events : Script
events = (codes "hi\n", Kind.out_end) ∷ (codes "4\n", Kind.val_end) ∷ []

abbrev pane : Bytes
pane = pane_text id echo events [] (codes "\njulia> ")

abbrev busy : List (Result Bytes × Bool)
busy = (failure (codes "busy"), false) ∷ []

abbrev behind_busy : Polling
behind_busy = record polling_start { capture_failures = 1 }

abbrev begun : ExtractedOutput
begun = record no_output { found_begin = true }

poll_loop_stops_example :
    (¬ IsWaiting (
      poll_loop
        (make_marker id)
        true
        false
        polling_start
        (busy ++ (success (codes "julia> "), true) ∷ [])))
    × (poll_loop
          (make_marker id)
          true
          false
          polling_start
          (busy ++ (success (codes "julia> "), true) ∷ busy)
        ≡ poll_loop
            (make_marker id)
            true
            false
            polling_start
            (busy ++ (success (codes "julia> "), true) ∷ []))
poll_loop_stops_example =
    poll_loop_stops (make_marker id) true false polling_start busy (success (codes "julia> ")) busy

extract_total_example :
    (r : ExtractedOutput) × (extract_between_markers
        (codes "__JJMCP_BEGIN_7__\nhi")
        (make_marker id)
      ≡ some r)
extract_total_example = extract_total (codes "__JJMCP_BEGIN_7__\nhi") id

compute_capture_overlap-IsBest_example :
    IsBest (codes "xabab") (codes "ababc") (compute_capture_overlap (codes "xabab") (codes "ababc"))
compute_capture_overlap-IsBest_example =
    compute_capture_overlap-IsBest (codes "xabab") (codes "ababc")

fast_path_redundant_example :
    compute_capture_overlap (codes "ab") (codes "abc")
    ≡ walk (kmp_prefix_function (codes "abc")) (codes "abc") (codes "ab") 0
fast_path_redundant_example = fast_path_redundant (codes "ab") (codes "abc") (λ e. cc)

-- The last bytes that repeat the first of the next capture.
overlap_test : compute_capture_overlap (codes "one\ntwo\n") (codes "two\nthree\n") ≡ 4
unfolding compute_capture_overlap walk kmp_prefix_function prefix_loop advance fall starts_with
overlap_test = refl

ends_in_two : IsBest (codes "one\ntwo\n") (codes "two\nthree\n") 4
unfolding compute_capture_overlap walk kmp_prefix_function prefix_loop advance fall starts_with
ends_in_two = compute_capture_overlap-IsBest (codes "one\ntwo\n") (codes "two\nthree\n")

splice_lem_example :
    (splice (codes "zero\none\ntwo\n") (codes "one\ntwo\n") (codes "two\nthree\n")).0
    ≡ codes "zero\none\ntwo\nthree\n"
splice_lem_example =
    splice_lem (codes "zero\n") (codes "one\ntwo\n") (codes "two\nthree\n") 4 ends_in_two

second_attempt_decides_example :
    retry_eval
      (codes "%1")
      rejected
      (success tt)
      (run_marker_eval (make_marker id) 1000 20 false false (success tt) busy)
    ≡ run_marker_eval (make_marker id) 1000 20 false false (success tt) busy
second_attempt_decides_example =
    second_attempt_decides (codes "%1") (make_marker id) 1000 20 false (success tt) busy

read-julia_string_literal_example :
    read_literal (julia_string_literal (codes "a\"$b\n\\") ++ codes ")")
    ≡ some (codes "a\"$b\n\\", codes ")")
read-julia_string_literal_example = read-julia_string_literal (codes "a\"$b\n\\") (codes ")")

-- `é` in two bytes, of which the cut would keep the second alone.
abbrev accented : Bytes
accented = b'a' ∷ 195 ∷ 169 ∷ b'b' ∷ []

truncate_bytes_tail_lem_example :
    (n : ℕ) × (truncate_bytes_tail accented 2 ≡ earlier_note n ++ drop n accented)
    × (take n accented ++ drop n accented ≡ accented)
    × (length (drop n accented) ≤ 2)
    × IsWhole (drop n accented)
    × (length accented ≤ n + 2)
    × AllContinue (take (n + 2 - length accented) (drop (length accented - 2) accented))
truncate_bytes_tail_lem_example = truncate_bytes_tail_lem accented 2 (omega arith) (omega arith)

make_marker_id_distinct_example : (◌≡◌ {A = ℕ} 5 5) × (◌≡◌ {A = ℕ} 6 6) × (◌≡◌ {A = ℕ} 7 7)
make_marker_id_distinct_example = make_marker_id_distinct 5 6 7 5 6 7 refl

abbrev fresh_state : ServerState
fresh_state = record {
  config_path = codes "/p/.jjmcp/config.json";
  binding = none;
  marker_sequence = 18446744073709551615;
  last_marker = [];
  last_command_timestamp = [];
  max_timeout_ms = 600000;
}

wrap_julia_code_lem_example :
    (body : Bytes) × (wrap_julia_code (codes "1 + 1\n") (make_marker id) 1000
      ≡ opening_line (make_marker id) 1000 ++ (body ++ (newline ∷ codes "end\n")))
    × IsBody (codes "1 + 1\n") body
wrap_julia_code_lem_example = wrap_julia_code_lem (codes "1 + 1\n") (make_marker id) 1000
