-- ===== src/Tools/Answer/Complete.antt =====
-- The answer to an evaluation that the pane shows whole (src/tools.cpp `run_marker_eval`).
use jjmcp.Base.{Bool, true, false, [], ◌∷◌}
use jjmcp.Text.{Bytes}
use jjmcp.Julia.Extract.{Kind, Phase, ExtractedOutput, no_output}
use jjmcp.Julia.Extract.Script.{Script, interpret}

-- The error marker is among the events.
abbrev pub raises : Script → Bool
raises [] = false
raises ((seg, Kind.end) ∷ events) = raises events
raises ((seg, Kind.error) ∷ events) = true
raises ((seg, Kind.out_end) ∷ events) = raises events
raises ((seg, Kind.val_end) ∷ events) = raises events
raises ((seg, Kind.backtrace) ∷ events) = raises events

-- The output of a whole script.
abbrev pub output_of : Script → Bytes → ExtractedOutput
output_of events last = interpret events last Phase.stdout (record no_output { found_begin = true })
