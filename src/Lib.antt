-- ===== src/Lib.antt =====
-- The core of JJMCP, a server that evaluates Julia code in a REPL inside a tmux pane and answers over
-- the Model Context Protocol.
--
-- The program pastes code into a pane, wrapped so that the REPL prints markers around its output
-- (src/julia_wrap.cpp), polls the pane's text by commands to tmux (src/tmux.cpp) until the markers
-- are there, and turns what stands between them into the answer of a tool (src/tools.cpp). Before a
-- paste it takes an advisory lock and installs a small runtime in the Julia process.
--
-- The parts, and the code they are about:
--   Base            numbers, lists and options that the parts share
--   Text            texts as lists of byte values: comparison, search, decimal print, words
--   Process         src/result.hpp, src/process.hpp, describe_process_result of src/process.cpp
--   State           src/state.hpp, src/state.cpp; State.Config has the reading and writing of its file
--   Json            the JSON library as an interface, and the reads that the server makes of a value
--   Mcp             src/mcp.hpp, src/mcp.cpp, and handle_request of src/main.cpp
--   Server          the two threads of serve in src/main.cpp, as a step relation
--   Julia.Marker    the markers of one evaluation: make_marker, make_marker_id
--   Julia.Literal   julia_string_literal, and a reader of such literals
--   Julia.Code, Julia.Bootstrap   the texts that are pasted
--   Julia.Lines     split_lines, join_lines, trim_ascii
--   Julia.Extract   extract_between_markers and its helpers
--   Julia.Overlap   kmp_prefix_function, compute_capture_overlap
--   Julia.Truncate  the limits by lines and by bytes
--   Tmux.Fields     join_format, split_tmux_fields
--   Tmux.Commands   the methods of Tmux
--   Tools.Output    truncate_tool_tail, compact_marker_accumulator
--   Tools.Summary   the summary of a Julia test run, from header to row
--   Tools.Prompt    is_known_non_julia_prompt, jjmcp_runtime_missing
--   Tools.Generation, Tools.RuntimeCache, Tools.Runtime   when a pane carries the runtime, and its
--                   installation by ensure_jjmcp_runtime
--   Tools.Lock      AdvisoryLock, alone and among processes that interleave
--   Tools.Eval, Tools.Answer   the polls of eval_code, and what they answer
--   Tools.PaneText  format_pane_info
--   Tools.Dispatcher   the state of ToolDispatcher, and the world around it as an interface
--   Tools.Stages, Tools.Evaluate   eval_code as a whole, over the parts above
--   Tools.Arguments    require_string, optional_string, optional_int
--   Tools.Handlers, Tools.TestResults, Tools.Dispatch   the handlers of the tools, dispatch, and call
--   Tools.Resources    list_resources_json, read_resource
--   Transcript      src/transcript.hpp, src/transcript.cpp
--   Socket          src/socket_client.hpp, src/socket_client.cpp, over what the system calls give
--   Options         the options of serve in src/main.cpp, and the settings file of the transcript
--   Tests           runs of the definitions, and the theorems at concrete inputs
--
-- A text is a list of numbers, one for each byte. A position in a text is, where the code only goes
-- on from it, the rest of the text from there. A C++ reference that a function fills is part of its
-- result, and `return false` is the option `none`. Results, sums and records stand for the classes of
-- the same names.
--
-- The process runner behind tmux is a parameter, with the state behind it handed from call to call.
-- In Tools.Eval, Tools.Answer and Tools.Runtime the polls of a loop are a list of inputs, each with
-- what the capture gave and whether the deadline had passed when the clock was read behind it; in
-- Tools.Evaluate the same rounds are run on the world, with its clock and the sleeps. The steady clock
-- counts nanoseconds, and what is left to a deadline is cut to whole milliseconds for a sleep, as
-- `duration_cast` does. The process id and the test for a process that is gone are given.
--
-- Loops are structural, but for these. The loop of extract_between_markers has a round for each byte
-- of the capture, which is enough since a marker is not empty and each round passes one. The fallback
-- of the prefix function has as many rounds as the length it starts from, which every round lowers.
-- The loop of split_tmux_fields has a round for each byte, and decimal print one for each unit of the
-- number. `lock_step` and `acquire` have the two attempts of the code.
--
-- The counts of a test summary are clamped to 10^9 each. The total is an `int`: the sum of four counts
-- can overflow, which C++ leaves undefined, and which the model takes as the 32-bit wrap-around.
--
-- The JSON library is a record of operations and laws, `Json`: a read that the code makes in two calls,
-- such as `contains` and `[]`, is one that gives an option. The tools behind the protocol are a record
-- `Tools`, and the world behind the tools a record `Host`. A handler of a tool is a chain of stages, each
-- of which may answer, throw, or go on. The threads of the server are a state and its steps, with a
-- frame, a change of the queue, and the handling of one request as one step each; the frames that a
-- request writes follow as steps of their own.
--
-- `eval_code` and its loops take fuel, a round for each, and a loop that has had its rounds makes the
-- evaluation unfinished. A round sleeps a whole millisecond while there is one left to the deadline; in
-- the last one it may sleep not at all, and the clock goes on by the command that it runs, which is a
-- nanosecond at least. So 1000000 rounds beyond the milliseconds of the deadline are enough: those of
-- `timeout_ms`, and the 30000 of the longest installation. The wait for the bracketed paste has 3000
-- milliseconds and sleeps 20 in each round.
--
-- Not modelled: the process runner itself, the system calls of the socket client, the start of serve
-- behind its options, the text of JSON frames, the schemas that `list_tools_json` gives (constants), the
-- JSON lines of the transcript, logging, the frames of progress, the syntax check
-- (it runs a Julia process), and the Julia helper package.
pub mod Base
pub mod Text
pub mod Julia
pub mod Tmux
pub mod Process
pub mod State
pub mod Json
pub mod Mcp
pub mod Server
pub mod Socket
pub mod Options
pub mod Tools
pub mod Transcript
pub mod Tests
