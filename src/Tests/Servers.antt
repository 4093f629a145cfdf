-- ===== src/Tests/Servers.antt =====
-- The protocol and the two threads at concrete inputs (src/mcp.cpp, src/main.cpp).
use jjmcp.Base.{◌+◌, ◌*◌, ◌≤◌, length, ◌≡◌, refl, Bool, true, false, List, [], ◌∷◌, some}
use jjmcp.Text.{Bytes, codes, ◌=ᵇ◌, is_empty, ends_with}
use jjmcp.Json.{pos, lookup, string_at, value_string}
use jjmcp.Mcp.{
  handle_request, needs_worker, method_or_empty, read_mcp_message, make_jsonrpc_result,
  call_response, gave, dispatch_mcp_request, dispatch_object, dispatch_valid, dispatch_method,
  method_named, frames_of, request_id_or_null, is_notification, has_id, tools_call, params_of,
  arguments_of, progress_token,
}
use jjmcp.Mcp.Silent.{notification_silent}
use jjmcp.Server.{
  Server, started, read_round, act_on, take_message, accept, Run, here, later, reads, reader_writes,
  takes, works, worker_writes, rests, exits, joins, Source, stopped, exited,
}
use jjmcp.Server.Reads.{messages, tool_requests, inline_frames, handle_all, from}
use jjmcp.Server.Refinement.{serve_refines}
use jjmcp.Server.Progress.{run_length, serve_finishes}
use jjmcp.Tests.Values.{
  Value, values, counting, request, notification, integer, object, no_member, parse,
}

ping_named : string_at values (request 7 (codes "ping")) (codes "method") ≡ some (codes "ping")
unfolding string_at lookup ◌=ᵇ◌
ping_named = refl

notification_silent_example :
    handle_request values counting (notification (codes "notifications/cancelled")) 3 ≡ ([], 3)
unfolding lookup ◌=ᵇ◌ string_at value_string
notification_silent_example =
    notification_silent values counting (notification (codes "notifications/cancelled"))
      (codes "notifications/cancelled") 3 refl refl refl refl

-- A call and a ping, from start to end: the ping is answered before the call is begun.
abbrev lines : List Bytes
lines = codes "call" ∷ codes "ping" ∷ []

abbrev at_ping : Server values parse counting
at_ping =
    read_round values parse counting
      (read_round values parse counting (started values parse counting lines 0))

read_ping : Run values parse counting (started values parse counting lines 0) at_ping
unfolding read_round act_on take_message accept read_mcp_message needs_worker method_or_empty
    string_at ◌=ᵇ◌ is_empty ends_with
read_ping = later (later here (reads refl)) (reads refl)

abbrev pong : Value
pong = make_jsonrpc_result values (integer (pos 2)) (object no_member)

abbrev called : Value
called =
    call_response values counting (integer (pos 1))
      (gave false (codes "jjmcp_status") (integer (pos 0)))

-- The state once both threads have returned.
abbrev at_end : Server values parse counting
at_end = record {
  input = [];
  reader = stopped;
  jobs = [];
  shutting_down = true;
  worker = exited;
  state = 1;
  output = (Source.reader, pong) ∷ (Source.worker, called) ∷ [];
}

to_end : Run values parse counting (started values parse counting lines 0) at_end
unfolding read_round act_on take_message accept read_mcp_message needs_worker method_or_empty
    string_at ◌=ᵇ◌ is_empty ends_with handle_request dispatch_mcp_request dispatch_object
    dispatch_valid dispatch_method method_named frames_of request_id_or_null is_notification has_id
    value_string lookup tools_call params_of arguments_of progress_token
to_end =
    let run1 = later read_ping (reader_writes pong [] refl) in
    let run2 = later run1 (takes (request 1 (codes "tools/call")) [] refl refl) in
    let run3 = later run2 (works (request 1 (codes "tools/call")) refl) in
    let run4 = later run3 (worker_writes called [] refl) in
    let run5 = later (later run4 (rests refl)) (reads refl) in
    later (later run5 (exits refl refl refl)) (joins refl refl)

serve_refines_example :
    (from values parse counting Source.worker at_end.output
      ≡ (handle_all values parse counting
          (tool_requests values parse counting (messages lines))
          0).0)
    × (from values parse counting Source.reader at_end.output
        ≡ inline_frames values parse counting 0 (messages lines))
    × (at_end.state
        ≡ (handle_all values parse counting
            (tool_requests values parse counting (messages lines))
            0).1)
serve_refines_example = serve_refines values parse counting lines 0 at_end to_end refl

serve_finishes_example :
    (run_length values parse counting read_ping
      ≤ length
          (handle_all values parse counting
            (tool_requests values parse counting (messages lines))
            0).0
        + length (inline_frames values parse counting 0 (messages lines))
        + 4 * length lines
        + 3)
    × ((u : Server values parse counting) × Run values parse counting at_ping u
        × (u.reader ≡ stopped))
serve_finishes_example = serve_finishes values parse counting lines 0 at_ping read_ping
