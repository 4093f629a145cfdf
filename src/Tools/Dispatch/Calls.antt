-- ===== src/Tools/Dispatch/Calls.antt =====
-- A tool call with its entry in the transcript (src/tools.cpp `call`, `record_transcript`).
-- `append_entry` is what `append` of the transcript does to it and to the world.
use jjmcp.Base.{ℕ, ◌-◌, ◌/◌, Bool, [], Option, if◌then◌else◌}
use jjmcp.Text.{Bytes}
use jjmcp.Process.{Result}
use jjmcp.Json.{Json}
use jjmcp.State.{ServerState}
use jjmcp.Tmux.Commands.{ns_per_ms}
use jjmcp.Transcript.{Transcript, TranscriptEntry, enabled}
use jjmcp.Tools.Dispatcher.{Host, Dispatcher, Reply, Stage, answered, going, threw, unfinished}
use jjmcp.Tools.Handlers.{Handler}
use jjmcp.Tools.Dispatch.{dispatch, entry_of}

module _ {W : Type 0} (host : Host W) (json : Json) (fuel : ℕ) (active : Bool) (cwd : Bytes)
    (lexically_normal : Bytes → Bytes) (save_config : ServerState → W → Result (Unit {0}) × W)
    (validate : Bytes → W → Result (Unit {0}) × W) (dump : json.Value → Option Bytes)
    (append_entry : Transcript → TranscriptEntry → W → Transcript × W) where
  open json use {Value}

  abbrev pub entry : Bytes → Value → Reply Value → ℕ → Dispatcher W → TranscriptEntry
  entry = entry_of host json fuel active cwd lexically_normal save_config validate dump

  unfoldable pub record_transcript : Bytes → Value → Reply Value → ℕ → Dispatcher W → Dispatcher W
  record_transcript name arguments reply elapsed_ms d =
      let (transcript, w) =
        append_entry d.transcript (entry name arguments reply elapsed_ms d) d.outside in
      if enabled d.transcript then record d { transcript = transcript; outside = w } else d

  -- What follows the dispatch; an exception leaves the call.
  unfoldable pub finish_call :
      Bytes
      → Value
      → ℕ
      → Stage Value (Reply Value) × Dispatcher W
      → Stage Value (Reply Value) × Dispatcher W
  finish_call name arguments start (answered reply, d) = (
    going reply,
    record_transcript name arguments reply ((host.clock d.outside - start) / ns_per_ms) d,
  )
  finish_call name arguments start (going reply, d) = (
    going reply,
    record_transcript name arguments reply ((host.clock d.outside - start) / ns_per_ms) d,
  )
  finish_call name arguments start (threw what, d) = (threw what, d)
  finish_call name arguments start (unfinished, d) = (unfinished, d)

  unfoldable pub call : Bytes → Value → Handler host json
  call name arguments d = finish_call name arguments (host.clock d.outside) (
      dispatch host json fuel active cwd lexically_normal save_config validate name arguments
        (record d { last_code = [] }))
