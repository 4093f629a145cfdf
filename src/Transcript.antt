-- ===== src/Transcript.antt =====
-- The transcript (src/transcript.hpp, src/transcript.cpp). The JSON line of an entry is a parameter,
-- and so are its arguments: the dump of the value, or `none` where it is null or empty. The file is
-- its content; that the directory above it is made, errors aside, is left out.
pub mod Log
use jjmcp.Base.{
  ℕ, ◌+◌, ◌-◌, ◌*◌, ◌%◌, Bool, true, false, not, ◌&&◌, List, [], ◌∷◌, ◌++◌, Option, none, some,
  length, drop, leb, if◌then◌else◌,
}
use jjmcp.Text.{Bytes, codes, newline, is_empty, to_string, ◌=ᵇ◌}
use jjmcp.Process.{Result, success, failure}
use jjmcp.Tools.Output.{append_block}

pub record TranscriptEntry : Type 0 where
  pub timestamp : Bytes
  pub sequence : ℕ
  pub tool : Bytes
  pub target : Bytes
  pub code : Bytes
  pub arguments : Option Bytes
  pub is_error : Bool
  pub elapsed_ms : ℕ
  pub transport : Bytes
  pub output : Bytes

pub data TranscriptFormat : Type 0 where
  text jsonl : TranscriptFormat

abbrev pub max_transcript_output_bytes : ℕ
max_transcript_output_bytes = 8 * 1024 * 1024

unfoldable pub transcript_format_from_string : Bytes → TranscriptFormat
transcript_format_from_string name =
    if name =ᵇ codes "jsonl" then TranscriptFormat.jsonl else TranscriptFormat.text

unfoldable pub transcript_format_name : TranscriptFormat → Bytes
transcript_format_name TranscriptFormat.jsonl = codes "jsonl"
transcript_format_name TranscriptFormat.text = codes "text"

unfoldable pub cap_output : Bytes → Bytes
cap_output output =
    let omitted = length output - max_transcript_output_bytes in
    if leb (length output) max_transcript_output_bytes
    then output
    else codes "[jjmcp transcript: "
      ++ to_string omitted
      ++ codes " earlier bytes omitted]\n"
      ++ drop omitted output

-- `append_block` of the tools writes what the one of the transcript does.
-- The heading, the code or the arguments, and the result line of the text format.
unfoldable pub entry_heading : TranscriptEntry → Bytes
entry_heading entry =
    codes "==== "
    ++ entry.timestamp
    ++ codes " #"
    ++ to_string entry.sequence
    ++ codes " "
    ++ entry.tool
    ++ (if not (is_empty entry.target) then codes " pane " ++ entry.target else [])
    ++ codes " ====\n"

unfoldable pub entry_request : TranscriptEntry → Bytes
entry_request entry =
    if not (is_empty entry.code)
    then append_block (codes ">>> code\n") entry.code
    else elim entry.arguments [
      | none ↦ []
      | some dump ↦ codes ">>> arguments " ++ dump ++ newline ∷ []
    ]

unfoldable pub entry_status : TranscriptEntry → Bytes
entry_status entry =
    codes "<<< "
    ++ (if entry.is_error then codes "error" else codes "ok")
    ++ codes ", "
    ++ to_string entry.elapsed_ms
    ++ codes " ms"
    ++ (if not (is_empty entry.transport) then codes ", " ++ entry.transport else [])
    ++ newline ∷ []

unfoldable pub format_transcript_entry :
    (TranscriptEntry → Bytes → Bytes) → TranscriptEntry → TranscriptFormat → Bytes
format_transcript_entry json_line entry TranscriptFormat.jsonl =
    json_line entry (cap_output entry.output)
format_transcript_entry json_line entry TranscriptFormat.text =
    entry_heading entry
    ++ entry_request entry
    ++ entry_status entry
    ++ append_block [] (cap_output entry.output)
    ++ newline ∷ []

pub record Transcript : Type 0 where
  pub path : Bytes
  pub format : TranscriptFormat
  pub sequence : ℕ

unfoldable pub enable : Transcript → Bytes → TranscriptFormat → Transcript
enable t path format = record t { path = path; format = format }

unfoldable pub disable : Transcript → Transcript
disable t = record t { path = [] }

unfoldable pub enabled : Transcript → Bool
enabled t = not (is_empty t.path)

-- How the file takes an entry: it does not open, the write fails and leaves some content, or it
-- is appended to.
pub data Writing : Type 0 where
  unopened : Writing
  broken : Bytes → Writing
  written : Writing

unfoldable pub write_entry : Writing → Bytes → Bytes → Bytes → Result (Unit {0}) × Bytes
write_entry unopened path line file =
    (failure (codes "could not open transcript file: " ++ path), file)
write_entry (broken left) path line file =
    (failure (codes "could not write transcript file: " ++ path), left)
write_entry written path line file = (success tt, file ++ line)

-- The transcript and the file behind the call; the sequence number is a 64-bit word.
unfoldable pub append :
    (TranscriptEntry → Bytes → Bytes)
    → Writing
    → Transcript
    → Bytes
    → TranscriptEntry
    → Result (Unit {0}) × Transcript × Bytes
append json_line writing t file entry =
    let sequence = (t.sequence + 1) % 18446744073709551616 in
    let line = format_transcript_entry json_line (record entry { sequence = sequence }) t.format in
    let (result, file') = write_entry writing t.path line file in
    if is_empty t.path
    then (success tt, t, file)
    else (result, record t { sequence = sequence }, file')
