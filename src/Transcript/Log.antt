-- ===== src/Transcript/Log.antt =====
-- What a transcript holds behind a run of calls (src/transcript.cpp).
use jjmcp.Base.{
  ℕ, ◌+◌, ◌-◌, ◌%◌, ◌<◌, ◌≡◌, ◌⊎◌, false, List, [], ◌∷◌, ◌++◌, length, drop, arith, leb, ◌==◌,
  if◌then◌else◌, append_assoc, length-drop,
}
use jjmcp.Text.{Bytes, codes, newline, to_string}
use jjmcp.Tools.Lock.{leading_number}
use jjmcp.Transcript.{
  TranscriptEntry, TranscriptFormat, max_transcript_output_bytes, cap_output,
  format_transcript_entry, Transcript, Writing, unopened, broken, written, append,
}

abbrev pub omission_note : ℕ → Bytes
omission_note n = codes "[jjmcp transcript: " ++ to_string n ++ codes " earlier bytes omitted]\n"

-- An output over the limit is recorded as its last bytes, as many as the limit, behind a note that
-- counts the others.
pub cap_output_lem :
    (output : Bytes)
    → max_transcript_output_bytes < length output
    → (n : ℕ) × (cap_output output ≡ omission_note n ++ drop n output)
      × (length (drop n output) ≡ max_transcript_output_bytes)
      × (n + max_transcript_output_bytes ≡ length output)
unfolding cap_output
cap_output_lem output over =
    let n = length output - max_transcript_output_bytes in
    let long : leb (length output) max_transcript_output_bytes ≡ false = ground arith in
    (n, rw long (simp append_assoc), omega (arith, length-drop n output), omega arith)

-- The text behind the first `#`.
abbrev after_hash : Bytes → Bytes
after_hash [] = []
after_hash (c ∷ s) = if c == b'#' then s else after_hash s

-- The number that a reader finds in the heading of an entry.
abbrev pub number_read : Bytes → ℕ
number_read piece = leading_number (after_hash piece) 0

abbrev pub NoHash : Bytes → Type 0
NoHash [] = Unit
NoHash (c ∷ s) = ((c == b'#') ≡ false) × NoHash s

-- A piece of the file in the text format as a reader takes it: the number can be read off it, and the
-- code, whether the call was an error, and the capped output stand in it, in this order and unchanged,
-- with an empty line behind.
pub record IsEntry (n : ℕ) (entry : TranscriptEntry) (piece : Bytes) : Type 0 where
  pub numbered : number_read piece ≡ n
  pub front : Bytes
  pub middle : Bytes
  pub times : Bytes
  pub close : Bytes
  pub closed : (close ≡ newline ∷ []) ⊎ (close ≡ newline ∷ newline ∷ [])
  pub whole :
      piece
      ≡ front
        ++ entry.code
        ++ middle
        ++ codes "<<< "
        ++ (if entry.is_error then codes "error" else codes "ok")
        ++ times
        ++ cap_output entry.output
        ++ close

module _ (json_line : TranscriptEntry → Bytes → Bytes) where
  -- What becomes of each call's write, and its entry.
  abbrev pub Calls : Type 0
  Calls = List (Writing × TranscriptEntry)

  abbrev pub append_all : Transcript → Bytes → Calls → Transcript × Bytes
  append_all t file [] = (t, file)
  append_all t file ((writing, entry) ∷ calls) =
      let (_, t', file') = append json_line writing t file entry in append_all t' file' calls

  abbrev pub after : ℕ → ℕ
  after n = (n + 1) % 18446744073709551616

  -- The file behind calls of which `n` is the number of the last before them: each write that works
  -- adds a piece with the number of its call, and one that fails takes its number with it.
  abbrev pub Logged : ℕ → Bytes → Calls → Bytes → Type 0
  Logged n file [] file' = file' ≡ file
  Logged n file ((unopened, entry) ∷ calls) file' = Logged (after n) file calls file'
  Logged n file ((broken left, entry) ∷ calls) file' = Logged (after n) left calls file'
  Logged n file ((written, entry) ∷ calls) file' =
      (piece : Bytes) × IsEntry (after n) entry piece × Logged (after n) (file ++ piece) calls file'

  abbrev pub NoHashes : Calls → Type 0
  NoHashes [] = Unit
  NoHashes ((writing, entry) ∷ calls) = NoHash entry.timestamp × NoHashes calls

  abbrev pub text_log : Bytes → ℕ → Transcript
  text_log path n = record { path = path; format = TranscriptFormat.text; sequence = n }

  abbrev line_of : TranscriptEntry → ℕ → Bytes
  line_of entry n =
      format_transcript_entry json_line (record entry { sequence = n }) TranscriptFormat.text
