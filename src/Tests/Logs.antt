-- ===== src/Tests/Logs.antt =====
-- The transcript at concrete inputs (src/transcript.cpp).
use jjmcp.Base.{ℕ, List, zero, suc, ◌≡◌, refl, false, [], ◌∷◌, none, length, arith}
use jjmcp.Text.{Bytes, codes}
use jjmcp.Transcript.{TranscriptEntry, Writing, unopened, written}

-- A text of one byte over and over.
unfoldable repeated : ℕ → ℕ → Bytes
repeated zero c = []
repeated (suc n) c = c ∷ repeated n c

length-repeated : (n c : ℕ) → length (repeated n c) ≡ n
unfolding repeated
length-repeated zero c = refl
length-repeated (suc n) c = omega (arith, length-repeated n c)

abbrev long_output : Bytes
long_output = repeated 9000000 b'a'

abbrev entry : TranscriptEntry
entry = record {
  timestamp = codes "t";
  sequence = 0;
  tool = codes "jjmcp_eval";
  target = codes "%1";
  code = codes "1";
  arguments = none;
  is_error = false;
  elapsed_ms = 5;
  transport = codes "tmux";
  output = codes "1\n";
}

abbrev no_json : TranscriptEntry → Bytes → Bytes
no_json e output = output

-- The second of three writes does not work.
abbrev calls : List (Writing × TranscriptEntry)
calls = (written, entry) ∷ (unopened, entry) ∷ (written, entry) ∷ []
