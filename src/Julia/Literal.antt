-- ===== src/Julia/Literal.antt =====
-- A text as a Julia string literal (src/julia_wrap.cpp `julia_string_literal`), and a reader of the
-- escapes of such a literal, by which it is judged.
use jjmcp.Base.{
  ℕ, ◌+◌, ◌-◌, ◌*◌, ◌/◌, ◌%◌, ◌≡◌, ◌&&◌, [], ◌∷◌, ◌++◌, Option, none, some, arith, ltb, leb, ◌==◌,
  if◌then◌else◌, append_assoc, append-nil, sym, true,
}
use jjmcp.Text.{Bytes, newline, carriage_return}

abbrev backslash : ℕ
backslash = b'\\'

abbrev quote : ℕ
quote = b'"'

-- `hex[n]` of "0123456789abcdef".
unfoldable pub hex : ℕ → ℕ
hex n = if ltb n 10 then b'0' + n else b'a' + (n - 10)

-- What one round of the `switch` appends; `(c >> 4) & 0x0f` is `c / 16 % 16`.
unfoldable pub escape_byte : ℕ → Bytes
unfolding hex
escape_byte c =
    if c == backslash
    then backslash ∷ backslash ∷ []
    else if c == quote
    then backslash ∷ quote ∷ []
    else if c == newline
    then backslash ∷ b'n' ∷ []
    else if c == carriage_return
    then backslash ∷ b'r' ∷ []
    else if c == b'\t'
    then backslash ∷ b't' ∷ []
    else if c == b'$'
    then backslash ∷ b'$' ∷ []
    else if ltb c 0x20
    then backslash ∷ b'x' ∷ hex (c / 16 % 16) ∷ hex (c % 16) ∷ []
    else c ∷ []

unfoldable pub escape_loop : Bytes → Bytes → Bytes
unfolding escape_byte
escape_loop [] out = out
escape_loop (c ∷ text) out = escape_loop text (out ++ escape_byte c)

unfoldable pub julia_string_literal : Bytes → Bytes
unfolding escape_loop
julia_string_literal text = escape_loop text (quote ∷ []) ++ quote ∷ []

-- The reader: in plain text, behind a backslash, and inside `\xHH`.
data Mode : Type 0 where
  plain escape high : Mode
  low : ℕ → Mode

unhex : ℕ → Option ℕ
unhex c =
    if leb b'0' c && leb c b'9'
    then some (c - b'0')
    else if leb b'a' c && leb c b'f'
    then some (c - b'a' + 10)
    else none

-- The byte that a one-letter escape stands for.
letter : ℕ → Option ℕ
letter c =
    if c == b'n'
    then some newline
    else if c == b'r'
    then some carriage_return
    else if c == b't'
    then some b'\t'
    else if c == backslash
    then some backslash
    else if c == quote
    then some quote
    else if c == b'$'
    then some b'$'
    else none

-- Reads up to the closing quote: the text read behind `done`, and what follows the quote. A `$` with
-- no backslash would interpolate, and is refused.
read : Mode → Bytes → Bytes → Option (Bytes × Bytes)
unfolding unhex letter
read mode done [] = none
read Mode.plain done (c ∷ s) =
    let escaped = read Mode.escape done s in
    let copied = read Mode.plain (done ++ c ∷ []) s in
    if c == quote
    then some (done, s)
    else if c == b'$'
    then none
    else if c == backslash
    then escaped
    else copied
read Mode.escape done (c ∷ s) =
    let digits = read Mode.high done s in
    if c == b'x'
    then digits
    else elim (letter c) [ none ↦ none | some d ↦ read Mode.plain (done ++ d ∷ []) s ]
read Mode.high done (c ∷ s) = elim (unhex c) [ none ↦ none | some h ↦ read (Mode.low h) done s ]
read (Mode.low h) done (c ∷ s) = elim (unhex c) [
  | none ↦ none
  | some l ↦ read Mode.plain (done ++ (h * 16 + l) ∷ []) s
]

pub read_literal : Bytes → Option (Bytes × Bytes)
unfolding read
read_literal [] = none
read_literal (c ∷ s) = let body = read Mode.plain [] s in if c == quote then body else none

unhex-hex : (n : ℕ) (h : ltb n 16 ≡ true) → unhex (hex n) ≡ some n
unfolding unhex hex
unhex-hex n h = ground arith

read-hex :
    (h l : ℕ) (done s : Bytes)
    → ltb h 16 ≡ true
    → ltb l 16 ≡ true
    → read Mode.high done (hex h ∷ hex l ∷ s) ≡ read Mode.plain (done ++ (h * 16 + l) ∷ []) s
unfolding read
read-hex h l done s hh hl = ground (arith, unhex-hex h hh, unhex-hex l hl)

-- The escape of a byte, read back.
read-escape_byte :
    (c : ℕ) (done s : Bytes)
    → read Mode.plain done (escape_byte c ++ s) ≡ read Mode.plain (done ++ c ∷ []) s
unfolding read escape_byte
read-escape_byte c done s = ground (arith, read-hex (c / 16 % 16) (c % 16) done s)

-- The rounds so far are a plain concatenation.
escapes : Bytes → Bytes
escapes [] = []
escapes (c ∷ text) = escape_byte c ++ escapes text

escape_loop-escapes : (text out : Bytes) → escape_loop text out ≡ out ++ escapes text
unfolding escape_loop escapes
escape_loop-escapes [] out = sym (append-nil out)
escape_loop-escapes (c ∷ text) out = simp (escape_loop-escapes text, append_assoc)

read-escapes :
    (text done rest : Bytes)
    → read Mode.plain done (escapes text ++ quote ∷ rest) ≡ some (done ++ text, rest)
unfolding escapes
read-escapes [] done rest = unfold read in rw append-nil
read-escapes (c ∷ text) done rest = rw (
  append_assoc,
  read-escape_byte c done (escapes text ++ quote ∷ rest),
  read-escapes text (done ++ c ∷ []) rest,
  append_assoc,
)

-- A literal is read back to its text, whatever bytes the text holds, and the reader stops exactly
-- at its closing quote: no byte of the text ends the literal early or starts an interpolation.
pub read-julia_string_literal :
    (text rest : Bytes) → read_literal (julia_string_literal text ++ rest) ≡ some (text, rest)
unfolding read_literal julia_string_literal
read-julia_string_literal text rest =
    rw (escape_loop-escapes text (quote ∷ []), append_assoc) (read-escapes text [] rest)
