-- ===== src/Text/Words.antt =====
-- Digits, white space, and the words of a stream (`std::isspace`, `operator>>` on strings).
use jjmcp.Base.{ℕ, Bool, true, ◌&&◌, ◌||◌, List, [], ◌∷◌, ◌++◌, leb, ◌==◌, if◌then◌else◌}
use jjmcp.Text.{Bytes, is_empty}

abbrev pub is_digit : ℕ → Bool
is_digit c = leb b'0' c && leb c b'9'

unfoldable pub all_digits : Bytes → Bool
all_digits [] = true
all_digits (c ∷ s) = is_digit c && all_digits s

-- `std::isspace` in the C locale.
abbrev pub is_space : ℕ → Bool
is_space c = c == b' ' || (leb 9 c && leb c 13)

-- The words that `>>` reads from a stream: runs of bytes that are no space. `word` is the one that
-- is being read.
unfoldable pub words_loop : Bytes → Bytes → List Bytes
words_loop [] word = if is_empty word then [] else word ∷ []
words_loop (c ∷ s) word =
    let ended = words_loop s [] in
    let longer = words_loop s (word ++ c ∷ []) in
    if is_space c then (if is_empty word then ended else word ∷ ended) else longer

unfoldable pub words : Bytes → List Bytes
unfolding words_loop
words s = words_loop s []
