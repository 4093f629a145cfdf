-- ===== src/Tools/Generation/Stat.antt =====
-- The foreground process group in a line of `/proc/<pid>/stat`, whatever the command's name.
use jjmcp.Base.{
  ◌≡◌, ◌≢◌, sym, ap, ◌∙◌, refl, true, false, List, [], ◌∷◌, ◌++◌, none, some, arith, append_assoc,
  append-nil,
}
use jjmcp.Text.{Bytes, codes, is_empty}
use jjmcp.Text.Laws.{Lacks, =ᵇ_false}
use jjmcp.Text.Words.{is_space, all_digits, words_loop, words}
use jjmcp.Tools.Generation.{after_last_paren, sixth, pane_foreground_generation}

-- A word: not empty, and no space in it.
abbrev NoSpace : Bytes → Type 0
NoSpace [] = Unit
NoSpace (c ∷ s) = (is_space c ≡ false) × NoSpace s

abbrev pub IsWord : Bytes → Type 0
IsWord w = (is_empty w ≡ false) × NoSpace w

words_loop-append :
    (w s word : Bytes)
    → NoSpace w
    → words_loop (w ++ b' ' ∷ s) word ≡ words_loop (b' ' ∷ s) (word ++ w)
unfolding words_loop
words_loop-append [] s word h = rw append-nil
words_loop-append (c ∷ w) s word (hc, hw) =
    rw hc (words_loop-append w s (word ++ c ∷ []) hw ∙ rw (append_assoc word (c ∷ []) w))

words_loop_end : (w s : Bytes) → is_empty w ≡ false → words_loop (b' ' ∷ s) w ≡ w ∷ words_loop s []
unfolding words_loop
words_loop_end w s h = rw h

words_loop_space : (s : Bytes) → words_loop (b' ' ∷ s) [] ≡ words_loop s []
unfolding words_loop
words_loop_space s = refl

-- Fields as the kernel prints them: a space before each, and one behind the last.
abbrev pub fields : List Bytes → Bytes → Bytes
fields [] tail = b' ' ∷ tail
fields (w ∷ ws) tail = b' ' ∷ (w ++ fields ws tail)

abbrev pub AreWords : List Bytes → Type 0
AreWords [] = Unit
AreWords (w ∷ ws) = IsWord w × AreWords ws

words_loop-fields :
    (ws : List Bytes) (tail : Bytes)
    → AreWords ws
    → words_loop (fields ws tail) [] ≡ ws ++ words_loop tail []
words_loop-fields [] tail h = words_loop_space tail
words_loop-fields (w ∷ []) tail ((some_w, bare), h) =
    words_loop_space (w ++ b' ' ∷ tail)
    ∙ words_loop-append w tail [] bare
    ∙ words_loop_end w tail some_w
words_loop-fields (w ∷ v ∷ ws) tail ((some_w, bare), h) =
    words_loop_space (w ++ fields (v ∷ ws) tail)
    ∙ words_loop-append w (v ++ fields ws tail) [] bare
    ∙ words_loop_end w (v ++ fields ws tail) some_w
    ∙ ap (λ r. w ∷ r)
        (sym (words_loop_space (v ++ fields ws tail)) ∙ words_loop-fields (v ∷ ws) tail h)

after_last_paren-none : (s : Bytes) → Lacks b')' s → after_last_paren s ≡ none
unfolding after_last_paren
after_last_paren-none [] h = refl
after_last_paren-none (c ∷ s) (hc, hs) = let e = after_last_paren-none s hs in ground arith

after_last_paren-append :
    (front s : Bytes) → Lacks b')' s → after_last_paren (front ++ b')' ∷ s) ≡ some s
unfolding after_last_paren
after_last_paren-append [] s h = let e = after_last_paren-none s h in ground arith
after_last_paren-append (c ∷ front) s h = let e = after_last_paren-append front s h in ground arith

-- For a process id of digits and a line whose fields behind the command name are words and hold no
-- `)`, the sixth of them not -1: the generation is the process id and the sixth field, the
-- foreground process group, also where the name itself holds spaces and parentheses.
pub pane_foreground_generation_lem :
    (pane_pid front state ppid pgrp session tty_nr tpgid tail : Bytes)
    → is_empty pane_pid ≡ false
    → all_digits pane_pid ≡ true
    → AreWords (state ∷ ppid ∷ pgrp ∷ session ∷ tty_nr ∷ tpgid ∷ [])
    → Lacks b')' (fields (state ∷ ppid ∷ pgrp ∷ session ∷ tty_nr ∷ tpgid ∷ []) tail)
    → tpgid ≢ codes "-1"
    → pane_foreground_generation pane_pid
        (some (front ++ b')' ∷ fields (state ∷ ppid ∷ pgrp ∷ session ∷ tty_nr ∷ tpgid ∷ []) tail))
      ≡ pane_pid ++ codes ":" ++ tpgid
unfolding pane_foreground_generation words sixth
pane_foreground_generation_lem pane_pid front state ppid pgrp session tty_nr tpgid tail some_pid
      number words_ok lacks group =
    let ws = state ∷ ppid ∷ pgrp ∷ session ∷ tty_nr ∷ tpgid ∷ [] in
    let split : words (fields ws tail) ≡ ws ++ words_loop tail [] =
      words_loop-fields ws tail words_ok in
    rw (
      some_pid,
      number,
      after_last_paren-append front (fields ws tail) lacks,
      split,
      words_ok.1.1.1.1.1.0.0,
      =ᵇ_false tpgid (codes "-1") group,
    )
