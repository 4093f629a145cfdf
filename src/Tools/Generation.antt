-- ===== src/Tools/Generation.antt =====
-- The process that owns a pane (src/tools.cpp `pane_foreground_generation`). The first line of
-- `/proc/<pid>/stat` is given; `none` when the file cannot be read.
pub mod Stat
use jjmcp.Base.{
  ℕ, zero, suc, Bool, true, false, not, ◌&&◌, ◌||◌, List, [], ◌∷◌, ◌++◌, Option, none, some, leb,
  ◌==◌, if◌then◌else◌,
}
use jjmcp.Text.{Bytes, codes, is_empty, ◌=ᵇ◌}
use jjmcp.Text.Words.{all_digits, words}

-- The text behind the last `)`.
unfoldable pub after_last_paren : Bytes → Option Bytes
after_last_paren [] = none
after_last_paren (c ∷ s) = elim (after_last_paren s) [
  | some rest ↦ some rest
  | none ↦ if c == b')' then some s else none
]

-- `for (i = 0; i < 6; ++i) if (!(rest >> field)) return {};`: the sixth word.
unfoldable pub sixth : List Bytes → Option Bytes
sixth (a ∷ b ∷ c ∷ d ∷ e ∷ f ∷ rest) = some f
sixth _ = none

unfoldable pub pane_foreground_generation : Bytes → Option Bytes → Bytes
pane_foreground_generation pane_pid none = []
pane_foreground_generation pane_pid (some line) =
    if is_empty pane_pid || not (all_digits pane_pid) then [] else elim (after_last_paren line) [
      | none ↦ []
      | some rest ↦ elim (sixth (words rest)) [
        | none ↦ []
        | some field ↦
            if is_empty field || field =ᵇ codes "-1" then [] else pane_pid ++ codes ":" ++ field
      ]
    ]
