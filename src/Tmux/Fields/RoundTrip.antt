-- ===== src/Tmux/Fields/RoundTrip.antt =====
-- Fields that were joined by the separator are split again.
use jjmcp.Base.{
  ℕ, zero, suc, ◌+◌, ◌≤◌, ◌<◌, ◌≡◌, refl, ◌∙◌, List, [], ◌∷◌, ◌++◌, none, some, length, take, drop,
  arith, append_assoc, append-nil, length-append, drop_two, take-append,
}
use jjmcp.Text.{Bytes, newline, carriage_return, find_first}
use jjmcp.Text.Find.{NotWithin, find_first_behind, find_first-append_none}
use jjmcp.Text.Laws.{Lacks, Lacks-append}
use jjmcp.Tmux.Fields.{
  field_sep, join_rest, join_format, drop_line_ends, split_loop, split_tmux_fields,
}

abbrev intercalated : Bytes → List Bytes → Bytes
intercalated f [] = f
intercalated f (g ∷ fields) = f ++ (field_sep ++ intercalated g fields)

intercalated-append :
    (x f : Bytes) (fields : List Bytes) → intercalated (x ++ f) fields ≡ x ++ intercalated f fields
intercalated-append x f [] = refl
intercalated-append x f (g ∷ fields) = append_assoc x f (field_sep ++ intercalated g fields)

join_rest-intercalated :
    (fields : List Bytes) (fmt : Bytes) → join_rest fields fmt ≡ intercalated fmt fields
unfolding join_rest
join_rest-intercalated [] fmt = refl
join_rest-intercalated (f ∷ fields) fmt =
    join_rest-intercalated fields ((fmt ++ field_sep) ++ f)
    ∙ intercalated-append (fmt ++ field_sep) f fields
    ∙ append_assoc fmt field_sep (intercalated f fields)

-- No separator starts inside a field.
abbrev pub AreApart : Bytes → List Bytes → Type 0
AreApart f [] = NotWithin field_sep f []
AreApart f (g ∷ fields) =
    NotWithin field_sep f (field_sep ++ intercalated g fields) × AreApart g fields

no_sep : (f : Bytes) → NotWithin field_sep f [] → find_first field_sep f ≡ none
no_sep f h =
    rw (append-nil f) at (find_first-append_none field_sep f [] h (unfold find_first in refl))

split_loop_end :
    (fuel : ℕ) (rest : Bytes) (seen : List Bytes)
    → find_first field_sep rest ≡ none
    → split_loop (suc fuel) rest seen ≡ seen ++ rest ∷ []
unfolding split_loop
split_loop_end fuel rest seen e = rw (e, split_loop)

split_loop_step :
    (fuel pos : ℕ) (rest : Bytes) (seen : List Bytes)
    → find_first field_sep rest ≡ some pos
    → split_loop (suc fuel) rest seen
      ≡ split_loop fuel (drop (pos + length field_sep) rest) (seen ++ take pos rest ∷ [])
unfolding split_loop
split_loop_step fuel pos rest seen e = rw (e, split_loop)

split_loop-intercalated :
    (fields : List Bytes) (f : Bytes) (seen : List Bytes) (fuel : ℕ)
    → AreApart f fields
    → length fields < fuel
    → split_loop fuel (intercalated f fields) seen ≡ seen ++ f ∷ fields
split_loop-intercalated fields f seen zero h enough = absurd (omega arith)
split_loop-intercalated [] f seen (suc fuel) h enough = split_loop_end fuel f seen (no_sep f h)
split_loop-intercalated (g ∷ fields) f seen (suc fuel) (apart, h) enough =
    let more = intercalated g fields in
    split_loop_step fuel (length f) (f ++ (field_sep ++ more)) seen
      (find_first_behind field_sep f more apart)
    ∙ rw (drop_two f field_sep more, take-append f (field_sep ++ more))
        (split_loop-intercalated fields g (seen ++ f ∷ []) fuel h (omega arith)
          ∙ append_assoc seen (f ∷ []) (g ∷ fields))

drop_line_ends-line :
    (s : Bytes) → Lacks carriage_return s → Lacks newline s → drop_line_ends (s ++ newline ∷ []) ≡ s
unfolding drop_line_ends
drop_line_ends-line [] hr hn = refl
drop_line_ends-line (c ∷ s) (hc, hr) (hd, hn) = ground (arith, drop_line_ends-line s hr hn)

-- Every field is free of the byte.
abbrev pub AllLack : ℕ → List Bytes → Type 0
AllLack b [] = Unit
AllLack b (f ∷ fields) = Lacks b f × AllLack b fields

intercalated-Lacks :
    (b : ℕ) (f : Bytes) (fields : List Bytes)
    → Lacks b field_sep
    → AllLack b (f ∷ fields)
    → Lacks b (intercalated f fields)
intercalated-Lacks b f [] sep (h, hs) = h
intercalated-Lacks b f (g ∷ fields) sep (h, hs) =
    Lacks-append b f (field_sep ++ intercalated g fields) h
      (Lacks-append b field_sep (intercalated g fields) sep (intercalated-Lacks b g fields sep hs))

length-intercalated :
    (f : Bytes) (fields : List Bytes) → length fields ≤ length (intercalated f fields)
length-intercalated f [] = omega arith
length-intercalated f (g ∷ fields) = omega (
  arith,
  length-append f (field_sep ++ intercalated g fields),
  length-append field_sep (intercalated g fields),
  length-intercalated g fields,
)

-- A line of fields that hold no line end, and in which no separator starts, is split into the fields
-- as they were joined, the empty ones included.
pub split-join_format :
    (f : Bytes) (fields : List Bytes)
    → AllLack carriage_return (f ∷ fields)
    → AllLack newline (f ∷ fields)
    → AreApart f fields
    → split_tmux_fields (join_format (f ∷ fields) ++ newline ∷ []) ≡ f ∷ fields
unfolding split_tmux_fields join_format
split-join_format f fields hr hn apart =
    let joined = intercalated f fields in
    let clean : drop_line_ends (joined ++ newline ∷ []) ≡ joined =
      drop_line_ends-line joined (intercalated-Lacks carriage_return f fields (omega arith) hr)
        (intercalated-Lacks newline f fields (omega arith) hn) in
    rw (join_rest-intercalated fields f, clean)
      (split_loop-intercalated fields f [] (suc (length joined)) apart
        (omega (arith, length-intercalated f fields)))
