-- ===== src/Options/Given.antt =====
-- What serve is started with (src/main.cpp `parse_serve_options`).
use jjmcp.Base.{◌≡◌, ◌⊎◌, []}
use jjmcp.Text.{Bytes, codes}

-- The format is left open, or one of the two.
abbrev pub IsFormat : Bytes → Type 0
IsFormat format = (format ≡ []) ⊎ (format ≡ codes "text") ⊎ (format ≡ codes "jsonl")
