-- ===== src/Options.antt =====
-- The options of serve (src/main.cpp `parse_serve_options`, `apply_env_overrides`) and the settings
-- file (src/transcript.cpp `transcript_settings_from_file`). The environment is a function, and a file
-- is what its text is parsed to, if it opens and is JSON.
pub mod Given
use jjmcp.Base.{
  ℕ, ◌+◌, ◌-◌, ◌*◌, ◌^◌, Bool, true, false, not, ◌&&◌, ◌||◌, List, [], ◌∷◌, ◌++◌, Option, none,
  some, ltb, ◌==◌, if◌then◌else◌,
}
use jjmcp.Text.{Bytes, codes, is_empty, ◌=ᵇ◌}
use jjmcp.Text.Words.{is_digit, is_space}
use jjmcp.Json.{Json, ℤ, pos, negsuc, string_at}
use jjmcp.State.{ServerState, path_join}
use jjmcp.Tools.Lock.{skip_spaces, leading_number}

-- `ServeOptions`, and the `TranscriptSettings` of the file, which has the same fields.
pub record ServeOptions : Type 0 where
  pub transcript : Bytes
  pub transcript_format : Bytes

abbrev pub no_options : ServeOptions
no_options = record { transcript = []; transcript_format = [] }

abbrev pub or_empty : Option Bytes → Bytes
or_empty none = []
or_empty (some s) = s

unfoldable pub transcript_settings_from_file : (json : Json) → Option json.Value → ServeOptions
transcript_settings_from_file json none = no_options
transcript_settings_from_file json (some doc) =
    if json.is_object doc
    then record {
      transcript = or_empty (string_at json doc (codes "transcript"));
      transcript_format = or_empty (string_at json doc (codes "transcript_format"));
    }
    else no_options

-- The environment, and behind it the settings file in the home directory.
unfoldable pub initial_options : (Bytes → Option Bytes) → (Bytes → ServeOptions) → ServeOptions
initial_options env settings =
    let path = or_empty (env (codes "JJMCP_TRANSCRIPT")) in
    let format = or_empty (env (codes "JJMCP_TRANSCRIPT_FORMAT")) in
    let given : ServeOptions = record { transcript = path; transcript_format = format } in
    if is_empty path
    then (elim (env (codes "HOME")) as (λ _. ServeOptions) [
      | none ↦ given
      | some home ↦
          let file =
            settings (path_join (path_join home (codes ".jjmcp")) (codes "settings.json")) in
          record {
            transcript = file.transcript;
            transcript_format = if is_empty format then file.transcript_format else format;
          }
    ])
    else given

-- The loop over the arguments behind `serve`.
unfoldable pub read_arguments : ServeOptions → List Bytes → Option ServeOptions
read_arguments options [] = some options
read_arguments options (arg ∷ []) = none
read_arguments options (arg ∷ value ∷ args) =
    let with_path = read_arguments (record options { transcript = value }) args in
    let with_format = read_arguments (record options { transcript_format = value }) args in
    if arg =ᵇ codes "--transcript"
    then with_path
    else if arg =ᵇ codes "--transcript-format"
    then with_format
    else none

unfoldable pub check_format : ServeOptions → Option ServeOptions
check_format options =
    if not (is_empty options.transcript_format)
      && (not (options.transcript_format =ᵇ codes "text")
          && not (options.transcript_format =ᵇ codes "jsonl"))
    then none
    else some options

unfoldable pub parse_serve_options :
    (Bytes → Option Bytes) → (Bytes → ServeOptions) → List Bytes → Option ServeOptions
parse_serve_options env settings args = elim (read_arguments (initial_options env settings) args) [
  | none ↦ none
  | some options ↦ check_format options
]

-- `std::stoi`: the digits at the start, behind white space and a sign, where there are some and the
-- number is an `int`; `none` for an exception. What follows the digits is left out.
unfoldable pub digits_of : Bytes → Option ℕ
digits_of [] = none
digits_of (c ∷ s) = if is_digit c then some (leading_number (c ∷ s) 0) else none

unfoldable pub signed_of : Bytes → Option ℤ
signed_of [] = none
signed_of (c ∷ s) =
    let minus = λ (n : ℕ). if n == 0 then pos 0 else negsuc (n - 1) in
    let negative : Option ℤ = elim (digits_of s) [
      | none ↦ none
      | some n ↦ if ltb (2 ^ 31) n then none else some (minus n)
    ] in
    let positive = λ (t : Bytes).
      (let r : Option ℤ = elim (digits_of t) [
        | none ↦ none
        | some n ↦ if ltb n (2 ^ 31) then some (pos n) else none
      ] in
        r) in
    if c == b'-' then negative else if c == b'+' then positive s else positive (c ∷ s)

unfoldable pub stoi : Bytes → Option ℤ
stoi text = signed_of (skip_spaces text)

unfoldable pub take_limit : Option ℤ → ServerState → ServerState
take_limit none state = state
take_limit (some (negsuc n)) state = state
take_limit (some (pos n)) state = if ltb 0 n then record state { max_timeout_ms = n } else state

unfoldable pub apply_env_overrides : (Bytes → Option Bytes) → ServerState → ServerState
apply_env_overrides env state = elim (env (codes "JJMCP_TIMEOUT_MS_MAX")) [
  | none ↦ state
  | some text ↦ take_limit (stoi text) state
]
