-- ===== src/Probe.antt =====
-- The read-only probe validator of crates/termlm-core/src/main.rs
-- (`validate_readonly_command_tokens` and what it calls): which commands the daemon runs by itself.
-- An error message is its text, or the one that names the refused program.
pub mod Split
pub mod Accepts
pub mod Stages
use termlm.Base.{
  ℕ, Bool, true, false, not, ◌&&◌, ◌||◌, List, [], ◌∷◌, ◌++◌, String, ltb, ◌==◌, if◌then◌else◌, all,
  any, length,
}
use termlm.Base.Text.{Text, codes, eq_text, starts_with, contains_char, is_empty, trim}
use termlm.Shell.{ParsedCommand, parse_command}

pub data Message : Type 0 where
  plain : String → Message
  not_allowlisted : Text → Message

pub data Result {ℓ} (A : Type ℓ) : Type ℓ where
  ok : A → Result A
  err : Message → Result A

infixl 5 ◌>>=◌ ◌>>◌
abbrev pub ◌>>=◌ {ℓ κ} : {X : Type ℓ} {Y : Type κ} → Result X → (X → Result Y) → Result Y
ok x >>= next = next x
err message >>= next = err message

abbrev pub ◌>>◌ {ℓ} : {Y : Type ℓ} → Result (Unit {0}) → Result Y → Result Y
first >> later = first >>= λ _. later

-- `if test { return Err(message) }`
abbrev pub refuse : Bool → Message → Result (Unit {0})
refuse true m = err m
refuse false m = ok tt

-- a token is one of the listed words
unfoldable pub is_one_of : Text → List String → Bool
unfolding eq_text
is_one_of t [] = false
is_one_of t (w ∷ ws) = eq_text t (codes w) || is_one_of t ws

abbrev forbidden_find_actions : List String
forbidden_find_actions =
    "-delete" ∷ "-execdir" ∷ "-ok" ∷ "-okdir" ∷ "-fls" ∷ "-fprint" ∷ "-fprintf" ∷ []

-- The loops of `readonly_find_probe_allowed`: the flag says that the inner loop, which looks for
-- the end of an `-exec stat`, is running.
find_args_allowed : Bool → List Text → Bool
find_args_allowed true [] = false
find_args_allowed true (token ∷ rest) =
    let after = find_args_allowed false rest in
    let inside = find_args_allowed true rest in
    if is_one_of token ("+" ∷ ";" ∷ "\\;" ∷ [])
    then after
    else if contains_char token b'$' || starts_with token (codes "~") || contains_char token b'`'
    then false
    else inside
find_args_allowed false [] = true
find_args_allowed false (arg ∷ []) =
    not (is_one_of arg forbidden_find_actions) && not (eq_text arg (codes "-exec"))
find_args_allowed false (arg ∷ program ∷ rest) =
    let next = find_args_allowed false (program ∷ rest) in
    let inside = find_args_allowed true rest in
    if is_one_of arg forbidden_find_actions
    then false
    else if eq_text arg (codes "-exec")
    then (if eq_text program (codes "stat") then inside else false)
    else next

unfoldable pub readonly_find_probe_allowed : List Text → Bool
unfolding find_args_allowed
readonly_find_probe_allowed args = find_args_allowed false args

unfoldable pub readonly_git_probe_allowed : List Text → Bool
readonly_git_probe_allowed [] = false
readonly_git_probe_allowed (subcommand ∷ rest) =
    if is_one_of subcommand ("--version" ∷ "version" ∷ [])
    then is_empty rest
    else if is_one_of subcommand
        ("status" ∷ "rev-parse" ∷ "log" ∷ "diff" ∷ "show" ∷ "ls-files" ∷ "describe" ∷ [])
    then true
    else if eq_text subcommand (codes "branch")
    then all
        (λ arg.
          is_one_of arg ("--show-current" ∷ "--list" ∷ "--all" ∷ "-a" ∷ "-r" ∷ "-v" ∷ "-vv" ∷ []))
        rest
    else false

unfoldable pub readonly_probe_program_allowed : Text → List Text → Bool
unfolding readonly_find_probe_allowed readonly_git_probe_allowed
readonly_probe_program_allowed program args =
    if eq_text program (codes "pwd")
    then all (λ arg. is_one_of arg ("-L" ∷ "-P" ∷ [])) args
    else if is_one_of program
        ("ls" ∷ "stat" ∷ "df" ∷ "head" ∷ "tail" ∷ "wc" ∷ "du" ∷ "sort" ∷ "cut" ∷ [])
    then true
    else if eq_text program (codes "find")
    then readonly_find_probe_allowed args
    else if is_one_of program (
        "which" ∷ "whereis" ∷ "uname" ∷ "date" ∷ "whoami" ∷ "id" ∷ "sw_vers" ∷ "ps" ∷ "pgrep"
        ∷ "uptime" ∷ [])
    then true
    else if eq_text program (codes "sysctl")
    then not (any (λ arg. eq_text arg (codes "-w") || contains_char arg b'=') args)
    else if eq_text program (codes "git")
    then readonly_git_probe_allowed args
    else false

abbrev pub has_expansion : Text → Bool
has_expansion token = contains_char token b'$' || starts_with token (codes "~")

unfoldable pub reject_readonly_shell_expansions : List Text → Result (Unit {0})
reject_readonly_shell_expansions tokens =
    refuse (any has_expansion tokens)
      (plain "shell expansions are not available; use absolute or relative paths")

-- the first token, and the others, against the allowlist; the message is that for no token
unfoldable pub check_program : List Text → String → Result (Unit {0})
check_program [] empty = err (plain empty)
check_program (program ∷ args) empty =
    refuse (not (readonly_probe_program_allowed program args)) (not_allowlisted program)

-- The locals of `split_simple_readonly_pipeline`.
pub record Splitter : Type 0 where
  pub segments : List Text
  pub current : Text
  pub in_single : Bool
  pub in_double : Bool
  pub escaped : Bool

-- a segment that ends here
unfoldable pub end_segment : Splitter → Result (List Text)
end_segment s =
    let segment = trim s.current in
    if is_empty segment
    then err (plain "empty pipeline segment")
    else ok (s.segments ++ segment ∷ [])

unfoldable pub split_step : Splitter → ℕ → Result Splitter
split_step s ch =
    let pushed = record s { current = s.current ++ ch ∷ [] } in
    if s.escaped
    then ok (record pushed { escaped = false })
    else if ch == b'\\'
    then ok (record pushed { escaped = true })
    else if ch == b'\'' && not s.in_double
    then ok (record pushed { in_single = not s.in_single })
    else if ch == b'"' && not s.in_single
    then ok (record pushed { in_double = not s.in_double })
    else if ch == b'|' && not s.in_single && not s.in_double
    then (end_segment s >>= λ segments. ok (record s { segments = segments; current = [] }))
    else ok pushed

unfoldable pub split_loop : Splitter → Text → Result (List Text)
split_loop s [] = end_segment s
split_loop s (ch ∷ rest) = split_step s ch >>= λ s'. split_loop s' rest

abbrev pub split_start : Splitter
split_start = record {
  segments = [];
  current = [];
  in_single = false;
  in_double = false;
  escaped = false;
}

unfoldable pub split_simple_readonly_pipeline : Text → Result (List Text)
split_simple_readonly_pipeline cmd = split_loop split_start cmd

-- one round of the loop over the segments
unfoldable pub check_segment : Text → Result (Unit {0})
check_segment segment = do
  let parsed = parse_command segment
  refuse
      (parsed.ambiguous || parsed.has_pipeline || parsed.has_control_operators
        || parsed.has_redirection || parsed.has_command_substitution || parsed.has_grouping)
      (plain "pipeline segment contains unsupported shell syntax")
  reject_readonly_shell_expansions parsed.tokens
  check_program parsed.tokens "empty pipeline segment"

unfoldable pub check_segments : List Text → Result (Unit {0})
check_segments [] = ok tt
check_segments (segment ∷ rest) = check_segment segment >> check_segments rest

unfoldable pub validate_readonly_pipeline_segments : Text → Result (Unit {0})
validate_readonly_pipeline_segments cmd = do
  segments ← split_simple_readonly_pipeline cmd
  refuse (ltb (length segments) 2) (plain "pipeline must have at least two commands")
  refuse (ltb 4 (length segments)) (plain "read-only pipelines may have at most four commands")
  check_segments segments

abbrev no_operators : Message
no_operators =
    plain "control operators, redirection, grouping, and command substitution are not allowed"

-- the arm for a pipeline: it is handed to `/bin/sh -c`
unfoldable pub validate_pipeline : Text → ParsedCommand → Result (List Text)
validate_pipeline trimmed parsed = do
  refuse
      (parsed.has_control_operators || parsed.has_redirection || parsed.has_command_substitution
        || parsed.has_grouping)
      no_operators
  refuse (ltb 80 (length parsed.tokens)) (plain "too many arguments for a read-only probe")
  reject_readonly_shell_expansions parsed.tokens
  validate_readonly_pipeline_segments trimmed
  ok (codes "/bin/sh" ∷ codes "-c" ∷ trimmed ∷ [])

-- the arm for a single command: its tokens are run with no shell
unfoldable pub validate_single : ParsedCommand → Result (List Text)
validate_single parsed = do
  refuse
      (parsed.has_control_operators || parsed.has_redirection || parsed.has_command_substitution
        || parsed.has_grouping)
      no_operators
  refuse (ltb 40 (length parsed.tokens)) (plain "too many arguments for a read-only probe")
  reject_readonly_shell_expansions parsed.tokens
  check_program parsed.tokens "empty command"
  ok parsed.tokens

unfoldable pub validate_readonly_command_tokens : Text → Result (List Text)
validate_readonly_command_tokens cmd = do
  let trimmed = trim cmd
  refuse (is_empty trimmed) (plain "empty command")
  refuse (contains_char trimmed b'\n' || contains_char trimmed b'\r' || contains_char trimmed b'`')
      (plain "shell newlines and backtick substitution are not allowed")
  let parsed = parse_command trimmed
  refuse parsed.ambiguous (plain "ambiguous shell syntax is not allowed")
  if parsed.has_pipeline then validate_pipeline trimmed parsed else validate_single parsed
