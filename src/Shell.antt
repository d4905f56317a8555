-- ===== src/Shell.antt =====
-- The shell command scanner of crates/termlm-safety/src/parse.rs.
--
-- `scan_shell` walks the characters with one character of lookahead (`chars.peek()`); a step
-- returns the new state and whether it took the next character too (`chars.next()`).
pub mod Loop
pub mod Word
pub mod Tokens
pub mod Quoting
pub mod Flags
pub mod RoundTrip
use mathlib.Core.Option
use termlm.Base.{
  ℕ, ◌+◌, ◌-◌, min, Bool, true, false, not, ◌&&◌, ◌||◌, List, [], ◌∷◌, ◌++◌, Option, none, some,
  String, ◌==◌, leb, if◌then◌else◌, all,
}
use termlm.Base.Text.{
  Text, codes, is_whitespace, is_ascii_alphabetic, is_ascii_alphanumeric, eq_text, starts_with,
  is_empty, trim,
}

-- `usize::MAX` on the 64-bit targets that the program is built for
abbrev pub usize_max : ℕ
usize_max = 18446744073709551615

abbrev pub saturating_add : ℕ → ℕ → ℕ
saturating_add a b = min (a + b) usize_max

pub record ScanResult : Type 0 where
  pub tokens : List Text
  pub has_pipeline : Bool
  pub has_control_operators : Bool
  pub has_redirection : Bool
  pub has_command_substitution : Bool
  pub has_grouping : Bool
  pub trailing_operator : Bool
  pub unbalanced_quotes : Bool
  pub unbalanced_grouping : Bool
  pub warnings : List String

-- The locals of `scan_shell`.
pub record Scanner : Type 0 where
  pub out : ScanResult
  pub token : Text
  pub in_single_quote : Bool
  pub in_double_quote : Bool
  pub escaped : Bool
  pub paren_depth : ℕ
  pub last_was_operator : Bool

abbrev pub initial : Scanner
initial = record {
  out = record {
    tokens = [];
    has_pipeline = false;
    has_control_operators = false;
    has_redirection = false;
    has_command_substitution = false;
    has_grouping = false;
    trailing_operator = false;
    unbalanced_quotes = false;
    unbalanced_grouping = false;
    warnings = [];
  };
  token = [];
  in_single_quote = false;
  in_double_quote = false;
  escaped = false;
  paren_depth = 0;
  last_was_operator = false;
}

abbrev push : Scanner → ℕ → Scanner
push s ch = record s { token = s.token ++ ch ∷ [] }

-- the tokens after `flush_token`
abbrev pub flushed : Text → List Text → List Text
flushed t tokens = if is_empty t then tokens else tokens ++ t ∷ []

unfoldable pub flush_token : Scanner → Scanner
flush_token s = record s {
  out = record (s.out) { tokens = flushed (trim s.token) s.out.tokens };
  token = [];
}

abbrev pub peek_is : Option ℕ → ℕ → Bool
peek_is none c = false
peek_is (some d) c = d == c

abbrev warn : ScanResult → String → ScanResult
warn out w = record out { warnings = out.warnings ++ w ∷ [] }

-- the arm '$'
step_dollar : Scanner → Option ℕ → Scanner × Bool
step_dollar s next =
    if peek_is next b'('
    then (
      record s {
        out = record (s.out) { has_command_substitution = true; has_grouping = true };
        paren_depth = saturating_add s.paren_depth 1;
        token = s.token ++ b'$' ∷ b'(' ∷ [];
        last_was_operator = false;
      },
      true,
    )
    else (record (push s b'$') { last_was_operator = false }, false)

abbrev push_inside : Scanner → ℕ → Scanner
push_inside s ch = if is_empty s.token then s else push s ch

-- the arm '('
step_open : Scanner → Scanner
step_open s = record (push_inside s b'(') {
  out = record (s.out) { has_grouping = true };
  paren_depth = saturating_add s.paren_depth 1;
  last_was_operator = false;
}

-- the arm ')'
step_close : Scanner → Scanner
step_close s =
    let out = record (s.out) { has_grouping = true } in
    record (push_inside s b')') {
      out =
          if s.paren_depth == 0
          then warn (record out { unbalanced_grouping = true }) "unbalanced closing parenthesis"
          else out;
      paren_depth = s.paren_depth - 1;
      last_was_operator = false;
    }

-- the arm '|'
step_pipe : Scanner → Option ℕ → Scanner × Bool
unfolding flush_token
step_pipe s next =
    let f = flush_token s in
    if peek_is next b'|'
    then (
      record f { out = record (f.out) { has_control_operators = true }; last_was_operator = true },
      true,
    )
    else (
      record f { out = record (f.out) { has_pipeline = true }; last_was_operator = true },
      false,
    )

-- the arm '&'
step_amp : Scanner → Option ℕ → Scanner × Bool
unfolding flush_token
step_amp s next =
    let f = flush_token s in
    (
      record f { out = record (f.out) { has_control_operators = true }; last_was_operator = true },
      peek_is next b'&',
    )

-- the arm ';'
step_semicolon : Scanner → Scanner
unfolding flush_token
step_semicolon s =
    let f = flush_token s in
    record f { out = record (f.out) { has_control_operators = true }; last_was_operator = true }

-- the arm '>' | '<'
step_redirect : Scanner → Option ℕ → Scanner × Bool
unfolding flush_token
step_redirect s next =
    let f = flush_token s in
    (
      record f { out = record (f.out) { has_redirection = true }; last_was_operator = true },
      peek_is next b'>' || peek_is next b'<',
    )

-- the arm for white space
step_blank : Scanner → Scanner
unfolding flush_token
step_blank s =
    let f = flush_token s in
    record f { last_was_operator = if is_empty f.out.tokens then f.last_was_operator else false }

-- the `match ch` outside quotes
unfoldable pub step_bare : Scanner → ℕ → Option ℕ → Scanner × Bool
unfolding step_dollar step_open step_close step_pipe step_amp step_semicolon step_redirect
    step_blank
step_bare s ch next =
    if ch == b'\\'
    then (record s { escaped = true; last_was_operator = false }, false)
    else if ch == b'\''
    then (record s { in_single_quote = true; last_was_operator = false }, false)
    else if ch == b'"'
    then (record s { in_double_quote = true; last_was_operator = false }, false)
    else if ch == b'$'
    then step_dollar s next
    else if ch == b'('
    then (step_open s, false)
    else if ch == b')'
    then (step_close s, false)
    else if ch == b'|'
    then step_pipe s next
    else if ch == b'&'
    then step_amp s next
    else if ch == b';'
    then (step_semicolon s, false)
    else if ch == b'>' || ch == b'<'
    then step_redirect s next
    else if is_whitespace ch
    then (step_blank s, false)
    else (record (push s ch) { last_was_operator = false }, false)

-- one round of the `while let` loop
unfoldable pub step : Scanner → ℕ → Option ℕ → Scanner × Bool
unfolding step_bare
step s ch next =
    if s.escaped
    then (record (push s ch) { escaped = false; last_was_operator = false }, false)
    else if s.in_single_quote
    then (if ch == b'\'' then record s { in_single_quote = false } else push s ch, false)
    else if s.in_double_quote
    then (
      if ch == b'"'
          then record s { in_double_quote = false }
          else if ch == b'\\'
          then record s { escaped = true }
          else push s ch,
      false,
    )
    else step_bare s ch next

unfoldable pub scan_loop : Scanner → Text → Scanner
scan_loop s [] = s
scan_loop s (ch ∷ []) = (step s ch none).0
scan_loop s (ch ∷ d ∷ rest) = elim ((step s ch (some d)).1) [
  | true ↦ scan_loop (step s ch (some d)).0 rest
  | false ↦ scan_loop (step s ch (some d)).0 (d ∷ rest)
]

-- what follows the loop
unfoldable pub finish : Scanner → ScanResult
unfolding flush_token
finish s =
    let f = flush_token s in
    let quotes =
      if f.in_single_quote || f.in_double_quote || f.escaped
      then warn (record (f.out) { unbalanced_quotes = true }) "unbalanced or unterminated quoting"
      else f.out in
    let groups =
      if f.paren_depth == 0
      then quotes
      else warn (record quotes { unbalanced_grouping = true }) "unbalanced grouping parentheses" in
    if f.last_was_operator
    then warn (record groups { trailing_operator = true }) "command ends with a shell operator"
    else groups

unfoldable pub scan_shell : Text → ScanResult
unfolding scan_loop finish
scan_shell input = finish (scan_loop initial input)

-- `token.split_once('=')`, the part on its left
unfoldable pub before_equals : Text → Option Text
before_equals [] = none
before_equals (c ∷ cs) = if c == b'=' then some [] else Option.map (◌∷◌ c) (before_equals cs)

is_name_char : ℕ → Bool
unfolding is_ascii_alphanumeric
is_name_char c = is_ascii_alphanumeric c || c == b'_'

is_variable_name : Text → Bool
unfolding is_name_char is_ascii_alphabetic
is_variable_name [] = false
is_variable_name (first ∷ rest) =
    if not (is_ascii_alphabetic first || first == b'_') then false else all is_name_char rest

unfoldable pub is_env_assignment : Text → Bool
unfolding before_equals is_variable_name
is_env_assignment token = elim (before_equals token) [
  | none ↦ false
  | some lhs ↦ is_variable_name lhs
]

-- the loop of `extract_first_significant_token`; the flag is `skipping_sudo_options`
first_significant : Bool → List Text → Option Text
first_significant skipping [] = none
first_significant skipping (token ∷ rest) =
    let after_option = first_significant true rest in
    let after_assignment = first_significant false rest in
    if eq_text token (codes "sudo")
    then after_option
    else if skipping && starts_with token (codes "-")
    then after_option
    else if eq_text token (codes "env") || is_env_assignment token
    then after_assignment
    else some token

unfoldable pub extract_first_significant_token : List Text → Option Text
unfolding first_significant
extract_first_significant_token tokens = first_significant false tokens

pub record ParsedCommand : Type 0 where
  pub first_token : Option Text
  pub tokens : List Text
  pub has_pipeline : Bool
  pub has_control_operators : Bool
  pub has_redirection : Bool
  pub has_command_substitution : Bool
  pub has_grouping : Bool
  pub trailing_operator : Bool
  pub unbalanced_quotes : Bool
  pub unbalanced_grouping : Bool
  pub ambiguous : Bool
  pub warnings : List String

abbrev pub is_none {ℓ} : {A : Type ℓ} → Option A → Bool
is_none none = true
is_none (some _) = false

unfoldable pub parse_command : Text → ParsedCommand
unfolding scan_shell extract_first_significant_token
parse_command cmd =
    let scan = scan_shell cmd in
    let first_token = extract_first_significant_token scan.tokens in
    record {
      first_token = first_token;
      tokens = scan.tokens;
      has_pipeline = scan.has_pipeline;
      has_control_operators = scan.has_control_operators;
      has_redirection = scan.has_redirection;
      has_command_substitution = scan.has_command_substitution;
      has_grouping = scan.has_grouping;
      trailing_operator = scan.trailing_operator;
      unbalanced_quotes = scan.unbalanced_quotes;
      unbalanced_grouping = scan.unbalanced_grouping;
      ambiguous =
          scan.unbalanced_grouping
          || scan.unbalanced_quotes
          || scan.trailing_operator
          || is_none first_token;
      warnings = scan.warnings;
    }

unfoldable pub first_significant_token : Text → Option Text
unfolding parse_command
first_significant_token cmd = (parse_command cmd).first_token

unfoldable pub has_risky_constructs : ParsedCommand → Bool
has_risky_constructs p =
    p.has_pipeline || p.has_control_operators || p.has_redirection || p.has_command_substitution
