-- ===== src/Probe/Accepts.antt =====
-- What a command that the validator accepts looks like, read by the automaton of Shell/Quoting.
use termlm.Base.{
  ℕ, ◌≤◌, Bool, true, false, ◌||◌, List, [], ◌∷◌, String, ◌≡◌, refl, sym, arith, any, length, ltb,
  if◌then◌else◌,
}
use termlm.Base.Text.{Text, trim, contains_char, is_empty}
use termlm.Shell.{parse_command}
use termlm.Shell.Quoting.{
  bare, is_bare, exposes, substitutes, final, is_redirect, is_group, is_separator,
}
use termlm.Shell.Flags.{scan_shell-flags}
use termlm.Probe.{
  Message, Result, ok, err, refuse, ◌>>◌, has_expansion, readonly_probe_program_allowed,
  reject_readonly_shell_expansions, check_program, check_segment, validate_pipeline,
  validate_single, validate_readonly_command_tokens,
}

abbrev pub allowlisted : List Text → Bool
allowlisted [] = false
allowlisted (program ∷ args) = readonly_probe_program_allowed program args

-- No operator and no substitution stands outside quotes, all quotes are closed, no token asks for
-- an expansion, and the program is allowlisted with its arguments.
pub record IsPlain (cmd : Text) : Type 0 where
  pub closed : is_bare (final bare cmd) ≡ true
  pub no_redirect : exposes is_redirect bare cmd ≡ false
  pub no_group : exposes is_group bare cmd ≡ false
  pub no_substitution : substitutes bare cmd ≡ false
  pub no_separator : exposes is_separator bare cmd ≡ false
  pub no_expansion : any has_expansion (parse_command cmd).tokens ≡ false
  pub program_allowed : allowlisted (parse_command cmd).tokens ≡ true

-- The flags of a parsed command that the validator reads.
abbrev HasNoOperators : Text → Type 0
HasNoOperators cmd =
    ((parse_command cmd).ambiguous ≡ false)
    × ((parse_command cmd).has_pipeline ≡ false)
    × ((parse_command cmd).has_control_operators ≡ false)
    × ((parse_command cmd).has_redirection ≡ false)
    × ((parse_command cmd).has_command_substitution ≡ false)
    × ((parse_command cmd).has_grouping ≡ false)

parse_command-IsPlain :
    (cmd : Text)
    → HasNoOperators cmd
    → any has_expansion (parse_command cmd).tokens ≡ false
    → allowlisted (parse_command cmd).tokens ≡ true
    → IsPlain cmd
unfolding parse_command
parse_command-IsPlain cmd h e a =
    let (redirect, group, substitution, separator, quotes) = scan_shell-flags cmd in
    record {
      closed = ground arith;
      no_redirect = ground arith;
      no_group = ground arith;
      no_substitution = ground arith;
      no_separator = ground arith;
      no_expansion = e;
      program_allowed = a;
    }

check_program-allowlisted :
    (tokens : List Text) (empty : String)
    → check_program tokens empty ≡ ok tt
    → allowlisted tokens ≡ true
unfolding check_program
check_program-allowlisted [] empty h = cc
check_program-allowlisted (program ∷ args) empty h = ground arith

reject-any :
    (tokens : List Text)
    → reject_readonly_shell_expansions tokens ≡ ok tt
    → any has_expansion tokens ≡ false
unfolding reject_readonly_shell_expansions
reject-any tokens h = ground arith

pub refuse-eq_ok :
    (test : Bool) (m : Message) {A : Type 0} (k : Result A) {a : A}
    → (refuse test m >> k) ≡ ok a
    → (test ≡ false) × (k ≡ ok a)
refuse-eq_ok true m k h = cc
refuse-eq_ok false m k h = (refl, h)

pub >>-eq_ok :
    (r : Result (Unit {0})) {A : Type 0} (k : Result A) {a : A}
    → (r >> k) ≡ ok a
    → (r ≡ ok tt) × (k ≡ ok a)
>>-eq_ok (ok tt) k h = (refl, h)
>>-eq_ok (err m) k h = cc

parse_command-HasNoOperators :
    (cmd : Text)
    → ((parse_command cmd).ambiguous
        || (parse_command cmd).has_pipeline
        || (parse_command cmd).has_control_operators
        || (parse_command cmd).has_redirection
        || (parse_command cmd).has_command_substitution
        || (parse_command cmd).has_grouping)
      ≡ false
    → HasNoOperators cmd
parse_command-HasNoOperators cmd h = ground arith

-- A pipeline segment that passes has no operator of any kind, and an allowlisted program.
pub check_segment-IsPlain : (segment : Text) → check_segment segment ≡ ok tt → IsPlain segment
unfolding check_segment
check_segment-IsPlain segment h =
    let (flags, rest) = refuse-eq_ok _ _ _ h in
    let (expansions, program) = >>-eq_ok _ _ rest in
    parse_command-IsPlain segment (parse_command-HasNoOperators segment flags)
      (reject-any _ expansions) (check_program-allowlisted _ _ program)

-- The single-command arm.
validate_single-IsPlain :
    (cmd : Text) {argv : List Text}
    → (parse_command cmd).ambiguous ≡ false
    → (parse_command cmd).has_pipeline ≡ false
    → validate_single (parse_command cmd) ≡ ok argv
    → (argv ≡ (parse_command cmd).tokens) × (length argv ≤ 40) × IsPlain cmd
unfolding validate_single
validate_single-IsPlain cmd amb pipe h =
    let (flags, h1) = refuse-eq_ok _ _ _ h in
    let (short, h2) = refuse-eq_ok _ _ _ h1 in
    let (expansions, h3) = >>-eq_ok _ _ h2 in
    let (program, done) = >>-eq_ok _ _ h3 in
    let same = ok-injective done in
    (
      sym same,
      rw (← same) (short_of _ short),
      parse_command-IsPlain cmd (no_operators_of cmd amb pipe flags) (reject-any _ expansions)
          (check_program-allowlisted _ _ program),
    )
  where
    ok-injective : {A : Type 0} {a b : A} → Result.ok a ≡ ok b → a ≡ b
    ok-injective e = cc

    short_of : (n : ℕ) → ltb 40 n ≡ false → n ≤ 40
    short_of n e = ground arith

    no_operators_of :
        (c : Text)
        → (parse_command c).ambiguous ≡ false
        → (parse_command c).has_pipeline ≡ false
        → ((parse_command c).has_control_operators
            || (parse_command c).has_redirection
            || (parse_command c).has_command_substitution
            || (parse_command c).has_grouping)
          ≡ false
        → HasNoOperators c
    no_operators_of c a p f = ground arith

-- What the first guards let through: a trimmed text that is not empty, has no line break and no
-- backtick, and is not ambiguous.
pub record IsAdmitted (trimmed : Text) : Type 0 where
  pub not_empty : is_empty trimmed ≡ false
  pub no_break :
      (contains_char trimmed b'\n' || contains_char trimmed b'\r' || contains_char trimmed b'`')
      ≡ false
  pub unambiguous : (parse_command trimmed).ambiguous ≡ false

pub validate-IsAdmitted :
    (cmd : Text) {argv : List Text}
    → validate_readonly_command_tokens cmd ≡ ok argv
    → IsAdmitted (trim cmd)
      × ((if (parse_command (trim cmd)).has_pipeline
            then validate_pipeline (trim cmd) (parse_command (trim cmd))
            else validate_single (parse_command (trim cmd)))
          ≡ ok argv)
unfolding validate_readonly_command_tokens
validate-IsAdmitted cmd h =
    let (not_empty, h1) = refuse-eq_ok _ _ _ h in
    let (no_break, h2) = refuse-eq_ok _ _ _ h1 in
    let (unambiguous, rest) = refuse-eq_ok _ _ _ h2 in
    (record { not_empty = not_empty; no_break = no_break; unambiguous = unambiguous }, rest)

pub if_false :
    {A : Type 0} (b : Bool) (x : A) {y r : A} → b ≡ false → (if b then x else y) ≡ r → y ≡ r
if_false true x e h = cc
if_false false x e h = h

pub if_true :
    {A : Type 0} (b : Bool) {x : A} (y : A) {r : A} → b ≡ true → (if b then x else y) ≡ r → x ≡ r
if_true true y e h = h
if_true false y e h = cc

-- A command without a pipeline that the validator accepts is run as its own tokens, at most 40 of
-- them; it has no line break and no backtick, no operator or substitution outside quotes, closed
-- quotes, no token with `$` or a leading `~`, and an allowlisted program with allowed arguments.
pub validate_single_safe :
    (cmd : Text) {argv : List Text}
    → (parse_command (trim cmd)).has_pipeline ≡ false
    → validate_readonly_command_tokens cmd ≡ ok argv
    → IsAdmitted (trim cmd)
      × (argv ≡ (parse_command (trim cmd)).tokens)
      × (length argv ≤ 40)
      × IsPlain (trim cmd)
validate_single_safe cmd pipe h =
    let (admitted, rest) = validate-IsAdmitted cmd h in
    let (same, short, plain) =
      validate_single-IsPlain (trim cmd) admitted.unambiguous pipe (if_false _ _ pipe rest) in
    (admitted, same, short, plain)
