-- ===== src/Clarify/Passes.antt =====
-- The prompts that pass without a question.
use termlm.Base.{
  ℕ, zero, suc, Bool, true, false, not, ◌||◌, List, [], ◌∷◌, Option, none, some, ◌≡◌, arith, ◌==◌,
  if◌then◌else◌, any, All, Bool-cases, inl, inr,
}
use termlm.Base.Text.{
  Text, codes, ends_with, is_empty, trim, strip_prefix, lines, trim_matches, is_ascii_punctuation,
  is_whitespace, to_ascii_lowercase,
}
use termlm.Clarify.{
  unbalanced_loop, has_unbalanced_quote, incomplete_command, incomplete_line,
  prompt_contains_incomplete_shell_snippet, names_no_files,
  clarification_question_for_ambiguous_prompt,
}

-- The quotes of a text that no backslash takes, counted.
abbrev pub open_quotes : ℕ → Bool → Text → ℕ
open_quotes quote escaped [] = 0
open_quotes quote true (ch ∷ rest) = open_quotes quote false rest
open_quotes quote false (ch ∷ rest) =
    if ch == b'\\'
    then open_quotes quote true rest
    else if ch == quote
    then suc (open_quotes quote false rest)
    else open_quotes quote false rest

abbrev pub is_odd : ℕ → Bool
is_odd zero = false
is_odd (suc n) = not (is_odd n)

-- the parity that the loop ends with, from the one that it starts with
unbalanced_loop-open_quotes :
    (quote : ℕ) (escaped odd : Bool) (text : Text)
    → unbalanced_loop quote escaped odd text ≡ (
        if odd
        then not (is_odd (open_quotes quote escaped text))
        else is_odd (open_quotes quote escaped text))
unfolding unbalanced_loop
unbalanced_loop-open_quotes quote escaped odd [] = ground arith
unbalanced_loop-open_quotes quote true odd (ch ∷ rest) =
    unbalanced_loop-open_quotes quote false odd rest
unbalanced_loop-open_quotes quote false odd (ch ∷ rest) = elim (Bool-cases (ch == b'\\')) [
  | inl e ↦ rw e (unbalanced_loop-open_quotes quote true odd rest)
  | inr e ↦ rw e (elim (Bool-cases (ch == quote)) [
    | inl f ↦ rw f (
        flipped odd (is_odd (open_quotes quote false rest)) _
          (unbalanced_loop-open_quotes quote false (not odd) rest))
    | inr f ↦ rw f (unbalanced_loop-open_quotes quote false odd rest)
  ])
]
  where
    flipped :
        (odd x b : Bool)
        → b ≡ (if not odd then not x else x)
        → b ≡ (if odd then not (not x) else not x)
    flipped odd x b h = ground arith

-- What holds of a shell command that does not look incomplete.
abbrev pub LooksComplete : Text → Type 0
LooksComplete cmd =
    (ends_with cmd (codes "|") ≡ false)
    × (ends_with cmd (codes "&&") ≡ false)
    × (ends_with cmd (codes "||") ≡ false)
    × (is_odd (open_quotes b'\'' false cmd) ≡ false)
    × (is_odd (open_quotes b'"' false cmd) ≡ false)

-- A line without a leading `$`, or with one before a command that does not look incomplete.
abbrev pub IsFine : Text → Type 0
IsFine line = elim (strip_prefix (trim line) (codes "$")) [
  | none ↦ Unit
  | some rest ↦ LooksComplete (trim rest)
]

incomplete_command-LooksComplete : (cmd : Text) → incomplete_command cmd ≡ false → LooksComplete cmd
unfolding incomplete_command has_unbalanced_quote
incomplete_command-LooksComplete cmd h = ground (
  arith,
  unbalanced_loop-open_quotes b'\'' false false cmd,
  unbalanced_loop-open_quotes b'"' false false cmd,
)

incomplete_line-IsFine : (line : Text) → incomplete_line line ≡ false → IsFine line
unfolding incomplete_line
incomplete_line-IsFine line h = by_prefix (strip_prefix (trim line) (codes "$")) h
  where
    by_prefix :
        (o : Option Text)
        → (elim o [ none ↦ false | some rest ↦ incomplete_command (trim rest) ]) ≡ false
        → (elim o as (λ _. Type 0) [ none ↦ Unit | some rest ↦ LooksComplete (trim rest) ])
    by_prefix none e = tt
    by_prefix (some rest) e = incomplete_command-LooksComplete (trim rest) e

lines-IsFine : (ls : List Text) → any incomplete_line ls ≡ false → All IsFine ls
lines-IsFine [] h = tt
lines-IsFine (line ∷ ls) h =
    (incomplete_line-IsFine line (ground (arith, h)), lines-IsFine ls (ground (arith, h)))

passes-snippets :
    (prompt : Text)
    → clarification_question_for_ambiguous_prompt prompt ≡ none
    → (prompt_contains_incomplete_shell_snippet (trim prompt) ≡ false)
      × (is_empty (
            trim_matches
              (λ c. is_ascii_punctuation c || is_whitespace c)
              (to_ascii_lowercase (trim prompt)))
          ≡ false)
      × (names_no_files (to_ascii_lowercase (trim prompt)) ≡ false)
unfolding clarification_question_for_ambiguous_prompt
passes-snippets prompt h = ground (arith, h)

-- The lines of a prompt look complete, and the prompt says what it is about.
abbrev pub IsClear : Text → Type 0
IsClear prompt =
    All IsFine (lines (trim prompt))
    × (is_empty (
          trim_matches (λ c. is_ascii_punctuation c || is_whitespace c)
            (to_ascii_lowercase (trim prompt)))
        ≡ false)
    × (names_no_files (to_ascii_lowercase (trim prompt)) ≡ false)

-- A prompt that passes without a question has more than punctuation and white space, does not ask
-- to change files by `these`, `those` or `old ones` alone, and each of its lines that starts with
-- `$` has a command that does not end in `|`, `&&` or `||` and in which the single quotes and the
-- double quotes that no backslash takes are even in number.
pub clarification_question_for_ambiguous_prompt-IsClear :
    (prompt : Text) → clarification_question_for_ambiguous_prompt prompt ≡ none → IsClear prompt
unfolding prompt_contains_incomplete_shell_snippet
clarification_question_for_ambiguous_prompt-IsClear prompt h =
    let (snippets, full, named) = passes-snippets prompt h in
    (lines-IsFine (lines (trim prompt)) snippets, full, named)
