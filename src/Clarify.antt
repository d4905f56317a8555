-- ===== src/Clarify.antt =====
-- `clarification_question_for_ambiguous_prompt` of crates/termlm-core/src/tasks/mod.rs: the prompts
-- that are answered by a question.
pub mod Passes
pub mod Answers
use termlm.Base.{
  ℕ, Bool, false, not, ◌&&◌, ◌||◌, [], ◌∷◌, Option, none, some, String, if◌then◌else◌, any, ◌==◌,
}
use termlm.Base.Text.{
  Text, codes, eq_text, contains, ends_with, is_empty, trim, strip_prefix, lines, trim_matches,
  is_ascii_punctuation, is_whitespace, to_ascii_lowercase,
}

-- the loop of `has_unbalanced_quote`: `escaped`, and whether `count` is odd
unfoldable pub unbalanced_loop : ℕ → Bool → Bool → Text → Bool
unbalanced_loop quote escaped odd [] = odd
unbalanced_loop quote escaped odd (ch ∷ rest) =
    unbalanced_loop quote (if escaped then false else ch == b'\\')
      (if not escaped && not (ch == b'\\') && ch == quote then not odd else odd) rest

unfoldable pub has_unbalanced_quote : Text → ℕ → Bool
unfolding unbalanced_loop
has_unbalanced_quote text quote = unbalanced_loop quote false false text

unfoldable pub incomplete_command : Text → Bool
unfolding has_unbalanced_quote ends_with
incomplete_command cmd =
    ends_with cmd (codes "|")
    || ends_with cmd (codes "&&")
    || ends_with cmd (codes "||")
    || has_unbalanced_quote cmd b'\''
    || has_unbalanced_quote cmd b'"'

unfoldable pub incomplete_line : Text → Bool
unfolding incomplete_command trim strip_prefix
incomplete_line line = elim (strip_prefix (trim line) (codes "$")) [
  | none ↦ false
  | some rest ↦ incomplete_command (trim rest)
]

unfoldable pub prompt_contains_incomplete_shell_snippet : Text → Bool
unfolding incomplete_line lines
prompt_contains_incomplete_shell_snippet prompt = any incomplete_line (lines prompt)

unfoldable pub is_either : Text → String → String → Bool
unfolding eq_text
is_either t a b = eq_text t (codes a) || eq_text t (codes b)

-- a prompt that would delete or move files it does not name
unfoldable pub names_no_files : Text → Bool
unfolding contains
names_no_files p =
    (contains p (codes "delete")
      || contains p (codes "remove")
      || contains p (codes "move")
      || contains p (codes "rename"))
    && (contains p (codes " old ones")
        || contains p (codes " these ")
        || contains p (codes " those "))

unfoldable pub clarification_question_for_ambiguous_prompt : Text → Option Text
unfolding prompt_contains_incomplete_shell_snippet is_either names_no_files contains
clarification_question_for_ambiguous_prompt prompt =
    let trimmed = trim prompt in
    let p = to_ascii_lowercase trimmed in
    let normalized = trim_matches (λ c. is_ascii_punctuation c || is_whitespace c) p in
    if is_empty normalized
    then some (codes "What exact command behavior should run?")
    else if prompt_contains_incomplete_shell_snippet trimmed
    then some
        (codes "The command snippet looks incomplete. What exact complete command should I run?")
    else if is_either normalized "do the usual" "usual"
    then some (codes "What usual action should I run here?")
    else if is_either normalized "fix it" "fix this"
    then some (codes "What should I fix, and what outcome should the command produce?")
    else if is_either normalized "clean this up" "clean up this"
    then some (codes "What should I clean up, and which files or directories are in scope?")
    else if is_either normalized "make this faster" "speed this up"
    then some (codes "What should I measure or change to make this faster?")
    else if is_either normalized "rename my files" "rename files"
    then some (codes "Which files should I rename, and what naming pattern should I use?")
    else if is_either normalized "delete the old ones" "remove the old ones"
    then some (codes "Which files should I delete, and how should I identify the old ones?")
    else if contains p (codes "hyperdrive command")
    then some (
        codes
          "I do not know a real macOS hyperdrive command. What real tool or outcome should I use?")
    else if names_no_files p
    then some (codes "Which exact files should I operate on, and what rule should select them?")
    else none
