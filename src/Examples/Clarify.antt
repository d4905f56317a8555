-- ===== src/Examples/Clarify.antt =====
-- A prompt that passes, and one that is asked about.
use termlm.Base.{Option, none, some, ◌≡◌, refl}
use termlm.Base.Text.{
  Text, codes, eq_text, contains, starts_with, ends_with, trim, strip_prefix, lines, split_lines,
  trim_matches, trim_start_matches, trim_end_matches, is_ascii_punctuation, is_whitespace,
  to_ascii_lowercase,
}
use termlm.Clarify.{
  unbalanced_loop, has_unbalanced_quote, incomplete_command, incomplete_line, is_either,
  names_no_files, prompt_contains_incomplete_shell_snippet,
  clarification_question_for_ambiguous_prompt,
}
use termlm.Clarify.Passes.{IsClear, clarification_question_for_ambiguous_prompt-IsClear}

-- the decision, with all that it calls
unfoldable asked : Text → Option Text
unfolding clarification_question_for_ambiguous_prompt prompt_contains_incomplete_shell_snippet
    incomplete_line incomplete_command has_unbalanced_quote unbalanced_loop is_either names_no_files
    eq_text contains starts_with ends_with trim strip_prefix lines split_lines trim_matches
    trim_start_matches trim_end_matches is_ascii_punctuation is_whitespace to_ascii_lowercase
asked prompt = clarification_question_for_ambiguous_prompt prompt

abbrev searching : Text
searching = codes "run this\n$ grep 'a b' x"

searching-passes : asked searching ≡ none
unfolding asked
searching-passes = refl

searching-clear : clarification_question_for_ambiguous_prompt searching ≡ none
unfolding asked
searching-clear = searching-passes

abbrev pub half_quoted : Text
half_quoted = codes "$ grep 'a b"

abbrev pub complete_question : Text
complete_question =
    codes "The command snippet looks incomplete. What exact complete command should I run?"

half_quoted-questioned : asked half_quoted ≡ some complete_question
unfolding asked
half_quoted-questioned = refl

pub half_quoted-asked :
    clarification_question_for_ambiguous_prompt half_quoted ≡ some complete_question
unfolding asked
half_quoted-asked = half_quoted-questioned

abbrev pub rust_files : Text
rust_files = codes "list the rust files"

rust_files-passes : asked rust_files ≡ none
unfolding asked
rust_files-passes = refl

pub rust_files-clear : clarification_question_for_ambiguous_prompt rust_files ≡ none
unfolding asked
rust_files-clear = rust_files-passes

clarification_question_for_ambiguous_prompt-IsClear_example : IsClear searching
clarification_question_for_ambiguous_prompt-IsClear_example =
    clarification_question_for_ambiguous_prompt-IsClear searching searching-clear
