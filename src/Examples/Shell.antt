-- ===== src/Examples/Shell.antt =====
-- Runs of the scanner, with the inputs of the tests in crates/termlm-safety/src/parse.rs.
use termlm.Base.{not, ◌||◌, List, [], ◌∷◌, some, ◌≡◌, refl, All}
use termlm.Base.Text.{
  Text, codes, eq_text, starts_with, is_ascii_alphanumeric, trim, is_whitespace, IsTrimmed,
}
use termlm.Shell.{parse_command, scan_shell, first_significant_token, step, is_env_assignment}
use termlm.Shell.Quoting.{
  exposes, substitutes, final, bare, is_bare, is_redirect, is_group, is_separator,
}
use termlm.Shell.Flags.{scan_shell-flags}
use termlm.Shell.Tokens.{parse_command-IsTrimmed}
use termlm.Shell.RoundTrip.{join_words, plain_result, scan_shell-join_words}

sudo_rm : first_significant_token (codes "sudo -E rm -rf x") ≡ some (codes "rm")
unfolding first_significant_token step eq_text starts_with is_env_assignment trim is_whitespace
    is_ascii_alphanumeric
sudo_rm = refl

env_prog : first_significant_token (codes "env FOO=1 BAR=2 myprog --x") ≡ some (codes "myprog")
unfolding first_significant_token step eq_text starts_with is_env_assignment trim is_whitespace
    is_ascii_alphanumeric
env_prog = refl

abbrev redirected : Text
redirected = codes "echo 'a|b' > out; ls"

scan_shell-flags_example :
    ((scan_shell redirected).has_redirection ≡ exposes is_redirect bare redirected)
    × ((scan_shell redirected).has_grouping ≡ exposes is_group bare redirected)
    × ((scan_shell redirected).has_command_substitution ≡ substitutes bare redirected)
    × (((scan_shell redirected).has_pipeline || (scan_shell redirected).has_control_operators)
        ≡ exposes is_separator bare redirected)
    × ((scan_shell redirected).unbalanced_quotes ≡ not (is_bare (final bare redirected)))
scan_shell-flags_example = scan_shell-flags redirected

parse_command-IsTrimmed_example : All IsTrimmed (parse_command redirected).tokens
parse_command-IsTrimmed_example = parse_command-IsTrimmed redirected

abbrev words : List Text
words = codes "mv" ∷ codes "it's here" ∷ codes "a;b" ∷ []

words-IsTrimmed : All IsTrimmed words
unfolding is_whitespace
words-IsTrimmed = ((refl, refl), ((refl, refl), ((refl, refl), tt)))

scan_shell-join_words_example : scan_shell (join_words words) ≡ plain_result words
scan_shell-join_words_example = scan_shell-join_words words words-IsTrimmed
