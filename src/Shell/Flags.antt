-- ===== src/Shell/Flags.antt =====
-- The flags of `scan_shell`, each read off the command by the automaton of Shell/Quoting.
use termlm.Base.{ℕ, false, not, ◌||◌, Option, ◌≡◌, refl, arith, ◌∙◌}
use termlm.Base.Text.{Text}
use termlm.Shell.Loop.{scan_loop_inv}
use termlm.Shell.Quoting.{
  bare, is_bare, exposes, substitutes, final, is_redirect, is_group, is_separator, quoting_of,
  scan_loop-flag, scan_loop-quoting, scan_loop-substitution,
}
use termlm.Shell.{Scanner, initial, step, scan_loop, finish, scan_shell}

initial-bare : quoting_of initial ≡ bare
unfolding quoting_of
initial-bare = refl

scan_loop-redirection :
    (cmd : Text) → (scan_loop initial cmd).out.has_redirection ≡ exposes is_redirect bare cmd
scan_loop-redirection cmd =
    scan_loop-flag (λ r. r.has_redirection) is_redirect
      (λ s c next h. unfold step quoting_of in ground arith)
      (λ s c d h. unfold step quoting_of in ground arith) initial cmd (refl, refl)
    ∙ ground (arith, initial-bare)

scan_loop-grouping :
    (cmd : Text) → (scan_loop initial cmd).out.has_grouping ≡ exposes is_group bare cmd
scan_loop-grouping cmd =
    scan_loop-flag (λ r. r.has_grouping) is_group
      (λ s c next h. unfold step quoting_of in ground arith)
      (λ s c d h. unfold step quoting_of in ground arith) initial cmd (refl, refl)
    ∙ ground (arith, initial-bare)

scan_loop-separators :
    (cmd : Text)
    → ((scan_loop initial cmd).out.has_pipeline
        || (scan_loop initial cmd).out.has_control_operators)
      ≡ exposes is_separator bare cmd
scan_loop-separators cmd =
    scan_loop-flag (λ r. r.has_pipeline || r.has_control_operators) is_separator
      (λ s c next h. unfold step quoting_of in ground arith)
      (λ s c d h. unfold step quoting_of in ground arith) initial cmd (refl, refl)
    ∙ ground (arith, initial-bare)

step-unbalanced_quotes :
    (s : Scanner) (c : ℕ) (next : Option ℕ)
    → s.out.unbalanced_quotes ≡ false
    → (step s c next).0.out.unbalanced_quotes ≡ false
unfolding step
step-unbalanced_quotes s c next h = ground arith

finish-unbalanced_quotes :
    (s : Scanner)
    → s.out.unbalanced_quotes ≡ false
    → (finish s).unbalanced_quotes ≡ not (is_bare (quoting_of s))
unfolding finish quoting_of
finish-unbalanced_quotes s h = ground arith

finish-flags :
    (s : Scanner)
    → ((finish s).has_redirection ≡ s.out.has_redirection)
      × ((finish s).has_grouping ≡ s.out.has_grouping)
      × ((finish s).has_command_substitution ≡ s.out.has_command_substitution)
      × (((finish s).has_pipeline || (finish s).has_control_operators)
          ≡ (s.out.has_pipeline || s.out.has_control_operators))
unfolding finish
finish-flags s = ground arith

-- The flags are exact. `has_redirection` says that a `<` or `>` stands outside quotes,
-- `has_grouping` that a parenthesis does, `has_command_substitution` that `$(` does, one of
-- `has_pipeline` and `has_control_operators` that a `|`, `&` or `;` does, and
-- `unbalanced_quotes` that the text ends inside quotes or after a lone backslash.
pub scan_shell-flags :
    (cmd : Text)
    → ((scan_shell cmd).has_redirection ≡ exposes is_redirect bare cmd)
      × ((scan_shell cmd).has_grouping ≡ exposes is_group bare cmd)
      × ((scan_shell cmd).has_command_substitution ≡ substitutes bare cmd)
      × (((scan_shell cmd).has_pipeline || (scan_shell cmd).has_control_operators)
          ≡ exposes is_separator bare cmd)
      × ((scan_shell cmd).unbalanced_quotes ≡ not (is_bare (final bare cmd)))
unfolding scan_shell
scan_shell-flags cmd =
    let last = scan_loop initial cmd in
    let kept = finish-flags last in
    let balanced =
      scan_loop_inv (λ s. s.out.unbalanced_quotes ≡ false) step-unbalanced_quotes initial cmd
        refl in
    (
      kept.0 ∙ scan_loop-redirection cmd,
      kept.1 ∙ scan_loop-grouping cmd,
      kept.2 ∙ (scan_loop-substitution initial cmd (refl, refl) ∙ ground (arith, initial-bare)),
      kept.3 ∙ scan_loop-separators cmd,
      finish-unbalanced_quotes last balanced
          ∙ ground (arith, initial-bare, scan_loop-quoting initial cmd (refl, refl)),
    )
