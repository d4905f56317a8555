-- ===== src/Shell/Tokens.antt =====
-- The tokens of `scan_shell`: none is empty, and none has white space at its ends.
use termlm.Base.{ℕ, List, [], ◌∷◌, Option, ◌≡◌, ◌⊎◌, inl, inr, arith, All, All-append}
use termlm.Base.Text.{Text, IsTrimmed, IsTrimmed-trim, trim}
use termlm.Shell.Loop.{scan_loop_inv}
use termlm.Shell.{Scanner, initial, flushed, step, scan_loop, finish, parse_command}

flushed-All : (t : Text) (ts : List Text) → All IsTrimmed ts → All IsTrimmed (flushed (trim t) ts)
flushed-All t ts h = flushed_trimmed (trim t) (IsTrimmed-trim t)
  where
    flushed_trimmed : (u : Text) → (u ≡ []) ⊎ IsTrimmed u → All IsTrimmed (flushed u ts)
    flushed_trimmed [] e = h
    flushed_trimmed (c ∷ cs) (inl e) = absurd (cc)
    flushed_trimmed (c ∷ cs) (inr k) = All-append IsTrimmed ts ((c ∷ cs) ∷ []) h (k, tt)

-- A step leaves the tokens alone or flushes the one that it was reading.
step-tokens :
    (s : Scanner) (ch : ℕ) (next : Option ℕ)
    → ((step s ch next).0.out.tokens ≡ s.out.tokens)
      ⊎ ((step s ch next).0.out.tokens ≡ flushed (trim s.token) s.out.tokens)
unfolding step
step-tokens s ch next = ground arith

step-All :
    (s : Scanner) (ch : ℕ) (next : Option ℕ)
    → All IsTrimmed s.out.tokens
    → All IsTrimmed (step s ch next).0.out.tokens
step-All s ch next h = elim (step-tokens s ch next) [
  | inl e ↦ rw e h
  | inr e ↦ rw e (flushed-All s.token s.out.tokens h)
]

finish-tokens : (s : Scanner) → (finish s).tokens ≡ flushed (trim s.token) s.out.tokens
unfolding finish
finish-tokens s = ground arith

-- Every token of a parsed command is non-empty and has no white space at either end.
pub parse_command-IsTrimmed : (cmd : Text) → All IsTrimmed (parse_command cmd).tokens
unfolding parse_command
parse_command-IsTrimmed cmd =
    let last = scan_loop initial cmd in
    rw (finish-tokens last) (
      flushed-All last.token last.out.tokens
        (scan_loop_inv (λ s. All IsTrimmed s.out.tokens) step-All initial cmd tt))
