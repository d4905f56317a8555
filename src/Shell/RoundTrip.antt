-- ===== src/Shell/RoundTrip.antt =====
-- The scanner reads back what `shell_quote_word` writes.
use termlm.Base.{
  ℕ, true, false, List, [], ◌∷◌, ◌++◌, Option, ◌≡◌, refl, ◌∙◌, arith, ◌==◌, all, All, Bool-cases,
  inl, inr, append_assoc, append-nil, ==_iff,
}
use termlm.Base.Text.{Text, codes, IsTrimmed, trim, trim-IsTrimmed, is_whitespace}
use termlm.Shell.Loop.{scan_loop-cons}
use termlm.Shell.Word.{replace_char, is_plain_char, shell_quote_word}
use termlm.Shell.{Scanner, ScanResult, initial, flushed, step, scan_loop, finish, scan_shell}

-- No operator has been read: only the tokens, and the token being read, differ from the start.
abbrev pub plain_result : List Text → ScanResult
plain_result ts = record (initial.out) { tokens = ts }

abbrev ready : List Text → Text → Scanner
ready ts t = record initial { out = plain_result ts; token = t }

abbrev quoted : List Text → Text → Scanner
quoted ts t = record (ready ts t) { in_single_quote = true }

abbrev escaping : List Text → Text → Scanner
escaping ts t = record (ready ts t) { escaped = true }

module _ (ts : List Text) where
  step-plain :
      (t : Text) (c : ℕ) (next : Option ℕ)
      → is_plain_char c ≡ true
      → step (ready ts t) c next ≡ (ready ts (t ++ c ∷ []), false)
  unfolding step is_plain_char is_whitespace
  step-plain t c next h = ground arith

  scan_loop-plain :
      (w t rest : Text)
      → all is_plain_char w ≡ true
      → scan_loop (ready ts t) (w ++ rest) ≡ scan_loop (ready ts (t ++ w)) rest
  scan_loop-plain [] t rest h = rw append-nil
  scan_loop-plain (c ∷ cs) t rest h =
      scan_loop-cons (ready ts t) _ c (cs ++ rest) (λ next. step-plain t c next (ground arith))
      ∙ scan_loop-plain cs (t ++ c ∷ []) rest (ground arith)
      ∙ rw append_assoc

  step-open : (t : Text) (next : Option ℕ) → step (ready ts t) b'\'' next ≡ (quoted ts t, false)
  unfolding step
  step-open t next = refl

  step-shut : (t : Text) (next : Option ℕ) → step (quoted ts t) b'\'' next ≡ (ready ts t, false)
  unfolding step
  step-shut t next = refl

  step-backslash :
      (t : Text) (next : Option ℕ) → step (ready ts t) b'\\' next ≡ (escaping ts t, false)
  unfolding step
  step-backslash t next = refl

  step-escaped :
      (t : Text) (next : Option ℕ)
      → step (escaping ts t) b'\'' next ≡ (ready ts (t ++ b'\'' ∷ []), false)
  unfolding step
  step-escaped t next = refl

  step-inside :
      (t : Text) (c : ℕ) (next : Option ℕ)
      → (c == b'\'') ≡ false
      → step (quoted ts t) c next ≡ (quoted ts (t ++ c ∷ []), false)
  unfolding step
  step-inside t c next h = ground arith

  -- `'\''` inside single quotes stands for one quote.
  scan_loop-quote :
      (t rest : Text)
      → scan_loop (quoted ts t) (codes "'\\''" ++ rest)
        ≡ scan_loop (quoted ts (t ++ b'\'' ∷ [])) rest
  scan_loop-quote t rest =
      scan_loop-cons (quoted ts t) _ b'\'' _ (step-shut t)
      ∙ scan_loop-cons (ready ts t) _ b'\\' _ (step-backslash t)
      ∙ scan_loop-cons (escaping ts t) _ b'\'' _ (step-escaped t)
      ∙ scan_loop-cons (ready ts (t ++ b'\'' ∷ [])) _ b'\'' rest (step-open _)

  scan_loop-quoted :
      (v t rest : Text)
      → scan_loop (quoted ts t) (replace_char b'\'' (codes "'\\''") v ++ rest)
        ≡ scan_loop (quoted ts (t ++ v)) rest
  unfolding replace_char
  scan_loop-quoted [] t rest = rw append-nil
  scan_loop-quoted (c ∷ cs) t rest = elim (Bool-cases (c == b'\'')) [
    | inl e ↦
        rw (e, (==_iff c b'\'').0 e)
          (scan_loop-quote t (replace_char b'\'' (codes "'\\''") cs ++ rest)
            ∙ scan_loop-quoted cs (t ++ b'\'' ∷ []) rest
            ∙ rw append_assoc)
    | inr e ↦ rw e (
        scan_loop-cons (quoted ts t) _ c _ (λ next. step-inside t c next e)
        ∙ scan_loop-quoted cs (t ++ c ∷ []) rest
        ∙ rw append_assoc)
  ]

  -- A quoted word is read as that word, whatever follows it.
  scan_loop-word :
      (v rest : Text)
      → scan_loop (ready ts []) (shell_quote_word v ++ rest) ≡ scan_loop (ready ts v) rest
  unfolding shell_quote_word
  scan_loop-word v rest = elim (Bool-cases (all is_plain_char v)) [
    | inl e ↦ rw e (scan_loop-plain v [] rest e)
    | inr e ↦ rw e (
        scan_loop-cons (ready ts []) _ b'\'' _ (step-open [])
        ∙ rw append_assoc (scan_loop-quoted v [] (b'\'' ∷ rest))
        ∙ scan_loop-cons (quoted ts v) _ b'\'' rest (step-shut v))
  ]

  flushed-IsTrimmed : (v : Text) → IsTrimmed v → flushed (trim v) ts ≡ ts ++ v ∷ []
  flushed-IsTrimmed [] h = absurd (ground arith)
  flushed-IsTrimmed (c ∷ cs) h = rw (trim-IsTrimmed (c ∷ cs) h)

  -- A blank ends the word; so does the end of the text.
  step_blank_word :
      (v : Text) (next : Option ℕ)
      → IsTrimmed v
      → step (ready ts v) b' ' next ≡ (ready (ts ++ v ∷ []) [], false)
  unfolding step is_whitespace
  step_blank_word v next h = rw (flushed-IsTrimmed v h) (ground arith)

  finish_word : (v : Text) → IsTrimmed v → finish (ready ts v) ≡ plain_result (ts ++ v ∷ [])
  unfolding finish
  finish_word v h = rw (flushed-IsTrimmed v h)

-- The words of a command, quoted and with one space between them.
unfoldable pub join_words : List Text → Text
join_words [] = []
join_words (v ∷ []) = shell_quote_word v
join_words (v ∷ w ∷ ws) = shell_quote_word v ++ b' ' ∷ join_words (w ∷ ws)

finish_words :
    (ts ws : List Text)
    → All IsTrimmed ws
    → finish (scan_loop (ready ts []) (join_words ws)) ≡ plain_result (ts ++ ws)
unfolding join_words
finish_words ts [] h = rw append-nil (unfold scan_loop finish trim in refl)
finish_words ts (v ∷ []) h =
    rw (← append-nil (shell_quote_word v))
      (rw (scan_loop-word ts v []) (unfold scan_loop in finish_word ts v h.0))
finish_words ts (v ∷ w ∷ ws) h = rw (scan_loop-word ts v (b' ' ∷ join_words (w ∷ ws))) (
    rw
      (scan_loop-cons (ready ts v) (ready (ts ++ v ∷ []) []) b' ' (join_words (w ∷ ws))
        (λ next. step_blank_word ts v next h.0))
      (finish_words (ts ++ v ∷ []) (w ∷ ws) h.1 ∙ rw append_assoc))

-- A command made of quoted words, each non-empty and without white space at its ends, is scanned
-- back into exactly these words, whatever characters they hold: no operator, redirection,
-- grouping or substitution is seen, nothing is unbalanced and no warning is given.
pub scan_shell-join_words :
    (ws : List Text) → All IsTrimmed ws → scan_shell (join_words ws) ≡ plain_result ws
unfolding scan_shell
scan_shell-join_words ws h = finish_words [] ws h
