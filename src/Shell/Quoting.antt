-- ===== src/Shell/Quoting.antt =====
-- What the scanner's flags say of a command: an independent reading of the quoting rules as an
-- automaton of five modes, and the proof that each flag says exactly whether an operator of its
-- class stands outside quotes.
use termlm.Base.{
  ℕ, Bool, true, false, ◌&&◌, ◌||◌, [], ◌∷◌, Option, none, some, ◌≡◌, refl, arith, ◌==◌,
  if◌then◌else◌, Bool-cases, inl, inr,
}
use termlm.Base.Text.{Text}
use termlm.Shell.Loop.{scan_loop-takes, scan_loop-keeps}
use termlm.Shell.{Scanner, ScanResult, peek_is, step, scan_loop}

pub data Quoting : Type 0 where
  bare single double bare_escape double_escape : Quoting

unfoldable pub advance : Quoting → ℕ → Quoting
advance bare c =
    if c == b'\\'
    then bare_escape
    else if c == b'\''
    then single
    else if c == b'"'
    then double
    else bare
advance single c = if c == b'\'' then bare else single
advance double c = if c == b'"' then bare else if c == b'\\' then double_escape else double
advance bare_escape c = bare
advance double_escape c = double

abbrev pub is_bare : Quoting → Bool
is_bare bare = true
is_bare _ = false

-- Some character outside quotes passes `p`.
unfoldable pub exposes : (ℕ → Bool) → Quoting → Text → Bool
exposes p q [] = false
exposes p q (c ∷ cs) = (is_bare q && p c) || exposes p (advance q c) cs

-- The mode at the end of the text.
unfoldable pub final : Quoting → Text → Quoting
final q [] = q
final q (c ∷ cs) = final (advance q c) cs

abbrev pub is_redirect : ℕ → Bool
is_redirect c = c == b'<' || c == b'>'

abbrev pub is_group : ℕ → Bool
is_group c = c == b'(' || c == b')'

abbrev pub is_separator : ℕ → Bool
is_separator c = c == b'|' || c == b'&' || c == b';'

unfoldable pub quoting_of : Scanner → Quoting
quoting_of s =
    if s.escaped
    then (if s.in_double_quote then double_escape else bare_escape)
    else if s.in_single_quote
    then single
    else if s.in_double_quote
    then double
    else bare

-- The scanner's three Booleans stand for one of the five modes.
abbrev pub IsCoherent : Scanner → Type 0
IsCoherent s =
    ((s.in_single_quote && s.escaped) ≡ false) × ((s.in_single_quote && s.in_double_quote) ≡ false)

pub step-IsCoherent :
    (s : Scanner) (c : ℕ) (next : Option ℕ) → IsCoherent s → IsCoherent (step s c next).0
unfolding step
step-IsCoherent s c next h = ground arith

step-quoting :
    (s : Scanner) (c : ℕ) (next : Option ℕ)
    → IsCoherent s
    → quoting_of (step s c next).0 ≡ advance (quoting_of s) c
unfolding step quoting_of advance
step-quoting s c next h = ground arith

-- A step takes the next character only outside quotes, and only one that keeps it there.
step-takes :
    (s : Scanner) (c d : ℕ)
    → (step s c (some d)).1 ≡ true
    → (quoting_of s ≡ bare) × (quoting_of (step s c (some d)).0 ≡ bare) × (advance bare d ≡ bare)
unfolding step quoting_of advance
step-takes s c d h = ground arith

step-none : (s : Scanner) (c : ℕ) → (step s c none).1 ≡ false
unfolding step
step-none s c = ground arith

-- One induction serves every flag: `kept` says when a step that takes one character sets it, and
-- `took` when a step that takes two does.
module _ (flag : ScanResult → Bool) (p : ℕ → Bool)
    (kept : (s : Scanner) (c : ℕ) (next : Option ℕ)
      → (step s c next).1 ≡ false
      → flag (step s c next).0.out ≡ (flag s.out || (is_bare (quoting_of s) && p c)))
    (took : (s : Scanner) (c d : ℕ)
      → (step s c (some d)).1 ≡ true
      → flag (step s c (some d)).0.out
        ≡ (flag s.out || (is_bare (quoting_of s) && (p c || p d)))) where
  pub scan_loop-flag :
      (s : Scanner) (t : Text)
      → IsCoherent s
      → flag (scan_loop s t).out ≡ (flag s.out || exposes p (quoting_of s) t)
  unfolding scan_loop exposes
  scan_loop-flag s [] h = ground arith
  scan_loop-flag s (c ∷ []) h = ground (arith, kept s c none (step-none s c))
  scan_loop-flag s (c ∷ d ∷ rest) h =
      let s' = (step s c (some d)).0 in
      let h' = step-IsCoherent s c (some d) h in
      let one = scan_loop-flag s' (d ∷ rest) h' in
      let two = scan_loop-flag s' rest h' in
      elim (Bool-cases (step s c (some d)).1) [
        | inl e ↦
            rw (scan_loop-takes s c d rest e)
              (ground (arith, two, took s c d e, step-quoting s c (some d) h, step-takes s c d e))
        | inr e ↦
            rw (scan_loop-keeps s c d rest e)
              (ground (arith, one, kept s c (some d) e, step-quoting s c (some d) h))
      ]

-- `$(` outside quotes
unfoldable pub substitutes : Quoting → Text → Bool
substitutes q [] = false
substitutes q (c ∷ []) = false
substitutes q (c ∷ d ∷ rest) =
    (is_bare q && c == b'$' && d == b'(') || substitutes (advance q c) (d ∷ rest)

-- A character that a step takes with it starts no substitution.
substitutes-taken :
    (s : Scanner) (c d : ℕ) (rest : Text)
    → (step s c (some d)).1 ≡ true
    → substitutes bare (d ∷ rest) ≡ substitutes bare rest
unfolding substitutes step advance
substitutes-taken s c d [] h = refl
substitutes-taken s c d (x ∷ rest) h = ground arith

step-substitution :
    (s : Scanner) (c : ℕ) (next : Option ℕ)
    → (step s c next).0.out.has_command_substitution ≡ (
        s.out.has_command_substitution
        || (is_bare (quoting_of s) && c == b'$' && peek_is next b'('))
unfolding step quoting_of
step-substitution s c next = ground arith

pub scan_loop-substitution :
    (s : Scanner) (t : Text)
    → IsCoherent s
    → (scan_loop s t).out.has_command_substitution
      ≡ (s.out.has_command_substitution || substitutes (quoting_of s) t)
unfolding scan_loop substitutes
scan_loop-substitution s [] h = ground arith
scan_loop-substitution s (c ∷ []) h = ground (arith, step-substitution s c none)
scan_loop-substitution s (c ∷ d ∷ rest) h =
    let s' = (step s c (some d)).0 in
    let h' = step-IsCoherent s c (some d) h in
    let kept = scan_loop-substitution s' (d ∷ rest) h' in
    let took = scan_loop-substitution s' rest h' in
    elim (Bool-cases (step s c (some d)).1) [
      | inl e ↦ rw (scan_loop-takes s c d rest e) (
          ground (
            arith,
            took,
            step-substitution s c (some d),
            substitutes-taken s c d rest e,
            step-quoting s c (some d) h,
            step-takes s c d e,
          ))
      | inr e ↦
          rw (scan_loop-keeps s c d rest e)
            (ground (arith, kept, step-substitution s c (some d), step-quoting s c (some d) h))
    ]

pub scan_loop-quoting :
    (s : Scanner) (t : Text) → IsCoherent s → quoting_of (scan_loop s t) ≡ final (quoting_of s) t
unfolding scan_loop final
scan_loop-quoting s [] h = refl
scan_loop-quoting s (c ∷ []) h = step-quoting s c none h
scan_loop-quoting s (c ∷ d ∷ rest) h =
    let s' = (step s c (some d)).0 in
    let h' = step-IsCoherent s c (some d) h in
    let kept = scan_loop-quoting s' (d ∷ rest) h' in
    let took = scan_loop-quoting s' rest h' in
    elim (Bool-cases (step s c (some d)).1) [
      | inl e ↦
          rw (scan_loop-takes s c d rest e)
            (ground (arith, took, step-quoting s c (some d) h, step-takes s c d e))
      | inr e ↦
          rw (scan_loop-keeps s c d rest e) (ground (arith, kept, step-quoting s c (some d) h))
    ]
