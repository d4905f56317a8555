-- ===== src/Base/Text/Trim.antt =====
-- `str::trim`, and what it leaves.
use Prim.Native.Nat.{ℕ}
use mathlib.Core.Path.{◌≡◌, refl, ap, ◌∙◌}
use mathlib.Core.Logic.{◌⊎◌, inl, inr}
use mathlib.Core.Bool.{Bool, true, false, not}
use mathlib.Core.List.{[], ◌∷◌, ◌++◌}
use native.Mathlib.Omega.{arith}
use termlm.Base.Tests.{if◌then◌else◌, Bool-cases}
use termlm.Base.Lists.{all}
use termlm.Base.Text.Chars.{Text, is_whitespace}

unfoldable pub trim_start : Text → Text
trim_start [] = []
trim_start (c ∷ cs) = if is_whitespace c then trim_start cs else c ∷ cs

-- `c` before a text that is already trimmed at its end
abbrev pub cons_trimmed : ℕ → Text → Text
cons_trimmed c [] = if is_whitespace c then [] else c ∷ []
cons_trimmed c (d ∷ ds) = c ∷ d ∷ ds

unfoldable pub trim_end : Text → Text
trim_end [] = []
trim_end (c ∷ cs) = cons_trimmed c (trim_end cs)

unfoldable pub trim : Text → Text
unfolding trim_start trim_end
trim t = trim_end (trim_start t)

-- The first character is no white space, and neither is the last; the text is not empty.
abbrev pub starts_bare : Text → Bool
starts_bare [] = false
starts_bare (c ∷ cs) = not (is_whitespace c)

abbrev pub ends_bare : Text → Bool
ends_bare [] = false
ends_bare (c ∷ []) = not (is_whitespace c)
ends_bare (c ∷ d ∷ ds) = ends_bare (d ∷ ds)

abbrev pub IsTrimmed : Text → Type 0
IsTrimmed t = (starts_bare t ≡ true) × (ends_bare t ≡ true)

trim_end-ends_bare : (t : Text) → ends_bare t ≡ true → trim_end t ≡ t
unfolding trim_end
trim_end-ends_bare [] h = cc
trim_end-ends_bare (c ∷ []) h = ground arith
trim_end-ends_bare (c ∷ d ∷ ds) h = rw (trim_end-ends_bare (d ∷ ds) h)

-- A text with no white space at its ends is left alone by `trim`.
pub trim-IsTrimmed : (t : Text) → IsTrimmed t → trim t ≡ t
unfolding trim
trim-IsTrimmed [] h = refl
trim-IsTrimmed (c ∷ cs) (s, e) = elim (Bool-cases (is_whitespace c)) [
  | inl w ↦ absurd (ground arith)
  | inr w ↦ rw w (unfold trim_end in trim_end-ends_bare (c ∷ cs) e)
]

ends_bare-trim_end : (t : Text) → (trim_end t ≡ []) ⊎ (ends_bare (trim_end t) ≡ true)
unfolding trim_end
ends_bare-trim_end [] = inl refl
ends_bare-trim_end (c ∷ cs) = ends_bare-cons_trimmed c (trim_end cs) (ends_bare-trim_end cs)
  where
    ends_bare-cons_trimmed :
        (c : ℕ) (r : Text)
        → (r ≡ []) ⊎ (ends_bare r ≡ true)
        → (cons_trimmed c r ≡ []) ⊎ (ends_bare (cons_trimmed c r) ≡ true)
    ends_bare-cons_trimmed c [] h = ground arith
    ends_bare-cons_trimmed c (d ∷ ds) (inl e) = absurd (cc)
    ends_bare-cons_trimmed c (d ∷ ds) (inr e) = inr e

trim_start-starts_bare : (t : Text) → (trim_start t ≡ []) ⊎ (starts_bare (trim_start t) ≡ true)
unfolding trim_start
trim_start-starts_bare [] = inl refl
trim_start-starts_bare (c ∷ cs) = ground (arith, trim_start-starts_bare cs)

starts_bare-trim_end : (t : Text) → starts_bare t ≡ true → starts_bare (trim_end t) ≡ true
unfolding trim_end
starts_bare-trim_end [] h = h
starts_bare-trim_end (c ∷ cs) h = starts_bare-cons_trimmed (trim_end cs)
  where
    starts_bare-cons_trimmed : (r : Text) → starts_bare (cons_trimmed c r) ≡ true
    starts_bare-cons_trimmed [] = ground arith
    starts_bare-cons_trimmed (d ∷ ds) = h

-- What `trim` returns is empty or has no white space at its ends.
pub IsTrimmed-trim : (t : Text) → (trim t ≡ []) ⊎ IsTrimmed (trim t)
unfolding trim
IsTrimmed-trim t = elim (trim_start-starts_bare t) [
  | inl e ↦ inl (rw e (unfold trim_end in refl))
  | inr b ↦ elim (ends_bare-trim_end (trim_start t)) [
    | inl e ↦ inl e
    | inr e ↦ inr (starts_bare-trim_end (trim_start t) b, e)
  ]
]

trim_start-parts :
    (t : Text) → (lead : Text) × (t ≡ lead ++ trim_start t) × (all is_whitespace lead ≡ true)
unfolding trim_start
trim_start-parts [] = ([], refl, refl)
trim_start-parts (c ∷ cs) = elim (Bool-cases (is_whitespace c)) [
  | inl w ↦
      let (lead, splits, blank) = trim_start-parts cs in
      (c ∷ lead, rw w (ap (◌∷◌ c) splits), ground arith)
  | inr w ↦ ([], rw w refl, refl)
]

pub trim_end-parts :
    (t : Text) → (trail : Text) × (t ≡ trim_end t ++ trail) × (all is_whitespace trail ≡ true)
unfolding trim_end
trim_end-parts [] = ([], refl, refl)
trim_end-parts (c ∷ cs) =
    let (trail, splits, blank) = trim_end-parts cs in
    cons_trimmed-parts (trim_end cs) trail splits blank
  where
    cons_trimmed-parts :
        (r trail : Text)
        → cs ≡ r ++ trail
        → all is_whitespace trail ≡ true
        → (trail' : Text) × ((c ∷ cs) ≡ cons_trimmed c r ++ trail')
          × (all is_whitespace trail' ≡ true)
    cons_trimmed-parts [] trail splits blank = elim (Bool-cases (is_whitespace c)) [
      | inl w ↦ (c ∷ trail, rw w (ap (◌∷◌ c) splits), ground arith)
      | inr w ↦ (trail, rw w (ap (◌∷◌ c) splits), blank)
    ]
    cons_trimmed-parts (d ∷ ds) trail splits blank = (trail, ap (◌∷◌ c) splits, blank)

-- `trim` takes away white space only, at both ends.
pub trim-parts :
    (t : Text)
    → (lead : Text) × (trail : Text) × (t ≡ lead ++ (trim t ++ trail))
      × (all is_whitespace lead ≡ true)
      × (all is_whitespace trail ≡ true)
unfolding trim
trim-parts t =
    let (lead, front, blank) = trim_start-parts t in
    let (trail, back, blank') = trim_end-parts (trim_start t) in
    (lead, trail, front ∙ ap (λ u. lead ++ u) back, blank, blank')
