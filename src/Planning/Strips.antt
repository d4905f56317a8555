-- ===== src/Planning/Strips.antt =====
-- What the simplification of an ambiguous draft takes off its end.
use termlm.Base.{
  ℕ, zero, suc, Bool, true, false, ◌||◌, [], ◌∷◌, ◌++◌, Option, none, some, ◌≡◌, ◌∙◌, refl, sym, ap,
  arith, ◌==◌, if_true, if_not, all, Bool-cases, inl, inr, append_assoc, append-nil, all-append,
  ◌⊎◌,
}
use termlm.Base.Text.{
  Text, codes, eq_text, eq_text_iff, is_whitespace, trim_end, trim_end-parts, strip_suffix,
  cons_option,
}
use termlm.Planning.Revise.{strip_operator, or_else, simplify_loop}

-- the characters that the operators `&&`, `||`, `|`, `;` and `&` are made of
abbrev pub is_operator : ℕ → Bool
is_operator c = (c == b'|') || (c == b';') || (c == b'&')

-- the last character is one of an operator
abbrev pub ends_in_operator : Text → Bool
ends_in_operator [] = false
ends_in_operator (c ∷ []) = is_operator c
ends_in_operator (c ∷ d ∷ ds) = ends_in_operator (d ∷ ds)

abbrev pub is_stripped : ℕ → Bool
is_stripped c = is_operator c || is_whitespace c

pub some-injective : {a b : Text} → some a ≡ some b → a ≡ b
some-injective e = cc

pub or_else-some :
    (o p : Option Text) {u : Text} → or_else o p ≡ some u → (o ≡ some u) ⊎ (p ≡ some u)
or_else-some none p h = inr h
or_else-some (some t) p h = inl h

or_else-none : (o p : Option Text) → or_else o p ≡ none → (o ≡ none) × (p ≡ none)
or_else-none none p h = (refl, h)
or_else-none (some t) p h = cc

-- The suffix stands behind what is left.
strip_suffix-splits : (t s : Text) {u : Text} → strip_suffix t s ≡ some u → t ≡ u ++ s
unfolding strip_suffix
strip_suffix-splits [] s h = elim (Bool-cases (eq_text [] s)) [
  | inl e ↦ whole e (sym (if_true (eq_text [] s) (some []) none e) ∙ h)
  | inr e ↦ absurd (nothing (sym (if_not (eq_text [] s) (some []) none e) ∙ h))
]
  where
    whole : {u : Text} → eq_text [] s ≡ true → some [] ≡ some u → [] ≡ u ++ s
    whole e k = (eq_text_iff _ _).0 e ∙ ap (λ v. v ++ s) (some-injective k)

    nothing : {u : Text} → none ≡ some u → ⊥
    nothing k = cc
strip_suffix-splits (c ∷ cs) s h = elim (Bool-cases (eq_text (c ∷ cs) s)) [
  | inl e ↦ whole e (sym (if_true _ _ _ e) ∙ h)
  | inr e ↦
      longer (strip_suffix cs s) (λ v k. strip_suffix-splits cs s k) (sym (if_not _ _ _ e) ∙ h)
]
  where
    whole : {u : Text} → eq_text (c ∷ cs) s ≡ true → some [] ≡ some u → (c ∷ cs) ≡ u ++ s
    whole e k = (eq_text_iff _ _).0 e ∙ ap (λ v. v ++ s) (some-injective k)

    longer :
        {u : Text} (o : Option Text)
        → ((v : Text) → o ≡ some v → cs ≡ v ++ s)
        → cons_option c o ≡ some u
        → (c ∷ cs) ≡ u ++ s
    longer none ih k = cc
    longer (some v) ih k = ap (◌∷◌ c) (ih v refl) ∙ ap (λ w. w ++ s) (some-injective k)

strip_operator-splits :
    (t : Text) {u : Text}
    → strip_operator t ≡ some u
    → (s : Text) × (t ≡ u ++ s) × (all is_operator s ≡ true)
unfolding strip_operator
strip_operator-splits t h = elim (or_else-some _ _ h) [
  | inl e ↦ (codes "&&", strip_suffix-splits t _ e, refl)
  | inr h1 ↦ elim (or_else-some _ _ h1) [
    | inl e ↦ (codes "||", strip_suffix-splits t _ e, refl)
    | inr h2 ↦ elim (or_else-some _ _ h2) [
      | inl e ↦ (codes "|", strip_suffix-splits t _ e, refl)
      | inr h3 ↦ elim (or_else-some _ _ h3) [
        | inl e ↦ (codes ";", strip_suffix-splits t _ e, refl)
        | inr e ↦ (codes "&", strip_suffix-splits t _ e, refl)
      ]
    ]
  ]
]

abbrev ends_in : ℕ → Text → Bool
ends_in op [] = false
ends_in op (c ∷ []) = c == op
ends_in op (c ∷ d ∷ ds) = ends_in op (d ∷ ds)

cons_option-none : (c : ℕ) (o : Option Text) → cons_option c o ≡ none → o ≡ none
cons_option-none c none h = refl
cons_option-none c (some t) h = cc

-- A text that does not give up a character does not end in it.
strip_suffix-ends_in : (op : ℕ) (t : Text) → strip_suffix t (op ∷ []) ≡ none → ends_in op t ≡ false
unfolding strip_suffix eq_text
strip_suffix-ends_in op [] h = refl
strip_suffix-ends_in op (c ∷ []) h = ground (arith, h)
strip_suffix-ends_in op (c ∷ d ∷ ds) h =
    strip_suffix-ends_in op (d ∷ ds)
      (cons_option-none c _ (sym (if_not (eq_text (c ∷ d ∷ ds) (op ∷ [])) _ _ (ground arith)) ∙ h))

ends_in-operator :
    (t : Text)
    → ends_in b'|' t ≡ false
    → ends_in b';' t ≡ false
    → ends_in b'&' t ≡ false
    → ends_in_operator t ≡ false
ends_in-operator [] p s a = refl
ends_in-operator (c ∷ []) p s a = ground arith
ends_in-operator (c ∷ d ∷ ds) p s a = ends_in-operator (d ∷ ds) p s a

-- A text from which no operator can be stripped ends in none.
pub strip_operator-none : (t : Text) → strip_operator t ≡ none → ends_in_operator t ≡ false
unfolding strip_operator
strip_operator-none t h =
    let (_, h1) = or_else-none _ _ h in
    let (_, h2) = or_else-none _ _ h1 in
    let (pipe, h3) = or_else-none _ _ h2 in
    let (semicolon, ampersand) = or_else-none _ _ h3 in
    ends_in-operator t (strip_suffix-ends_in b'|' t pipe) (strip_suffix-ends_in b';' t semicolon)
      (strip_suffix-ends_in b'&' t ampersand)

all-weaken :
    (p q : ℕ → Bool) (t : Text)
    → ((c : ℕ) → p c ≡ true → q c ≡ true)
    → all p t ≡ true
    → all q t ≡ true
all-weaken p q [] f h = refl
all-weaken p q (c ∷ cs) f h = ground (arith, f c (ground arith), all-weaken p q cs f (ground arith))

-- The loop takes characters of operators and white space off the end, and nothing else.
pub simplify_loop-splits :
    (fuel : ℕ) (out : Text)
    → (dropped : Text) × (out ≡ simplify_loop fuel out ++ dropped)
      × (all is_stripped dropped ≡ true)
unfolding simplify_loop
simplify_loop-splits zero out = ([], sym (append-nil out), refl)
simplify_loop-splits (suc fuel) out =
    by_strip (strip_operator (trim_end out)) refl (λ next. simplify_loop-splits fuel next)
  where
    by_strip :
        (o : Option Text)
        → strip_operator (trim_end out) ≡ o
        → ((next : Text)
            → (dropped : Text) × (next ≡ simplify_loop fuel next ++ dropped)
              × (all is_stripped dropped ≡ true))
        → (dropped : Text) × (out
            ≡ (elim o as (λ _. Text) [
              | none ↦ out
              | some next ↦ simplify_loop fuel (trim_end next)
            ])
              ++ dropped)
          × (all is_stripped dropped ≡ true)
    by_strip none e ih = ([], sym (append-nil out), refl)
    by_strip (some next) e ih =
        let (dropped, splits, good) = ih (trim_end next) in
        let (blank, back, white) = trim_end-parts next in
        let (op, front, made) = strip_operator-splits (trim_end out) e in
        let (blank', last, white') = trim_end-parts out in
        (
          dropped ++ (blank ++ (op ++ blank')),
          last
              ∙ ap (λ t. t ++ blank') front
              ∙ append_assoc next op blank'
              ∙ ap (λ t. t ++ (op ++ blank')) (back ∙ ap (λ t. t ++ blank) splits)
              ∙ append_assoc (simplify_loop fuel (trim_end next) ++ dropped) blank (op ++ blank')
              ∙ append_assoc (simplify_loop fuel (trim_end next)) dropped (blank ++ (op ++ blank')),
          simp (
            all-append,
            good,
            all-weaken _ is_stripped blank (λ c h. ground (arith, h)) white,
            all-weaken _ is_stripped op (λ c h. ground (arith, h)) made,
            all-weaken _ is_stripped blank' (λ c h. ground (arith, h)) white',
          ),
        )
