-- ===== src/Planning/Settles.antt =====
-- What the simplification of an ambiguous draft leaves.
use termlm.Base.{
  ℕ, zero, suc, ◌≤◌, ◌<◌, Bool, true, false, [], ◌∷◌, ◌++◌, append-nil, all, Option, none, some,
  ◌≡◌, ◌∙◌, refl, sym, ap, arith, if◌then◌else◌, length, ◌||◌, Bool-cases, inl, inr,
}
use termlm.Base.Text.{
  Text, codes, eq_text, eq_text_iff, is_empty, trim, trim_end, strip_suffix, cons_option,
  cons_trimmed,
}
use termlm.Base.{if_true, if_not}
use termlm.Planning.Strips.{
  some-injective, or_else-some, is_stripped, ends_in_operator, strip_operator-none,
  simplify_loop-splits,
}
use termlm.Planning.Revise.{strip_operator, simplify_loop, simplify_ambiguous_command}

-- A suffix that is stripped shortens the text.
strip_suffix-length :
    (t s : Text) {u : Text} → is_empty s ≡ false → strip_suffix t s ≡ some u → length u < length t
unfolding strip_suffix eq_text
strip_suffix-length [] [] full h = cc
strip_suffix-length [] (_ ∷ _) full h = cc
strip_suffix-length (c ∷ cs) s full h = elim (Bool-cases (eq_text (c ∷ cs) s)) [
  | inl e ↦ shorter (sym (if_true _ _ _ e) ∙ h)
  | inr e ↦
      longer (strip_suffix cs s) (λ v k. strip_suffix-length cs s full k) (sym (if_not _ _ _ e) ∙ h)
]
  where
    shorter : {u : Text} → some [] ≡ some u → length u < suc (length cs)
    shorter {u = u} e =
        let same : 0 ≡ length u = ap length (some-injective e) in omega (arith, same)

    longer :
        {u : Text} (o : Option Text)
        → ((v : Text) → o ≡ some v → length v < length cs)
        → cons_option c o ≡ some u
        → length u < suc (length cs)
    longer none ih k = cc
    longer {u = u} (some v) ih k =
        let same : suc (length v) ≡ length u = ap length (some-injective k) in
        omega (arith, ih v refl, same)

strip_operator-length : (t : Text) {u : Text} → strip_operator t ≡ some u → length u < length t
unfolding strip_operator
strip_operator-length t h = elim (or_else-some _ _ h) [
  | inl e ↦ strip_suffix-length t (codes "&&") refl e
  | inr h1 ↦ elim (or_else-some _ _ h1) [
    | inl e ↦ strip_suffix-length t (codes "||") refl e
    | inr h2 ↦ elim (or_else-some _ _ h2) [
      | inl e ↦ strip_suffix-length t (codes "|") refl e
      | inr h3 ↦ elim (or_else-some _ _ h3) [
        | inl e ↦ strip_suffix-length t (codes ";") refl e
        | inr e ↦ strip_suffix-length t (codes "&") refl e
      ]
    ]
  ]
]

length-trim_end : (t : Text) → length (trim_end t) ≤ length t
unfolding trim_end
length-trim_end [] = omega arith
length-trim_end (c ∷ cs) = by_rest (trim_end cs) (length-trim_end cs)
  where
    by_rest : (r : Text) → length r ≤ length cs → length (cons_trimmed c r) ≤ suc (length cs)
    by_rest [] h = ground arith
    by_rest (d ∷ ds) h = omega arith

-- The loop ends with its fuel: its result has no operator left to strip.
simplify_loop-settled :
    (fuel : ℕ) (out : Text)
    → length out ≤ fuel
    → strip_operator (trim_end (simplify_loop fuel out)) ≡ none
unfolding simplify_loop
simplify_loop-settled zero [] h = unfold strip_operator strip_suffix eq_text trim_end in refl
simplify_loop-settled zero (c ∷ cs) h = absurd (omega arith)
simplify_loop-settled (suc fuel) out h =
    by_strip (strip_operator (trim_end out)) refl
      (λ next k. simplify_loop-settled fuel (trim_end next) k)
  where
    by_strip :
        (o : Option Text)
        → strip_operator (trim_end out) ≡ o
        → ((next : Text)
            → length (trim_end next) ≤ fuel
            → strip_operator (trim_end (simplify_loop fuel (trim_end next))) ≡ none)
        → strip_operator (
            trim_end (elim o as (λ _. Text) [
              | none ↦ out
              | some next ↦ simplify_loop fuel (trim_end next)
            ]))
          ≡ none
    by_strip none e ih = e
    by_strip (some next) e ih = ih next (
        omega (
          arith,
          strip_operator-length (trim_end out) e,
          length-trim_end out,
          length-trim_end next,
        ))

-- A draft that is simplified is a proper prefix of the trimmed draft, not empty: what is dropped
-- are characters of the operators `&&`, `||`, `|`, `;` and `&` and white space only. Up to white
-- space, no operator is left at its end.
pub simplify_ambiguous_command-settled :
    (command : Text) {out : Text}
    → simplify_ambiguous_command command ≡ some out
    → ((dropped : Text) × (trim command ≡ out ++ dropped)
        × (all is_stripped dropped ≡ true)
        × (is_empty dropped ≡ false))
      × (ends_in_operator (trim_end out) ≡ false)
      × (is_empty out ≡ false)
unfolding simplify_ambiguous_command
simplify_ambiguous_command-settled command {out} h =
    let original = trim command in
    let settled = simplify_loop-settled (length original) original (omega arith) in
    let (clear, same) =
      by_test
        (is_empty original
          || eq_text (simplify_loop (length original) original) original
          || is_empty (simplify_loop (length original) original))
        h in
    let (dropped, splits, good) = simplify_loop-splits (length original) original in
    (
      (
        dropped,
        splits ∙ ap (λ t. t ++ dropped) same,
        good,
        Bool-not _ (λ none_dropped. absurd (
            ground (
              arith,
              clear,
              (eq_text_iff _ _).1 (
                  sym (append-nil _)
                  ∙ ap (λ d. simplify_loop (length original) original ++ d)
                      (sym (is_empty-nil dropped none_dropped))
                  ∙ sym splits),
            ))),
      ),
      strip_operator-none (trim_end out)
          (ap (λ t. strip_operator (trim_end t)) (sym same) ∙ settled),
      ap is_empty (sym same) ∙ ground (arith, clear),
    )
  where
    by_test :
        {x : Text} (b : Bool) → (if b then none else some x) ≡ some out → (b ≡ false) × (x ≡ out)
    by_test true e = cc
    by_test false e = (refl, cc)

    is_empty-nil : (t : Text) → is_empty t ≡ true → t ≡ []
    is_empty-nil [] e = refl
    is_empty-nil (c ∷ cs) e = cc

    Bool-not : (b : Bool) → (b ≡ true → ⊥) → b ≡ false
    Bool-not true f = absurd (f refl)
    Bool-not false f = refl
