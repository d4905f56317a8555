-- ===== src/Planning/Revisions.antt =====
-- The drafts that `revise_command` gives.
use termlm.Base.{
  Bool, true, false, List, [], ◌∷◌, Option, none, some, ◌≡◌, ◌≢◌, ◌∙◌, refl, sym, ap, arith,
  if◌then◌else◌, All,
}
use termlm.Base.Text.{Text, codes, eq_text, eq_text_iff, is_empty, trim}
use termlm.Planning.Words.{ValidationFinding, is_kind}
use termlm.Planning.Revise.{revise_step, revise_loop, revise_command}

some-injective : {a b : Text} → some a ≡ some b → a ≡ b
some-injective e = cc

revise_step-risky :
    (prompt : Text) (suggestion : Option Text) (f : ValidationFinding) (revised : Text)
    → is_kind "parse_ambiguous_risky" f ≡ true
    → revise_step prompt suggestion f revised ≡ none
unfolding revise_step
revise_step-risky prompt suggestion f revised h =
    let kind : f.kind ≡ codes "parse_ambiguous_risky" = (eq_text_iff _ _).0 h in
    ap (λ k. revise_step prompt suggestion (record { kind = k; detail = f.detail }) revised) kind
    ∙ unfold eq_text in refl

revise_loop-some :
    (prompt : Text) (suggestion : Option Text) (findings : List ValidationFinding) (start : Text)
    {revised : Text}
    → revise_loop prompt suggestion findings start ≡ some revised
    → All (λ f. is_kind "parse_ambiguous_risky" f ≡ false) findings
unfolding revise_loop
revise_loop-some prompt suggestion [] start h = tt
revise_loop-some prompt suggestion (f ∷ rest) start h =
    by_step (revise_step prompt suggestion f start) refl h
      (λ next k. revise_loop-some prompt suggestion rest next k)
  where
    Sound : Type 0
    Sound = All (λ f. is_kind "parse_ambiguous_risky" f ≡ false) rest

    some-none : {x : Text} → some x ≢ none
    some-none e = cc

    safe :
        {next : Text} (b : Bool)
        → is_kind "parse_ambiguous_risky" f ≡ b
        → revise_step prompt suggestion f start ≡ some next
        → b ≡ false
    safe true e k = absurd (some-none (sym k ∙ revise_step-risky prompt suggestion f start e))
    safe false e k = refl

    by_step :
        {revised : Text} (o : Option Text)
        → revise_step prompt suggestion f start ≡ o
        → (elim o as (λ _. Option Text) [
          | none ↦ none
          | some next ↦ revise_loop prompt suggestion rest next
        ])
          ≡ some revised
        → ((next : Text) → revise_loop prompt suggestion rest next ≡ some revised → Sound)
        → (is_kind "parse_ambiguous_risky" f ≡ false) × Sound
    by_step none e k ih = cc
    by_step (some next) e k ih = (safe (is_kind "parse_ambiguous_risky" f) refl e, ih next k)

-- A revision of a command is not the trimmed command, and no command is revised that is blank or
-- whose findings say that its ambiguous parse is risky.
pub revise_command-changed :
    (command prompt : Text) (findings : List ValidationFinding) (suggestion : Option Text)
    {revised : Text}
    → revise_command command prompt findings suggestion ≡ some revised
    → (revised ≢ trim command)
      × (is_empty (trim command) ≡ false)
      × All (λ f. is_kind "parse_ambiguous_risky" f ≡ false) findings
unfolding revise_command
revise_command-changed command prompt findings suggestion {revised} h =
    let (full, h1) = by_blank (is_empty (trim command)) _ h in
    by_loop (revise_loop prompt suggestion findings (trim command)) refl full h1
  where
    by_blank :
        (b : Bool) (rest : Option Text)
        → (if b then none else rest) ≡ some revised
        → (b ≡ false) × (rest ≡ some revised)
    by_blank true rest e = cc
    by_blank false rest e = (refl, e)

    by_change :
        (b : Bool) (r : Text)
        → (if b then none else some r) ≡ some revised
        → (b ≡ false) × (r ≡ revised)
    by_change true r e = cc
    by_change false r e = (refl, some-injective e)

    by_loop :
        (o : Option Text)
        → revise_loop prompt suggestion findings (trim command) ≡ o
        → is_empty (trim command) ≡ false
        → (elim o as (λ _. Option Text) [
          | none ↦ none
          | some r ↦ if eq_text r (trim command) then none else some r
        ])
          ≡ some revised
        → (revised ≢ trim command)
          × (is_empty (trim command) ≡ false)
          × All (λ f. is_kind "parse_ambiguous_risky" f ≡ false) findings
    by_loop none e full k = cc
    by_loop (some r) e full k =
        let (other, same) = by_change (eq_text r (trim command)) r k in
        (
          λ unchanged. absurd (ground (arith, other, (eq_text_iff _ _).1 (same ∙ unchanged))),
          full,
          revise_loop-some prompt suggestion findings (trim command) e,
        )
