-- ===== src/Probe/Stages.antt =====
-- The pipelines that the validator accepts. It cuts the command with a splitter of its own, which
-- treats a backslash inside single quotes otherwise than the scanner; the theorem shows that on an
-- accepted command the cut is the shell's all the same.
use mathlib.Core.Path.{subst}
use termlm.Base.{
  ℕ, suc, ◌≤◌, Bool, true, false, ◌&&◌, ◌||◌, List, [], ◌∷◌, ◌++◌, map, ◌≡◌, ◌≢◌, refl, sym, ap,
  ◌∙◌, arith, ◌==◌, if◌then◌else◌, all, All, length, ltb,
}
use termlm.Base.Text.{Text, codes, trim, trim-parts, is_whitespace}
use termlm.Shell.{ParsedCommand, parse_command}
use termlm.Shell.Quoting.{Quoting, bare, is_bare, advance, exposes, final, is_separator}
use termlm.Probe.{
  Message, ok, refuse, ◌>>◌, check_segments, validate_pipeline, split_simple_readonly_pipeline,
  validate_readonly_pipeline_segments, validate_readonly_command_tokens,
}
use termlm.Probe.Split.{join_pipes, split-parts, >>=-eq_ok}
use termlm.Probe.Accepts.{
  IsPlain, IsAdmitted, check_segment-IsPlain, >>-eq_ok, if_true, validate-IsAdmitted,
}

abbrev cons_head : ℕ → List Text → List Text
cons_head c [] = (c ∷ []) ∷ []
cons_head c (p ∷ ps) = (c ∷ p) ∷ ps

-- The commands of a pipeline: the text cut at each `|` outside quotes.
unfoldable pub stages : Quoting → Text → List Text
unfolding advance
stages q [] = [] ∷ []
stages q (c ∷ cs) =
    let rest = stages (advance q c) cs in
    if is_bare q && c == b'|' then [] ∷ rest else cons_head c rest

stages-part :
    (p rest : Text) (q : Quoting)
    → exposes is_separator q p ≡ false
    → final q p ≡ bare
    → stages q (p ++ b'|' ∷ rest) ≡ p ∷ stages bare rest
unfolding stages exposes final
stages-part [] rest q h e = rw e refl
stages-part (c ∷ cs) rest q h e = ground (arith, stages-part cs rest (advance q c) (ground arith) e)

stages-last : (p : Text) (q : Quoting) → exposes is_separator q p ≡ false → stages q p ≡ p ∷ []
unfolding stages exposes
stages-last [] q h = refl
stages-last (c ∷ cs) q h = ground (arith, stages-last cs (advance q c) (ground arith))

exposes-append :
    (p : ℕ → Bool) (q : Quoting) (a b : Text)
    → exposes p q (a ++ b) ≡ (exposes p q a || exposes p (final q a) b)
unfolding exposes final
exposes-append p q [] b = refl
exposes-append p q (c ∷ a) b = ground (arith, exposes-append p (advance q c) a b)

final-append : (q : Quoting) (a b : Text) → final q (a ++ b) ≡ final (final q a) b
unfolding final
final-append q [] b = refl
final-append q (c ∷ a) b = final-append (advance q c) a b

blank-ne : (c x : ℕ) → is_whitespace c ≡ true → is_whitespace x ≡ false → (c == x) ≡ false
blank-ne c x h n = ground arith

-- White space is no operator and no quoting character.
blank_char : (c : ℕ) → is_whitespace c ≡ true → (is_separator c ≡ false) × (advance bare c ≡ bare)
unfolding advance
blank_char c h =
    let visible = λ (x : ℕ). blank-ne c x h in
    ground (
      arith,
      visible b'|' (unfold is_whitespace in refl),
      visible b'&' (unfold is_whitespace in refl),
      visible b';' (unfold is_whitespace in refl),
      visible b'\\' (unfold is_whitespace in refl),
      visible b'\'' (unfold is_whitespace in refl),
      visible b'"' (unfold is_whitespace in refl),
    )

-- White space outside quotes changes nothing.
blank :
    (w : Text)
    → all is_whitespace w ≡ true
    → (exposes is_separator bare w ≡ false) × (final bare w ≡ bare)
unfolding exposes final
blank [] h = (refl, refl)
blank (c ∷ cs) h = ground (arith, blank_char c (ground arith), blank cs (ground arith))

-- A part whose trimmed text is closed and without separators is so itself.
part-closed :
    (p : Text) → IsPlain (trim p) → (exposes is_separator bare p ≡ false) × (final bare p ≡ bare)
part-closed p h =
    let (lead, trail, splits, l, t) = trim-parts p in
    let front = blank lead l in
    let back = blank trail t in
    let inner = exposes-append is_separator bare (trim p) trail in
    let inner' = final-append bare (trim p) trail in
    rw splits (
      ground (
        arith,
        h.no_separator,
        h.closed,
        exposes-append is_separator bare lead (trim p ++ trail),
        final-append bare lead (trim p ++ trail),
        inner,
        inner',
        front,
        back,
      ))

-- Where every part of the command between the `|` of the splitter passes, the parts are its stages.
stages-join_pipes :
    (parts : List Text)
    → parts ≢ []
    → All (λ p. IsPlain (trim p)) parts
    → stages bare (join_pipes parts) ≡ parts
stages-join_pipes [] n h = absurd (n refl)
stages-join_pipes (p ∷ []) n h = stages-last p bare (part-closed p h.0).0
stages-join_pipes (p ∷ q ∷ ps) n h =
    stages-part p (join_pipes (q ∷ ps)) bare (part-closed p h.0).0 (part-closed p h.0).1
    ∙ ap (◌∷◌ p) (stages-join_pipes (q ∷ ps) (λ e. cc) h.1)

check_segments-All :
    (parts : List Text)
    → check_segments (map trim parts) ≡ ok tt
    → All (λ p. IsPlain (trim p)) parts
unfolding check_segments
check_segments-All [] h = tt
check_segments-All (p ∷ ps) h =
    let (first, rest) = >>-eq_ok _ _ h in
    (check_segment-IsPlain (trim p) first, check_segments-All ps rest)

length-map-trim : (parts : List Text) → length (map trim parts) ≡ length parts
length-map-trim [] = refl
length-map-trim (p ∷ ps) = ap suc (length-map-trim ps)

segments-checked :
    (segments : List Text) (few many : Message)
    → (refuse (ltb (length segments) 2) few
        >> (refuse (ltb 4 (length segments)) many >> check_segments segments))
      ≡ ok tt
    → (2 ≤ length segments) × (length segments ≤ 4) × (check_segments segments ≡ ok tt)
segments-checked segments few many h = ground arith

-- The pipeline check, on a command whose segments all pass.
segments-stages :
    (cmd : Text)
    → validate_readonly_pipeline_segments cmd ≡ ok tt
    → (2 ≤ length (stages bare cmd))
      × (length (stages bare cmd) ≤ 4)
      × All (λ stage. IsPlain (trim stage)) (stages bare cmd)
unfolding validate_readonly_pipeline_segments
segments-stages cmd h =
    let (segments, split, h1) = >>=-eq_ok (split_simple_readonly_pipeline cmd) _ h in
    let (few, many, checked) = segments-checked segments _ _ h1 in
    let (parts, not_empty, joined, trimmed) = split-parts cmd split in
    let passed = check_segments-All parts (rw trimmed at checked) in
    let same = ap (stages bare) joined ∙ stages-join_pipes parts not_empty passed in
    let count : length (stages bare cmd) ≡ length segments =
      ap length same ∙ (sym (length-map-trim parts) ∙ ap length (sym trimmed)) in
    (omega arith, omega arith, subst (All (λ stage. IsPlain (trim stage))) (sym same) passed)

-- A pipeline that the validator accepts goes to `/bin/sh -c` as it stands, trimmed. It has no line
-- break and no backtick. Cut at each `|` outside quotes it has two to four stages, and each stage is plain: closed quotes, no operator
-- or substitution outside them, no token with `$` or a leading `~`, and an allowlisted program with
-- allowed arguments.
pub validate_pipeline_safe :
    (cmd : Text) {argv : List Text}
    → (parse_command (trim cmd)).has_pipeline ≡ true
    → validate_readonly_command_tokens cmd ≡ ok argv
    → IsAdmitted (trim cmd)
      × (argv ≡ codes "/bin/sh" ∷ codes "-c" ∷ trim cmd ∷ [])
      × (2 ≤ length (stages bare (trim cmd)))
      × (length (stages bare (trim cmd)) ≤ 4)
      × All (λ stage. IsPlain (trim stage)) (stages bare (trim cmd))
validate_pipeline_safe cmd pipe h =
    let (admitted, rest) = validate-IsAdmitted cmd h in
    let (checked, same) = validate_pipeline-checked (trim cmd) _ (if_true _ _ pipe rest) in
    let (many, few, plain) = segments-stages (trim cmd) checked in
    (admitted, same, many, few, plain)
  where
    validate_pipeline-checked :
        (t : Text) (parsed : ParsedCommand) {argv : List Text}
        → validate_pipeline t parsed ≡ ok argv
        → (validate_readonly_pipeline_segments t ≡ ok tt)
          × (argv ≡ codes "/bin/sh" ∷ codes "-c" ∷ t ∷ [])
    validate_pipeline-checked t parsed e = unfold validate_pipeline in ground arith
