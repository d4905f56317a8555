-- ===== src/Planning/Passes.antt =====
-- What a draft is like that passes a round without findings.
use termlm.Base.{
  Bool, true, false, not, ◌||◌, List, [], ◌∷◌, ◌≡◌, refl, ap, arith, if◌then◌else◌, All, Bool-cases,
  ◌⊎◌, ◌&&◌, inl, inr,
}
use termlm.Base.Text.{Text, codes, contains, eq_text, is_empty, trim, to_ascii_lowercase}
use termlm.Planning.Words.{ValidationFinding, has, begins, command_has_flag, extract_flags}
use termlm.Planning.Effective.{when-[], append-[], Meets, demands, effects-Meets}
use termlm.Planning.Round.{
  GroundedProposal, ValidationContext, insert_text, missing_flags, flag_findings, validate_flags,
  lacks_sort, draft_findings, validate_round,
}

insert_text-full : (t : Text) (us : List Text) → is_empty (insert_text t us) ≡ false
unfolding insert_text
insert_text-full t [] = refl
insert_text-full t (u ∷ us) = ground arith

-- a flag that is checked stands in the documentation
abbrev pub IsDocumented : Text → Text → Type 0
IsDocumented docs flag =
    (eq_text flag (codes "-")
      || eq_text flag (codes "--")
      || contains (to_ascii_lowercase docs) (to_ascii_lowercase flag))
    ≡ true

missing_flags-[] :
    (docs : Text) (flags : List Text)
    → missing_flags (to_ascii_lowercase docs) flags ≡ []
    → All (IsDocumented docs) flags
unfolding missing_flags
missing_flags-[] docs [] h = tt
missing_flags-[] docs (flag ∷ rest) h =
    elim (Bool-cases (
      eq_text flag (codes "-")
      || eq_text flag (codes "--")
      || contains (to_ascii_lowercase docs) (to_ascii_lowercase flag))) [
        | inl e ↦ (e, missing_flags-[] docs rest (ap_if _ _ _ e h))
        | inr e ↦ absurd (
            ground (
              arith,
              insert_text-full flag (missing_flags (to_ascii_lowercase docs) rest),
              if_not_empty _ _ _ e h,
            ))
      ]
  where
    ap_if : (b : Bool) (x y : List Text) → b ≡ true → (if b then x else y) ≡ [] → x ≡ []
    ap_if true x y e h = h
    ap_if false x y e h = cc

    if_not_empty :
        (b : Bool) (x y : List Text) → b ≡ false → (if b then x else y) ≡ [] → is_empty y ≡ true
    if_not_empty true x y e h = cc
    if_not_empty false x y e h = ap is_empty h

flag_findings-[] : (flags : List Text) → flag_findings flags ≡ [] → flags ≡ []
unfolding flag_findings
flag_findings-[] [] h = refl
flag_findings-[] (flag ∷ rest) h = cc

validate_flags-[] :
    (cmd : Text) (ctx : ValidationContext)
    → validate_flags cmd ctx ≡ []
    → ctx.validate_command_flags ≡ true
    → is_empty ctx.docs_excerpt ≡ false
    → All (IsDocumented ctx.docs_excerpt) (extract_flags cmd)
unfolding validate_flags
validate_flags-[] cmd ctx h checked full =
    missing_flags-[] ctx.docs_excerpt (extract_flags cmd)
      (flag_findings-[] _ (by_test _ _ (rw (checked, full) refl) h))
  where
    by_test :
        (b : Bool) (x : List ValidationFinding) → b ≡ true → (if b then x else []) ≡ [] → x ≡ []
    by_test true x e h = h
    by_test false x e h = cc

-- the prompt asks for an order
abbrev pub asks_order : Text → Bool
asks_order prompt =
    let p = to_ascii_lowercase prompt in has p "modified" || has p "mtime" || has p "sorted"

-- What a round without findings says of the trimmed draft.
pub record Passed (proposal : GroundedProposal) (ctx : ValidationContext) : Type 0 where
  pub full : is_empty (trim proposal.command) ≡ false
  pub installed : ctx.command_exists ≡ true
  pub unambiguous : ctx.parse_ambiguous ≡ false
  pub grounded : is_empty proposal.grounding ≡ false
  pub documented :
      ctx.validate_command_flags ≡ true
      → is_empty ctx.docs_excerpt ≡ false
      → All (IsDocumented ctx.docs_excerpt) (extract_flags (trim proposal.command))
  pub sorted :
      (asks_order ctx.prompt ≡ false)
      ⊎ ((begins (to_ascii_lowercase (trim proposal.command)) "ls " ≡ false)
          ⊎ (command_has_flag (trim proposal.command) b't' "--sort" ≡ true))
  pub effective : All Meets (demands ctx.prompt (trim proposal.command))

-- A draft that passes a round without findings is not blank, its command exists, its parse is not
-- ambiguous and it has grounding. Where the prompt asks for an order (`modified`, `mtime`,
-- `sorted`) and the draft begins with `ls `, it has the flag `t` or `--sort`. Of the demands that
-- stand in the table `demands`, it meets each that the prompt makes. Where its flags are checked
-- against an excerpt of documentation, each of them stands there but for `-` and `--`.
pub validate_round-Passed :
    (proposal : GroundedProposal) (ctx : ValidationContext)
    → validate_round proposal ctx ≡ []
    → Passed proposal ctx
unfolding validate_round draft_findings lacks_sort
validate_round-Passed proposal ctx h =
    let (full, findings) = by_blank (is_empty (trim proposal.command)) _ _ h in
    let (exists, h1) = when-[] _ _ _ findings in
    let (unambiguous, h2) = when-[] _ _ _ h1 in
    let (_, h3) = when-[] _ _ _ h2 in
    let (grounded, h4) = when-[] _ _ _ h3 in
    let (flags, h5) = append-[] _ _ h4 in
    let (sorted, effective) = when-[] _ _ _ h5 in
    record {
      full = full;
      installed = by_not ctx.command_exists exists;
      unambiguous = unambiguous;
      grounded = grounded;
      documented = validate_flags-[] (trim proposal.command) ctx flags;
      sorted = by_order _ _ _ sorted;
      effective = effects-Meets (trim proposal.command) ctx.prompt effective;
    }
  where
    by_blank :
        (b : Bool) (f : ValidationFinding) (rest : List ValidationFinding)
        → (if b then f ∷ [] else rest) ≡ []
        → (b ≡ false) × (rest ≡ [])
    by_blank true f rest h = cc
    by_blank false f rest h = (refl, h)

    by_not : (b : Bool) → not b ≡ false → b ≡ true
    by_not true e = refl
    by_not false e = cc

    by_order : (a b c : Bool) → (a && b && not c) ≡ false → (a ≡ false) ⊎ ((b ≡ false) ⊎ (c ≡ true))
    by_order a b c h = ground arith
