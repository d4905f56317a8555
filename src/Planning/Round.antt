-- ===== src/Planning/Round.antt =====
-- `validate_round` of crates/termlm-core/src/planning/mod.rs.
use termlm.Base.{Bool, true, false, not, ◌&&◌, ◌||◌, List, [], ◌∷◌, ◌++◌, ltb, ◌==◌, if◌then◌else◌}
use termlm.Base.Text.{Text, codes, contains, eq_text, is_empty, trim, to_ascii_lowercase, join}
use termlm.Planning.Words.{ValidationFinding, finding, has, begins, extract_flags, command_has_flag}
use termlm.Planning.Transfers.{when, insufficient}
use termlm.Planning.Effects.{validate_prompt_effects}

-- the fields of the proposal that are read
pub record GroundedProposal : Type 0 where
  pub command : Text
  pub grounding : List Text

pub record ValidationContext : Type 0 where
  pub prompt : Text
  pub command_exists : Bool
  pub docs_excerpt : Text
  pub validate_command_flags : Bool
  pub parse_ambiguous : Bool
  pub parse_warnings : List Text
  pub parse_risky_constructs : Bool

-- the order of strings
unfoldable pub text_ltb : Text → Text → Bool
text_ltb [] [] = false
text_ltb [] (y ∷ ys) = true
text_ltb (x ∷ xs) [] = false
text_ltb (x ∷ xs) (y ∷ ys) = if x == y then text_ltb xs ys else ltb x y

-- a `BTreeSet` of strings in its order
unfoldable pub insert_text : Text → List Text → List Text
insert_text t [] = t ∷ []
insert_text t (u ∷ us) =
    let rest = insert_text t us in
    if eq_text t u then u ∷ us else if text_ltb t u then t ∷ u ∷ us else u ∷ rest

abbrev is_dash : Text → Bool
is_dash flag = eq_text flag (codes "-") || eq_text flag (codes "--")

-- the flags that the lower-cased documentation does not have
unfoldable pub missing_flags : Text → List Text → List Text
missing_flags docs [] = []
missing_flags docs (flag ∷ rest) =
    let others = missing_flags docs rest in
    if is_dash flag || contains docs (to_ascii_lowercase flag)
    then others
    else insert_text flag others

unfoldable pub flag_findings : List Text → List ValidationFinding
flag_findings [] = []
flag_findings (flag ∷ rest) =
    (record {
      kind = codes "unsupported_flag";
      detail = codes "flags missing from local docs: " ++ join (codes ", ") (flag ∷ rest);
    })
    ∷ []

unfoldable pub validate_flags : Text → ValidationContext → List ValidationFinding
validate_flags cmd ctx =
    if ctx.validate_command_flags && not (is_empty ctx.docs_excerpt)
    then flag_findings (missing_flags (to_ascii_lowercase ctx.docs_excerpt) (extract_flags cmd))
    else []

abbrev ambiguity_detail : List Text → Text
ambiguity_detail [] = codes "shell parse was ambiguous"
ambiguity_detail (w ∷ ws) = join (codes "; ") (w ∷ ws)

-- a request for an order that `ls` does not give without a flag
unfoldable pub lacks_sort : Text → Text → Bool
lacks_sort cmd prompt =
    let p = to_ascii_lowercase prompt in
    (has p "modified" || has p "mtime" || has p "sorted")
    && begins (to_ascii_lowercase cmd) "ls "
    && not (command_has_flag cmd b't' "--sort")

-- the findings on a draft that is not blank
unfoldable pub draft_findings : Text → List Text → ValidationContext → List ValidationFinding
draft_findings cmd grounding ctx =
    when (not ctx.command_exists)
      (finding "unknown_command" "first significant token is not installed in this shell context")
    ++ (when ctx.parse_ambiguous
          (record { kind = codes "parse_ambiguous"; detail = ambiguity_detail ctx.parse_warnings })
        ++ (when (ctx.parse_ambiguous && ctx.parse_risky_constructs) (
              finding "parse_ambiguous_risky"
                "ambiguous parse intersects pipelines/redirections/control operators")
            ++ (when (is_empty grounding)
                  (finding "missing_grounding" "proposal has no local grounding evidence")
                ++ (validate_flags cmd ctx
                    ++ (when (lacks_sort cmd ctx.prompt) (
                          insufficient
                            "request asked for sorted/mtime behavior but draft lacks sort flags")
                        ++ validate_prompt_effects cmd ctx.prompt)))))

unfoldable pub validate_round : GroundedProposal → ValidationContext → List ValidationFinding
validate_round proposal ctx =
    let cmd = trim proposal.command in
    if is_empty cmd
    then finding "insufficient_draft" "draft command is empty" ∷ []
    else draft_findings cmd proposal.grounding ctx
