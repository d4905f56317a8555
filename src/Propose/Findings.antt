-- ===== src/Propose/Findings.antt =====
-- Which findings on a draft count, and how they are told: functions of
-- crates/termlm-core/src/main.rs around `propose_command_for_execution`.
use termlm.Base.{
  Bool, not, ◌&&◌, ◌||◌, List, [], ◌∷◌, ◌++◌, map, String, ◌==◌, if◌then◌else◌, any, all,
}
use termlm.Base.Text.{
  Text, codes, contains, ends_with, eq_text, is_empty, starts_with, trim, join, split_by,
  second_piece, non_empty,
}
use termlm.Planning.Words.{ValidationFinding, is_kind, is_one_of}

unfoldable pub command_has_destructive_file_action : Text → Bool
command_has_destructive_file_action command =
    let trimmed = trim command in
    starts_with trimmed (codes "rm ")
    || contains trimmed (codes " rm ")
    || contains trimmed (codes " -delete")
    || ends_with trimmed (codes " -delete")

unfoldable pub command_can_use_path_grounding : Text → Bool
command_can_use_path_grounding command =
    is_one_of
      ("pwd" ∷ "ls" ∷ "find" ∷ "grep" ∷ "rg" ∷ "du" ∷ "head" ∷ "tail" ∷ "cat" ∷ "wc" ∷ "mkdir"
        ∷ "date" ∷ "tar" ∷ "sort" ∷ "cut" ∷ "stat" ∷ "xargs" ∷ "cp" ∷ "mv" ∷ "echo" ∷ "printf"
        ∷ "git" ∷ "lsof" ∷ "curl" ∷ [])
      command

abbrev common_flags : List (String × List String)
common_flags =
    ("grep", "-R" ∷ "-r" ∷ "-i" ∷ "-l" ∷ "-n" ∷ "-E" ∷ [])
    ∷ ("rg", "-i" ∷ "-l" ∷ "-n" ∷ [])
    ∷ ("ls", "-A" ∷ "-a" ∷ "-l" ∷ "-t" ∷ [])
    ∷ ("du", "-s" ∷ "-h" ∷ [])
    ∷ ("head", "-n" ∷ [])
    ∷ ("tail", "-n" ∷ [])
    ∷ ("tar", "-c" ∷ "-z" ∷ "-f" ∷ [])
    ∷ ("git", "--show-current" ∷ [])
    ∷ ("lsof", "-i" ∷ [])
    ∷ ("curl", "-L" ∷ [])
    ∷ []

abbrev is_common : Text → Text → Bool
is_common command flag =
    any (λ row. eq_text command (codes row.0) && is_one_of row.1 flag) common_flags

unfoldable pub unsupported_flags_are_common : Text → Text → Bool
unsupported_flags_are_common command detail =
    let flags =
      non_empty
        (map trim (split_by (λ c. c == b',') (second_piece (split_by (λ c. c == b':') detail)))) in
    not (is_empty flags) && all (is_common command) flags

unfoldable pub summarize_validation_findings : List ValidationFinding → Text
summarize_validation_findings findings =
    join (codes "; ") (map (λ (f : ValidationFinding). f.kind ++ codes ": " ++ f.detail) findings)

unfoldable pub validation_findings_need_web_fallback : List ValidationFinding → Bool
validation_findings_need_web_fallback findings =
    any
      (λ (f : ValidationFinding).
        is_one_of
          ("missing_grounding" ∷ "insufficient_draft" ∷ "insufficient_for_prompt"
            ∷ "unknown_command" ∷ "unsupported_flag" ∷ [])
          f.kind)
      findings

-- `retain`
unfoldable pub retain_findings :
    (ValidationFinding → Bool) → List ValidationFinding → List ValidationFinding
retain_findings p [] = []
retain_findings p (f ∷ rest) =
    let others = retain_findings p rest in if p f then f ∷ others else others

abbrev without : String → List ValidationFinding → List ValidationFinding
without kind findings = retain_findings (λ f. not (is_kind kind f)) findings

-- The findings that count, `first` the first command of the draft: a finding on its flags only
-- where the model proposed it by a tool call, the command is not critical, and a flag of the
-- finding is not a common one.
unfoldable pub counted_findings :
    Text → Bool → Bool → Bool → List ValidationFinding → List ValidationFinding
counted_findings first exists by_tool_call critical findings =
    let grounded =
      if exists && command_can_use_path_grounding first
      then without "missing_grounding" findings
      else findings in
    let uncommon =
      retain_findings
        (λ f. not (is_kind "unsupported_flag" f && unsupported_flags_are_common first f.detail))
        grounded in
    let called = if not by_tool_call then without "unsupported_flag" uncommon else uncommon in
    if critical then without "unsupported_flag" called else called
