-- ===== src/Examples/Probe.antt =====
-- Runs of the read-only probe validator.
use termlm.Base.{true, false, List, [], ◌∷◌, ◌≡◌, ◌≤◌, refl, All, length}
use termlm.Base.Text.{Text, codes, trim, starts_with, is_ascii_alphanumeric, eq_text, is_whitespace}
use termlm.Shell.{parse_command, step, is_env_assignment}
use termlm.Shell.Quoting.{bare}
use termlm.Probe.{
  Result, ok, err, not_allowlisted, is_one_of, validate_readonly_command_tokens, validate_single,
  validate_pipeline, check_program, reject_readonly_shell_expansions,
  readonly_probe_program_allowed, readonly_find_probe_allowed, validate_readonly_pipeline_segments,
  split_simple_readonly_pipeline, split_loop, split_step, end_segment, check_segments,
  check_segment,
}
use termlm.Probe.Accepts.{IsAdmitted, IsPlain, validate_single_safe}
use termlm.Probe.Stages.{stages, validate_pipeline_safe}

-- the validator, with all that it calls
unfoldable validated : Text → Result (List Text)
unfolding validate_readonly_command_tokens step is_one_of trim is_whitespace starts_with eq_text
    is_env_assignment parse_command validate_single validate_pipeline check_program
    reject_readonly_shell_expansions readonly_probe_program_allowed readonly_find_probe_allowed
    validate_readonly_pipeline_segments split_simple_readonly_pipeline split_loop split_step
    end_segment check_segments check_segment is_ascii_alphanumeric
validated cmd = validate_readonly_command_tokens cmd

single : validated (codes " ls -la ") ≡ ok (codes "ls" ∷ codes "-la" ∷ [])
unfolding validated
single = refl

refused : validated (codes "ls | rm x") ≡ err (not_allowlisted (codes "rm"))
unfolding validated
refused = refl

-- `sort -o` and `find -fprint0` write files, and pass.
sort_output :
    validated (codes "sort -o out in")
    ≡ ok (codes "sort" ∷ codes "-o" ∷ codes "out" ∷ codes "in" ∷ [])
unfolding validated
sort_output = refl

find_fprint0 :
    validated (codes "find . -fprint0 out")
    ≡ ok (codes "find" ∷ codes "." ∷ codes "-fprint0" ∷ codes "out" ∷ [])
unfolding validated
find_fprint0 = refl

abbrev listing : Text
listing = codes " ls -la "

listing-single : (parse_command (trim listing)).has_pipeline ≡ false
unfolding trim is_whitespace parse_command step
listing-single = refl

listing-accepted : validate_readonly_command_tokens listing ≡ ok (codes "ls" ∷ codes "-la" ∷ [])
unfolding validated
listing-accepted = single

validate_single_safe_example :
    IsAdmitted (trim listing)
    × ((codes "ls" ∷ codes "-la" ∷ []) ≡ (parse_command (trim listing)).tokens)
    × (length (codes "ls" ∷ codes "-la" ∷ []) ≤ 40)
    × IsPlain (trim listing)
validate_single_safe_example = validate_single_safe listing listing-single listing-accepted

abbrev counting : Text
counting = codes "ls 'a|b' | wc -l"

counting-pipeline : (parse_command (trim counting)).has_pipeline ≡ true
unfolding trim is_whitespace parse_command step
counting-pipeline = refl

counting-validated :
    validated counting ≡ ok (codes "/bin/sh" ∷ codes "-c" ∷ codes "ls 'a|b' | wc -l" ∷ [])
unfolding validated
counting-validated = refl

counting-accepted :
    validate_readonly_command_tokens counting
    ≡ ok (codes "/bin/sh" ∷ codes "-c" ∷ codes "ls 'a|b' | wc -l" ∷ [])
unfolding validated
counting-accepted = counting-validated

validate_pipeline_safe_example :
    IsAdmitted (trim counting)
    × ((codes "/bin/sh" ∷ codes "-c" ∷ codes "ls 'a|b' | wc -l" ∷ [])
        ≡ codes "/bin/sh" ∷ codes "-c" ∷ trim counting ∷ [])
    × (2 ≤ length (stages bare (trim counting)))
    × (length (stages bare (trim counting)) ≤ 4)
    × All (λ stage. IsPlain (trim stage)) (stages bare (trim counting))
validate_pipeline_safe_example = validate_pipeline_safe counting counting-pipeline counting-accepted
