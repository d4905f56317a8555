-- ===== src/Planning/Revise.antt =====
-- `revise_command` of crates/termlm-core/src/planning/mod.rs: the next draft, or none where the
-- findings do not say how to change it.
use termlm.Base.{
  ℕ, zero, suc, not, ◌&&◌, ◌||◌, List, [], ◌∷◌, ◌++◌, Option, none, some, ◌==◌, if◌then◌else◌, any,
  length,
}
use termlm.Base.Text.{
  Text, codes, contains_char, eq_text, is_empty, trim, trim_end, to_ascii_lowercase, split_by,
  split_whitespace, join, strip_suffix, second_piece,
}
use termlm.Planning.Words.{ValidationFinding, has, begins, is_kind, command_has_flag}

abbrev with_first : Text → Text → List Text → Text
with_first command replacement [] = command
with_first command replacement (_ ∷ parts) = join (codes " ") (replacement ∷ parts)

unfoldable pub replace_first_token : Text → Text → Text
replace_first_token command replacement = with_first command replacement (split_whitespace command)

-- the flags that the detail of a finding lists behind its colon
unfoldable pub listed_flags : List Text → List Text
listed_flags [] = []
listed_flags (piece ∷ rest) =
    let others = listed_flags rest in
    if begins (trim piece) "-" then trim piece ∷ others else others

unfoldable pub without_flags : List Text → List Text → List Text
without_flags remove [] = []
without_flags remove (token ∷ rest) =
    let others = without_flags remove rest in
    if any (λ flag. eq_text flag token) remove then others else token ∷ others

unfoldable pub strip_flags_from_detail : Text → Text → Text
strip_flags_from_detail command detail =
    let remove =
      listed_flags (split_by (λ c. c == b',') (second_piece (split_by (λ c. c == b':') detail))) in
    if is_empty remove
    then command
    else join (codes " ") (without_flags remove (split_whitespace command))

abbrev with_flag : Text → ℕ → List Text → Text
with_flag command flag [] = command
with_flag command flag (_ ∷ []) = command
with_flag command flag (first ∷ second ∷ rest) =
    if begins second "-" && not (begins second "--")
    then join (codes " ")
        (first ∷ (if contains_char second flag then second else second ++ flag ∷ []) ∷ rest)
    else join (codes " ") (first ∷ (b'-' ∷ flag ∷ []) ∷ second ∷ rest)

unfoldable pub ensure_compound_short_flag : Text → ℕ → Text
ensure_compound_short_flag command flag = with_flag command flag (split_whitespace command)

abbrev pub or_else : Option Text → Option Text → Option Text
or_else none other = other
or_else (some t) other = some t

-- the text before an operator at its end
unfoldable pub strip_operator : Text → Option Text
strip_operator t = or_else (strip_suffix t (codes "&&")) (
    or_else (strip_suffix t (codes "||")) (
      or_else (strip_suffix t (codes "|"))
        (or_else (strip_suffix t (codes ";")) (strip_suffix t (codes "&")))))

-- the loop, which shortens the text in each round but the last
unfoldable pub simplify_loop : ℕ → Text → Text
simplify_loop zero out = out
simplify_loop (suc fuel) out = elim (strip_operator (trim_end out)) [
  | none ↦ out
  | some next ↦ simplify_loop fuel (trim_end next)
]

unfoldable pub simplify_ambiguous_command : Text → Option Text
simplify_ambiguous_command command =
    let original = trim command in
    let out = simplify_loop (length original) original in
    if is_empty original || eq_text out original || is_empty out then none else some out

-- the flags of `ls` that the prompt asks for
unfoldable pub revise_listing : Text → Text → Text
revise_listing prompt revised =
    let p = to_ascii_lowercase prompt in
    let sorted =
      if (has p "modified" || has p "mtime" || has p "sorted")
        && not (command_has_flag revised b't' "--sort")
      then ensure_compound_short_flag revised b't'
      else revised in
    if begins revised "ls "
    then (if has p "all" && not (command_has_flag sorted b'a' "--all")
        then ensure_compound_short_flag sorted b'a'
        else sorted)
    else revised

abbrev suggested : Text → Option Text → Text
suggested revised none = revised
suggested revised (some s) = replace_first_token revised s

abbrev simplified : Text → Option Text → Text
simplified revised none = revised
simplified revised (some s) = s

-- one finding; `none` where no revision is to be made
unfoldable pub revise_step : Text → Option Text → ValidationFinding → Text → Option Text
revise_step prompt suggestion f revised =
    if is_kind "unknown_command" f
    then some (suggested revised suggestion)
    else if is_kind "unsupported_flag" f
    then some (strip_flags_from_detail revised f.detail)
    else if is_kind "insufficient_for_prompt" f
    then some (revise_listing prompt revised)
    else if is_kind "parse_ambiguous" f
    then some (simplified revised (simplify_ambiguous_command revised))
    else if is_kind "parse_ambiguous_risky" f
    then none
    else some revised

unfoldable pub revise_loop : Text → Option Text → List ValidationFinding → Text → Option Text
revise_loop prompt suggestion [] revised = some revised
revise_loop prompt suggestion (f ∷ rest) revised = elim (revise_step prompt suggestion f revised) [
  | none ↦ none
  | some next ↦ revise_loop prompt suggestion rest next
]

unfoldable pub revise_command : Text → Text → List ValidationFinding → Option Text → Option Text
revise_command command prompt findings suggestion =
    let start = trim command in
    if is_empty start then none else elim (revise_loop prompt suggestion findings start) [
      | none ↦ none
      | some revised ↦ if eq_text revised start then none else some revised
    ]
