-- ===== src/Examples/Planning.antt =====
-- A round of the planning on concrete drafts.
use termlm.Base.{true, false, List, [], ◌∷◌, ◌++◌, some, ◌≡◌, ◌≢◌, refl, All, all}
use termlm.Base.Text.{
  Text, codes, is_empty, starts_with, contains, ends_with, eq_text, trim, trim_start, trim_end,
  is_whitespace, to_ascii_lowercase, split_by, non_empty, split_whitespace, join, byte_len,
  len_utf8, is_ascii_alphabetic, is_ascii_alphanumeric, strip_suffix,
}
use termlm.Planning.Words.{
  ValidationFinding, finding, is_kind, has, begins, is_one_of, prompt_contains_word,
  command_contains_word, is_single_dash_word_option, token_flags, flags_of, extract_flags,
  command_has_flag,
}
use termlm.Planning.Prompts.{
  prompt_requests_destination_creation, prompt_requests_recursive_scope,
  prompt_requests_file_listing_or_transfer, prompt_requests_content_search,
  prompt_requests_case_insensitive_search, prompt_requests_largest_files,
  prompt_requests_ranked_single_file, prompt_requests_directories_only,
  prompt_requests_delete_empty_directories, prompt_requests_recent_file_per_subdir,
  prompt_requests_git_changed_files, prompt_requests_filesystem_disk_usage,
  prompt_requests_dated_backup, prompt_requests_create_and_cd, prompt_mentions_image_files,
  prompt_mentions_markdown_files, prompt_requests_plain_listing, prompt_mentions_standard_home_dir,
  prompt_requests_compound_file_transfer,
}
use termlm.Planning.Commands.{
  command_has_content_search, command_has_case_insensitive_search, command_satisfies_largest_files,
  command_selects_ranked_single_file, command_lists_directories_only,
  command_deletes_empty_directories, command_checks_recent_file_per_subdir,
  command_checks_git_changes, command_checks_filesystem_disk_usage, command_creates_dated_backup,
  command_creates_and_enters_directory, command_has_image_filter, command_has_markdown_filter,
  command_has_copy_operation, command_has_move_operation, command_has_recursive_grep_flag,
  command_has_recursive_selection, command_mentions_requested_home_path,
}
use termlm.Planning.Transfers.{validate_compound_file_transfer_effects}
use termlm.Planning.Effects.{
  prompt_asks_count, first_effects, later_effects, validate_prompt_effects,
}
use termlm.Planning.Round.{
  GroundedProposal, ValidationContext, text_ltb, insert_text, missing_flags, flag_findings,
  validate_flags, lacks_sort, draft_findings, validate_round,
}
use termlm.Planning.Revise.{
  replace_first_token, strip_operator, simplify_loop, simplify_ambiguous_command, revise_step,
  revise_loop, revise_command,
}
use termlm.Planning.Passes.{Passed, validate_round-Passed}
use termlm.Planning.Strips.{is_stripped, ends_in_operator}
use termlm.Planning.Settles.{simplify_ambiguous_command-settled}
use termlm.Planning.Revisions.{revise_command-changed}

abbrev listing : GroundedProposal
listing = record { command = codes " ls -t "; grounding = codes "docs#ls" ∷ [] }

abbrev asked : ValidationContext
asked = record {
  prompt = codes "list the files, sorted by date";
  command_exists = true;
  docs_excerpt = codes "ls -a -T sorts by time";
  validate_command_flags = true;
  parse_ambiguous = false;
  parse_warnings = [];
  parse_risky_constructs = false;
}

listing-passes : validate_round listing asked ≡ []
unfolding has begins is_one_of prompt_contains_word command_contains_word is_single_dash_word_option
    token_flags flags_of extract_flags command_has_flag prompt_requests_destination_creation
    prompt_requests_recursive_scope prompt_requests_file_listing_or_transfer
    prompt_requests_content_search prompt_requests_case_insensitive_search
    prompt_requests_largest_files prompt_requests_ranked_single_file
    prompt_requests_directories_only prompt_requests_delete_empty_directories
    prompt_requests_recent_file_per_subdir prompt_requests_git_changed_files
    prompt_requests_filesystem_disk_usage prompt_requests_dated_backup prompt_requests_create_and_cd
    prompt_mentions_image_files prompt_mentions_markdown_files prompt_requests_plain_listing
    prompt_mentions_standard_home_dir prompt_requests_compound_file_transfer
    command_has_content_search command_has_case_insensitive_search command_satisfies_largest_files
    command_selects_ranked_single_file command_lists_directories_only
    command_deletes_empty_directories command_checks_recent_file_per_subdir
    command_checks_git_changes command_checks_filesystem_disk_usage command_creates_dated_backup
    command_creates_and_enters_directory command_has_image_filter command_has_markdown_filter
    command_has_copy_operation command_has_move_operation command_has_recursive_grep_flag
    command_has_recursive_selection command_mentions_requested_home_path
    validate_compound_file_transfer_effects prompt_asks_count first_effects later_effects
    validate_prompt_effects text_ltb insert_text missing_flags flag_findings validate_flags
    lacks_sort draft_findings validate_round starts_with contains ends_with eq_text trim trim_start
    trim_end is_whitespace to_ascii_lowercase split_by non_empty split_whitespace join byte_len
    len_utf8 is_ascii_alphabetic is_ascii_alphanumeric strip_suffix
listing-passes = refl

validate_round-Passed_example : Passed listing asked
validate_round-Passed_example = validate_round-Passed listing asked listing-passes

-- without a flag the same draft lacks the order
unsorted :
    validate_round (record listing { command = codes "ls -a" }) asked
    ≡ finding "insufficient_for_prompt"
        "request asked for sorted/mtime behavior but draft lacks sort flags"
      ∷ []
unfolding has begins is_one_of prompt_contains_word command_contains_word is_single_dash_word_option
    token_flags flags_of extract_flags command_has_flag prompt_requests_destination_creation
    prompt_requests_recursive_scope prompt_requests_file_listing_or_transfer
    prompt_requests_content_search prompt_requests_case_insensitive_search
    prompt_requests_largest_files prompt_requests_ranked_single_file
    prompt_requests_directories_only prompt_requests_delete_empty_directories
    prompt_requests_recent_file_per_subdir prompt_requests_git_changed_files
    prompt_requests_filesystem_disk_usage prompt_requests_dated_backup prompt_requests_create_and_cd
    prompt_mentions_image_files prompt_mentions_markdown_files prompt_requests_plain_listing
    prompt_mentions_standard_home_dir prompt_requests_compound_file_transfer
    command_has_content_search command_has_case_insensitive_search command_satisfies_largest_files
    command_selects_ranked_single_file command_lists_directories_only
    command_deletes_empty_directories command_checks_recent_file_per_subdir
    command_checks_git_changes command_checks_filesystem_disk_usage command_creates_dated_backup
    command_creates_and_enters_directory command_has_image_filter command_has_markdown_filter
    command_has_copy_operation command_has_move_operation command_has_recursive_grep_flag
    command_has_recursive_selection command_mentions_requested_home_path
    validate_compound_file_transfer_effects prompt_asks_count first_effects later_effects
    validate_prompt_effects text_ltb insert_text missing_flags flag_findings validate_flags
    lacks_sort draft_findings validate_round starts_with contains ends_with eq_text trim trim_start
    trim_end is_whitespace to_ascii_lowercase split_by non_empty split_whitespace join byte_len
    len_utf8 is_ascii_alphabetic is_ascii_alphanumeric strip_suffix
unsorted = refl

piped-simplified : simplify_ambiguous_command (codes "ls | ; ") ≡ some (codes "ls")
unfolding simplify_ambiguous_command simplify_loop strip_operator starts_with contains ends_with
    eq_text trim trim_start trim_end is_whitespace to_ascii_lowercase split_by non_empty
    split_whitespace join byte_len len_utf8 is_ascii_alphabetic is_ascii_alphanumeric strip_suffix
piped-simplified = refl

simplify_ambiguous_command-settled_example :
    ((dropped : Text) × (trim (codes "ls | ; ") ≡ codes "ls" ++ dropped)
      × (all is_stripped dropped ≡ true)
      × (is_empty dropped ≡ false))
    × (ends_in_operator (trim_end (codes "ls")) ≡ false)
    × (is_empty (codes "ls") ≡ false)
simplify_ambiguous_command-settled_example =
    simplify_ambiguous_command-settled (codes "ls | ; ") piped-simplified

abbrev misspelt : List ValidationFinding
misspelt =
    finding "unknown_command" "first significant token is not installed in this shell context" ∷ []

misspelt-revised :
    revise_command (codes "sl -a") (codes "list files") misspelt (some (codes "ls"))
    ≡ some (codes "ls -a")
unfolding revise_command revise_loop revise_step replace_first_token starts_with contains ends_with
    eq_text trim trim_start trim_end is_whitespace to_ascii_lowercase split_by non_empty
    split_whitespace join byte_len len_utf8 is_ascii_alphabetic is_ascii_alphanumeric strip_suffix
misspelt-revised = refl

revise_command-changed_example :
    (codes "ls -a" ≢ trim (codes "sl -a"))
    × (is_empty (trim (codes "sl -a")) ≡ false)
    × All (λ f. is_kind "parse_ambiguous_risky" f ≡ false) misspelt
revise_command-changed_example =
    revise_command-changed (codes "sl -a") (codes "list files") misspelt (some (codes "ls"))
      misspelt-revised
