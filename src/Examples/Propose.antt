-- ===== src/Examples/Propose.antt =====
-- The proposal of a command on the state of Tasks.
use termlm.Base.{Bool, true, false, [], ◌∷◌, List, Option, none, some, ◌≡◌, refl, inl, arith, map}
use termlm.Base.Text.{
  Text, codes, eq_text, starts_with, contains, ends_with, trim, trim_start, trim_end, is_whitespace,
  to_ascii_lowercase, split_by, non_empty, split_whitespace, join, byte_len, len_utf8,
  is_ascii_alphabetic, is_ascii_alphanumeric,
}
use termlm.Safety.{find_pattern, matches_safety_floor, is_critical}
use termlm.Base.Maps.{lookup, insert, remove}
use termlm.Tasks.{push_message, approval_override_for_shell}
use termlm.Daemon.{
  fresh_command_request, ChatMessage, Reply, done, failed, blocked, with_conversations, send,
}
use termlm.Tasks.Engine.{StartTask}
use termlm.Tasks.Keeps.{Leaves}
use termlm.Planning.Words.{
  has, begins, is_one_of, prompt_contains_word, command_contains_word, is_single_dash_word_option,
  token_flags, flags_of, extract_flags, command_has_flag,
}
use termlm.Planning.Prompts.{
  prompt_requests_destination_creation, prompt_requests_recursive_scope,
  prompt_requests_file_listing_or_transfer, prompt_requests_content_search,
  prompt_requests_case_insensitive_search, prompt_requests_largest_files,
  prompt_requests_ranked_single_file, prompt_requests_directories_only,
  prompt_requests_delete_empty_directories, prompt_requests_recent_file_per_subdir,
  prompt_requests_git_changed_files, prompt_requests_filesystem_disk_usage,
  prompt_requests_dated_backup, prompt_requests_create_and_cd, prompt_mentions_image_files,
  prompt_mentions_markdown_files, prompt_requests_plain_listing, prompt_mentions_standard_home_dir,
  prompt_requests_compound_file_transfer,
}
use termlm.Planning.Commands.{
  command_has_content_search, command_has_case_insensitive_search, command_satisfies_largest_files,
  command_selects_ranked_single_file, command_lists_directories_only,
  command_deletes_empty_directories, command_checks_recent_file_per_subdir,
  command_checks_git_changes, command_checks_filesystem_disk_usage, command_creates_dated_backup,
  command_creates_and_enters_directory, command_has_image_filter, command_has_markdown_filter,
  command_has_copy_operation, command_has_move_operation, command_has_recursive_grep_flag,
  command_has_recursive_selection, command_mentions_requested_home_path,
}
use termlm.Planning.Transfers.{validate_compound_file_transfer_effects}
use termlm.Planning.Effects.{
  prompt_asks_count, first_effects, later_effects, validate_prompt_effects,
}
use termlm.Planning.Round.{
  text_ltb, insert_text, missing_flags, flag_findings, validate_flags, lacks_sort, draft_findings,
  validate_round,
}
use termlm.Planning.Revise.{
  replace_first_token, listed_flags, without_flags, strip_flags_from_detail,
  ensure_compound_short_flag, strip_operator, simplify_loop, simplify_ambiguous_command,
  revise_listing, revise_step, revise_loop, revise_command,
}
use termlm.Propose.Segments.{
  split_step, split_rest, split_shell_command_segments, names_loop, extract_command_names,
}
use termlm.Propose.Findings.{
  command_has_destructive_file_action, command_can_use_path_grounding, unsupported_flags_are_common,
  summarize_validation_findings, validation_findings_need_web_fallback, retain_findings,
  counted_findings,
}
use termlm.Propose.Draft.{
  Planner, Planned, finished, good, unfinished, waiting_task, ask, session_turn, refuse_floor,
  missing_commands, checks_flags, inspect,
}
use termlm.Propose.Loop.{
  count_tool_rounds, count_web_attempts, count_history, readonly_tool_round_count,
  validation_web_fallback_attempt_count, unknown_command_message, give_up, exhausted, unrevised,
  web_attempt, web_round, try_web, new_draft, try_redraft, revise_draft, report_unknown,
  redraft_or_revise, record_feedback, reject_draft, plan_round, plan_loop,
}
use termlm.Propose.Proposal.{
  CommandPlan, plan_of, first_draft, prior_of, requires_approval, risk_level, critical_match,
  proposal, proposed_task, send_proposal, conclude, propose_command_for_execution,
}
use termlm.Shell.{
  flush_token, step_bare, step, scan_loop, finish, scan_shell, before_equals, is_env_assignment,
  extract_first_significant_token, parse_command, first_significant_token, has_risky_constructs,
}
use termlm.Exposure.{exposure_for, determine_tool_exposure}
use termlm.Propose.Keeps.{Gives}
use termlm.Propose.Safe.{Safe, propose_command_for_execution-Safe}
use termlm.Propose.Rounds.{propose_command_for_execution-ends}
use termlm.Examples.Tasks.{running, wipes, settings, running-TasksOffFloor}

-- Every command is known and grounded, `sudo` is critical where it stands alone, and the stub of the model is in use.
abbrev planner : Planner
planner = record {
  is_match = wipes;
  is_critical_match = λ pattern command. eq_text pattern command;
  sanitize = λ command prompt. command;
  command_exists = λ s name. true;
  suggest_known_commands = λ s name. [];
  lookup_docs_excerpt = λ s name. [];
  build_grounding_refs = λ s prompt name command.
      (record {
        command = name;
        source = codes "docs";
        sections = [];
        extraction_method = none;
        doc_hash = none;
        extracted_at = none;
        index_version = none;
      })
      ∷ [];
  tool_response = λ command token findings suggestions round rounds. codes "{}";
  orchestrate = λ start prompt s. done false s;
  redraft = λ start s. done none s;
  stub_enabled = true;
}

abbrev start : StartTask
start = record {
  task_id = 3;
  shell_id = 7;
  mode = codes "?";
  prompt = codes "become root";
  classification = record { classification = fresh_command_request; confidence = 0 };
}

abbrev sudo : CommandPlan
sudo = record {
  cmd = codes "sudo";
  rationale = codes "provider_tool_call";
  intent = codes "become root";
  expected_effect = codes "a root shell";
  commands_used = [];
  continue_after_execution = true;
}

bare : matches_safety_floor wipes [] ≡ none
unfolding matches_safety_floor find_pattern eq_text
bare = refl

propose_command_for_execution-Safe_example :
    Leaves (Safe planner settings) (propose_command_for_execution planner 3 start true sudo running)
propose_command_for_execution-Safe_example =
    propose_command_for_execution-Safe planner settings bare (λ start prompt s h. h)
      (λ start s h. h) 3 start true sudo running (refl, running-TasksOffFloor, tt)

propose_command_for_execution-ends_example :
    Gives (λ ended. ended ≡ true) (propose_command_for_execution planner 3 start true sudo running)
propose_command_for_execution-ends_example =
    propose_command_for_execution-ends planner (inl refl) 3 start true sudo running (omega arith)

names :
    extract_command_names (codes "ls 'a;b' | wc -l && cd /tmp; ls") 8
    ≡ codes "ls" ∷ codes "wc" ∷ codes "cd" ∷ []
unfolding split_step split_rest split_shell_command_segments names_loop extract_command_names
    flush_token step_bare step scan_loop finish scan_shell before_equals is_env_assignment
    extract_first_significant_token parse_command first_significant_token has_risky_constructs
    starts_with contains ends_with eq_text trim trim_start trim_end is_whitespace to_ascii_lowercase
    split_by non_empty split_whitespace join byte_len len_utf8 is_ascii_alphabetic
    is_ascii_alphanumeric
names = refl

-- A model that gives another draft in every round, which has no grounding.
abbrev stubborn : Planner
stubborn = record planner {
  build_grounding_refs = λ s prompt name command. [];
  redraft = λ start s. done (some (history_text (lookup start.task_id s.task_conversations))) s;
  stub_enabled = false;
}
  where
    history_text : Option (List ChatMessage) → Text
    history_text none = []
    history_text (some history) = map (λ _. b'x') history

is_unfinished : Reply Planned → Bool
is_unfinished (done unfinished s) = true
is_unfinished (done finished s) = false
is_unfinished (done (good d i) s) = false
is_unfinished (failed s) = false
is_unfinished blocked = false

-- Five rounds are not enough, where the settings allow three.
five_rounds :
    is_unfinished (
      plan_loop stubborn 5
        (plan_of stubborn start true sudo running)
        (first_draft stubborn start sudo)
        running)
    ≡ true
unfolding is_unfinished has begins is_one_of prompt_contains_word command_contains_word
    is_single_dash_word_option token_flags flags_of extract_flags command_has_flag
    prompt_requests_destination_creation prompt_requests_recursive_scope
    prompt_requests_file_listing_or_transfer prompt_requests_content_search
    prompt_requests_case_insensitive_search prompt_requests_largest_files
    prompt_requests_ranked_single_file prompt_requests_directories_only
    prompt_requests_delete_empty_directories prompt_requests_recent_file_per_subdir
    prompt_requests_git_changed_files prompt_requests_filesystem_disk_usage
    prompt_requests_dated_backup prompt_requests_create_and_cd prompt_mentions_image_files
    prompt_mentions_markdown_files prompt_requests_plain_listing prompt_mentions_standard_home_dir
    prompt_requests_compound_file_transfer command_has_content_search
    command_has_case_insensitive_search command_satisfies_largest_files
    command_selects_ranked_single_file command_lists_directories_only
    command_deletes_empty_directories command_checks_recent_file_per_subdir
    command_checks_git_changes command_checks_filesystem_disk_usage command_creates_dated_backup
    command_creates_and_enters_directory command_has_image_filter command_has_markdown_filter
    command_has_copy_operation command_has_move_operation command_has_recursive_grep_flag
    command_has_recursive_selection command_mentions_requested_home_path
    validate_compound_file_transfer_effects prompt_asks_count first_effects later_effects
    validate_prompt_effects text_ltb insert_text missing_flags flag_findings validate_flags
    lacks_sort draft_findings validate_round replace_first_token listed_flags without_flags
    strip_flags_from_detail ensure_compound_short_flag strip_operator simplify_loop
    simplify_ambiguous_command revise_listing revise_step revise_loop revise_command split_step
    split_rest split_shell_command_segments names_loop extract_command_names
    command_has_destructive_file_action command_can_use_path_grounding unsupported_flags_are_common
    summarize_validation_findings validation_findings_need_web_fallback retain_findings
    counted_findings waiting_task ask session_turn refuse_floor missing_commands checks_flags
    inspect count_tool_rounds count_web_attempts count_history readonly_tool_round_count
    validation_web_fallback_attempt_count unknown_command_message give_up exhausted unrevised
    web_attempt web_round try_web new_draft try_redraft revise_draft report_unknown
    redraft_or_revise record_feedback reject_draft plan_round plan_loop prior_of requires_approval
    risk_level critical_match proposal proposed_task send_proposal conclude
    propose_command_for_execution flush_token step_bare step scan_loop finish scan_shell
    before_equals is_env_assignment extract_first_significant_token parse_command
    first_significant_token has_risky_constructs exposure_for determine_tool_exposure starts_with
    contains ends_with eq_text trim trim_start trim_end is_whitespace to_ascii_lowercase split_by
    non_empty split_whitespace join byte_len len_utf8 is_ascii_alphabetic is_ascii_alphanumeric
    matches_safety_floor find_pattern is_critical push_message with_conversations lookup insert
    remove approval_override_for_shell send
five_rounds = refl
