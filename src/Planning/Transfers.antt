-- ===== src/Planning/Transfers.antt =====
-- `validate_compound_file_transfer_effects` of crates/termlm-core/src/planning/mod.rs.
use termlm.Base.{Bool, not, ◌&&◌, ◌||◌, List, [], ◌∷◌, ◌++◌, String, if◌then◌else◌}
use termlm.Base.Text.{Text}
use termlm.Planning.Words.{
  ValidationFinding, finding, has, prompt_contains_word, command_contains_word,
}
use termlm.Planning.Prompts.{
  prompt_requests_destination_creation, prompt_requests_recursive_scope,
  prompt_mentions_standard_home_dir,
}
use termlm.Planning.Commands.{
  command_has_copy_operation, command_has_move_operation, command_has_recursive_selection,
  command_mentions_requested_home_path,
}

-- `findings.push(..)` under a condition
abbrev pub when : Bool → ValidationFinding → List ValidationFinding
when condition f = if condition then f ∷ [] else []

-- the kind of most findings
abbrev pub insufficient : String → ValidationFinding
insufficient detail = finding "insufficient_for_prompt" detail

unfoldable pub validate_compound_file_transfer_effects : Text → Text → List ValidationFinding
validate_compound_file_transfer_effects command prompt =
    let wants_copy =
      prompt_contains_word prompt "copy" || prompt_contains_word prompt "duplicate" in
    let wants_move = prompt_contains_word prompt "move" || prompt_contains_word prompt "rename" in
    let wants_created_destination = prompt_requests_destination_creation prompt in
    let wants_recursive = prompt_requests_recursive_scope prompt in
    let null_safe = has command "-print0" && has command "xargs -0" in
    when (wants_created_destination && not (command_contains_word command "mkdir"))
      (insufficient "compound request creates a destination folder but draft has no mkdir step")
    ++ (when
          (wants_created_destination
            && command_contains_word command "mkdir"
            && (wants_copy || wants_move)
            && not (has command "&&"))
          (insufficient "destination creation should be chained before the transfer with &&")
        ++ (when (wants_copy && not (command_has_copy_operation command))
              (insufficient "compound copy request has no copy operation")
            ++ (when (wants_move && not (command_has_move_operation command))
                  (insufficient "compound move request has no move operation")
                ++ (when (wants_recursive && not (command_has_recursive_selection command)) (
                      insufficient "recursive request has no recursive traversal or selection step")
                    ++ (when
                          (has prompt "file" && has command "find " && not (has command "-type f"))
                          (insufficient
                            "file transfer should select regular files, not directories")
                        ++ (when
                              (has command "find "
                                && has command "xargs"
                                && not null_safe
                                && not (has command "-exec "))
                              (insufficient
                                "find-to-xargs transfer should be null-delimited or use -exec")
                            ++ when
                                (prompt_mentions_standard_home_dir prompt
                                  && not (command_mentions_requested_home_path command prompt))
                                (insufficient
                                  "draft does not mention the requested standard home folder")))))))
