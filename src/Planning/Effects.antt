-- ===== src/Planning/Effects.antt =====
-- `validate_prompt_effects` of crates/termlm-core/src/planning/mod.rs: whether a draft does what its
-- prompt asks for. Its tests are in two groups, in the order of the source.
use termlm.Base.{Bool, not, ◌&&◌, ◌||◌, List, [], ◌++◌, if◌then◌else◌}
use termlm.Base.Text.{Text, to_ascii_lowercase}
use termlm.Planning.Words.{ValidationFinding, has, begins}
use termlm.Planning.Prompts.{
  prompt_requests_recursive_scope, prompt_requests_file_listing_or_transfer,
  prompt_requests_content_search, prompt_requests_case_insensitive_search,
  prompt_requests_largest_files, prompt_requests_ranked_single_file,
  prompt_requests_directories_only, prompt_requests_delete_empty_directories,
  prompt_requests_recent_file_per_subdir, prompt_requests_git_changed_files,
  prompt_requests_filesystem_disk_usage, prompt_requests_dated_backup,
  prompt_requests_create_and_cd, prompt_mentions_image_files, prompt_mentions_markdown_files,
  prompt_requests_plain_listing, prompt_requests_compound_file_transfer,
}
use termlm.Planning.Commands.{
  command_has_content_search, command_has_case_insensitive_search, command_satisfies_largest_files,
  command_selects_ranked_single_file, command_lists_directories_only,
  command_deletes_empty_directories, command_checks_recent_file_per_subdir,
  command_checks_git_changes, command_checks_filesystem_disk_usage, command_creates_dated_backup,
  command_creates_and_enters_directory, command_has_image_filter, command_has_markdown_filter,
  command_has_recursive_selection,
}
use termlm.Planning.Transfers.{when, insufficient, validate_compound_file_transfer_effects}

unfoldable pub prompt_asks_count : Text → Bool
prompt_asks_count p = (has p "how many" || has p "count") && has p "file"

unfoldable pub first_effects : Text → Text → Text → List ValidationFinding
first_effects command p c =
    when
      (prompt_requests_plain_listing p
        && (has c " | grep "
            || has c " | awk "
            || has c " | sed "
            || has c " | xargs "
            || (begins c "find " && has c "-type f")))
      (insufficient "plain listing request should not add filtering, recursion, or transformation")
    ++ (when (prompt_requests_largest_files p && not (command_satisfies_largest_files command p)) (
          insufficient
            "largest-file request needs size sorting or filtering and should limit results when a count is requested")
        ++ (when
              (prompt_requests_ranked_single_file p && not (command_selects_ranked_single_file c p))
              (insufficient
                "oldest/newest-file request should select one regular file path using mtime sorting, not dump a directory listing")
            ++ (when (prompt_requests_directories_only p && not (command_lists_directories_only c))
                  (insufficient
                    "directories-only request must select directories rather than all entries")
                ++ (when
                      (prompt_requests_delete_empty_directories p
                        && not (command_deletes_empty_directories c))
                      (insufficient
                        "empty-directory deletion request must find empty directories and delete/rmdir them")
                    ++ (when
                          (prompt_requests_recent_file_per_subdir p
                            && not (command_checks_recent_file_per_subdir c))
                          (insufficient
                            "per-subdirectory newest-file request needs per-directory traversal and modification-time sorting")
                        ++ (when
                              (prompt_requests_git_changed_files p
                                && not (command_checks_git_changes c))
                              (insufficient
                                "git changed-files request should use git status or git diff")
                            ++ (when
                                  (prompt_requests_filesystem_disk_usage p
                                    && not (command_checks_filesystem_disk_usage c))
                                  (insufficient
                                    "filesystem disk-usage request should use df, not a directory listing")
                                ++ (when
                                      (prompt_requests_dated_backup p
                                        && not (command_creates_dated_backup c))
                                      (insufficient
                                        "dated backup request should create a backup/archive and include today's date")
                                    ++ (when
                                        (prompt_requests_create_and_cd p
                                          && not (command_creates_and_enters_directory c))
                                        (insufficient
                                          "create-and-cd request must both create the directory and cd into it"))))))))))

unfoldable pub later_effects : Text → Text → List ValidationFinding
later_effects p c =
    let lists_images =
      prompt_mentions_image_files p && prompt_requests_file_listing_or_transfer p in
    let lists_markdown =
      prompt_mentions_markdown_files p && prompt_requests_file_listing_or_transfer p in
    when (prompt_asks_count p && not (has c "wc -l"))
      (insufficient "file-count request needs a count-producing command such as wc -l")
    ++ (when
          (prompt_asks_count p
            && not (begins c "find " && has c "-type f")
            && not (has c " | grep " && (has c "grep -v '/$'" || has c "grep -v \"/$\"")))
          (insufficient
            "file-count request must count regular files, not directories or all entries")
        ++ (when (prompt_requests_content_search p && not (command_has_content_search c))
              (insufficient "text-search request needs a content-search command such as grep or rg")
            ++ (when
                  (prompt_requests_content_search p
                    && prompt_requests_case_insensitive_search p
                    && not (command_has_case_insensitive_search c))
                  (insufficient "case-insensitive text search needs an ignore-case flag")
                ++ (when (lists_images && not (command_has_image_filter c))
                      (insufficient "image-file request needs an image extension filter")
                    ++ (when (lists_images && begins c "find " && not (has c "-type f"))
                          (insufficient "image-file request must restrict results to regular files")
                        ++ (when (lists_markdown && not (command_has_markdown_filter c))
                              (insufficient "Markdown-file request needs a .md or .markdown filter")
                            ++ (when (lists_markdown && begins c "find " && not (has c "-type f")) (
                                  insufficient
                                    "Markdown-file request must restrict results to regular files")
                                ++ (when
                                      (prompt_requests_recursive_scope p
                                        && prompt_requests_file_listing_or_transfer p
                                        && not (command_has_recursive_selection c))
                                      (insufficient
                                        "recursive request has no recursive traversal or selection step")
                                    ++ (if prompt_requests_compound_file_transfer p
                                        then validate_compound_file_transfer_effects c p
                                        else [])))))))))

unfoldable pub validate_prompt_effects : Text → Text → List ValidationFinding
validate_prompt_effects command prompt =
    let p = to_ascii_lowercase prompt in
    let c = to_ascii_lowercase command in first_effects command p c ++ later_effects p c
