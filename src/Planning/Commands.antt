-- ===== src/Planning/Commands.antt =====
-- What a draft does: the tests `command_...` of crates/termlm-core/src/planning/mod.rs.
use termlm.Base.{Bool, true, false, not, ◌&&◌, ◌||◌, [], ◌∷◌, if◌then◌else◌, any, drop}
use termlm.Base.Text.{Text, codes, eq_text, contains_char, split_whitespace}
use termlm.Planning.Words.{has, begins, is_one_of, command_contains_word, command_has_flag}

unfoldable pub command_has_content_search : Text → Bool
command_has_content_search command =
    command_contains_word command "grep"
    || command_contains_word command "rg"
    || command_contains_word command "ag"
    || command_contains_word command "ack"
    || has command "git grep"

unfoldable pub command_has_case_insensitive_search : Text → Bool
command_has_case_insensitive_search command =
    any
      (λ token.
        eq_text token (codes "--ignore-case")
        || (begins token "-" && not (begins token "--") && contains_char (drop 1 token) b'i'))
      (split_whitespace command)

unfoldable pub command_satisfies_largest_files : Text → Text → Bool
command_satisfies_largest_files command prompt =
    let wants_files = has prompt "file" in
    let file_only =
      not wants_files
      || has command "-type f"
      || has command "*(.)"
      || has command "grep -v /"
      || has command "grep -v '/'" in
    let ls_ranks_files =
      command_contains_word command "ls" && command_has_flag command b'S' "" && file_only in
    let du_ranks_files =
      command_contains_word command "du" && command_contains_word command "sort" && file_only in
    let has_size_sort =
      ls_ranks_files
      || (du_ranks_files && (not wants_files || has command "-type f"))
      || (command_contains_word command "find" && has command "-size")
      || (command_contains_word command "find"
          && has command "stat"
          && has command "%z"
          && command_contains_word command "sort") in
    if not has_size_sort
    then false
    else if has prompt " 3 largest"
        || has prompt " three largest"
        || has prompt " 10 largest"
        || has prompt " ten largest"
        || has prompt "top "
    then command_contains_word command "head" || has command "-n 3" || has command "-n 10"
    else true

unfoldable pub command_selects_ranked_single_file : Text → Text → Bool
command_selects_ranked_single_file command prompt =
    command_contains_word command "find"
    && has command "-type f"
    && has command "stat -f"
    && has command "%m"
    && has command (if has prompt "oldest" then "sort -n" else "sort -nr")
    && has command "head -n 1"
    && has command "cut "
    && has command "-f2-"

unfoldable pub command_lists_directories_only : Text → Bool
command_lists_directories_only command =
    command_contains_word command "find" && has command "-type d"
    || command_contains_word command "ls" && command_has_flag command b'd' "" && has command "*/"

unfoldable pub command_deletes_empty_directories : Text → Bool
command_deletes_empty_directories command =
    command_contains_word command "find"
    && has command "-type d"
    && has command "-empty"
    && (has command "-delete"
        || command_contains_word command "rmdir"
        || command_contains_word command "rm")

unfoldable pub command_checks_recent_file_per_subdir : Text → Bool
command_checks_recent_file_per_subdir command =
    command_contains_word command "for" && command_contains_word command "head"
    || command_contains_word command "find"
      && (command_contains_word command "sort" || command_contains_word command "stat")
    || command_contains_word command "ls"
      && command_has_flag command b't' ""
      && command_contains_word command "head"

unfoldable pub command_checks_git_changes : Text → Bool
command_checks_git_changes command =
    command_contains_word command "git"
    && (command_contains_word command "status" || command_contains_word command "diff")

unfoldable pub command_checks_filesystem_disk_usage : Text → Bool
command_checks_filesystem_disk_usage command = command_contains_word command "df"

unfoldable pub command_creates_dated_backup : Text → Bool
command_creates_dated_backup command =
    (command_contains_word command "tar"
      || command_contains_word command "cp"
      || command_contains_word command "ditto")
    && (has command "date" || has command "$(date")

unfoldable pub command_creates_and_enters_directory : Text → Bool
command_creates_and_enters_directory command =
    command_contains_word command "mkdir" && command_contains_word command "cd"
    || command_contains_word command "mkcd"

unfoldable pub command_has_image_filter : Text → Bool
command_has_image_filter command =
    any (λ ext. has command ext)
      ("jpg" ∷ "jpeg" ∷ "png" ∷ "gif" ∷ "webp" ∷ "heic" ∷ "tif" ∷ "tiff" ∷ "bmp" ∷ [])

unfoldable pub command_has_markdown_filter : Text → Bool
command_has_markdown_filter command = has command ".md" || has command ".markdown"

unfoldable pub command_has_copy_operation : Text → Bool
command_has_copy_operation command =
    command_contains_word command "cp"
    || command_contains_word command "rsync"
    || command_contains_word command "ditto"

unfoldable pub command_has_move_operation : Text → Bool
command_has_move_operation command =
    command_contains_word command "mv" || has command "--remove-source-files"

unfoldable pub command_has_recursive_grep_flag : Text → Bool
command_has_recursive_grep_flag command =
    any
      (λ token.
        is_one_of ("-R" ∷ "-r" ∷ "--recursive" ∷ []) token
        || (begins token "-"
            && not (begins token "--")
            && (contains_char (drop 1 token) b'R' || contains_char (drop 1 token) b'r')))
      (split_whitespace command)

unfoldable pub command_has_recursive_selection : Text → Bool
command_has_recursive_selection command =
    command_contains_word command "find" && not (has command "-maxdepth 1")
    || has command "**"
    || command_contains_word command "rsync"
    || command_contains_word command "rg"
    || command_contains_word command "grep" && command_has_recursive_grep_flag command
    || has command " -R "
    || has command " -r "

-- the first folder that the prompt names, under `$home` or `~`
unfoldable pub command_mentions_requested_home_path : Text → Text → Bool
command_mentions_requested_home_path command prompt =
    if has prompt "download"
    then has command "$home/downloads" || has command "~/downloads"
    else if has prompt "desktop"
    then has command "$home/desktop" || has command "~/desktop"
    else if has prompt "document"
    then has command "$home/documents" || has command "~/documents"
    else if has prompt "picture"
    then has command "$home/pictures" || has command "~/pictures"
    else if has prompt "movie"
    then has command "$home/movies" || has command "~/movies"
    else if has prompt "music"
    then has command "$home/music" || has command "~/music"
    else true
