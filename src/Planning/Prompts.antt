-- ===== src/Planning/Prompts.antt =====
-- What a prompt asks for: the tests `prompt_...` of crates/termlm-core/src/planning/mod.rs. They
-- stand on the lower-cased prompt.
use termlm.Base.{Bool, false, not, ◌&&◌, ◌||◌, [], ◌∷◌, if◌then◌else◌, any}
use termlm.Base.Text.{Text}
use termlm.Planning.Words.{has, prompt_contains_word}

unfoldable pub prompt_requests_destination_creation : Text → Bool
prompt_requests_destination_creation prompt =
    let mentions_folder : Bool =
      prompt_contains_word prompt "folder"
      || prompt_contains_word prompt "folders"
      || prompt_contains_word prompt "directory"
      || prompt_contains_word prompt "directories" in
    if not mentions_folder
    then false
    else any (λ needle. has prompt needle)
        ("new folder" ∷ "new directory" ∷ "folder named" ∷ "folder called" ∷ "directory named"
          ∷ "directory called" ∷ "folder on" ∷ "directory on" ∷ "into a folder" ∷ "into the folder"
          ∷ "into a directory" ∷ "into the directory" ∷ [])
      || (prompt_contains_word prompt "create" || prompt_contains_word prompt "make")
        && (has prompt " named " || has prompt " called ")

unfoldable pub prompt_requests_recursive_scope : Text → Bool
prompt_requests_recursive_scope prompt =
    has prompt "recursive"
    || has prompt "recursively"
    || has prompt "subfolder"
    || has prompt "subdirectories"
    || has prompt "subdirector"
    || has prompt "under"

unfoldable pub prompt_requests_file_listing_or_transfer : Text → Bool
prompt_requests_file_listing_or_transfer prompt =
    has prompt "list"
    || has prompt "show"
    || has prompt "find"
    || has prompt "search"
    || has prompt "copy"
    || has prompt "move"
    || has prompt "open"

unfoldable pub prompt_requests_content_search : Text → Bool
prompt_requests_content_search prompt =
    if has prompt "search web"
      || has prompt "search the web"
      || has prompt "web search"
      || has prompt "internet"
      || has prompt "online"
    then false
    else if (prompt_contains_word prompt "directory"
          || prompt_contains_word prompt "directories"
          || prompt_contains_word prompt "folder"
          || prompt_contains_word prompt "folders")
        && has prompt "containing"
        && not (
            has prompt "content" || has prompt "contents" || has prompt "text" || has prompt "todo")
    then false
    else if not (
        has prompt "search"
        || has prompt "grep"
        || has prompt "matches"
        || has prompt "containing"
        || has prompt "contains")
    then false
    else if has prompt "file named"
        || has prompt "files named"
        || has prompt "filename"
        || has prompt "file name"
        || has prompt "named "
        || has prompt "called "
    then false
    else has prompt " for "
      || has prompt "todo"
      || has prompt "text"
      || has prompt "phrase"
      || has prompt "contents"
      || has prompt "content"
      || has prompt "case insensitive"
      || has prompt "case-insensitive"

unfoldable pub prompt_requests_case_insensitive_search : Text → Bool
prompt_requests_case_insensitive_search prompt =
    has prompt "case insensitive" || has prompt "case-insensitive"

unfoldable pub prompt_requests_largest_files : Text → Bool
prompt_requests_largest_files prompt = has prompt "largest" && has prompt "file"

unfoldable pub prompt_requests_ranked_single_file : Text → Bool
prompt_requests_ranked_single_file prompt =
    (has prompt "oldest" || has prompt "newest" || has prompt "most recent")
    && prompt_contains_word prompt "file"
    && not (has prompt "subdirectories")
    && not (has prompt "subdirectory")

unfoldable pub prompt_requests_directories_only : Text → Bool
prompt_requests_directories_only prompt =
    (has prompt "only directories"
      || has prompt "directories, not files"
      || has prompt "directories not files"
      || has prompt "folders, not files"
      || has prompt "folders not files")
    && (has prompt "show" || has prompt "list" || has prompt "find")

unfoldable pub prompt_requests_delete_empty_directories : Text → Bool
prompt_requests_delete_empty_directories prompt =
    (has prompt "empty directory" || has prompt "empty directories")
    && (prompt_contains_word prompt "delete"
        || prompt_contains_word prompt "remove"
        || prompt_contains_word prompt "rmdir")

unfoldable pub prompt_requests_recent_file_per_subdir : Text → Bool
prompt_requests_recent_file_per_subdir prompt =
    has prompt "most recently modified file"
    && (has prompt "subdirectory" || has prompt "subdirectories")

unfoldable pub prompt_requests_git_changed_files : Text → Bool
prompt_requests_git_changed_files prompt =
    has prompt "file"
    && (has prompt "changed since the last commit"
        || has prompt "since the last commit"
        || has prompt "changed files"
        || has prompt "what files i've changed"
        || has prompt "what files i have changed")

unfoldable pub prompt_requests_filesystem_disk_usage : Text → Bool
prompt_requests_filesystem_disk_usage prompt =
    has prompt "disk usage by filesystem" || has prompt "disk space free"

unfoldable pub prompt_requests_dated_backup : Text → Bool
prompt_requests_dated_backup prompt =
    has prompt "backup"
    && (has prompt "folder" || has prompt "directory")
    && (has prompt "today" || has prompt "date")

unfoldable pub prompt_requests_create_and_cd : Text → Bool
prompt_requests_create_and_cd prompt =
    (has prompt "cd into"
      || has prompt "change into"
      || has prompt "enter it"
      || has prompt "go into")
    && (has prompt "directory" || has prompt "folder")

unfoldable pub prompt_mentions_image_files : Text → Bool
prompt_mentions_image_files prompt =
    has prompt "image" || has prompt "photo" || has prompt "picture"

unfoldable pub prompt_mentions_markdown_files : Text → Bool
prompt_mentions_markdown_files prompt = has prompt "markdown" || has prompt ".md"

unfoldable pub prompt_requests_plain_listing : Text → Bool
prompt_requests_plain_listing prompt =
    if not (has prompt "list" || has prompt "show")
    then false
    else if not (
        has prompt "files"
        || has prompt "contents"
        || has prompt "everything"
        || has prompt "entries")
    then false
    else not (
        any (λ needle. has prompt needle)
          ("not directories" ∷ "not files" ∷ "no directories" ∷ "no files" ∷ "exclude directories"
            ∷ "exclude files" ∷ "without directories" ∷ "without files" ∷ "only directories"
            ∷ "directories only" ∷ "directory only" ∷ "files only" ∷ "only files" ∷ "recursive"
            ∷ "subfolder" ∷ "subdirectories" ∷ "image" ∷ "photo" ∷ "picture" ∷ "markdown" ∷ ".md"
            ∷ "count" ∷ "how many" ∷ "oldest" ∷ "newest" ∷ "recent" ∷ "open" ∷ "copy" ∷ "move"
            ∷ "largest" ∷ "biggest" ∷ "larger" ∷ "smaller" ∷ "modified" ∷ "created" ∷ "sort"
            ∷ "by size" ∷ []))

unfoldable pub prompt_mentions_standard_home_dir : Text → Bool
prompt_mentions_standard_home_dir prompt =
    has prompt "download"
    || has prompt "desktop"
    || has prompt "document"
    || has prompt "picture"
    || has prompt "movie"
    || has prompt "music"

unfoldable pub prompt_requests_compound_file_transfer : Text → Bool
prompt_requests_compound_file_transfer prompt =
    (prompt_contains_word prompt "copy"
      || prompt_contains_word prompt "duplicate"
      || prompt_contains_word prompt "move"
      || prompt_contains_word prompt "rename")
    && (prompt_requests_destination_creation prompt
        || prompt_requests_recursive_scope prompt
        || has prompt "subfolder"
        || has prompt "subdirector")
