-- ===== src/Planning/Effective.antt =====
-- The demands of a prompt on the effects of a draft that passes without a finding.
use termlm.Base.{
  Bool, true, false, not, ◌&&◌, ◌||◌, List, [], ◌∷◌, ◌++◌, ◌≡◌, refl, arith, All, All-append,
  if◌then◌else◌,
}
use termlm.Base.Text.{Text, to_ascii_lowercase}
use termlm.Planning.Words.{ValidationFinding, has, begins}
use termlm.Planning.Prompts.{
  prompt_requests_recursive_scope, prompt_requests_file_listing_or_transfer,
  prompt_requests_content_search, prompt_requests_case_insensitive_search,
  prompt_requests_largest_files, prompt_requests_ranked_single_file,
  prompt_requests_directories_only, prompt_requests_delete_empty_directories,
  prompt_requests_recent_file_per_subdir, prompt_requests_git_changed_files,
  prompt_requests_filesystem_disk_usage, prompt_requests_dated_backup,
  prompt_requests_create_and_cd, prompt_mentions_image_files, prompt_mentions_markdown_files,
  prompt_requests_plain_listing, prompt_requests_compound_file_transfer,
}
use termlm.Planning.Commands.{
  command_has_content_search, command_has_case_insensitive_search, command_satisfies_largest_files,
  command_selects_ranked_single_file, command_lists_directories_only,
  command_deletes_empty_directories, command_checks_recent_file_per_subdir,
  command_checks_git_changes, command_checks_filesystem_disk_usage, command_creates_dated_backup,
  command_creates_and_enters_directory, command_has_image_filter, command_has_markdown_filter,
  command_has_recursive_selection,
}
use termlm.Planning.Transfers.{when, insufficient, validate_compound_file_transfer_effects}
use termlm.Planning.Effects.{
  prompt_asks_count, first_effects, later_effects, validate_prompt_effects,
}

pub when-[] :
    (b : Bool) (f : ValidationFinding) (rest : List ValidationFinding)
    → (when b f ++ rest) ≡ []
    → (b ≡ false) × (rest ≡ [])
when-[] true f rest h = cc
when-[] false f rest h = (refl, h)

pub append-[] : (xs ys : List ValidationFinding) → (xs ++ ys) ≡ [] → (xs ≡ []) × (ys ≡ [])
append-[] [] ys h = (refl, h)
append-[] (x ∷ xs) ys h = cc

-- a demand that is not made, or that the draft meets
abbrev pub Meets : Bool × Bool → Type 0
Meets demand = (not demand.0 || demand.1) ≡ true

-- What a prompt may demand of a draft, with what meets it: both in lower case, but for the
-- largest files, whose draft is read as it is. First come the demands on one kind of command.
abbrev first_demands : Text → Text → Text → List (Bool × Bool)
first_demands command p c =
    (
      prompt_requests_plain_listing p,
      not (has c " | grep ")
          && not (has c " | awk ")
          && not (has c " | sed ")
          && not (has c " | xargs ")
          && not (begins c "find " && has c "-type f"),
    )
    ∷ (prompt_requests_largest_files p, command_satisfies_largest_files command p)
    ∷ (prompt_requests_ranked_single_file p, command_selects_ranked_single_file c p)
    ∷ (prompt_requests_directories_only p, command_lists_directories_only c)
    ∷ (prompt_requests_delete_empty_directories p, command_deletes_empty_directories c)
    ∷ (prompt_requests_recent_file_per_subdir p, command_checks_recent_file_per_subdir c)
    ∷ (prompt_requests_git_changed_files p, command_checks_git_changes c)
    ∷ (prompt_requests_filesystem_disk_usage p, command_checks_filesystem_disk_usage c)
    ∷ (prompt_requests_dated_backup p, command_creates_dated_backup c)
    ∷ (prompt_requests_create_and_cd p, command_creates_and_enters_directory c)
    ∷ []

abbrev later_demands : Text → Text → List (Bool × Bool)
later_demands p c =
    let asks_images = prompt_mentions_image_files p && prompt_requests_file_listing_or_transfer p in
    let asks_markdown =
      prompt_mentions_markdown_files p && prompt_requests_file_listing_or_transfer p in
    (prompt_asks_count p, has c "wc -l")
    ∷ (
      prompt_asks_count p,
      (begins c "find " && has c "-type f")
          || (has c " | grep " && (has c "grep -v '/$'" || has c "grep -v \"/$\"")),
    )
    ∷ (prompt_requests_content_search p, command_has_content_search c)
    ∷ (
      prompt_requests_content_search p && prompt_requests_case_insensitive_search p,
      command_has_case_insensitive_search c,
    )
    ∷ (asks_images, command_has_image_filter c)
    ∷ (asks_images, not (begins c "find ") || has c "-type f")
    ∷ (asks_markdown, command_has_markdown_filter c)
    ∷ (asks_markdown, not (begins c "find ") || has c "-type f")
    ∷ (
      prompt_requests_recursive_scope p && prompt_requests_file_listing_or_transfer p,
      command_has_recursive_selection c,
    )
    ∷ []

abbrev pub demands : Text → Text → List (Bool × Bool)
demands prompt command =
    let p = to_ascii_lowercase prompt in
    let c = to_ascii_lowercase command in first_demands command p c ++ later_demands p c

-- one test
met : (asked done : Bool) → (asked && not done) ≡ false → (not asked || done) ≡ true
met asked done h = ground arith

met_both :
    (asked also done : Bool)
    → (asked && also && not done) ≡ false
    → (not (asked && also) || done) ≡ true
met_both asked also done h = ground arith

met_either : (asked a b : Bool) → (asked && not a && not b) ≡ false → (not asked || (a || b)) ≡ true
met_either asked a b h = ground arith

met_under : (asked a b : Bool) → (asked && a && not b) ≡ false → (not asked || (not a || b)) ≡ true
met_under asked a b h = ground arith

met_none :
    (asked a b c d e : Bool)
    → (asked && (a || b || c || d || e)) ≡ false
    → (not asked || (not a && not b && not c && not d && not e)) ≡ true
met_none asked a b c d e h = ground arith

first_effects-Meets :
    (command p c : Text) → first_effects command p c ≡ [] → All Meets (first_demands command p c)
unfolding first_effects
first_effects-Meets command p c h0 =
    let (plain, plain_rest) =
      when-[] _
        (insufficient
          "plain listing request should not add filtering, recursion, or transformation")
        _ h0 in
    let (largest, largest_rest) =
      when-[] _
        (insufficient
          "largest-file request needs size sorting or filtering and should limit results when a count is requested")
        _ plain_rest in
    let (ranked, ranked_rest) =
      when-[] _
        (insufficient
          "oldest/newest-file request should select one regular file path using mtime sorting, not dump a directory listing")
        _ largest_rest in
    let (directories, directories_rest) =
      when-[] _
        (insufficient "directories-only request must select directories rather than all entries") _
        ranked_rest in
    let (empty, empty_rest) =
      when-[] _
        (insufficient
          "empty-directory deletion request must find empty directories and delete/rmdir them")
        _ directories_rest in
    let (recent, recent_rest) =
      when-[] _
        (insufficient
          "per-subdirectory newest-file request needs per-directory traversal and modification-time sorting")
        _ empty_rest in
    let (changed, changed_rest) =
      when-[] _ (insufficient "git changed-files request should use git status or git diff") _
        recent_rest in
    let (disk, disk_rest) =
      when-[] _
        (insufficient "filesystem disk-usage request should use df, not a directory listing") _
        changed_rest in
    let (backup, backup_rest) =
      when-[] _
        (insufficient
          "dated backup request should create a backup/archive and include today's date")
        _ disk_rest in
    let enter =
      when_last _
        (insufficient "create-and-cd request must both create the directory and cd into it")
        backup_rest in
    (
      met_none _ _ _ _ _ _ plain,
      (
        met _ _ largest,
        (
          met _ _ ranked,
          (
            met _ _ directories,
            (
              met _ _ empty,
              (
                met _ _ recent,
                (met _ _ changed, (met _ _ disk, (met _ _ backup, (met _ _ enter, tt)))),
              ),
            ),
          ),
        ),
      ),
    )
  where
    when_last : (b : Bool) (f : ValidationFinding) → when b f ≡ [] → b ≡ false
    when_last true f h = cc
    when_last false f h = refl

later_effects-Meets : (p c : Text) → later_effects p c ≡ [] → All Meets (later_demands p c)
unfolding later_effects
later_effects-Meets p c h0 =
    let (counted, counted_rest) =
      when-[] _ (insufficient "file-count request needs a count-producing command such as wc -l") _
        h0 in
    let (counts_files, counts_files_rest) =
      when-[] _
        (insufficient "file-count request must count regular files, not directories or all entries")
        _ counted_rest in
    let (searched, searched_rest) =
      when-[] _
        (insufficient "text-search request needs a content-search command such as grep or rg") _
        counts_files_rest in
    let (ignores_case, ignores_case_rest) =
      when-[] _ (insufficient "case-insensitive text search needs an ignore-case flag") _
        searched_rest in
    let (images, images_rest) =
      when-[] _ (insufficient "image-file request needs an image extension filter") _
        ignores_case_rest in
    let (image_files, image_files_rest) =
      when-[] _ (insufficient "image-file request must restrict results to regular files") _
        images_rest in
    let (markdown, markdown_rest) =
      when-[] _ (insufficient "Markdown-file request needs a .md or .markdown filter") _
        image_files_rest in
    let (markdown_files, markdown_files_rest) =
      when-[] _ (insufficient "Markdown-file request must restrict results to regular files") _
        markdown_rest in
    let (recursive, _) =
      when-[] _ (insufficient "recursive request has no recursive traversal or selection step")
        (if prompt_requests_compound_file_transfer p
          then validate_compound_file_transfer_effects c p
          else [])
        markdown_files_rest in
    (
      met _ _ counted,
      (
        met_either _ _ _ counts_files,
        (
          met _ _ searched,
          (
            met_both (prompt_requests_content_search p) (prompt_requests_case_insensitive_search p)
                _ ignores_case,
            (
              met _ _ images,
              (
                met_under _ (begins c "find ") (has c "-type f") image_files,
                (
                  met _ _ markdown,
                  (
                    met_under _ (begins c "find ") (has c "-type f") markdown_files,
                    (
                      met_both (prompt_requests_recursive_scope p)
                          (prompt_requests_file_listing_or_transfer p) _ recursive,
                      tt,
                    ),
                  ),
                ),
              ),
            ),
          ),
        ),
      ),
    )

pub effects-Meets :
    (command prompt : Text)
    → validate_prompt_effects command prompt ≡ []
    → All Meets (demands prompt command)
unfolding validate_prompt_effects
effects-Meets command prompt h =
    let p = to_ascii_lowercase prompt in
    let c = to_ascii_lowercase command in
    let (first, later) = append-[] (first_effects command p c) (later_effects p c) h in
    All-append Meets (first_demands command p c) (later_demands p c)
      (first_effects-Meets command p c first) (later_effects-Meets p c later)
