-- ===== src/Clarify/Answers.antt =====
-- The prompts that are answered in words: `prompt_prefers_direct_answer` of
-- crates/termlm-core/src/tasks/mod.rs.
use termlm.Base.{Bool, true, false, ◌||◌, List, [], ◌∷◌, ◌++◌, String, if◌then◌else◌, any}
use termlm.Base.Text.{
  Text, codes, contains, ends_with, eq_text, is_empty, starts_with, trim, to_ascii_lowercase,
}
use termlm.Daemon.{
  TaskClassification, fresh_command_request, referential_followup, diagnostic_debugging,
  documentation_question, web_current_info_question, exploratory_shell_question,
}

abbrev action_verbs : List String
action_verbs =
    "list" ∷ "show" ∷ "print" ∷ "find" ∷ "search" ∷ "create" ∷ "make" ∷ "delete" ∷ "remove" ∷ "copy"
    ∷ "move" ∷ "rename" ∷ "open" ∷ "run" ∷ "execute" ∷ "install" ∷ "uninstall" ∷ "upgrade"
    ∷ "compress" ∷ "archive" ∷ "extract" ∷ "replace" ∷ "change" ∷ "edit" ∷ []

-- the verb between two texts at the start
abbrev asks : Text → String → String → Bool
asks p before verb = starts_with p (codes before ++ (codes verb ++ codes " "))

unfoldable pub prompt_requests_shell_action : Text → Bool
prompt_requests_shell_action p =
    any (λ verb. eq_text p (codes verb) || asks p "" verb) action_verbs
    || any
        (λ verb.
          asks p "please " verb
          || asks p "can you " verb
          || asks p "could you " verb
          || asks p "i want you to " verb)
        action_verbs

unfoldable pub prefers_words : TaskClassification → Bool
prefers_words fresh_command_request = false
prefers_words referential_followup = false
prefers_words diagnostic_debugging = true
prefers_words documentation_question = true
prefers_words web_current_info_question = true
prefers_words exploratory_shell_question = false

unfoldable pub prompt_prefers_direct_answer : Text → TaskClassification → Bool
prompt_prefers_direct_answer prompt classification =
    let trimmed = trim prompt in
    let p = to_ascii_lowercase trimmed in
    if is_empty p
    then false
    else if prompt_requests_shell_action p
    then false
    else if prefers_words classification
    then true
    else any (λ prefix. starts_with p (codes prefix))
        ("what " ∷ "what's " ∷ "whats " ∷ "why " ∷ "how " ∷ "where " ∷ "which " ∷ "should "
          ∷ "can i " ∷ "is " ∷ "are " ∷ "does " ∷ "do " ∷ [])
      || ends_with trimmed (codes "?")
      || any (λ needle. contains p (codes needle))
          ("what command" ∷ "which command" ∷ "best way" ∷ "recommend" ∷ "what version"
            ∷ "where am i" ∷ "what directory" ∷ "how many" ∷ "how much" ∷ [])
