-- ===== src/Examples/Session.antt =====
-- A conversation that is trimmed.
use termlm.Base.{◌*◌, ◌-◌, ◌≤◌, ◌<◌, [], ◌∷◌, ◌++◌, ◌≡◌, ◌⊎◌, refl, take, length, arith}
use termlm.Base.Text.{Text, codes}
use termlm.Shell.{usize_max}
use termlm.Session.{
  estimate_tokens, trim_to_tokens, ellipsis, SessionConversation, trim_session_conversation,
}
use termlm.Session.Trim.{
  Keeps, conversation_tokens, trim_session_conversation-Keeps, char_limit, trim_to_tokens_fits,
}

abbrev talk : SessionConversation
talk = record {
  system_prompt = codes "Be brief.";
  turns =
      record { user = codes "list the files here"; assistant = codes "ls" }
      ∷ record { user = codes "and count them please"; assistant = codes "ls | wc -l" }
      ∷ [];
}

talk-counted : conversation_tokens talk ≤ usize_max
unfolding estimate_tokens
talk-counted = omega arith

dropped_first : length (trim_session_conversation talk 10).turns ≡ 1
unfolding trim_session_conversation estimate_tokens
dropped_first = refl

trim_session_conversation-Keeps_example :
    ((trim_session_conversation talk 10).system_prompt ≡ talk.system_prompt)
    × Keeps
        (estimate_tokens talk.system_prompt)
        10
        talk.turns
        (trim_session_conversation talk 10).turns
trim_session_conversation-Keeps_example = trim_session_conversation-Keeps talk 10 talk-counted

abbrev long_text : Text
long_text = codes "a text that is cut"

trim_to_tokens_fits_example :
    (estimate_tokens (trim_to_tokens long_text 2) ≤ 2)
    × (length (trim_to_tokens long_text 2) ≤ 2 * 4)
    × (((length long_text ≤ char_limit 2) × (trim_to_tokens long_text 2 ≡ long_text))
        ⊎ ((char_limit 2 < length long_text)
            × (trim_to_tokens long_text 2 ≡ take (char_limit 2 - 1) long_text ++ ellipsis ∷ [])))
trim_to_tokens_fits_example = trim_to_tokens_fits long_text 2 (omega arith)
