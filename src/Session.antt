-- ===== src/Session.antt =====
-- The memory of a session-mode conversation in crates/termlm-core/src/main.rs, and the token
-- estimate of crates/termlm-core/src/context/mod.rs that bounds it.
pub mod Trim
use termlm.Base.{
  ℕ, zero, suc, ◌+◌, ◌-◌, ◌*◌, ◌/◌, min, max, Bool, true, false, ◌&&◌, List, [], ◌∷◌, ◌++◌, ltb,
  leb, ◌==◌, if◌then◌else◌, length, take,
}
use termlm.Base.Text.{Text}
use termlm.Shell.{saturating_add, usize_max}

unfoldable pub estimate_tokens : Text → ℕ
estimate_tokens text = max (length text / 4) 1

-- `…`
abbrev pub ellipsis : ℕ
ellipsis = 0x2026

unfoldable pub trim_to_tokens : Text → ℕ → Text
trim_to_tokens text max_tokens =
    let max_chars = min (max_tokens * 4) usize_max in
    if max_tokens == 0
    then []
    else if leb (length text) max_chars
    then text
    else take (max_chars - 1) text ++ ellipsis ∷ []

pub record SessionTurn : Type 0 where
  pub user : Text
  pub assistant : Text

pub record SessionConversation : Type 0 where
  pub system_prompt : Text
  pub turns : List SessionTurn

-- the first loop of `trim_session_conversation`
unfoldable pub count_turns : ℕ → List SessionTurn → ℕ
count_turns total [] = total
count_turns total (turn ∷ rest) =
    count_turns
      (saturating_add (saturating_add total (estimate_tokens turn.user))
        (estimate_tokens turn.assistant))
      rest

-- its second loop: `saturating_sub` is the subtraction of ℕ
unfoldable pub drop_turns : ℕ → ℕ → List SessionTurn → List SessionTurn
drop_turns total budget [] = []
drop_turns total budget (removed ∷ rest) =
    let next =
      drop_turns (total - estimate_tokens removed.user - estimate_tokens removed.assistant) budget
        rest in
    if ltb budget total then next else removed ∷ rest

unfoldable pub trim_session_conversation : SessionConversation → ℕ → SessionConversation
unfolding count_turns drop_turns
trim_session_conversation conv token_budget = record conv {
  turns =
      drop_turns (count_turns (estimate_tokens conv.system_prompt) conv.turns) token_budget
        conv.turns;
}

-- what `append_session_turn` does to the conversation of the shell, with
-- `session.context_window_tokens`
unfoldable pub push_turn : ℕ → SessionConversation → Text → Text → SessionConversation
push_turn context_window_tokens conv user assistant =
    trim_session_conversation
      (record conv { turns = conv.turns ++ record { user = user; assistant = assistant } ∷ [] })
      (max context_window_tokens 256)
