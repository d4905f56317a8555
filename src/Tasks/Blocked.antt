-- ===== src/Tasks/Blocked.antt =====
-- An edited command that the safety floor blocks.
use termlm.Base.{
  ℕ, ◌≤◌, ◌-◌, false, ◌&&◌, List, [], ◌∷◌, ◌++◌, none, some, String, ◌≡◌, ◌∙◌, ap, arith, ◌==◌,
  if◌then◌else◌, Bool-cases, inl, inr, append_assoc,
}
use termlm.Base.Text.{Text, codes, eq_text, is_empty, trim}
use termlm.Base.Maps.{lookup}
use termlm.Safety.{SafetyFloorMatch, matches_safety_floor}
use termlm.Daemon.{
  InFlightTask, ServerMessage, safety_floor, safety_floor_hit, task_complete, error, DaemonState,
  done, M, send,
}
use termlm.Tasks.{append_session_turn, append_session_turn_if_session_mode}
use termlm.Tasks.Engine.{Engine}
use termlm.Tasks.Response.{accept_edited, block_edited, respond_edited}
use termlm.Tasks.Cleanup.{clear_task_state-Cleared}
use termlm.Base.{if_not, if_true}
use termlm.Tasks.Runs.{bind-done}

abbrev pub sent : ServerMessage → DaemonState → DaemonState
sent message s = record s { outbox = s.outbox ++ message ∷ []; sends_left = s.sends_left - 1 }

pub send-done :
    (message : ServerMessage) (s : DaemonState)
    → 1 ≤ s.sends_left
    → send message s ≡ done tt (sent message s)
unfolding send
send-done message s h = if_not (s.sends_left == 0) _ _ (ground arith)

-- a session's turn changes the sessions only
pub session-done :
    (mode : Text) (shell_id : ℕ) (user_text assistant_text : Text) (s : DaemonState)
    → (c : _) × (append_session_turn_if_session_mode mode shell_id user_text assistant_text s
        ≡ done tt (record s { session_conversations = c }))
unfolding append_session_turn_if_session_mode append_session_turn
session-done mode shell_id user_text assistant_text s =
    elim (Bool-cases (eq_text mode (codes "/p"))) [
      | inr e ↦ (s.session_conversations, if_not (eq_text mode (codes "/p")) _ _ e)
      | inl e ↦ elim (Bool-cases (is_empty (trim user_text) && is_empty (trim assistant_text))) [
        | inl blank ↦ (
          s.session_conversations,
          if_true (eq_text mode (codes "/p")) _ _ e
              ∙ if_true (is_empty (trim user_text) && is_empty (trim assistant_text)) _ _ blank,
        )
        | inr full ↦ (
          _,
          if_true (eq_text mode (codes "/p")) _ _ e
              ∙ if_not (is_empty (trim user_text) && is_empty (trim assistant_text)) _ _ full,
        )
      ]
    ]

-- what the client is told of a blocked edit
abbrev blocked_messages : ℕ → String → List ServerMessage
blocked_messages task_id pattern =
    error task_id safety_floor (codes "edited command blocked by immutable safety floor")
      (some pattern)
    ∷ task_complete task_id safety_floor_hit (codes "Edited command blocked by safety floor.")
    ∷ []

-- An edited command, which is not blank and whose trimmed text matches the floor, ends its task
-- where the client can be told and the lock is free: the client gets the error with the pattern
-- that matched and then the end of the task, the task with its conversation and timeout is gone,
-- and no other task has changed.
pub respond_edited-blocked :
    (engine : Engine) (task_id : ℕ) (task : InFlightTask) (command : Text)
    (matched : SafetyFloorMatch) (s : DaemonState)
    → is_empty (trim command) ≡ false
    → matches_safety_floor engine.is_match (trim command) ≡ some matched
    → 2 ≤ s.sends_left
    → s.conversations_locked ≡ false
    → (t : DaemonState) × (respond_edited engine task_id task (some command) s ≡ done tt t)
      × (t.outbox ≡ s.outbox ++ blocked_messages task_id matched.pattern)
      × ((j : ℕ) → lookup j t.tasks ≡ (if task_id == j then none else lookup j s.tasks))
      × ((j : ℕ)
          → lookup j t.timed_out_tasks
            ≡ (if task_id == j then none else lookup j s.timed_out_tasks))
      × ((j : ℕ)
          → lookup j t.task_conversations
            ≡ (if task_id == j then none else lookup j s.task_conversations))
unfolding respond_edited block_edited
respond_edited-blocked engine task_id task command matched s full hit can_send free =
    let first =
      error task_id safety_floor (codes "edited command blocked by immutable safety floor")
        (some matched.pattern) in
    let last =
      task_complete task_id safety_floor_hit (codes "Edited command blocked by safety floor.") in
    let s1 = sent first s in
    let s2 = sent last s1 in
    let (c, appended) =
      session-done task.mode task.shell_id task.original_prompt
        (codes "Edited command blocked by immutable safety floor.") s2 in
    let s3 : DaemonState = record s2 { session_conversations = c } in
    let (t, cleared, gone) = clear_task_state-Cleared task_id s3 free in
    (
      t,
      ap (λ (m : M Unit). m s) (if_not (is_empty (trim command)) _ _ full)
          ∙ ap
              (λ o.
                (elim o as (λ _. M Unit) [
                  | none ↦ accept_edited engine task_id (trim command)
                  | some found ↦ block_edited engine task_id task found.pattern
                ])
                  s)
              hit
          ∙ bind-done (send first) _ s tt s1 (send-done first s (omega arith))
          ∙ bind-done (send last) _ s1 tt s2 (send-done last s1 (omega arith))
          ∙ bind-done (append_session_turn_if_session_mode _ _ _ _) _ s2 tt s3 appended
          ∙ cleared,
      gone.outbox ∙ append_assoc s.outbox (first ∷ []) (last ∷ []),
      gone.tasks,
      gone.timed_out_tasks,
      gone.task_conversations,
    )
