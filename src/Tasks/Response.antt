-- ===== src/Tasks/Response.antt =====
-- `process_user_response` of crates/termlm-core/src/main.rs: the user's answer to a proposed
-- command or to a question. One definition for each decision.
use termlm.Base.{
  ℕ, Bool, true, false, not, ◌&&◌, [], ◌++◌, Option, none, some, String, if◌then◌else◌,
}
use termlm.Base.Text.{Text, codes, eq_text, is_empty, trim}
use termlm.Base.Maps.{lookup, insert, modify}
use termlm.Clarify.{clarification_question_for_ambiguous_prompt}
use termlm.Safety.{matches_safety_floor}
use termlm.Daemon.{
  ClassificationResult, InFlightTask, summary, tool, model_done, aborted, timeout, safety_floor_hit,
  bad_protocol, safety_floor, task_complete, error, model_text, needs_clarification, DaemonState,
  done, M, ◌>>=◌, ◌>>◌, return, update, send, lock, unlock,
}
use termlm.Tasks.Engine.{StartTask, Engine, orchestrate_or_clear}
use termlm.Tasks.{
  push_message, cancel_and_clear_task, clear_task_state, active_task_timeout_kind,
  consume_timed_out_task, append_session_turn_if_session_mode,
}

pub data UserDecision : Type 0 where
  approved approve_all_in_task edited rejected abort clarify : UserDecision

pub record UserResponse : Type 0 where
  pub task_id : ℕ
  pub decision : UserDecision
  pub edited_command : Option Text
  pub text : Option Text

abbrev pub or_default : Option Text → Text
or_default none = []
or_default (some t) = t

-- `tasks.get_mut(&task_id)` with what is written through it
abbrev pub update_task : ℕ → (InFlightTask → InFlightTask) → M (Unit {0})
update_task task_id f = update (λ s. record s { tasks = modify task_id f s.tasks })

abbrev touched : DaemonState → InFlightTask → InFlightTask
touched s t = record t { awaiting_clarification = false; created_at = s.now }

unfoldable pub respond_approved : ℕ → M (Unit {0})
respond_approved task_id = do
  update (λ s. record s { tasks = modify task_id (touched s) s.tasks })
  send (model_text task_id (codes "Command approved. Execute in shell and send Ack."))

-- the override of the shell, where it outlives the task
unfoldable pub insert_override : ℕ → M (Unit {0})
insert_override task_id s = elim (lookup task_id s.tasks) [
  | none ↦ done tt s
  | some task ↦ done tt (
      if s.config.approve_all_resets_per_task then s else record s {
        shell_approval_overrides = insert task.shell_id true s.shell_approval_overrides;
      })
]

unfoldable pub respond_approve_all : ℕ → M (Unit {0})
respond_approve_all task_id = do
  update (λ s. record s {
    tasks = modify task_id (λ t. record (touched s t) { approval_override = true }) s.tasks;
  })
  insert_override task_id
  send (
      model_text task_id
        (codes "Approve-all enabled for this task. Execute in shell and send Ack."))

module _ (engine : Engine) where
  open engine use {is_match, classify}

  -- the edited command matched a pattern of the floor
  unfoldable pub block_edited : ℕ → InFlightTask → String → M (Unit {0})
  block_edited task_id task pattern = do
    send (
        error task_id safety_floor (codes "edited command blocked by immutable safety floor")
          (some pattern))
    send (task_complete task_id safety_floor_hit (codes "Edited command blocked by safety floor."))
    append_session_turn_if_session_mode task.mode task.shell_id task.original_prompt
        (codes "Edited command blocked by immutable safety floor.")
    clear_task_state task_id

  unfoldable pub accept_edited : ℕ → Text → M (Unit {0})
  accept_edited task_id command = do
    update (λ s. record s {
      tasks = modify task_id (λ t. record (touched s t) { proposed_command = command }) s.tasks;
    })
    send (model_text task_id (codes "Edited command accepted. Execute in shell and send Ack."))

  unfoldable pub respond_edited : ℕ → InFlightTask → Option Text → M (Unit {0})
  respond_edited task_id task edited_command =
      let command = trim (or_default edited_command) in
      if is_empty command
      then send (error task_id bad_protocol (codes "edited command is empty") none)
      else elim (matches_safety_floor is_match command) [
        | none ↦ accept_edited task_id command
        | some matched ↦ block_edited task_id task matched.pattern
      ]

  abbrev decline_response : Text → Text
  decline_response reason =
      codes "User declined to run this command." ++ codes " Reason: " ++ trim reason

  -- what the orchestration is asked for after a rejection
  abbrev pub retry_start : ℕ → InFlightTask → StartTask
  retry_start task_id task = record {
    task_id = task_id;
    shell_id = task.shell_id;
    mode = task.mode;
    prompt =
        task.original_prompt
        ++ codes
            "\n\nThe user declined the prior command. Propose a safer or alternate command that still satisfies the request.";
    classification = classify task.original_prompt;
  }

  -- A rejection with a reason goes back to the model. The guard of `task_conversations` is alive
  -- until the end of the block.
  unfoldable pub retry_rejected : ℕ → InFlightTask → Text → M Bool
  retry_rejected task_id task reason = do
    lock
    update (λ s. record s {
      task_conversations =
          push_message task_id (tool (codes "execute_shell_command") (decline_response reason))
            s.task_conversations;
    })
    handled ← orchestrate_or_clear engine (retry_start task_id task)
    update (λ s. record s {
      tasks =
          if handled
          then modify task_id
              (λ t. record t {
                provider_continuation = true;
                original_prompt = task.original_prompt;
              })
              s.tasks
          else s.tasks;
    })
    unlock
    return handled

  unfoldable pub end_rejected : ℕ → InFlightTask → M (Unit {0})
  end_rejected task_id task = do
    send (model_text task_id (codes "User declined to run this command."))
    send (task_complete task_id model_done (codes "Command rejected by user."))
    clear_task_state task_id
    append_session_turn_if_session_mode task.mode task.shell_id task.original_prompt
        (codes "Task rejected by user.")

  unfoldable pub respond_rejected : ℕ → InFlightTask → Option Text → M (Unit {0})
  respond_rejected task_id task reason =
      if task.provider_continuation && not (is_empty (trim (or_default reason)))
      then (do
        handled ← retry_rejected task_id task (or_default reason)
        if handled then return tt else end_rejected task_id task)
      else end_rejected task_id task

  unfoldable pub respond_abort : ℕ → InFlightTask → M (Unit {0})
  respond_abort task_id task = do
    send (task_complete task_id aborted (codes "Task aborted by user."))
    cancel_and_clear_task task_id
    append_session_turn_if_session_mode task.mode task.shell_id task.original_prompt
        (codes "Task aborted by user.")

  -- What the ends of a clarification write to the task. Only in the `?` mode is it classified anew.
  abbrev pub reclassified : Option ClassificationResult → InFlightTask → InFlightTask
  reclassified none t = t
  reclassified (some c) t = record t {
    classification = c.classification;
    classification_confidence = c.confidence;
  }

  abbrev pub refine : ℕ → Bool → Text → Option ClassificationResult → M (Unit {0})
  refine task_id awaiting prompt c = update (λ s. record s {
    tasks =
        modify task_id
          (λ t. record (reclassified c t) {
            awaiting_clarification = awaiting;
            provider_continuation = true;
            original_prompt = prompt;
            created_at = s.now;
          })
          s.tasks;
  })

  -- the orchestration of a refined prompt, and what is asked where it does not handle it
  unfoldable pub clarify_with :
      ℕ
      → InFlightTask
      → Text
      → ClassificationResult
      → Option ClassificationResult
      → Text
      → M (Unit {0})
  clarify_with task_id task prompt told kept question = do
    handled ← orchestrate_or_clear engine (record {
      task_id = task_id;
      shell_id = task.shell_id;
      mode = task.mode;
      prompt = prompt;
      classification = told;
    })
    refine task_id (not handled) prompt kept
    if handled then return tt else send (needs_clarification task_id question)

  abbrev own_classification : InFlightTask → ClassificationResult
  own_classification task = record {
    classification = task.classification;
    confidence = task.classification_confidence;
  }

  unfoldable pub respond_clarification : ℕ → InFlightTask → Option Text → M (Unit {0})
  respond_clarification task_id task text =
      let detail = or_default text in
      let prompt = task.original_prompt ++ codes "\nClarification: " ++ detail in
      let clarified = classify prompt in
      if not task.awaiting_clarification
      then send (error task_id bad_protocol (codes "task is not waiting for clarification") none)
      else if not (eq_text task.mode (codes "?"))
      then clarify_with task_id task prompt (own_classification task) none (
          codes
            "I still need a more specific request. Include the exact outcome, target path/repo, and any constraints.")
      else elim (clarification_question_for_ambiguous_prompt detail) [
        | some question ↦ (do
          refine task_id true prompt (some clarified)
          send (needs_clarification task_id question))
        | none ↦ clarify_with task_id task prompt clarified (some clarified) (
            codes
              "I still need a more specific request. Include the exact command outcome and target path or tool.")
      ]

  unfoldable pub respond : ℕ → InFlightTask → UserResponse → UserDecision → M (Unit {0})
  respond task_id task payload approved = respond_approved task_id
  respond task_id task payload approve_all_in_task = respond_approve_all task_id
  respond task_id task payload edited = respond_edited task_id task payload.edited_command
  respond task_id task payload rejected = respond_rejected task_id task payload.text
  respond task_id task payload abort = respond_abort task_id task
  respond task_id task payload clarify = respond_clarification task_id task payload.text

  -- a task that is found, and timed out or not
  unfoldable pub respond_active : InFlightTask → UserResponse → M (Unit {0})
  respond_active task payload s = elim (active_task_timeout_kind s task) [
    | some kind ↦
        (do
          clear_task_state payload.task_id
          send (task_complete payload.task_id timeout (summary kind))
          append_session_turn_if_session_mode task.mode task.shell_id task.original_prompt
              (summary kind))
          s
    | none ↦ respond payload.task_id task payload payload.decision s
  ]

  unfoldable pub process_user_response : UserResponse → M (Unit {0})
  process_user_response payload = do
    expired ← consume_timed_out_task payload.task_id
    elim expired [
      | some kind ↦ send (task_complete payload.task_id timeout (summary kind))
      | none ↦ λ s. elim (lookup payload.task_id s.tasks) [
        | none ↦ send (error payload.task_id bad_protocol (codes "task_id not active") none) s
        | some task ↦ respond_active task payload s
      ]
    ]
