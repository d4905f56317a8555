-- ===== src/Tasks/Floor.antt =====
-- The safety floor over the handler of the user's answers: no answer makes a proposed command that
-- matches the floor.
use termlm.Base.{
  ℕ, Bool, true, false, not, ◌&&◌, List, Option, none, some, String, ◌≡◌, refl, if◌then◌else◌,
  Bool-cases, inl, inr, All,
}
use termlm.Base.Text.{Text, codes, eq_text, is_empty, trim}
use termlm.Base.Maps.{lookup, remove, insert, modify}
use termlm.Clarify.{clarification_question_for_ambiguous_prompt}
use termlm.Safety.{SafetyFloorMatch, matches_safety_floor}
use termlm.Daemon.{
  ClassificationResult, InFlightTask, DaemonState, done, M, ◌>>◌, send, lock, return,
  needs_clarification, TaskTimeoutKind, task_complete, timeout, summary, error, bad_protocol,
}
use termlm.Tasks.{
  clear_task_state, cancel_and_clear_task, consume_timed_out_task, active_task_timeout_kind,
  append_session_turn_if_session_mode,
}
use termlm.Tasks.Engine.{StartTask, Engine, orchestrate_or_clear}
use termlm.Tasks.Response.{
  UserDecision, approved, approve_all_in_task, edited, rejected, abort, clarify, UserResponse,
  respond_approved, insert_override, respond_approve_all, block_edited, accept_edited,
  respond_edited, retry_rejected, end_rejected, respond_rejected, respond_abort, clarify_with,
  respond_clarification, respond, respond_active, process_user_response, or_default, reclassified,
  refine,
}
use termlm.Tasks.Steps
use termlm.Tasks.Keeps.{
  Leaves, Keeps, TasksAll, Keeps-bind, Leaves-if, Keeps-if, Leaves-option, All-remove, All-modify,
  Keeps-send,
}

-- A proposed command that no pattern of the floor matches.
abbrev pub IsOffFloor : (String → Text → Bool) → InFlightTask → Type 0
IsOffFloor is_match task = matches_safety_floor is_match task.proposed_command ≡ none

module _ (is_match : String → Text → Bool) where
  abbrev pub TasksOffFloor : DaemonState → Type 0
  TasksOffFloor = TasksAll (IsOffFloor is_match)

  kept :
      (s t : DaemonState)
      → t.tasks ≡ s.tasks
      → t.config ≡ s.config
      → TasksOffFloor s
      → TasksOffFloor t
  kept s t e _ h = rw e h

  pub framed :
      (s t : DaemonState)
      → t.tasks ≡ s.tasks
      → t.config ≡ s.config
      → t.outbox ≡ s.outbox
      → TasksOffFloor s
      → TasksOffFloor t
  framed s t e c _ = kept s t e c

  pub send-Keeps : (message : _) → Keeps TasksOffFloor (send message)
  send-Keeps = Keeps-send TasksOffFloor kept

  pub removed :
      (k : ℕ) (s : DaemonState)
      → TasksOffFloor s
      → TasksOffFloor (record s { tasks = remove k s.tasks })
  removed k s h = All-remove _ k s.tasks h

  -- a change of a task that leaves its command
  modify-Keeps :
      (task_id : ℕ) (f : InFlightTask → InFlightTask) (m : List (ℕ × InFlightTask))
      → ((t : InFlightTask) → (f t).proposed_command ≡ t.proposed_command)
      → All (λ (kv : ℕ × InFlightTask). IsOffFloor is_match kv.1) m
      → All (λ (kv : ℕ × InFlightTask). IsOffFloor is_match kv.1) (modify task_id f m)
  modify-Keeps task_id f m same =
      All-modify (IsOffFloor is_match) task_id f m (λ t h. rw (same t) h)

  approved-Keeps : (task_id : ℕ) → Keeps TasksOffFloor (respond_approved task_id)
  unfolding respond_approved
  approved-Keeps task_id s h = send-Keeps _ _ (modify-Keeps task_id _ s.tasks (λ t. refl) h)

  insert_override-Keeps : (task_id : ℕ) → Keeps TasksOffFloor (insert_override task_id)
  unfolding insert_override
  insert_override-Keeps task_id s h =
      elim (lookup task_id s.tasks)
        as (λ o. Leaves TasksOffFloor (elim o [
          | none ↦ done tt s
          | some task ↦ done tt (
              if s.config.approve_all_resets_per_task then s else record s {
                shell_approval_overrides = insert task.shell_id true s.shell_approval_overrides;
              })
        ])) [
          | none ↦ h
          | some task ↦ elim (Bool-cases s.config.approve_all_resets_per_task) [
            | inl e ↦ rw e h
            | inr e ↦ rw e h
          ]
        ]

  approve_all-Keeps : (task_id : ℕ) → Keeps TasksOffFloor (respond_approve_all task_id)
  unfolding respond_approve_all
  approve_all-Keeps task_id s h =
      Keeps-bind TasksOffFloor (insert_override task_id) _ (insert_override-Keeps task_id)
        (λ _. send-Keeps _) _ (modify-Keeps task_id _ s.tasks (λ t. refl) h)

module _ (engine : Engine)
    (orchestrate-Keeps : (start : StartTask)
      → Keeps (TasksOffFloor engine.is_match) (engine.orchestrate start)) where
  block_edited-Keeps :
      (task_id : ℕ) (task : InFlightTask) (pattern : String)
      → Keeps (TasksOffFloor engine.is_match) (block_edited engine task_id task pattern)
  unfolding block_edited
  block_edited-Keeps task_id task pattern =
      let P = TasksOffFloor engine.is_match in
      Keeps-bind P (send _) _ (send-Keeps engine.is_match _) (λ _.
        Keeps-bind P (send _) _ (send-Keeps engine.is_match _) (λ _.
          Keeps-bind P (append_session_turn_if_session_mode _ _ _ _) _
            (Steps.session-Keeps P (framed engine.is_match) (removed engine.is_match) _ _ _ _)
            (λ _. Steps.clear-Keeps P (framed engine.is_match) (removed engine.is_match) task_id)))

  edited-Keeps :
      (task_id : ℕ) (task : InFlightTask) (edited_command : Option Text)
      → Keeps (TasksOffFloor engine.is_match) (respond_edited engine task_id task edited_command)
  unfolding respond_edited accept_edited
  edited-Keeps task_id task edited_command s h =
      Keeps-if (TasksOffFloor engine.is_match) (is_empty command) (send _) _
        (send-Keeps engine.is_match _)
        (λ t k. check t k (matches_safety_floor engine.is_match command) refl) s h
    where
      command : Text
      command = trim (or_default edited_command)

      check :
          (t : DaemonState)
          → TasksOffFloor engine.is_match t
          → (o : Option SafetyFloorMatch) → matches_safety_floor engine.is_match command ≡ o
          → Leaves (TasksOffFloor engine.is_match) (
              (elim o as (λ _. M (Unit {0})) [
                | none ↦ accept_edited engine task_id command
                | some matched ↦ block_edited engine task_id task matched.pattern
              ])
                t)
      check t k none e =
          send-Keeps engine.is_match _ _
            (All-modify (IsOffFloor engine.is_match) task_id _ t.tasks (λ _ _. e) k)
      check t k (some matched) e = block_edited-Keeps task_id task matched.pattern t k

  handled-Keeps :
      (s : DaemonState) (task_id : ℕ) (f : InFlightTask → InFlightTask) (handled : Bool)
      → ((t : InFlightTask) → (f t).proposed_command ≡ t.proposed_command)
      → TasksOffFloor engine.is_match s
      → All
          (λ (kv : ℕ × InFlightTask). IsOffFloor engine.is_match kv.1)
          (if handled then modify task_id f s.tasks else s.tasks)
  handled-Keeps s task_id f true same h = modify-Keeps engine.is_match task_id f s.tasks same h
  handled-Keeps s task_id f false same h = h

  lock-Keeps : Keeps (TasksOffFloor engine.is_match) lock
  unfolding lock
  lock-Keeps s h = Leaves-if (TasksOffFloor engine.is_match) s.conversations_locked _ _ tt h

  retry_rejected-Keeps :
      (task_id : ℕ) (task : InFlightTask) (reason : Text)
      → Keeps (TasksOffFloor engine.is_match) (retry_rejected engine task_id task reason)
  unfolding retry_rejected
  retry_rejected-Keeps task_id task reason =
      let P = TasksOffFloor engine.is_match in
      Keeps-bind P lock _ lock-Keeps (λ _ s h.
        Keeps-bind P (orchestrate_or_clear engine _) _
          (Steps.orchestrate_or_clear-Keeps P (framed engine.is_match) (removed engine.is_match)
            engine orchestrate-Keeps _)
          (λ handled t k. handled-Keeps t task_id _ handled (λ _. refl) k) _ h)

  end_rejected-Keeps :
      (task_id : ℕ) (task : InFlightTask)
      → Keeps (TasksOffFloor engine.is_match) (end_rejected engine task_id task)
  unfolding end_rejected
  end_rejected-Keeps task_id task =
      let P = TasksOffFloor engine.is_match in
      Keeps-bind P (send _) _ (send-Keeps engine.is_match _) (λ _.
        Keeps-bind P (send _) _ (send-Keeps engine.is_match _) (λ _.
          Keeps-bind P (clear_task_state task_id) _
            (Steps.clear-Keeps P (framed engine.is_match) (removed engine.is_match) task_id)
            (λ _.
              Steps.session-Keeps P (framed engine.is_match) (removed engine.is_match) _ _ _ _)))

  rejected-Keeps :
      (task_id : ℕ) (task : InFlightTask) (reason : Option Text)
      → Keeps (TasksOffFloor engine.is_match) (respond_rejected engine task_id task reason)
  unfolding respond_rejected
  rejected-Keeps task_id task reason =
      let P = TasksOffFloor engine.is_match in
      Keeps-if P (task.provider_continuation && not (is_empty (trim (or_default reason)))) _ _
        (Keeps-bind P (retry_rejected engine task_id task _) _ (retry_rejected-Keeps task_id task _)
          (λ handled.
            Keeps-if P handled (return tt) _ (λ s h. h) (end_rejected-Keeps task_id task)))
        (end_rejected-Keeps task_id task)

  abort-Keeps :
      (task_id : ℕ) (task : InFlightTask)
      → Keeps (TasksOffFloor engine.is_match) (respond_abort engine task_id task)
  unfolding respond_abort
  abort-Keeps task_id task =
      let P = TasksOffFloor engine.is_match in
      Keeps-bind P (send _) _ (send-Keeps engine.is_match _) (λ _.
        Keeps-bind P (cancel_and_clear_task task_id) _
          (Steps.cancel-Keeps P (framed engine.is_match) (removed engine.is_match) task_id)
          (λ _. Steps.session-Keeps P (framed engine.is_match) (removed engine.is_match) _ _ _ _))

  same_command :
      (kept : Option ClassificationResult) (t : InFlightTask)
      → (reclassified engine kept t).proposed_command ≡ t.proposed_command
  same_command none t = refl
  same_command (some c) t = refl

  clarify_with-Keeps :
      (task_id : ℕ) (task : InFlightTask) (prompt : Text) (told : ClassificationResult)
      (kept : Option ClassificationResult) (question : Text)
      → Keeps
          (TasksOffFloor engine.is_match)
          (clarify_with engine task_id task prompt told kept question)
  unfolding clarify_with
  clarify_with-Keeps task_id task prompt told kept question =
      let P = TasksOffFloor engine.is_match in
      Keeps-bind P (orchestrate_or_clear engine _) _
        (Steps.orchestrate_or_clear-Keeps P (framed engine.is_match) (removed engine.is_match)
          engine orchestrate-Keeps _)
        (λ handled s h.
          Keeps-if P handled (return tt) (send _) (λ t k. k) (send-Keeps engine.is_match _) _
            (modify-Keeps engine.is_match task_id _ s.tasks (same_command kept) h))

  clarification-Keeps :
      (task_id : ℕ) (task : InFlightTask) (text : Option Text)
      → Keeps (TasksOffFloor engine.is_match) (respond_clarification engine task_id task text)
  unfolding respond_clarification
  clarification-Keeps task_id task text =
      let P = TasksOffFloor engine.is_match in
      Keeps-if P (not task.awaiting_clarification) _ _ (send-Keeps engine.is_match _) (
        Keeps-if P (not (eq_text task.mode (codes "?"))) _ _
          (clarify_with-Keeps task_id task _ _ none _)
          (ask _ _ _ (clarification_question_for_ambiguous_prompt (or_default text))))
    where
      ask :
          (prompt question : Text) (c : ClassificationResult) (o : Option Text)
          → Keeps (TasksOffFloor engine.is_match) (elim o [
            | some asked ↦ (do
              refine engine task_id true prompt (some c)
              send (needs_clarification task_id asked))
            | none ↦ clarify_with engine task_id task prompt c (some c) question
          ])
      ask prompt question c (some asked) s h =
          send-Keeps engine.is_match _ _
            (modify-Keeps engine.is_match task_id _ s.tasks (λ _. refl) h)
      ask prompt question c none s h = clarify_with-Keeps task_id task _ _ _ _ s h

  respond-Keeps :
      (task_id : ℕ) (task : InFlightTask) (payload : UserResponse) (decision : UserDecision)
      → Keeps (TasksOffFloor engine.is_match) (respond engine task_id task payload decision)
  unfolding respond
  respond-Keeps task_id task payload approved = approved-Keeps engine.is_match task_id
  respond-Keeps task_id task payload approve_all_in_task = approve_all-Keeps engine.is_match task_id
  respond-Keeps task_id task payload edited = edited-Keeps task_id task payload.edited_command
  respond-Keeps task_id task payload rejected = rejected-Keeps task_id task payload.text
  respond-Keeps task_id task payload abort = abort-Keeps task_id task
  respond-Keeps task_id task payload clarify = clarification-Keeps task_id task payload.text

  active-Keeps :
      (task : InFlightTask) (payload : UserResponse)
      → Keeps (TasksOffFloor engine.is_match) (respond_active engine task payload)
  unfolding respond_active
  active-Keeps task payload s h =
      let P = TasksOffFloor engine.is_match in
      Leaves-option P (active_task_timeout_kind s task) _ _
        (respond-Keeps payload.task_id task payload payload.decision s h)
        (λ kind.
          Keeps-bind P (clear_task_state payload.task_id) _
            (Steps.clear-Keeps P (framed engine.is_match) (removed engine.is_match) _)
            (λ _. Keeps-bind P (send _) _ (send-Keeps engine.is_match _) (λ _.
              Steps.session-Keeps P (framed engine.is_match) (removed engine.is_match) _ _ _ _))
            s h)

  -- No answer of the user, whatever its decision and wherever a send fails, leaves a task whose
  -- proposed command matches the safety floor, where there was none and the orchestration adds none.
  pub process_user_response-TasksOffFloor :
      (payload : UserResponse) (s : DaemonState)
      → TasksOffFloor engine.is_match s
      → Leaves (TasksOffFloor engine.is_match) (process_user_response engine payload s)
  unfolding process_user_response
  process_user_response-TasksOffFloor payload =
      let P = TasksOffFloor engine.is_match in
      Keeps-bind P (consume_timed_out_task payload.task_id) _
        (Steps.consume-Keeps P (framed engine.is_match) (removed engine.is_match) payload.task_id)
        (λ o. answer o)
    where
      answer :
          (o : Option TaskTimeoutKind)
          → Keeps (TasksOffFloor engine.is_match) (elim o [
            | some kind ↦ send (task_complete payload.task_id timeout (summary kind))
            | none ↦ λ s. elim (lookup payload.task_id s.tasks) [
              | none ↦ send (error payload.task_id bad_protocol (codes "task_id not active") none) s
              | some task ↦ respond_active engine task payload s
            ]
          ])
      answer (some kind) s h = send-Keeps engine.is_match _ s h
      answer none s h =
          Leaves-option (TasksOffFloor engine.is_match) (lookup payload.task_id s.tasks) _ _
            (send-Keeps engine.is_match _ s h) (λ task. active-Keeps task payload s h)
