-- ===== src/Tasks/Deadlock.antt =====
-- A rejection with a reason, which `process_user_response` of crates/termlm-core/src/main.rs hands
-- to `try_provider_orchestration` while it holds the lock of `task_conversations`.
use termlm.Base.{ℕ, inl, inr, Bool-cases, Bool, true, false, not, ◌&&◌, some, ◌≡◌, ◌∙◌, refl, ap}
use termlm.Base.Text.{Text, is_empty, trim}
use termlm.Base.Maps.{lookup, remove}
use termlm.Daemon.{InFlightTask, DaemonState, Reply, done, failed, blocked, M, lock}
use termlm.Tasks.{cancel_provider_task, reset_override, clear_task_state, cancel_and_clear_task}
use termlm.Tasks.Engine.{StartTask, Engine, orchestrate_or_clear}
use termlm.Tasks.Response.{retry_start, retry_rejected, respond_rejected}
use termlm.Tasks.Cleanup.{reset_override-done, with_overrides}
use termlm.Base.{if_true}
use termlm.Tasks.Runs.{bind-done, bind-blocked, lock-done, lock-blocked, with_conversations-blocked}

clear_task_state-blocked :
    (task_id : ℕ) (s : DaemonState)
    → s.conversations_locked ≡ true
    → clear_task_state task_id s ≡ blocked
unfolding clear_task_state
clear_task_state-blocked task_id s held =
    let s1 : DaemonState = record s { tasks = remove task_id s.tasks } in
    let (o, reset) = reset_override-done (lookup task_id s.tasks) s1 in
    bind-done (reset_override (lookup task_id s.tasks)) _ s1 tt (with_overrides o s1) reset
    ∙ with_conversations-blocked (remove task_id) _ held

-- How the orchestration ends under the lock: it waits for the lock, or fails before it asks.
pub data Stuck (engine : Engine) (start : StartTask) (s : DaemonState) : Type 0 where
  waits : engine.orchestrate start s ≡ blocked → Stuck engine start s
  fails :
      (t : DaemonState)
      → t.conversations_locked ≡ true
      → engine.orchestrate start s ≡ failed t
      → Stuck engine start s

orchestrate_or_clear-blocked :
    (engine : Engine) (start : StartTask) (s : DaemonState)
    → Stuck engine start s
    → orchestrate_or_clear engine start s ≡ blocked
unfolding orchestrate_or_clear cancel_and_clear_task cancel_provider_task
orchestrate_or_clear-blocked engine start s (waits e) = rw (orchestrate_or_clear, e) refl
orchestrate_or_clear-blocked engine start s (fails t held e) =
    rw (orchestrate_or_clear, e)
      (ap
        (λ (r : Reply Unit). elim r as (λ _. Reply Bool) [
          | done _ t ↦ failed t
          | failed t ↦ failed t
          | blocked ↦ blocked
        ])
        (clear_task_state-blocked start.task_id _ held))

retry_rejected-blocked :
    (engine : Engine) (task_id : ℕ) (task : InFlightTask) (reason : Text) (s : DaemonState)
    → ((t : DaemonState)
        → t.conversations_locked ≡ true
        → Stuck engine (retry_start engine task_id task) t)
    → retry_rejected engine task_id task reason s ≡ blocked
unfolding retry_rejected
retry_rejected-blocked engine task_id task reason s stuck =
    elim (Bool-cases s.conversations_locked) [
      | inl held ↦ bind-blocked lock _ s (lock-blocked s held)
      | inr free ↦
          bind-done lock _ s tt (record s { conversations_locked = true }) (lock-done s free)
          ∙ bind-blocked (orchestrate_or_clear engine _) _ _
              (orchestrate_or_clear-blocked engine _ _ (stuck _ refl))
    ]

-- A rejection with a reason, of a task that the model proposed, never ends, where the
-- orchestration of its retry asks for the lock of the conversations, or fails before it does: the
-- handler that calls it holds that lock.
pub respond_rejected-blocked :
    (engine : Engine) (task_id : ℕ) (task : InFlightTask) (reason : Text) (s : DaemonState)
    → task.provider_continuation ≡ true
    → is_empty (trim reason) ≡ false
    → ((t : DaemonState)
        → t.conversations_locked ≡ true
        → Stuck engine (retry_start engine task_id task) t)
    → respond_rejected engine task_id task (some reason) s ≡ blocked
unfolding respond_rejected
respond_rejected-blocked engine task_id task reason s continued reasoned stuck =
    let asked : (task.provider_continuation && not (is_empty (trim reason))) ≡ true =
      rw (continued, reasoned) refl in
    ap (λ (m : M Unit). m s)
      (if_true (task.provider_continuation && not (is_empty (trim reason))) _ _ asked)
    ∙ bind-blocked (retry_rejected engine task_id task reason) _ s
        (retry_rejected-blocked engine task_id task reason s stuck)
