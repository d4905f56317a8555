-- ===== src/Tasks/Steps.antt =====
-- The steps that the handlers share keep every property of the tasks and the configuration that
-- the removal of a task keeps.
use termlm.Base.{
  ℕ, Bool, true, false, ◌&&◌, [], ◌∷◌, ◌++◌, Option, none, some, ◌≡◌, refl, if◌then◌else◌,
}
use termlm.Base.Text.{Text, codes, eq_text, is_empty, trim}
use termlm.Base.Maps.{lookup, remove}
use termlm.Daemon.{DaemonState, InFlightTask, Reply, done, failed, blocked}
use termlm.Tasks.{
  reset_override, clear_task_state, cancel_provider_task, cancel_and_clear_task,
  consume_timed_out_task, append_session_turn, append_session_turn_if_session_mode,
}
use termlm.Tasks.Engine.{StartTask, Engine, orchestrate_or_clear}
use termlm.Tasks.Keeps.{
  Leaves, Keeps, Keeps-bind, Leaves-if, Leaves-option, Keeps-with_conversations,
}

module _ (P : DaemonState → Type 0)
    (framed : (s t : DaemonState)
      → t.tasks ≡ s.tasks
      → t.config ≡ s.config
      → t.outbox ≡ s.outbox
      → P s
      → P t)
    (removed : (k : ℕ) (s : DaemonState) → P s → P (record s { tasks = remove k s.tasks })) where
  pub session-Keeps :
      (mode : Text) (shell_id : ℕ) (user_text assistant_text : Text)
      → Keeps P (append_session_turn_if_session_mode mode shell_id user_text assistant_text)
  unfolding append_session_turn_if_session_mode append_session_turn
  session-Keeps mode shell_id user_text assistant_text s h =
      Leaves-if P (eq_text mode (codes "/p")) _ _
        (Leaves-if P (is_empty (trim user_text) && is_empty (trim assistant_text)) _ _ h
          (framed s _ refl refl refl h))
        h

  pub reset-Keeps : (task : Option InFlightTask) → Keeps P (reset_override task)
  unfolding reset_override
  reset-Keeps none s h = h
  reset-Keeps (some task) s h =
      either s.config.approve_all_resets_per_task _ _ (framed s _ refl refl refl h) h
    where
      either : (b : Bool) (x y : DaemonState) → P x → P y → P (if b then x else y)
      either true x y hx hy = hx
      either false x y hx hy = hy

  pub clear-Keeps : (task_id : ℕ) → Keeps P (clear_task_state task_id)
  unfolding clear_task_state
  clear-Keeps task_id s h =
      Keeps-bind P (reset_override (lookup task_id s.tasks)) _ (reset-Keeps _)
        (λ _ t k.
          Keeps-with_conversations P framed (remove task_id)
            (record t { timed_out_tasks = remove task_id t.timed_out_tasks })
            (framed t _ refl refl refl k))
        (record s { tasks = remove task_id s.tasks }) (removed task_id s h)

  pub cancel-Keeps : (task_id : ℕ) → Keeps P (cancel_and_clear_task task_id)
  unfolding cancel_and_clear_task cancel_provider_task
  cancel-Keeps task_id s h =
      clear-Keeps task_id (record s { cancelled = s.cancelled ++ task_id ∷ [] })
        (framed s _ refl refl refl h)

  pub consume-Keeps : (task_id : ℕ) → Keeps P (consume_timed_out_task task_id)
  unfolding consume_timed_out_task
  consume-Keeps task_id s h =
      Leaves-option P (lookup task_id s.timed_out_tasks) _ _ (framed s _ refl refl refl h)
        (λ _. framed s _ refl refl refl h)

  pub orchestrate_or_clear-Keeps :
      (engine : Engine)
      → ((start : StartTask) → Keeps P (engine.orchestrate start))
      → (start : StartTask) → Keeps P (orchestrate_or_clear engine start)
  unfolding orchestrate_or_clear
  orchestrate_or_clear-Keeps engine orchestrate-Keeps start s h =
      after (engine.orchestrate start s) (orchestrate-Keeps start s h)
    where
      cleared :
          (r : Reply (Unit {0}))
          → Leaves P r
          → Leaves {A = Bool} P
              (elim r [ done _ t ↦ failed t | failed t ↦ failed t | blocked ↦ blocked ])
      cleared (done _ t) k = k
      cleared (failed t) k = k
      cleared blocked k = tt

      after :
          (r : Reply Bool)
          → Leaves P r
          → Leaves {A = Bool} P (elim r [
            | done handled s' ↦ done handled s'
            | failed s' ↦ elim (cancel_and_clear_task start.task_id s') [
              | done _ t ↦ failed t
              | failed t ↦ failed t
              | blocked ↦ blocked
            ]
            | blocked ↦ blocked
          ])
      after (done handled t) k = k
      after (failed t) k =
          cleared (cancel_and_clear_task start.task_id t) (cancel-Keeps start.task_id t k)
      after blocked k = tt
