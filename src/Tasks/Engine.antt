-- ===== src/Tasks/Engine.antt =====
-- What the handlers of tasks call and is not modelled: the regular expressions of the safety floor
-- (the `regex` crate), the classifier of prompts, and `try_provider_orchestration` of
-- crates/termlm-core/src/main.rs, which talks to the model and may change the whole state.
use termlm.Base.{ℕ, Bool, String}
use termlm.Base.Text.{Text}
use termlm.Daemon.{ClassificationResult, M, done, failed, blocked}
use termlm.Tasks.{cancel_and_clear_task}

-- what `try_provider_orchestration` is told of a task
pub record StartTask : Type 0 where
  pub task_id : ℕ
  pub shell_id : ℕ
  pub mode : Text
  pub prompt : Text
  pub classification : ClassificationResult

pub record Engine : Type 0 where
  pub is_match : String → Text → Bool
  pub classify : Text → ClassificationResult
  pub orchestrate : StartTask → M Bool

module _ (engine : Engine) where
  open engine use {orchestrate}

  -- `match try_provider_orchestration(..).await { Ok(v) => v, Err(e) => { cancel.. return Err(e) } }`
  unfoldable pub orchestrate_or_clear : StartTask → M Bool
  orchestrate_or_clear start s = elim (orchestrate start s) [
    | done handled s' ↦ done handled s'
    | failed s' ↦ elim (cancel_and_clear_task start.task_id s') [
      | done _ t ↦ failed t
      | failed t ↦ failed t
      | blocked ↦ blocked
    ]
    | blocked ↦ blocked
  ]
