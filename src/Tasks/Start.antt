-- ===== src/Tasks/Start.antt =====
-- `process_start_task` of crates/termlm-core/src/main.rs: a prompt of the user's starts a task.
--
-- `Answerers` holds the handlers that it calls and are not modelled: those that answer from the
-- documentation, the web or the local files, the stub of the model, and the orchestration of a new
-- task. The ledger of sources, the timings and the sandboxed working directory, which only these
-- handlers and the reports read, are left out.
use termlm.Base.{ℕ, Bool, true, false, not, ◌&&◌, ◌||◌, [], none, some, String, if◌then◌else◌}
use termlm.Base.Text.{Text, codes, eq_text, trim}
use termlm.Base.Maps.{insert}
use termlm.Clarify.{clarification_question_for_ambiguous_prompt}
use termlm.Clarify.Answers.{prompt_prefers_direct_answer}
use termlm.Safety.{matches_safety_floor}
use termlm.Daemon.{
  ClassificationResult, TaskClassification, fresh_command_request, referential_followup,
  diagnostic_debugging, documentation_question, web_current_info_question,
  exploratory_shell_question, InFlightTask, safety_floor, safety_floor_hit, M, ◌>>=◌, ◌>>◌, return,
  update, send, error, task_complete, needs_clarification,
}
use termlm.Tasks.{approval_override_for_shell, append_session_turn_if_session_mode}
use termlm.Tasks.Engine.{StartTask, Engine, orchestrate_or_clear}
use termlm.Exposure.{is_web_question}

pub record Answerers : Type 0 where
  pub answer_documentation : StartTask → M (Unit {0})
  pub answer_web : StartTask → M (Unit {0})
  pub try_local : StartTask → M Bool
  pub run_stub : StartTask → M Bool
  pub stub_enabled : Bool

-- a prompt before it is classified
pub record Prompted : Type 0 where
  pub task_id : ℕ
  pub shell_id : ℕ
  pub mode : Text
  pub prompt : Text

abbrev pub classified : Prompted → ClassificationResult → StartTask
classified payload c = record {
  task_id = payload.task_id;
  shell_id = payload.shell_id;
  mode = payload.mode;
  prompt = payload.prompt;
  classification = c;
}

unfoldable pub is_documentation_question : TaskClassification → Bool
is_documentation_question fresh_command_request = false
is_documentation_question referential_followup = false
is_documentation_question diagnostic_debugging = false
is_documentation_question documentation_question = true
is_documentation_question web_current_info_question = false
is_documentation_question exploratory_shell_question = false

unfoldable pub asking_task : StartTask → Bool → Bool → ℕ → InFlightTask
asking_task start shell_override continuation now = record {
  shell_id = start.shell_id;
  mode = start.mode;
  original_prompt = start.prompt;
  proposed_command = [];
  classification = start.classification.classification;
  classification_confidence = start.classification.confidence;
  approval_override = shell_override;
  awaiting_clarification = true;
  provider_continuation = continuation;
  tool_round = 0;
  created_at = now;
}

-- a task that waits for the answer to a question
unfoldable pub insert_asking : StartTask → Bool → Text → M (Unit {0})
insert_asking start continuation question = do
  update (λ s. record s {
    tasks =
        insert start.task_id
          (asking_task start (approval_override_for_shell s start.shell_id) continuation s.now)
          s.tasks;
  })
  send (needs_clarification start.task_id question)

-- The prompt is itself on the safety floor.
unfoldable pub refuse_prompt : Prompted → String → M (Unit {0})
refuse_prompt payload pattern = do
  send (
      error payload.task_id safety_floor
        (codes "Refused: prompt requested an immutable safety-floor command") (some pattern))
  send (
      task_complete payload.task_id safety_floor_hit
        (codes "Prompt matched immutable safety floor."))
  append_session_turn_if_session_mode payload.mode payload.shell_id payload.prompt
      (codes "Prompt blocked by immutable safety floor.")

module _ (engine : Engine) (answerers : Answerers) where
  open engine use {is_match, classify}
  open answerers use {answer_documentation, answer_web, try_local, run_stub, stub_enabled}

  -- Nothing has handled the prompt: the user is asked.
  unfoldable pub ask_behavior : StartTask → M (Unit {0})
  ask_behavior start = insert_asking start true (
      codes
        "I couldn't produce a grounded command from the available context yet. What exact command behavior should run, and which path or target should it use?")

  unfoldable pub run_fallback : StartTask → M (Unit {0})
  run_fallback start = do
    handled ← run_stub start
    if handled then return tt else ask_behavior start

  unfoldable pub run_provider : StartTask → M (Unit {0})
  run_provider start = do
    handled ← orchestrate_or_clear engine start
    if handled then return tt else run_fallback start

  unfoldable pub run_model : StartTask → M (Unit {0})
  run_model start = do
    handled ← if stub_enabled then run_stub start else return false
    if handled then return tt else run_provider start

  unfoldable pub run_local : Bool → StartTask → M (Unit {0})
  run_local shortcuts start = do
    handled ← if shortcuts then try_local start else return false
    if handled then return tt else run_model start

  -- Who answers. The mode `?` asks for a command, so there are no shortcuts but for a question that
  -- prefers an answer in words.
  unfoldable pub route_task : StartTask → M (Unit {0})
  route_task start s =
      let kind = start.classification.classification in
      let shortcuts = not (eq_text start.mode (codes "?")) in
      if shortcuts && is_documentation_question kind
      then answer_documentation start s
      else if (shortcuts
            || (eq_text start.mode (codes "?") && prompt_prefers_direct_answer start.prompt kind))
          && is_web_question kind
          && s.config.routing.web_enabled
      then answer_web start s
      else run_local shortcuts start s

  unfoldable pub start_allowed : Prompted → M (Unit {0})
  start_allowed payload s =
      let start = classified payload (classify payload.prompt) in
      if s.config.allow_clarifications
      then elim (clarification_question_for_ambiguous_prompt payload.prompt) [
        | some question ↦ insert_asking start false question s
        | none ↦ route_task start s
      ]
      else route_task start s

  unfoldable pub process_start_task : Prompted → M (Unit {0})
  process_start_task payload = elim (matches_safety_floor is_match (trim payload.prompt)) [
    | some matched ↦ refuse_prompt payload matched.pattern
    | none ↦ start_allowed payload
  ]
