-- ===== src/Propose/Draft.antt =====
-- What a round of `propose_command_for_execution` in crates/termlm-core/src/main.rs finds out of its
-- draft, and the answers of the rounds that end without a proposal.
--
-- `Planner` holds what the loop calls and is not modelled: regular expressions, the clean-up of a
-- drafted command, the look-ups in the index and the shell, the JSON of the feedback, and the
-- calls of the model.
use termlm.Base.{
  ℕ, Bool, true, not, ◌&&◌, List, [], ◌∷◌, ◌++◌, Option, none, some, map, String, if◌then◌else◌,
}
use termlm.Base.Text.{Text, codes, contains, contains_char, is_empty, first_piece}
use termlm.Base.Maps.{insert}
use termlm.Shell.{ParsedCommand, parse_command, has_risky_constructs}
use termlm.Safety.{is_critical}
use termlm.Daemon.{
  InFlightTask, tool, safety_floor, safety_floor_hit, GroundingRef, DaemonState, M, ◌>>◌, update,
  send, with_conversations, error, task_complete, needs_clarification,
}
use termlm.Tasks.{push_message, append_session_turn_if_session_mode, clear_task_state}
use termlm.Tasks.Engine.{StartTask}
use termlm.Planning.Words.{ValidationFinding, is_one_of}
use termlm.Planning.Round.{validate_round}
use termlm.Propose.Segments.{extract_command_names}
use termlm.Propose.Findings.{counted_findings}

pub record Planner : Type 0 where
  pub is_match : String → Text → Bool
  pub is_critical_match : Text → Text → Bool
  pub sanitize : Text → Text → Text
  pub command_exists : DaemonState → Text → Bool
  pub suggest_known_commands : DaemonState → Text → List Text
  pub lookup_docs_excerpt : DaemonState → Text → Text
  pub build_grounding_refs : DaemonState → Text → Text → Text → List GroundingRef
  pub tool_response : Text → Text → List ValidationFinding → List Text → ℕ → ℕ → Text
  pub orchestrate : StartTask → Text → M Bool
  pub redraft : StartTask → M (Option Text)
  pub stub_enabled : Bool

-- what the task was before
pub record Prior : Type 0 where
  pub approval_override : Bool
  pub provider_continuation : Bool
  pub tool_round : ℕ

-- what stays the same over the rounds
pub record Plan : Type 0 where
  pub payload : StartTask
  pub prior : Prior
  pub continuation : Bool
  pub by_tool_call : Bool
  pub critical_patterns : List Text
  pub max_rounds : ℕ

pub record Draft : Type 0 where
  pub working_cmd : Text
  pub planning_round : ℕ
  pub last_findings : List ValidationFinding

-- what a round finds out of its draft
pub record Inspected : Type 0 where
  pub parsed : ParsedCommand
  pub names : List Text
  pub validation_token : Text
  pub suggestions : List Text
  pub grounding : List GroundingRef
  pub findings : List ValidationFinding

-- how a round ends: the client is answered, the draft is good, or there is a next one
pub data Verdict : Type 0 where
  answered : Verdict
  accepted : Draft → Inspected → Verdict
  again : Draft → Verdict

pub data Planned : Type 0 where
  finished : Planned
  good : Draft → Inspected → Planned
  unfinished : Planned

-- a task without a command that waits for an answer
unfoldable pub waiting_task : Plan → Bool → ℕ → InFlightTask
waiting_task plan continuation now = record {
  shell_id = plan.payload.shell_id;
  mode = plan.payload.mode;
  original_prompt = plan.payload.prompt;
  proposed_command = [];
  classification = plan.payload.classification.classification;
  classification_confidence = plan.payload.classification.confidence;
  approval_override = plan.prior.approval_override;
  awaiting_clarification = true;
  provider_continuation = continuation;
  tool_round = plan.prior.tool_round;
  created_at = now;
}

-- `state.tasks.lock().await.insert(..)` and the question
unfoldable pub ask : Plan → Bool → Text → M (Unit {0})
ask plan continuation question = do
  update (λ s. record s {
    tasks = insert plan.payload.task_id (waiting_task plan continuation s.now) s.tasks;
  })
  send (needs_clarification plan.payload.task_id question)

unfoldable pub session_turn : Plan → Text → M (Unit {0})
session_turn plan text =
    append_session_turn_if_session_mode plan.payload.mode plan.payload.shell_id plan.payload.prompt
      text

-- A draft on the safety floor.
unfoldable pub refuse_floor : Plan → String → M (Unit {0})
refuse_floor plan pattern = do
  send (
      error plan.payload.task_id safety_floor
        (codes "Refused: command matched immutable safety floor") (some pattern))
  with_conversations (
      push_message plan.payload.task_id (
        tool (codes "execute_shell_command") (
          codes "Refused: command matched the immutable safety floor pattern `"
          ++ (codes pattern ++ codes "`. Propose a safer alternative."))))
  λ s.
      if s.config.allow_clarifications
      then ask plan true
          (codes
            "That command is blocked by the immutable safety floor. What safer outcome should I achieve?")
          s
      else (do
        send (
            task_complete plan.payload.task_id safety_floor_hit
              (codes "Command blocked by immutable safety floor."))
        session_turn plan (codes "Command blocked by immutable safety floor.")
        clear_task_state plan.payload.task_id)
          s

abbrev or_first : List Text → Option Text → List Text
or_first [] none = []
or_first [] (some t) = t ∷ []
or_first (n ∷ ns) first = n ∷ ns

abbrev first_or : List Text → Text → Text
first_or [] t = t
first_or (n ∷ ns) t = n

unfoldable pub missing_commands : (Text → Bool) → List Text → List Text
missing_commands exists [] = []
missing_commands exists (n ∷ ns) =
    let others = missing_commands exists ns in if exists n then others else n ∷ others

module _ (planner : Planner) where
  open planner use {
    is_match, is_critical_match, sanitize, command_exists, suggest_known_commands,
    lookup_docs_excerpt, build_grounding_refs, tool_response, orchestrate, redraft, stub_enabled,
  }

  -- The flags of a draft are checked where it is one simple command.
  unfoldable pub checks_flags : DaemonState → Text → Text → ParsedCommand → Bool
  checks_flags s cmd first parsed =
      s.config.validate_command_flags
      && not parsed.has_pipeline
      && not parsed.has_control_operators
      && not (contains_char cmd b'|')
      && not (contains cmd (codes "&&"))
      && not (contains_char cmd b';')
      && not (is_one_of ("find" ∷ "stat" ∷ []) first)

  unfoldable pub inspect : Plan → Text → DaemonState → Inspected
  inspect plan cmd s =
      let parsed = parse_command cmd in
      let names = or_first (extract_command_names cmd 8) parsed.first_token in
      let first = first_piece names in
      let missing = missing_commands (command_exists s) names in
      let exists = not (is_empty names) && is_empty missing in
      let token = first_or missing first in
      let refs = build_grounding_refs s plan.payload.prompt first cmd in
      record {
        parsed = parsed;
        names = names;
        validation_token = token;
        suggestions = if exists then [] else suggest_known_commands s token;
        grounding = refs;
        findings =
            counted_findings first exists plan.by_tool_call
              (is_critical is_critical_match plan.critical_patterns cmd)
              (validate_round
                (record {
                  command = cmd;
                  grounding = map (λ (g : GroundingRef). g.source ++ codes "#" ++ g.command) refs;
                })
                (record {
                  prompt = plan.payload.prompt;
                  command_exists = exists;
                  docs_excerpt = if is_empty first then [] else lookup_docs_excerpt s first;
                  validate_command_flags = checks_flags s cmd first parsed;
                  parse_ambiguous = parsed.ambiguous;
                  parse_warnings = map codes parsed.warnings;
                  parse_risky_constructs = has_risky_constructs parsed;
                }));
      }
