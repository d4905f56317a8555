-- ===== src/Daemon.antt =====
-- The state of the daemon in crates/termlm-core/src/main.rs: `InFlightTask`, the parts of
-- `DaemonState` that its handlers change, the messages that it sends, and the steps of a handler.
--
-- A handler runs to its end, or returns `Err` because a send to the client failed, or waits for
-- ever for a lock that it holds itself. A send fails once `sends_left` is used up. Time is counted
-- in nanoseconds. Of the locks only that of `task_conversations` is modelled, the one which a
-- handler holds while it calls others.
use termlm.Base.{
  ℕ, ◌-◌, Bool, true, false, List, [], ◌∷◌, ◌++◌, Option, String, ◌==◌, if◌then◌else◌,
}
use termlm.Base.Text.{Text, codes}
use termlm.Session.{SessionConversation}

pub data TaskClassification : Type 0 where
  fresh_command_request referential_followup diagnostic_debugging : TaskClassification
  documentation_question web_current_info_question exploratory_shell_question : TaskClassification

-- `confidence` is the bit pattern of the `f32`, which the handlers only copy.
pub record ClassificationResult : Type 0 where
  pub classification : TaskClassification
  pub confidence : ℕ

pub record InFlightTask : Type 0 where
  pub shell_id : ℕ
  pub mode : Text
  pub original_prompt : Text
  pub proposed_command : Text
  pub classification : TaskClassification
  pub classification_confidence : ℕ
  pub approval_override : Bool
  pub awaiting_clarification : Bool
  pub provider_continuation : Bool
  pub tool_round : ℕ  -- u32
  pub created_at : ℕ

pub data TaskTimeoutKind : Type 0 where
  clarification command : TaskTimeoutKind

unfoldable pub summary : TaskTimeoutKind → Text
summary clarification = codes "Task ended: clarification timeout elapsed."
summary command = codes "Task ended: command timeout elapsed."

pub record TimedOutTask : Type 0 where
  pub at : ℕ
  pub kind : TaskTimeoutKind

-- A message of a task's conversation with the model, by its role.
pub data ChatMessage : Type 0 where
  system user assistant : Text → ChatMessage
  tool : Text → Text → ChatMessage

pub data TaskCompleteReason : Type 0 where
  model_done aborted timeout tool_round_limit safety_floor_hit : TaskCompleteReason

pub data ErrorKind : Type 0 where
  bad_protocol safety_floor unknown_command bad_tool_call : ErrorKind

-- `extracted_at` in seconds
pub record GroundingRef : Type 0 where
  pub command : Text
  pub source : Text
  pub sections : List Text
  pub extraction_method : Option Text
  pub doc_hash : Option Text
  pub extracted_at : Option ℕ
  pub index_version : Option ℕ

pub record ProposedCommand : Type 0 where
  pub cmd : Text
  pub rationale : Text
  pub intent : Text
  pub expected_effect : Text
  pub commands_used : List Text
  pub risk_level : Text
  pub requires_approval : Bool
  pub critical_match : Option Text
  pub grounding : List GroundingRef
  pub validation_status : Text
  pub round : ℕ

pub data ServerMessage : Type 0 where
  task_complete : ℕ → TaskCompleteReason → Text → ServerMessage
  error : ℕ → ErrorKind → Text → Option String → ServerMessage
  model_text : ℕ → Text → ServerMessage
  needs_clarification : ℕ → Text → ServerMessage
  proposed_command : ℕ → ProposedCommand → ServerMessage

-- the settings that decide which tools a task may offer
pub record Routing : Type 0 where
  pub dynamic_exposure_enabled : Bool
  pub always_expose_execute : Bool
  pub always_expose_lookup_docs : Bool
  pub local_tools_enabled : Bool
  pub expose_file_tools_for_local_questions : Bool
  pub expose_terminal_context_only_when_needed : Bool
  pub web_enabled : Bool
  pub web_expose_tools : Bool
  pub expose_web_only_when_needed : Bool

-- the settings that the handlers read
pub record Config : Type 0 where
  pub routing : Routing
  pub allow_clarifications : Bool
  pub approval_mode : Text
  pub critical_patterns : List Text
  pub max_planning_rounds : ℕ
  pub validate_command_flags : Bool
  pub approve_all_resets_per_task : Bool
  pub clarification_timeout_secs : ℕ
  pub command_timeout_secs : ℕ
  pub max_tool_rounds : ℕ
  pub context_window_tokens : ℕ

pub record DaemonState : Type 0 where
  pub config : Config
  pub tasks : List (ℕ × InFlightTask)
  pub timed_out_tasks : List (ℕ × TimedOutTask)
  pub task_conversations : List (ℕ × List ChatMessage)
  pub conversations_locked : Bool
  pub session_conversations : List (ℕ × SessionConversation)
  pub shell_approval_overrides : List (ℕ × Bool)
  pub now : ℕ
  pub outbox : List ServerMessage
  pub sends_left : ℕ
  pub cancelled : List ℕ

pub data Reply (A : Type 0) : Type 0 where
  done : A → DaemonState → Reply A
  failed : DaemonState → Reply A
  blocked : Reply A

abbrev pub M : Type 0 → Type 0
M A = DaemonState → Reply A

infixl 5 ◌>>=◌ ◌>>◌
abbrev pub ◌>>=◌ : {X Y : Type 0} → M X → (X → M Y) → M Y
◌>>=◌ first next s = elim (first s) [
  | done x s' ↦ next x s'
  | failed s' ↦ failed s'
  | blocked ↦ blocked
]

abbrev pub ◌>>◌ : {Y : Type 0} → M (Unit {0}) → M Y → M Y
first >> later = first >>= λ _. later

abbrev pub return : {A : Type 0} → A → M A
return a s = done a s

abbrev pub update : (DaemonState → DaemonState) → M (Unit {0})
update f s = done tt (f s)

-- `transport.send(message).await?`
unfoldable pub send : ServerMessage → M (Unit {0})
send message s =
    if s.sends_left == 0
    then failed s
    else done tt (record s { outbox = s.outbox ++ message ∷ []; sends_left = s.sends_left - 1 })

-- `task_conversations.lock().await`, for one statement or until `unlock`
unfoldable pub lock : M (Unit {0})
lock s =
    if s.conversations_locked then blocked else done tt (record s { conversations_locked = true })

abbrev pub unlock : M (Unit {0})
unlock = update (λ s. record s { conversations_locked = false })

unfoldable pub with_conversations :
    (List (ℕ × List ChatMessage) → List (ℕ × List ChatMessage)) → M (Unit {0})
with_conversations f s =
    if s.conversations_locked
    then blocked
    else done tt (record s { task_conversations = f s.task_conversations })
