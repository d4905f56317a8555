-- ===== src/Examples/Tasks.antt =====
-- The handlers of tasks on a small state: one shell with a task that the model proposed, and one
-- that waits for an answer.
use termlm.Base.{
  ℕ, Bool, true, false, [], ◌∷◌, ◌++◌, none, some, String, ◌≡◌, ◌==◌, ◌*◌, refl, ap, arith,
  if◌then◌else◌,
}
use termlm.Base.Text.{Text, codes, eq_text, trim, is_empty, is_whitespace}
use termlm.Base.Maps.{lookup}
use termlm.Safety.{find_pattern, matches_safety_floor}
use termlm.Daemon.{
  Routing, InFlightTask, fresh_command_request, exploratory_shell_question, user, Config,
  DaemonState, Reply, done, failed, blocked, with_conversations, safety_floor, safety_floor_hit,
  error, task_complete, clarification,
}
use termlm.Tasks.{
  clear_task_state, cancel_and_clear_shell_tasks, expired_tasks, expire_timed_out_tasks,
  active_task_timeout_kind, second,
}
use termlm.Tasks.Engine.{Engine}
use termlm.Tasks.Response.{
  UserResponse, edited, retry_start, respond_edited, respond_rejected, process_user_response,
}
use termlm.Tasks.Ack.{Ack, pos, process_ack}
use termlm.Tasks.Cleanup.{
  Cleared, clear_task_state-Cleared, ShellCleared, cancel_and_clear_shell_tasks-ShellCleared,
}
use termlm.Tasks.Timeouts.{Expired, expire_timed_out_tasks-Expired}
use termlm.Tasks.Keys.{IsDistinct}
use termlm.Tasks.Keeps.{Leaves}
use termlm.Tasks.Runs.{with_conversations-blocked}
use termlm.Tasks.Floor.{TasksOffFloor, process_user_response-TasksOffFloor}
use termlm.Tasks.Rounds.{RoundsLeft, process_ack-RoundsLeft}
use termlm.Tasks.Blocked.{respond_edited-blocked}
use termlm.Tasks.Deadlock.{Stuck, waits, respond_rejected-blocked}

abbrev proposal : InFlightTask
proposal = record {
  shell_id = 7;
  mode = codes "?";
  original_prompt = codes "list the files";
  proposed_command = codes "ls";
  classification = fresh_command_request;
  classification_confidence = 0x3f4ccccd;
  approval_override = false;
  awaiting_clarification = false;
  provider_continuation = true;
  tool_round = 0;
  created_at = 0;
}

abbrev question : InFlightTask
question = record {
  shell_id = 7;
  mode = codes "/p";
  original_prompt = codes "clean this up";
  proposed_command = [];
  classification = exploratory_shell_question;
  classification_confidence = 0x3f4ccccd;
  approval_override = false;
  awaiting_clarification = true;
  provider_continuation = false;
  tool_round = 0;
  created_at = 0;
}

abbrev tools : Routing
tools = record {
  dynamic_exposure_enabled = true;
  always_expose_execute = true;
  always_expose_lookup_docs = true;
  local_tools_enabled = true;
  expose_file_tools_for_local_questions = true;
  expose_terminal_context_only_when_needed = true;
  web_enabled = false;
  web_expose_tools = false;
  expose_web_only_when_needed = true;
}

abbrev pub settings : Config
settings = record {
  routing = tools;
  allow_clarifications = true;
  approval_mode = codes "manual";
  critical_patterns = codes "sudo" ∷ [];
  max_planning_rounds = 3;
  validate_command_flags = true;
  approve_all_resets_per_task = true;
  clarification_timeout_secs = 60;
  command_timeout_secs = 300;
  max_tool_rounds = 3;
  context_window_tokens = 4096;
}

-- the state 100 seconds after both tasks were made
abbrev pub running : DaemonState
running = record {
  config = settings;
  tasks = (1, proposal) ∷ (2, question) ∷ [];
  timed_out_tasks = [];
  task_conversations = (1, user (codes "list the files") ∷ []) ∷ [];
  conversations_locked = false;
  session_conversations = [];
  shell_approval_overrides = [];
  now = 100 * second;
  outbox = [];
  sends_left = 5;
  cancelled = [];
}

-- A matcher that knows a single command and lets every pattern match it, and an orchestration that handles nothing.
abbrev pub wipes : String → Text → Bool
wipes pattern command = eq_text command (codes "rm -rf /")

abbrev pub first_pattern : String
first_pattern = "^\\s*rm\\s+-[a-zA-Z]*r[a-zA-Z]*\\s+/(\\s|$)"

abbrev pub idle : Engine
idle = record {
  is_match = wipes;
  classify = λ _. record { classification = fresh_command_request; confidence = 0 };
  orchestrate = λ start s. done false s;
}

clear_task_state-Cleared_example :
    (t : DaemonState) × (clear_task_state 1 running ≡ done tt t) × Cleared 1 running t
clear_task_state-Cleared_example = clear_task_state-Cleared 1 running refl

running-IsDistinct : IsDistinct running.tasks
running-IsDistinct = (refl, (refl, tt))

cancel_and_clear_shell_tasks-ShellCleared_example :
    (t : DaemonState) × (cancel_and_clear_shell_tasks 7 running ≡ done tt t)
    × ShellCleared 7 running t
cancel_and_clear_shell_tasks-ShellCleared_example =
    cancel_and_clear_shell_tasks-ShellCleared 7 running refl running-IsDistinct

-- The clarification has timed out, the command has not.
timed_out : expired_tasks running running.tasks ≡ (2, clarification) ∷ []
unfolding expired_tasks active_task_timeout_kind
timed_out = refl

expire_timed_out_tasks-Expired_example :
    (t : DaemonState) × (expire_timed_out_tasks running ≡ done tt t) × Expired running t
expire_timed_out_tasks-Expired_example =
    expire_timed_out_tasks-Expired running refl running-IsDistinct tt

pub running-TasksOffFloor : TasksOffFloor wipes running
unfolding matches_safety_floor find_pattern eq_text
running-TasksOffFloor = (refl, (refl, tt))

abbrev wiping : UserResponse
wiping = record {
  task_id = 1;
  decision = edited;
  edited_command = some (codes " rm -rf / ");
  text = none;
}

process_user_response-TasksOffFloor_example :
    Leaves (TasksOffFloor wipes) (process_user_response idle wiping running)
process_user_response-TasksOffFloor_example =
    process_user_response-TasksOffFloor idle (λ start s h. h) wiping running running-TasksOffFloor

abbrev acknowledged : Ack
acknowledged = record {
  task_id = 1;
  executed_command = codes "ls";
  exit_status = pos 0;
  stdout_truncated = false;
  stderr_truncated = false;
  output = record { stdout_text = codes "a.txt"; stderr_text = []; tool_result = codes "{}" };
}

process_ack-RoundsLeft_example : Leaves (RoundsLeft 3) (process_ack idle acknowledged running)
process_ack-RoundsLeft_example =
    process_ack-RoundsLeft 3 idle (λ start s h. h) acknowledged running
      (refl, (omega arith, (omega arith, tt)))

wiping-matched :
    matches_safety_floor wipes (trim (codes " rm -rf / "))
    ≡ some (record { pattern = first_pattern; command = codes "rm -rf /" })
unfolding matches_safety_floor find_pattern eq_text trim is_whitespace
wiping-matched = refl

wiping-full : is_empty (trim (codes " rm -rf / ")) ≡ false
unfolding trim is_whitespace
wiping-full = refl

respond_edited-blocked_example :
    (t : DaemonState) × (respond_edited idle 1 proposal (some (codes " rm -rf / ")) running
      ≡ done tt t)
    × (t.outbox
        ≡ running.outbox
          ++ error 1 safety_floor
              (codes "edited command blocked by immutable safety floor")
              (some first_pattern)
            ∷ task_complete 1 safety_floor_hit (codes "Edited command blocked by safety floor.")
            ∷ [])
    × ((j : ℕ) → lookup j t.tasks ≡ (if 1 == j then none else lookup j running.tasks))
    × ((j : ℕ)
        → lookup j t.timed_out_tasks ≡ (if 1 == j then none else lookup j running.timed_out_tasks))
    × ((j : ℕ)
        → lookup j t.task_conversations
          ≡ (if 1 == j then none else lookup j running.task_conversations))
respond_edited-blocked_example =
    respond_edited-blocked idle 1 proposal (codes " rm -rf / ")
      (record { pattern = first_pattern; command = codes "rm -rf /" }) running wiping-full
      wiping-matched (omega arith) refl

-- An orchestration that asks for the lock, as `try_provider_orchestration` does.
abbrev asking : Engine
asking = record {
  is_match = wipes;
  classify = λ _. record { classification = fresh_command_request; confidence = 0 };
  orchestrate = λ start s. elim (with_conversations (λ m. m) s) [
    | done _ t ↦ done false t
    | failed t ↦ failed t
    | blocked ↦ blocked
  ];
}

asking-Stuck :
    (t : DaemonState)
    → t.conversations_locked ≡ true
    → Stuck asking (retry_start asking 1 proposal) t
asking-Stuck t held = waits (
    ap
      (λ (r : Reply Unit). elim r as (λ _. Reply Bool) [
        | done _ u ↦ done false u
        | failed u ↦ failed u
        | blocked ↦ blocked
      ])
      (with_conversations-blocked (λ m. m) t held))

too_slow-full : is_empty (trim (codes "too slow")) ≡ false
unfolding trim is_whitespace
too_slow-full = refl

respond_rejected-blocked_example :
    respond_rejected asking 1 proposal (some (codes "too slow")) running ≡ blocked
respond_rejected-blocked_example =
    respond_rejected-blocked asking 1 proposal (codes "too slow") running refl too_slow-full
      asking-Stuck
