-- ===== src/Tasks/Ack.antt =====
-- `process_ack` of crates/termlm-core/src/main.rs: the shell reports that a command has run.
--
-- `Output` is what the handler has made of the payload's captured output before it uses it: the
-- decoded, redacted texts, and the serialized tool result. Those steps (base64, UTF-8, the
-- redaction patterns, JSON) and the storing of the observed command are not modelled.
use termlm.Base.{
  ℕ, String, ◌+◌, min, Bool, true, false, [], ◌∷◌, ◌++◌, none, some, leb, ltb, ◌==◌, if◌then◌else◌,
  take, length,
}
use termlm.Base.Text.{Text, codes, is_empty, trim, show_u64}
use termlm.Session.{ellipsis}
use termlm.Base.Maps.{lookup, remove, modify}
use termlm.Daemon.{
  InFlightTask, TaskTimeoutKind, diagnostic_debugging, summary, tool, model_done, timeout,
  tool_round_limit, bad_protocol, task_complete, error, model_text, M, ◌>>=◌, ◌>>◌, return, update,
  send, with_conversations,
}
use termlm.Tasks.{
  push_message, active_task_timeout_kind, consume_timed_out_task,
  append_session_turn_if_session_mode,
}
use termlm.Tasks.Engine.{Engine, orchestrate_or_clear}

-- an `i32`
pub data Status : Type 0 where
  pos : ℕ → Status
  negsuc : ℕ → Status

unfoldable pub show_status : Status → Text
show_status (pos n) = show_u64 n
show_status (negsuc n) = codes "-" ++ show_u64 (n + 1)

abbrev is_zero : Status → Bool
is_zero (pos n) = n == 0
is_zero (negsuc n) = false

pub record Output : Type 0 where
  pub stdout_text : Text
  pub stderr_text : Text
  pub tool_result : Text

pub record Ack : Type 0 where
  pub task_id : ℕ
  pub executed_command : Text
  pub exit_status : Status
  pub stdout_truncated : Bool
  pub stderr_truncated : Bool
  pub output : Output

-- u32::MAX
abbrev pub u32_max : ℕ
u32_max = 4294967295

-- 0.8 as an `f32`
abbrev eight_tenths : ℕ
eight_tenths = 0x3f4ccccd

-- `truncate_string`, which marks the cut
unfoldable pub truncate_string : Text → ℕ → Text
truncate_string input max_chars =
    if ltb max_chars (length input)
    then take max_chars input ++ ellipsis ∷ []
    else take max_chars input

module _ (engine : Engine) where
  unfoldable pub output_section : String → Text → ℕ → Text
  output_section title text max_chars =
      if is_empty (trim text)
      then []
      else codes title ++ (truncate_string text max_chars ++ codes "\n")

  -- the prompt that goes on with the task after its command
  unfoldable pub followup_prompt : InFlightTask → Ack → Text
  unfolding output_section
  followup_prompt task payload =
      task.original_prompt
      ++ (codes "\n\nPrevious command result:\n"
          ++ (codes "- command: "
              ++ (payload.executed_command
                  ++ (codes "\n- exit_status: "
                      ++ (show_status payload.exit_status
                          ++ (codes "\n"
                              ++ (output_section "- stdout:\n" payload.output.stdout_text 1600
                                  ++ (output_section "- stderr:\n" payload.output.stderr_text 1200
                                      ++ codes
                                          "Continue the same task. Propose the next shell command only if needed; otherwise finish."))))))))

  unfoldable pub round_limit_text : ℕ → Text
  round_limit_text n = codes "Stopped after " ++ (show_u64 n ++ codes " tool rounds.")

  -- the tool rounds of the task are used up
  unfoldable pub stop_rounds : InFlightTask → Ack → M (Unit {0})
  stop_rounds task payload s =
      let text = round_limit_text s.config.max_tool_rounds in
      (do
        send (task_complete payload.task_id tool_round_limit text)
        with_conversations (remove payload.task_id)
        append_session_turn_if_session_mode task.mode task.shell_id task.original_prompt text)
        s

  -- the orchestration goes on, in the next round
  unfoldable pub continue_task : InFlightTask → Ack → ℕ → M Bool
  continue_task task payload next_round = do
    handled ← orchestrate_or_clear engine (record {
      task_id = payload.task_id;
      shell_id = task.shell_id;
      mode = task.mode;
      prompt = followup_prompt task payload;
      classification = record { classification = diagnostic_debugging; confidence = eight_tenths };
    })
    update (λ s. record s {
      tasks =
          if handled
          then modify payload.task_id
              (λ t. record t {
                tool_round = next_round;
                provider_continuation = true;
                original_prompt = task.original_prompt;
              })
              s.tasks
          else s.tasks;
    })
    return handled

  unfoldable pub send_output : ℕ → Text → ℕ → M (Unit {0})
  send_output task_id text max_chars =
      if is_empty (trim text)
      then return tt
      else send (model_text task_id (truncate_string text max_chars))

  unfoldable pub ack_summary : Ack → Text
  ack_summary payload =
      codes "Command exited with status "
      ++ (show_status payload.exit_status
          ++ ((if is_empty (trim payload.output.stdout_text)
                then []
                else if payload.stdout_truncated
                then codes "; stdout captured (truncated)"
                else codes "; stdout captured")
              ++ (if is_empty (trim payload.output.stderr_text)
                  then []
                  else if payload.stderr_truncated
                  then codes "; stderr truncated"
                  else [])))

  unfoldable pub outcome : Status → Text
  outcome status =
      if is_zero status
      then codes "Command completed successfully."
      else codes "Command failed with exit status " ++ (show_status status ++ codes ".")

  -- the task is over
  unfoldable pub finish_task : InFlightTask → Ack → M (Unit {0})
  finish_task task payload = do
    send_output payload.task_id payload.output.stdout_text 400
    send_output payload.task_id payload.output.stderr_text 240
    send (task_complete payload.task_id model_done (ack_summary payload))
    append_session_turn_if_session_mode task.mode task.shell_id task.original_prompt
        (outcome payload.exit_status)
    with_conversations (remove payload.task_id)

  unfoldable pub ack_continuing : InFlightTask → Ack → M (Unit {0})
  ack_continuing task payload = do
    with_conversations (
        push_message payload.task_id
          (tool (codes "execute_shell_command") payload.output.tool_result))
    let next_round = min (task.tool_round + 1) u32_max
    λ s.
        if leb s.config.max_tool_rounds next_round
        then stop_rounds task payload s
        else (do
          handled ← continue_task task payload next_round
          if handled then return tt else finish_task task payload)
            s

  unfoldable pub ack_expired : InFlightTask → Ack → TaskTimeoutKind → M (Unit {0})
  ack_expired task payload kind = do
    with_conversations (remove payload.task_id)
    send (task_complete payload.task_id timeout (summary kind))
    append_session_turn_if_session_mode task.mode task.shell_id task.original_prompt (summary kind)

  unfoldable pub ack_active : InFlightTask → Ack → M (Unit {0})
  ack_active task payload s = elim (active_task_timeout_kind s task) [
    | some kind ↦ ack_expired task payload kind s
    | none ↦
        (if task.provider_continuation
            then ack_continuing task payload
            else finish_task task payload)
          s
  ]

  unfoldable pub process_ack : Ack → M (Unit {0})
  process_ack payload = do
    expired ← consume_timed_out_task payload.task_id
    elim expired [
      | some kind ↦ send (task_complete payload.task_id timeout (summary kind))
      | none ↦ λ s. elim (lookup payload.task_id s.tasks) [
        | none ↦
            send
              (error payload.task_id bad_protocol (codes "Ack received for unknown task_id") none) s
        | some task ↦ ack_active task payload (record s { tasks = remove payload.task_id s.tasks })
      ]
    ]
