-- ===== src/Tasks.antt =====
-- The tasks, timeouts and session turns of the daemon in crates/termlm-core/src/main.rs, and the
-- operations on them that the handlers share.
pub mod Keys
pub mod Runs
pub mod Keeps
pub mod Engine
pub mod Response
pub mod Ack
pub mod Floor
pub mod Timeouts
pub mod Cleanup
pub mod Steps
pub mod Start
pub mod Starts
pub mod Unhandled
pub mod Rounds
pub mod Blocked
pub mod Deadlock
use termlm.Base.{
  ℕ, zero, suc, ◌+◌, ◌-◌, ◌*◌, max, Bool, true, false, not, ◌&&◌, List, [], ◌∷◌, ◌++◌, Option, none,
  some, String, ltb, leb, ◌==◌, if◌then◌else◌,
}
use termlm.Base.Text.{Text, codes, eq_text, is_empty, trim}
use termlm.Base.Maps.{lookup, remove, insert, modify, retain}
use termlm.Session.{SessionConversation, push_turn}
use termlm.Daemon.{
  ChatMessage, ClassificationResult, Config, DaemonState, ErrorKind, InFlightTask, M, Reply,
  ServerMessage, TaskClassification, TaskCompleteReason, TaskTimeoutKind, TimedOutTask, aborted,
  assistant, bad_protocol, blocked, clarification, command, diagnostic_debugging,
  documentation_question, done, error, exploratory_shell_question, failed, fresh_command_request,
  lock, model_done, model_text, needs_clarification, referential_followup, return, safety_floor,
  safety_floor_hit, send, summary, system, task_complete, timeout, tool, tool_round_limit, unlock,
  update, user, web_current_info_question, with_conversations, ◌>>=◌, ◌>>◌,
}

-- `conversations.entry(task_id).or_insert_with(Vec::new).push(message)`
unfoldable pub push_message :
    ℕ → ChatMessage → List (ℕ × List ChatMessage) → List (ℕ × List ChatMessage)
push_message task_id message m =
    insert task_id
      (elim (lookup task_id m) [ none ↦ message ∷ [] | some history ↦ history ++ message ∷ [] ]) m

unfoldable pub cancel_provider_task : ℕ → M (Unit {0})
cancel_provider_task task_id = update (λ s. record s { cancelled = s.cancelled ++ task_id ∷ [] })

-- the approval override that `clear_task_state` takes back
unfoldable pub reset_override : Option InFlightTask → M (Unit {0})
reset_override none s = done tt s
reset_override (some task) s = done tt (
    if s.config.approve_all_resets_per_task
    then record s { shell_approval_overrides = remove task.shell_id s.shell_approval_overrides }
    else s)

unfoldable pub clear_task_state : ℕ → M (Unit {0})
unfolding reset_override with_conversations
clear_task_state task_id s =
    (do
      reset_override (lookup task_id s.tasks)
      update (λ t. record t { timed_out_tasks = remove task_id t.timed_out_tasks })
      with_conversations (remove task_id))
      (record s { tasks = remove task_id s.tasks })

unfoldable pub cancel_and_clear_task : ℕ → M (Unit {0})
unfolding cancel_provider_task clear_task_state
cancel_and_clear_task task_id = do cancel_provider_task task_id; clear_task_state task_id

-- the tasks of one shell
unfoldable pub shell_task_ids : ℕ → List (ℕ × InFlightTask) → List ℕ
shell_task_ids shell_id [] = []
shell_task_ids shell_id ((task_id, task) ∷ rest) =
    let others = shell_task_ids shell_id rest in
    if task.shell_id == shell_id then task_id ∷ others else others

unfoldable pub remove_all {ℓ} : {V : Type ℓ} → List ℕ → List (ℕ × V) → List (ℕ × V)
remove_all [] m = m
remove_all (k ∷ ks) m = remove_all ks (remove k m)

unfoldable pub cancel_and_clear_shell_tasks : ℕ → M (Unit {0})
unfolding with_conversations
cancel_and_clear_shell_tasks shell_id s =
    let task_ids = shell_task_ids shell_id s.tasks in
    if is_empty task_ids
    then done tt s
    else (do
      update (λ t. record t {
        cancelled = t.cancelled ++ task_ids;
        tasks = remove_all task_ids t.tasks;
      })
      with_conversations (remove_all task_ids)
      update (λ t. record t {
        timed_out_tasks = remove_all task_ids t.timed_out_tasks;
        shell_approval_overrides = remove shell_id t.shell_approval_overrides;
      }))
        s

abbrev pub second : ℕ
second = 1000000000

abbrev pub clarification_timeout : DaemonState → ℕ
clarification_timeout s = max s.config.clarification_timeout_secs 1 * second

abbrev pub command_timeout : DaemonState → ℕ
command_timeout s = max s.config.command_timeout_secs 1 * second

-- The two timeouts against the time since the task was created or last answered. The same test
-- stands in `expire_timed_out_tasks`. (`duration_since` stops at 0.)
unfoldable pub active_task_timeout_kind : DaemonState → InFlightTask → Option TaskTimeoutKind
active_task_timeout_kind s task =
    let elapsed = s.now - task.created_at in
    if task.awaiting_clarification
    then (if leb (clarification_timeout s) elapsed then some clarification else none)
    else (if leb (command_timeout s) elapsed then some command else none)

-- the loop that collects the expired tasks
unfoldable pub expired_tasks : DaemonState → List (ℕ × InFlightTask) → List (ℕ × TaskTimeoutKind)
expired_tasks s [] = []
expired_tasks s ((task_id, task) ∷ rest) =
    let others = expired_tasks s rest in
    elim (active_task_timeout_kind s task) [ none ↦ others | some kind ↦ (task_id, kind) ∷ others ]

abbrev pub keys {ℓ} : {V : Type ℓ} → List (ℕ × V) → List ℕ
keys [] = []
keys ((k, _) ∷ rest) = k ∷ keys rest

unfoldable pub insert_timed_out :
    ℕ → List (ℕ × TaskTimeoutKind) → List (ℕ × TimedOutTask) → List (ℕ × TimedOutTask)
insert_timed_out now [] m = m
insert_timed_out now ((task_id, kind) ∷ rest) m =
    insert_timed_out now rest (insert task_id (record { at = now; kind = kind }) m)

abbrev pub retention : DaemonState → ℕ
retention s =
    max (max (max s.config.clarification_timeout_secs 1) (max s.config.command_timeout_secs 1)) 30
    * second

abbrev pub is_retained : DaemonState → TimedOutTask → Bool
is_retained s t = leb (s.now - t.at) (retention s)

unfoldable pub expire_timed_out_tasks : M (Unit {0})
unfolding with_conversations
expire_timed_out_tasks s =
    let expired = expired_tasks s s.tasks in
    if is_empty expired
    then done tt (record s { timed_out_tasks = retain (is_retained s) s.timed_out_tasks })
    else (do
      update (λ t. record t { tasks = remove_all (keys expired) t.tasks })
      with_conversations (remove_all (keys expired))
      update (λ t. record t {
        timed_out_tasks = retain (is_retained s) (insert_timed_out s.now expired t.timed_out_tasks);
      }))
        s

unfoldable pub consume_timed_out_task : ℕ → M (Option TaskTimeoutKind)
consume_timed_out_task task_id s =
    let rest = record s { timed_out_tasks = remove task_id s.timed_out_tasks } in
    elim (lookup task_id s.timed_out_tasks) [
      | none ↦ done none rest
      | some t ↦ done (some t.kind) rest
    ]

abbrev conversation_of : Option SessionConversation → SessionConversation
conversation_of none = record { system_prompt = []; turns = [] }
conversation_of (some conv) = conv

-- `append_session_turn`: the entry of the shell is made where there is none, and only where the
-- turn is stored
unfoldable pub append_session_turn : ℕ → Text → Text → M (Unit {0})
unfolding push_turn
append_session_turn shell_id user_text assistant_text s =
    if is_empty (trim user_text) && is_empty (trim assistant_text)
    then done tt s
    else done tt (record s {
      session_conversations =
          insert shell_id
            (push_turn s.config.context_window_tokens
              (conversation_of (lookup shell_id s.session_conversations)) user_text assistant_text)
            s.session_conversations;
    })

unfoldable pub append_session_turn_if_session_mode : Text → ℕ → Text → Text → M (Unit {0})
unfolding append_session_turn
append_session_turn_if_session_mode mode shell_id user_text assistant_text s =
    if eq_text mode (codes "/p")
    then append_session_turn shell_id user_text assistant_text s
    else done tt s

-- `get(&shell_id).copied().unwrap_or(false)`
abbrev or_false : Option Bool → Bool
or_false none = false
or_false (some b) = b

unfoldable pub approval_override_for_shell : DaemonState → ℕ → Bool
approval_override_for_shell s shell_id =
    if s.config.approve_all_resets_per_task
    then false
    else or_false (lookup shell_id s.shell_approval_overrides)
