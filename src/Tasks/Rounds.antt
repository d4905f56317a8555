-- ===== src/Tasks/Rounds.antt =====
-- The tool rounds of a task, over `process_ack` of crates/termlm-core/src/main.rs.
use termlm.Base.{
  ℕ, ◌+◌, ◌<◌, min, Bool, true, false, Option, none, some, ◌≡◌, refl, arith, leb, if◌then◌else◌,
}
use termlm.Base.Text.{Text, codes, is_empty, trim}
use termlm.Base.Maps.{lookup, remove, modify}
use termlm.Daemon.{
  InFlightTask, TaskTimeoutKind, summary, timeout, bad_protocol, task_complete, error, DaemonState,
  ◌>>=◌, send, return, with_conversations,
}
use termlm.Tasks.{
  consume_timed_out_task, active_task_timeout_kind, append_session_turn_if_session_mode,
}
use termlm.Tasks.Engine.{StartTask, Engine, orchestrate_or_clear}
use termlm.Tasks.Ack.{
  Ack, u32_max, stop_rounds, continue_task, send_output, finish_task, ack_continuing, ack_expired,
  ack_active, process_ack,
}
use termlm.Tasks.Steps
use termlm.Tasks.Keeps.{
  Leaves, Keeps, TasksAll, Keeps-bind, Keeps-if, Leaves-option, All-remove, All-modify, Keeps-send,
  Keeps-with_conversations,
}

-- Under a limit `n` of tool rounds, every task has rounds left.
abbrev pub RoundsLeft : ℕ → DaemonState → Type 0
RoundsLeft n s = (s.config.max_tool_rounds ≡ n) × TasksAll (λ task. task.tool_round < n) s

module _ (n : ℕ) where
  kept :
      (s t : DaemonState)
      → t.tasks ≡ s.tasks
      → t.config ≡ s.config
      → RoundsLeft n s
      → RoundsLeft n t
  kept s t e c (limit, h) = (rw c limit, rw e h)

  framed :
      (s t : DaemonState)
      → t.tasks ≡ s.tasks
      → t.config ≡ s.config
      → t.outbox ≡ s.outbox
      → RoundsLeft n s
      → RoundsLeft n t
  framed s t e c _ = kept s t e c

  removed :
      (k : ℕ) (s : DaemonState)
      → RoundsLeft n s
      → RoundsLeft n (record s { tasks = remove k s.tasks })
  removed k s (limit, h) = (limit, All-remove _ k s.tasks h)

  send-Keeps : (message : _) → Keeps (RoundsLeft n) (send message)
  send-Keeps = Keeps-send (RoundsLeft n) kept

  session-Keeps :
      (mode : Text) (shell_id : ℕ) (user_text assistant_text : Text)
      → Keeps
          (RoundsLeft n)
          (append_session_turn_if_session_mode mode shell_id user_text assistant_text)
  session-Keeps = Steps.session-Keeps (RoundsLeft n) framed removed

  module _ (engine : Engine) where
    output-Keeps :
        (task_id : ℕ) (text : Text) (max_chars : ℕ)
        → Keeps (RoundsLeft n) (send_output engine task_id text max_chars)
    unfolding send_output
    output-Keeps task_id text max_chars =
        Keeps-if (RoundsLeft n) (is_empty (trim text)) (return tt) _ (λ s h. h) (send-Keeps _)

    finish-Keeps :
        (task : InFlightTask) (payload : Ack)
        → Keeps (RoundsLeft n) (finish_task engine task payload)
    unfolding finish_task
    finish-Keeps task payload =
        Keeps-bind (RoundsLeft n) (send_output engine _ _ _) _ (output-Keeps _ _ _) (λ _.
          Keeps-bind (RoundsLeft n) (send_output engine _ _ _) _ (output-Keeps _ _ _) (λ _.
            Keeps-bind (RoundsLeft n) (send _) _ (send-Keeps _) (λ _.
              Keeps-bind (RoundsLeft n) (append_session_turn_if_session_mode _ _ _ _) _
                (session-Keeps _ _ _ _) (λ _. Keeps-with_conversations (RoundsLeft n) framed _))))

    stop-Keeps :
        (task : InFlightTask) (payload : Ack)
        → Keeps (RoundsLeft n) (stop_rounds engine task payload)
    unfolding stop_rounds
    stop-Keeps task payload s =
        Keeps-bind (RoundsLeft n) (send _) _ (send-Keeps _)
          (λ _.
            Keeps-bind (RoundsLeft n) (with_conversations _) _
              (Keeps-with_conversations (RoundsLeft n) framed _) (λ _. session-Keeps _ _ _ _))
          s

    expired-Keeps :
        (task : InFlightTask) (payload : Ack) (kind : TaskTimeoutKind)
        → Keeps (RoundsLeft n) (ack_expired engine task payload kind)
    unfolding ack_expired
    expired-Keeps task payload kind =
        Keeps-bind (RoundsLeft n) (with_conversations _) _
          (Keeps-with_conversations (RoundsLeft n) framed _)
          (λ _. Keeps-bind (RoundsLeft n) (send _) _ (send-Keeps _) (λ _. session-Keeps _ _ _ _))

    module _
        (orchestrate-Keeps : (start : StartTask)
          → Keeps (RoundsLeft n) (engine.orchestrate start)) where
      handled-Keeps :
          (s : DaemonState) (task_id : ℕ) (f : InFlightTask → InFlightTask) (handled : Bool)
          → ((t : InFlightTask) → (f t).tool_round < n)
          → RoundsLeft n s
          → RoundsLeft n
              (record s { tasks = if handled then modify task_id f s.tasks else s.tasks })
      handled-Keeps s task_id f true fine (limit, h) =
          (limit, All-modify (λ t. t.tool_round < n) task_id f s.tasks (λ t _. fine t) h)
      handled-Keeps s task_id f false fine h = h

      continue-Keeps :
          (task : InFlightTask) (payload : Ack) (next_round : ℕ)
          → next_round < n
          → Keeps (RoundsLeft n) (continue_task engine task payload next_round)
      unfolding continue_task
      continue-Keeps task payload next_round fine =
          Keeps-bind (RoundsLeft n) (orchestrate_or_clear engine _) _
            (Steps.orchestrate_or_clear-Keeps (RoundsLeft n) framed removed engine orchestrate-Keeps
              _)
            (λ handled t k. handled-Keeps t payload.task_id _ handled (λ _. fine) k)

      continuing-Keeps :
          (task : InFlightTask) (payload : Ack)
          → Keeps (RoundsLeft n) (ack_continuing engine task payload)
      unfolding ack_continuing
      continuing-Keeps task payload =
          Keeps-bind (RoundsLeft n) (with_conversations _) _
            (Keeps-with_conversations (RoundsLeft n) framed _)
            (λ _ s h.
              next s h (leb s.config.max_tool_rounds (min (task.tool_round + 1) u32_max)) refl)
        where
          next :
              (s : DaemonState)
              → RoundsLeft n s
              → (b : Bool) → leb s.config.max_tool_rounds (min (task.tool_round + 1) u32_max) ≡ b
              → Leaves (RoundsLeft n) (
                  if b
                  then stop_rounds engine task payload s
                  else (do
                    handled ← continue_task engine task payload (min (task.tool_round + 1) u32_max)
                    if handled then return tt else finish_task engine task payload)
                      s)
          next s h true e = stop-Keeps task payload s h
          next s h false e =
              let fine : min (task.tool_round + 1) u32_max < n = ground (arith, h.0, e) in
              Keeps-bind (RoundsLeft n) (continue_task engine task payload _) _
                (continue-Keeps task payload _ fine)
                (λ handled.
                  Keeps-if (RoundsLeft n) handled (return tt) _ (λ t k. k)
                    (finish-Keeps task payload))
                s h

      active-Keeps :
          (task : InFlightTask) (payload : Ack)
          → Keeps (RoundsLeft n) (ack_active engine task payload)
      unfolding ack_active
      active-Keeps task payload s h =
          Leaves-option (RoundsLeft n) (active_task_timeout_kind s task) _ _
            (Keeps-if (RoundsLeft n) task.provider_continuation _ _ (continuing-Keeps task payload)
              (finish-Keeps task payload) s h)
            (λ kind. expired-Keeps task payload kind s h)

      -- Under a limit of `n` tool rounds, an acknowledgement leaves every task with rounds left,
      -- also where a send fails, if all tasks had rounds left before and the orchestration leaves
      -- them so.
      pub process_ack-RoundsLeft :
          (payload : Ack) (s : DaemonState)
          → RoundsLeft n s
          → Leaves (RoundsLeft n) (process_ack engine payload s)
      unfolding process_ack
      process_ack-RoundsLeft payload =
          Keeps-bind (RoundsLeft n) (consume_timed_out_task payload.task_id) _
            (Steps.consume-Keeps (RoundsLeft n) framed removed payload.task_id) (λ o. answer o)
        where
          answer :
              (o : Option TaskTimeoutKind)
              → Keeps (RoundsLeft n) (elim o [
                | some kind ↦ send (task_complete payload.task_id timeout (summary kind))
                | none ↦ λ s. elim (lookup payload.task_id s.tasks) [
                  | none ↦
                      send
                        (error payload.task_id bad_protocol
                          (codes "Ack received for unknown task_id")
                          none)
                        s
                  | some task ↦
                      ack_active engine task payload
                        (record s { tasks = remove payload.task_id s.tasks })
                ]
              ])
          answer (some kind) s h = send-Keeps _ s h
          answer none s h =
              Leaves-option (RoundsLeft n) (lookup payload.task_id s.tasks) _ _ (send-Keeps _ s h)
                (λ task. active-Keeps task payload _ (removed payload.task_id s h))
