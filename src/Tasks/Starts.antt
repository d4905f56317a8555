-- ===== src/Tasks/Starts.antt =====
-- The start of a task by a prompt on the safety floor, which starts none, and by one that needs a
-- question.
use termlm.Base.{
  ℕ, Bool, true, false, List, [], ◌∷◌, ◌++◌, ◌≤◌, none, some, String, ◌≡◌, ◌∙◌, refl, ap, arith,
  append_assoc, ◌==◌, if◌then◌else◌, if_true,
}
use termlm.Base.Text.{Text, codes, trim}
use termlm.Base.Maps.{lookup, insert, lookup-insert}
use termlm.Clarify.{clarification_question_for_ambiguous_prompt}
use termlm.Safety.{SafetyFloorMatch, matches_safety_floor}
use termlm.Daemon.{
  InFlightTask, ServerMessage, safety_floor, safety_floor_hit, DaemonState, Reply, done, M, send,
  error, task_complete, needs_clarification,
}
use termlm.Tasks.{approval_override_for_shell}
use termlm.Tasks.Engine.{Engine}
use termlm.Tasks.Runs.{bind-done}
use termlm.Tasks.Blocked.{sent, send-done, session-done}
use termlm.Tasks.Start.{
  Answerers, Prompted, classified, asking_task, insert_asking, refuse_prompt, route_task,
  start_allowed, process_start_task,
}

-- the task of a prompt that waits for the answer to a question, which is put before the model is
-- asked or, with `continuation`, after it
abbrev pub waiting : Bool → Engine → Prompted → DaemonState → InFlightTask
waiting continuation engine payload s = record {
  shell_id = payload.shell_id;
  mode = payload.mode;
  original_prompt = payload.prompt;
  proposed_command = [];
  classification = (engine.classify payload.prompt).classification;
  classification_confidence = (engine.classify payload.prompt).confidence;
  approval_override = approval_override_for_shell s payload.shell_id;
  awaiting_clarification = true;
  provider_continuation = continuation;
  tool_round = 0;
  created_at = s.now;
}

-- A prompt off the safety floor that needs a question, where the user may be asked and told: the
-- client gets that question and nothing else, whatever the model and the other handlers would
-- have answered. The task, with no command and its clock started, awaits the answer; every other
-- task is as before, and so are the conversations and timeouts and the cancelled tasks.
pub process_start_task-asks :
    (engine : Engine) (answerers : Answerers) (payload : Prompted) (question : Text)
    (s : DaemonState)
    → matches_safety_floor engine.is_match (trim payload.prompt) ≡ none
    → s.config.allow_clarifications ≡ true
    → clarification_question_for_ambiguous_prompt payload.prompt ≡ some question
    → 1 ≤ s.sends_left
    → (t : DaemonState) × (process_start_task engine answerers payload s ≡ done tt t)
      × (t.outbox ≡ s.outbox ++ needs_clarification payload.task_id question ∷ [])
      × ((j : ℕ)
          → lookup j t.tasks ≡ (
              if payload.task_id == j
              then some (waiting false engine payload s)
              else lookup j s.tasks))
      × (t.task_conversations ≡ s.task_conversations)
      × (t.timed_out_tasks ≡ s.timed_out_tasks)
      × (t.cancelled ≡ s.cancelled)
unfolding process_start_task start_allowed insert_asking asking_task
process_start_task-asks engine answerers payload question s off asking ambiguous can_send =
    let start = classified payload (engine.classify payload.prompt) in
    let message = needs_clarification payload.task_id question in
    let s1 : DaemonState = record s {
      tasks = insert payload.task_id (waiting false engine payload s) s.tasks;
    } in
    (
      sent message s1,
      ap
            (λ o.
              (elim o as (λ _. M (Unit {0})) [
                | some found ↦ refuse_prompt payload found.pattern
                | none ↦ start_allowed engine answerers payload
              ])
                s)
            off
          ∙ if_true s.config.allow_clarifications _ (route_task engine answerers start s) asking
          ∙ ap
              (λ o. elim o as (λ _. Reply (Unit {0})) [
                | some asked ↦ insert_asking start false asked s
                | none ↦ route_task engine answerers start s
              ])
              ambiguous
          ∙ send-done message s1 can_send,
      refl,
      λ j. lookup-insert payload.task_id j (waiting false engine payload s) s.tasks,
      refl,
      refl,
      refl,
    )

-- what the client is told of a refused prompt
abbrev refused_messages : ℕ → String → List ServerMessage
refused_messages task_id pattern =
    error task_id safety_floor (codes "Refused: prompt requested an immutable safety-floor command")
      (some pattern)
    ∷ task_complete task_id safety_floor_hit (codes "Prompt matched immutable safety floor.")
    ∷ []

-- A prompt whose trimmed text matches the safety floor starts no task, where the client can be
-- told: the client gets the error with the pattern that matched and then the end of the task, and
-- the tasks, their conversations and timeouts and the cancelled tasks are as before.
pub process_start_task-refused :
    (engine : Engine) (answerers : Answerers) (payload : Prompted) (matched : SafetyFloorMatch)
    (s : DaemonState)
    → matches_safety_floor engine.is_match (trim payload.prompt) ≡ some matched
    → 2 ≤ s.sends_left
    → (t : DaemonState) × (process_start_task engine answerers payload s ≡ done tt t)
      × (t.outbox ≡ s.outbox ++ refused_messages payload.task_id matched.pattern)
      × (t.tasks ≡ s.tasks)
      × (t.task_conversations ≡ s.task_conversations)
      × (t.timed_out_tasks ≡ s.timed_out_tasks)
      × (t.cancelled ≡ s.cancelled)
unfolding process_start_task refuse_prompt
process_start_task-refused engine answerers payload matched s hit can_send =
    let first =
      error payload.task_id safety_floor
        (codes "Refused: prompt requested an immutable safety-floor command")
        (some matched.pattern) in
    let last =
      task_complete payload.task_id safety_floor_hit
        (codes "Prompt matched immutable safety floor.") in
    let s1 = sent first s in
    let s2 = sent last s1 in
    let (c, appended) =
      session-done payload.mode payload.shell_id payload.prompt
        (codes "Prompt blocked by immutable safety floor.") s2 in
    (
      record s2 { session_conversations = c },
      ap
            (λ o.
              (elim o as (λ _. M (Unit {0})) [
                | some found ↦ refuse_prompt payload found.pattern
                | none ↦ start_allowed engine answerers payload
              ])
                s)
            hit
          ∙ bind-done (send first) _ s tt s1 (send-done first s (omega arith))
          ∙ bind-done (send last) _ s1 tt s2 (send-done last s1 (omega arith))
          ∙ appended,
      append_assoc s.outbox (first ∷ []) (last ∷ []),
      refl,
      refl,
      refl,
      refl,
    )
