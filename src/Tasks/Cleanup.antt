-- ===== src/Tasks/Cleanup.antt =====
-- What the cleanups of a task and of a shell's tasks leave behind.
use termlm.Base.{
  ℕ, Bool, false, List, [], ◌∷◌, ◌++◌, Option, none, some, ◌≡◌, ◌∙◌, inl, inr, refl, sym,
  append-nil, ap, arith, ◌==◌, if◌then◌else◌, Bool-cases,
}
use termlm.Base.Text.{is_empty}
use termlm.Base.Maps.{lookup, remove, lookup-remove}
use termlm.Daemon.{InFlightTask, DaemonState, done, with_conversations, update, ◌>>◌}
use termlm.Tasks.{
  reset_override, clear_task_state, keys, shell_task_ids, remove_all, cancel_and_clear_shell_tasks,
}
use termlm.Tasks.Runs.{bind-done, with_conversations-done}
use termlm.Tasks.Keys.{mem, lookup-remove_all, IsDistinct}

-- Nothing of the task is left, and nothing of another task has changed.
pub record Cleared (task_id : ℕ) (s t : DaemonState) : Type 0 where
  pub tasks : (j : ℕ) → lookup j t.tasks ≡ (if task_id == j then none else lookup j s.tasks)
  pub timed_out_tasks :
      (j : ℕ)
      → lookup j t.timed_out_tasks ≡ (if task_id == j then none else lookup j s.timed_out_tasks)
  pub task_conversations :
      (j : ℕ)
      → lookup j t.task_conversations
        ≡ (if task_id == j then none else lookup j s.task_conversations)
  pub outbox : t.outbox ≡ s.outbox

abbrev pub with_overrides : List (ℕ × Bool) → DaemonState → DaemonState
with_overrides o s = record s { shell_approval_overrides = o }

pub reset_override-done :
    (task : Option InFlightTask) (s : DaemonState)
    → (o : List (ℕ × Bool)) × (reset_override task s ≡ done tt (with_overrides o s))
unfolding reset_override
reset_override-done none s = (s.shell_approval_overrides, refl)
reset_override-done (some task) s = elim (Bool-cases s.config.approve_all_resets_per_task) [
  | inl e ↦ (remove task.shell_id s.shell_approval_overrides, rw e refl)
  | inr e ↦ (s.shell_approval_overrides, rw e refl)
]

-- Where the lock is free, the cleanup of a task succeeds. It removes the task, its record of a
-- timeout and its conversation, leaves every other task's, and sends nothing.
pub clear_task_state-Cleared :
    (task_id : ℕ) (s : DaemonState)
    → s.conversations_locked ≡ false
    → (t : DaemonState) × (clear_task_state task_id s ≡ done tt t) × Cleared task_id s t
unfolding clear_task_state
clear_task_state-Cleared task_id s free =
    let s1 : DaemonState = record s { tasks = remove task_id s.tasks } in
    let (o, reset) = reset_override-done (lookup task_id s.tasks) s1 in
    let s2 : DaemonState = record (with_overrides o s1) {
      timed_out_tasks = remove task_id s.timed_out_tasks;
    } in
    (
      record s2 { task_conversations = remove task_id s.task_conversations },
      bind-done (reset_override (lookup task_id s.tasks)) _ s1 tt (with_overrides o s1) reset
          ∙ with_conversations-done (remove task_id) s2 free,
      record {
        tasks = λ j. lookup-remove task_id j s.tasks;
        timed_out_tasks = λ j. lookup-remove task_id j s.timed_out_tasks;
        task_conversations = λ j. lookup-remove task_id j s.task_conversations;
        outbox = refl;
      },
    )

-- a task of the shell
abbrev pub belongs : ℕ → Option InFlightTask → Bool
belongs shell_id none = false
belongs shell_id (some task) = task.shell_id == shell_id

mem-shell_task_ids-absent :
    (shell_id j : ℕ) (m : List (ℕ × InFlightTask))
    → mem j (keys m) ≡ false
    → mem j (shell_task_ids shell_id m) ≡ false
unfolding shell_task_ids
mem-shell_task_ids-absent shell_id j [] h = refl
mem-shell_task_ids-absent shell_id j ((k, task) ∷ m) h =
    ground (arith, h, mem-shell_task_ids-absent shell_id j m (ground (arith, h)))

-- The collected ids are those of the shell's tasks.
mem-shell_task_ids :
    (shell_id j : ℕ) (m : List (ℕ × InFlightTask))
    → IsDistinct m
    → mem j (shell_task_ids shell_id m) ≡ belongs shell_id (lookup j m)
unfolding lookup shell_task_ids
mem-shell_task_ids shell_id j [] d = refl
mem-shell_task_ids shell_id j ((k, task) ∷ m) (fresh, d) = elim (Bool-cases (k == j)) [
  | inl e ↦
      let absent : mem j (shell_task_ids shell_id m) ≡ false =
        mem-shell_task_ids-absent shell_id j m (grind (arith, fresh, e)) in
      ground (arith, e, absent)
  | inr e ↦ ground (arith, e, mem-shell_task_ids shell_id j m d)
]

-- What is left of every task, where one shell's tasks go.
pub record ShellCleared (shell_id : ℕ) (s t : DaemonState) : Type 0 where
  pub tasks :
      (j : ℕ)
      → lookup j t.tasks ≡ (if belongs shell_id (lookup j s.tasks) then none else lookup j s.tasks)
  pub timed_out_tasks :
      (j : ℕ)
      → lookup j t.timed_out_tasks
        ≡ (if belongs shell_id (lookup j s.tasks) then none else lookup j s.timed_out_tasks)
  pub task_conversations :
      (j : ℕ)
      → lookup j t.task_conversations
        ≡ (if belongs shell_id (lookup j s.tasks) then none else lookup j s.task_conversations)
  pub cancelled :
      (ids : List ℕ) × (t.cancelled ≡ s.cancelled ++ ids)
      × ((j : ℕ) → mem j ids ≡ belongs shell_id (lookup j s.tasks))
  pub outbox : t.outbox ≡ s.outbox

-- Where the lock is free and the keys of the tasks differ, the cleanup of a shell succeeds. A task
-- of the shell is gone with its record of a timeout and its conversation, every other task keeps
-- all three, the tasks that are cancelled with the provider are those of the shell, and nothing
-- is sent.
pub cancel_and_clear_shell_tasks-ShellCleared :
    (shell_id : ℕ) (s : DaemonState)
    → s.conversations_locked ≡ false
    → IsDistinct s.tasks
    → (t : DaemonState) × (cancel_and_clear_shell_tasks shell_id s ≡ done tt t)
      × ShellCleared shell_id s t
unfolding cancel_and_clear_shell_tasks remove_all
cancel_and_clear_shell_tasks-ShellCleared shell_id s free distinct =
    run (shell_task_ids shell_id s.tasks) (λ j. mem-shell_task_ids shell_id j s.tasks distinct)
  where
    run :
        (ids : List ℕ)
        → ((j : ℕ) → mem j ids ≡ belongs shell_id (lookup j s.tasks))
        → (t : DaemonState) × ((if is_empty ids
              then done tt s
              else (do
                update (λ t. record t {
                  cancelled = t.cancelled ++ ids;
                  tasks = remove_all ids t.tasks;
                })
                with_conversations (remove_all ids)
                update (λ t. record t {
                  timed_out_tasks = remove_all ids t.timed_out_tasks;
                  shell_approval_overrides = remove shell_id t.shell_approval_overrides;
                }))
                  s)
            ≡ done tt t)
          × ShellCleared shell_id s t
    run [] found = (
      s,
      refl,
      record {
        tasks = λ j. ap (λ b. if b then none else lookup j s.tasks) (found j);
        timed_out_tasks = λ j. ap (λ b. if b then none else lookup j s.timed_out_tasks) (found j);
        task_conversations =
            λ j. ap (λ b. if b then none else lookup j s.task_conversations) (found j);
        cancelled = ([], sym (append-nil s.cancelled), found);
        outbox = refl;
      },
    )
    run (k ∷ ks) found =
        let ids = k ∷ ks in
        let s1 : DaemonState = record s {
          cancelled = s.cancelled ++ ids;
          tasks = remove_all ids s.tasks;
        } in
        let s2 : DaemonState = record s1 {
          task_conversations = remove_all ids s.task_conversations;
        } in
        (
          record s2 {
            timed_out_tasks = remove_all ids s.timed_out_tasks;
            shell_approval_overrides = remove shell_id s.shell_approval_overrides;
          },
          bind-done (with_conversations (remove_all ids)) _ s1 tt s2
              (with_conversations-done (remove_all ids) s1 free),
          record {
            tasks = λ j.
                lookup-remove_all ids j s.tasks
                ∙ ap (λ b. if b then none else lookup j s.tasks) (found j);
            timed_out_tasks = λ j.
                lookup-remove_all ids j s.timed_out_tasks
                ∙ ap (λ b. if b then none else lookup j s.timed_out_tasks) (found j);
            task_conversations = λ j.
                lookup-remove_all ids j s.task_conversations
                ∙ ap (λ b. if b then none else lookup j s.task_conversations) (found j);
            cancelled = (ids, refl, found);
            outbox = refl;
          },
        )
