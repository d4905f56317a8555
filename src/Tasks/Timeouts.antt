-- ===== src/Tasks/Timeouts.antt =====
-- What `expire_timed_out_tasks` of crates/termlm-core/src/main.rs leaves.
use termlm.Base.{
  ℕ, Bool, true, false, List, [], ◌∷◌, Option, none, some, ◌≡◌, ◌∙◌, ap, refl, arith, ◌==◌, ◌-◌,
  ◌*◌, max, leb, if◌then◌else◌, Bool-cases, inl, inr,
}
use termlm.Base.Text.{is_empty}
use termlm.Base.Maps.{lookup, insert, retain, lookup-insert}
use termlm.Daemon.{
  InFlightTask, TaskTimeoutKind, clarification, command, TimedOutTask, DaemonState, done, ◌>>◌,
  update, with_conversations,
}
use termlm.Tasks.{
  remove_all, active_task_timeout_kind, expired_tasks, keys, insert_timed_out, is_retained,
  expire_timed_out_tasks, second,
}
use termlm.Tasks.Keys.{
  mem, lookup-remove_all, IsDistinct, kept, lookup-mem, lookup-retain, insert-IsDistinct,
}
use termlm.Tasks.Runs.{bind-done, with_conversations-done}

-- the timeout of a task has elapsed
abbrev pub is_due : DaemonState → InFlightTask → Bool
is_due s task =
    let limit =
      if task.awaiting_clarification
      then s.config.clarification_timeout_secs
      else s.config.command_timeout_secs in
    leb (max limit 1 * second) (s.now - task.created_at)

-- the timeout that a task has run into
abbrev pub timed_out_kind : DaemonState → Option InFlightTask → Option TaskTimeoutKind
timed_out_kind s none = none
timed_out_kind s (some task) =
    if is_due s task
    then some (if task.awaiting_clarification then clarification else command)
    else none

-- what stays of a row of a task
abbrev pub left {ℓ} : {V : Type ℓ} → Option TaskTimeoutKind → Option V → Option V
left none row = row
left (some kind) row = none

-- a record is kept for the longer timeout, and for half a minute at least
abbrev pub is_recent : DaemonState → TimedOutTask → Bool
is_recent s t =
    leb (s.now - t.at)
      (max (max s.config.clarification_timeout_secs s.config.command_timeout_secs) 30 * second)

-- the record of a timeout after the sweep: a new one, or the old one while it is recent
abbrev pub recorded :
    DaemonState → Option TaskTimeoutKind → Option TimedOutTask → Option TimedOutTask
recorded s none old = kept (is_recent s) old
recorded s (some kind) old = some (record { at = s.now; kind = kind })

active_task_timeout_kind-due :
    (s : DaemonState) (task : InFlightTask)
    → active_task_timeout_kind s task ≡ timed_out_kind s (some task)
unfolding active_task_timeout_kind
active_task_timeout_kind-due s task = ground arith

mem-expired_tasks :
    (s : DaemonState) (j : ℕ) (m : List (ℕ × InFlightTask))
    → mem j (keys m) ≡ false
    → mem j (keys (expired_tasks s m)) ≡ false
unfolding expired_tasks
mem-expired_tasks s j [] h = refl
mem-expired_tasks s j ((k, task) ∷ m) h =
    by_kind (active_task_timeout_kind s task) (mem-expired_tasks s j m (ground (arith, h)))
  where
    by_kind :
        (o : Option TaskTimeoutKind)
        → mem j (keys (expired_tasks s m)) ≡ false
        → mem j (
            keys (elim o as (λ _. List (ℕ × TaskTimeoutKind)) [
              | none ↦ expired_tasks s m
              | some kind ↦ (k, kind) ∷ expired_tasks s m
            ]))
          ≡ false
    by_kind none ih = ih
    by_kind (some kind) ih = ground (arith, h, ih)

expired_tasks-IsDistinct :
    (s : DaemonState) (m : List (ℕ × InFlightTask)) → IsDistinct m → IsDistinct (expired_tasks s m)
unfolding expired_tasks
expired_tasks-IsDistinct s [] d = tt
expired_tasks-IsDistinct s ((k, task) ∷ m) (fresh, d) =
    by_kind (active_task_timeout_kind s task) (expired_tasks-IsDistinct s m d)
  where
    by_kind :
        (o : Option TaskTimeoutKind)
        → IsDistinct (expired_tasks s m)
        → IsDistinct (elim o as (λ _. List (ℕ × TaskTimeoutKind)) [
          | none ↦ expired_tasks s m
          | some kind ↦ (k, kind) ∷ expired_tasks s m
        ])
    by_kind none ih = ih
    by_kind (some kind) ih = (mem-expired_tasks s k m fresh, ih)

-- The collected tasks are those whose timeout has elapsed.
lookup-expired_tasks :
    (s : DaemonState) (j : ℕ) (m : List (ℕ × InFlightTask))
    → IsDistinct m
    → lookup j (expired_tasks s m) ≡ timed_out_kind s (lookup j m)
unfolding lookup expired_tasks
lookup-expired_tasks s j [] d = refl
lookup-expired_tasks s j ((k, task) ∷ m) (fresh, d) = elim (Bool-cases (k == j)) [
  | inl e ↦ rw e (here e (active_task_timeout_kind s task) ∙ active_task_timeout_kind-due s task)
  | inr e ↦ rw e (later e (active_task_timeout_kind s task) ∙ lookup-expired_tasks s j m d)
]
  where
    collected : Option TaskTimeoutKind → List (ℕ × TaskTimeoutKind)
    collected o = elim o [ none ↦ expired_tasks s m | some kind ↦ (k, kind) ∷ expired_tasks s m ]

    here : (k == j) ≡ true → (o : Option TaskTimeoutKind) → lookup j (collected o) ≡ o
    here e none =
        lookup-mem j (expired_tasks s m) (mem-expired_tasks s j m (grind (arith, fresh, e)))
    here e (some kind) = rw e refl

    later :
        (k == j) ≡ false
        → (o : Option TaskTimeoutKind) → lookup j (collected o) ≡ lookup j (expired_tasks s m)
    later e none = refl
    later e (some kind) = rw e refl

-- a row is removed with its key
left-mem :
    {V : Type 0} (j : ℕ) (expired : List (ℕ × TaskTimeoutKind)) (row : Option V)
    → (if mem j (keys expired) then none else row) ≡ left (lookup j expired) row
unfolding lookup
left-mem j [] row = refl
left-mem j ((k, kind) ∷ expired) row = elim (Bool-cases (k == j)) [
  | inl e ↦ rw e refl
  | inr e ↦ rw e (left-mem j expired row)
]

-- a new record before an old one
abbrev or_now : ℕ → Option TaskTimeoutKind → Option TimedOutTask → Option TimedOutTask
or_now now none old = old
or_now now (some kind) old = some (record { at = now; kind = kind })

lookup-insert_timed_out :
    (now : ℕ) (expired : List (ℕ × TaskTimeoutKind)) (j : ℕ) (m : List (ℕ × TimedOutTask))
    → IsDistinct expired
    → lookup j (insert_timed_out now expired m) ≡ or_now now (lookup j expired) (lookup j m)
unfolding lookup insert_timed_out
lookup-insert_timed_out now [] j m d = refl
lookup-insert_timed_out now ((k, kind) ∷ rest) j m (fresh, d) =
    lookup-insert_timed_out now rest j _ d ∙ (elim (Bool-cases (k == j)) [
      | inl e ↦
          let absent : lookup j rest ≡ none = lookup-mem j rest (grind (arith, fresh, e)) in
          ap (λ o. or_now now o (lookup j (insert k (record { at = now; kind = kind }) m))) absent
          ∙ lookup-insert k j _ m
          ∙ rw e refl
      | inr e ↦
          let old : lookup j (insert k (record { at = now; kind = kind }) m) ≡ lookup j m =
            lookup-insert k j _ m ∙ rw e refl in
          ap (or_now now (lookup j rest)) old ∙ rw e refl
    ])

insert_timed_out-IsDistinct :
    (now : ℕ) (expired : List (ℕ × TaskTimeoutKind)) (m : List (ℕ × TimedOutTask))
    → IsDistinct m
    → IsDistinct (insert_timed_out now expired m)
unfolding insert_timed_out
insert_timed_out-IsDistinct now [] m d = d
insert_timed_out-IsDistinct now ((k, kind) ∷ rest) m d =
    insert_timed_out-IsDistinct now rest _ (insert-IsDistinct k _ m d)

is_retained-recent : (s : DaemonState) (t : TimedOutTask) → is_retained s t ≡ is_recent s t
is_retained-recent s t = ap (λ n. leb (s.now - t.at) (n * second)) (omega arith)

kept-recorded :
    (s : DaemonState) (o : Option TaskTimeoutKind) (old : Option TimedOutTask)
    → kept (is_retained s) (or_now s.now o old) ≡ recorded s o old
kept-recorded s none none = refl
kept-recorded s none (some t) = rw (is_retained-recent s t) refl
kept-recorded s (some kind) old = ground arith

-- What the sweep leaves of every task.
pub record Expired (s t : DaemonState) : Type 0 where
  pub tasks :
      (j : ℕ) → lookup j t.tasks ≡ left (timed_out_kind s (lookup j s.tasks)) (lookup j s.tasks)
  pub task_conversations :
      (j : ℕ)
      → lookup j t.task_conversations
        ≡ left (timed_out_kind s (lookup j s.tasks)) (lookup j s.task_conversations)
  pub timed_out_tasks :
      (j : ℕ)
      → lookup j t.timed_out_tasks
        ≡ recorded s (timed_out_kind s (lookup j s.tasks)) (lookup j s.timed_out_tasks)
  pub outbox : t.outbox ≡ s.outbox
  pub cancelled : t.cancelled ≡ s.cancelled

-- Where the lock is free and the keys of the tasks and of the records differ, the sweep succeeds.
-- A task whose timeout has elapsed is gone with its conversation and has a record of this very
-- moment with the kind of the timeout, `clarification` where the task awaited an answer and
-- `command` where not. Every other task and its conversation stay, and a record of a task that
-- does not time out now stays exactly while it is recent. Nothing is sent or cancelled.
pub expire_timed_out_tasks-Expired :
    (s : DaemonState)
    → s.conversations_locked ≡ false
    → IsDistinct s.tasks
    → IsDistinct s.timed_out_tasks
    → (t : DaemonState) × (expire_timed_out_tasks s ≡ done tt t) × Expired s t
unfolding expire_timed_out_tasks remove_all
expire_timed_out_tasks-Expired s free distinct distinct_records =
    sweep (expired_tasks s s.tasks) (expired_tasks-IsDistinct s s.tasks distinct)
      (λ j. lookup-expired_tasks s j s.tasks distinct)
  where
    sweep :
        (expired : List (ℕ × TaskTimeoutKind))
        → IsDistinct expired
        → ((j : ℕ) → lookup j expired ≡ timed_out_kind s (lookup j s.tasks))
        → (t : DaemonState) × ((if is_empty expired
              then done tt (record s { timed_out_tasks = retain (is_retained s) s.timed_out_tasks })
              else (do
                update (λ t. record t { tasks = remove_all (keys expired) t.tasks })
                with_conversations (remove_all (keys expired))
                update (λ t. record t {
                  timed_out_tasks =
                      retain (is_retained s) (insert_timed_out s.now expired t.timed_out_tasks);
                }))
                  s)
            ≡ done tt t)
          × Expired s t
    sweep [] d found = (
      record s { timed_out_tasks = retain (is_retained s) s.timed_out_tasks },
      refl,
      record {
        tasks = λ j. ap (λ o. left o (lookup j s.tasks)) (nothing j);
        task_conversations = λ j. ap (λ o. left o (lookup j s.task_conversations)) (nothing j);
        timed_out_tasks = λ j.
            lookup-retain (is_retained s) j s.timed_out_tasks distinct_records
            ∙ kept-recorded s none (lookup j s.timed_out_tasks)
            ∙ ap (λ o. recorded s o (lookup j s.timed_out_tasks)) (nothing j);
        outbox = refl;
        cancelled = refl;
      },
    )
      where
        nothing : (j : ℕ) → none ≡ timed_out_kind s (lookup j s.tasks)
        nothing j = unfold lookup in found j
    sweep (e ∷ es) d found =
        let expired = e ∷ es in
        let ids = keys expired in
        let s1 : DaemonState = record s { tasks = remove_all ids s.tasks } in
        let s2 : DaemonState = record s1 {
          task_conversations = remove_all ids s.task_conversations;
        } in
        (
          record s2 {
            timed_out_tasks =
                retain (is_retained s) (insert_timed_out s.now expired s.timed_out_tasks);
          },
          bind-done (with_conversations (remove_all ids)) _ s1 tt s2
              (with_conversations-done (remove_all ids) s1 free),
          record {
            tasks = λ j.
                lookup-remove_all ids j s.tasks
                ∙ left-mem j expired (lookup j s.tasks)
                ∙ ap (λ o. left o (lookup j s.tasks)) (found j);
            task_conversations = λ j.
                lookup-remove_all ids j s.task_conversations
                ∙ left-mem j expired (lookup j s.task_conversations)
                ∙ ap (λ o. left o (lookup j s.task_conversations)) (found j);
            timed_out_tasks = λ j.
                lookup-retain (is_retained s) j (insert_timed_out s.now expired s.timed_out_tasks)
                  (insert_timed_out-IsDistinct s.now expired s.timed_out_tasks distinct_records)
                ∙ ap (kept (is_retained s))
                    (lookup-insert_timed_out s.now expired j s.timed_out_tasks d)
                ∙ kept-recorded s (lookup j expired) (lookup j s.timed_out_tasks)
                ∙ ap (λ o. recorded s o (lookup j s.timed_out_tasks)) (found j);
            outbox = refl;
            cancelled = refl;
          },
        )
