-- ===== src/Propose/Safe.antt =====
-- What `propose_command_for_execution` of crates/termlm-core/src/main.rs proposes is off the safety
-- floor, and a critical command needs the user's approval.
use termlm.Base.{
  ℕ, zero, suc, Bool, true, false, [], ◌∷◌, Option, none, some, ◌==◌, ◌≡◌, refl, ap, ◌∙◌, arith,
  if◌then◌else◌, All, All-append, Bool-cases, inl, inr,
}
use termlm.Base.Text.{Text, codes, eq_text, is_empty}
use termlm.Base.Maps.{remove, insert}
use termlm.Safety.{SafetyFloorMatch, matches_safety_floor, is_critical}
use termlm.Daemon.{
  InFlightTask, ServerMessage, task_complete, error, model_text, needs_clarification,
  proposed_command, Config, DaemonState, done, M, ◌>>=◌, return, send,
}
use termlm.Tasks.Engine.{StartTask}
use termlm.Tasks.Keeps.{Leaves, Keeps, Keeps-bind, All-remove}
use termlm.Tasks.Floor.{IsOffFloor, TasksOffFloor}
use termlm.Propose.Draft.{
  Planner, Plan, Draft, Inspected, Verdict, answered, accepted, again, Planned, finished, good,
  unfinished, refuse_floor, inspect,
}
use termlm.Propose.Loop.{try_redraft, reject_draft, plan_round, plan_loop}
use termlm.Propose.Proposal.{
  CommandPlan, requires_approval, risk_level, proposal, proposed_task, send_proposal, plan_of,
  first_draft, conclude, propose_command_for_execution,
}
use termlm.Propose.Keeps.{IsPlain, Gives, Returns, Returns-bind, Keeps-then, plan_loop-Keeps}
use termlm.Propose.Verdicts.{Returns-all, Returns-then, reject_draft-Returns}

module _ (planner : Planner) where
  -- the draft that a round or the loop accepts is off the floor
  abbrev OffFloorVerdict : Verdict → Type 0
  OffFloorVerdict answered = Unit
  OffFloorVerdict (accepted d i) = matches_safety_floor planner.is_match d.working_cmd ≡ none
  OffFloorVerdict (again next) = Unit

  abbrev OffFloorPlanned : Planned → Type 0
  OffFloorPlanned finished = Unit
  OffFloorPlanned (good d i) = matches_safety_floor planner.is_match d.working_cmd ≡ none
  OffFloorPlanned unfinished = Unit

  plan_round-OffFloor :
      (plan : Plan) (draft : Draft) → Returns OffFloorVerdict (plan_round planner plan draft)
  unfolding plan_round
  plan_round-OffFloor plan draft =
      by_floor (matches_safety_floor planner.is_match draft.working_cmd) refl
    where
      accepted_or :
          matches_safety_floor planner.is_match draft.working_cmd ≡ none
          → (s : DaemonState) (i : Inspected) (b : Bool)
          → Gives OffFloorVerdict
              (if b then done (accepted draft i) s else reject_draft planner plan draft i s)
      accepted_or e s i true = e
      accepted_or e s i false =
          reject_draft-Returns planner plan draft i OffFloorVerdict tt (λ _ _ _. tt)
            (Returns-all _ (try_redraft planner plan draft) (λ _ _ _. tt)) s

      by_floor :
          (o : Option SafetyFloorMatch)
          → matches_safety_floor planner.is_match draft.working_cmd ≡ o
          → Returns OffFloorVerdict (elim o as (λ _. M Verdict) [
            | some matched ↦ refuse_floor plan matched.pattern >>= λ _. return answered
            | none ↦ λ s.
                let i = inspect planner plan draft.working_cmd s in
                if is_empty i.findings
                then done (accepted draft i) s
                else reject_draft planner plan draft i s
          ])
      by_floor none e s = accepted_or e s (inspect planner plan draft.working_cmd s) _
      by_floor (some matched) e s =
          Returns-bind OffFloorVerdict (refuse_floor plan matched.pattern) _ (λ _ _. tt) s

  plan_loop-OffFloor :
      (fuel : ℕ) (plan : Plan) (draft : Draft)
      → Returns OffFloorPlanned (plan_loop planner fuel plan draft)
  unfolding plan_loop
  plan_loop-OffFloor zero plan draft s = tt
  plan_loop-OffFloor (suc fuel) plan draft s =
      Returns-then OffFloorVerdict OffFloorPlanned (plan_round planner plan draft) _
        (plan_round-OffFloor plan draft) (by_verdict (λ next. plan_loop-OffFloor fuel plan next)) s
    where
      by_verdict :
          ((next : Draft) → Returns OffFloorPlanned (plan_loop planner fuel plan next))
          → (v : Verdict) → OffFloorVerdict v
          → Returns OffFloorPlanned (elim v as (λ _. M Planned) [
            | answered ↦ return finished
            | accepted d i ↦ return (good d i)
            | again next ↦ plan_loop planner fuel plan next
          ])
      by_verdict ih answered off s = tt
      by_verdict ih (accepted d i) off s = off
      by_verdict ih (again next) off s = ih next s

  module _ (cfg : Config) where
    -- A proposal is off the floor. Where it matches a critical pattern and the approval mode is
    -- not `auto`, it needs approval, and its risk is told as critical.
    abbrev pub IsGuarded : ServerMessage → Type 0
    IsGuarded (task_complete _ _ _) = Unit
    IsGuarded (error _ _ _ _) = Unit
    IsGuarded (model_text _ _) = Unit
    IsGuarded (needs_clarification _ _) = Unit
    IsGuarded (proposed_command _ p) =
        (matches_safety_floor planner.is_match p.cmd ≡ none)
        × (is_critical planner.is_critical_match cfg.critical_patterns p.cmd ≡ true
            → (p.risk_level ≡ codes "critical")
              × (eq_text cfg.approval_mode (codes "auto") ≡ false → p.requires_approval ≡ true))

    -- The settings are `cfg`, no proposed command of a task is on the floor, and every proposal that was
    -- sent is guarded.
    abbrev pub Safe : DaemonState → Type 0
    Safe s = (s.config ≡ cfg) × TasksOffFloor planner.is_match s × All IsGuarded s.outbox

    framed :
        (s t : DaemonState)
        → t.tasks ≡ s.tasks
        → t.config ≡ s.config
        → t.outbox ≡ s.outbox
        → Safe s
        → Safe t
    framed s t e c o (same, tasks, sent) = (c ∙ same, rw e tasks, rw o sent)

    removed : (k : ℕ) (s : DaemonState) → Safe s → Safe (record s { tasks = remove k s.tasks })
    removed k s (same, tasks, sent) = (same, All-remove _ k s.tasks tasks, sent)

    sent-Keeps : (message : ServerMessage) → IsGuarded message → Keeps Safe (send message)
    unfolding send
    sent-Keeps message guarded s (same, tasks, sent) = elim (Bool-cases (s.sends_left == 0)) [
      | inl e ↦ rw e (same, tasks, sent)
      | inr e ↦ rw e (same, tasks, All-append IsGuarded s.outbox (message ∷ []) sent (guarded, tt))
    ]

    plain-IsGuarded : (message : ServerMessage) → IsPlain message → IsGuarded message
    plain-IsGuarded (task_complete _ _ _) h = tt
    plain-IsGuarded (error _ _ _ _) h = tt
    plain-IsGuarded (model_text _ _) h = tt
    plain-IsGuarded (needs_clarification _ _) h = tt
    plain-IsGuarded (proposed_command _ _) h = elim h [ ]

    inserted :
        (k : ℕ) (task : InFlightTask) (s : DaemonState)
        → IsOffFloor planner.is_match task
        → Safe s
        → Safe (record s { tasks = insert k task s.tasks })
    unfolding insert
    inserted k task s off (same, tasks, sent) = (same, (off, All-remove _ k s.tasks tasks), sent)

    approval_of_critical :
        (mode : Text) (prior : Bool)
        → eq_text mode (codes "auto") ≡ false
        → requires_approval mode prior true ≡ true
    unfolding requires_approval
    approval_of_critical mode prior h = ground arith

    proposal-IsGuarded :
        (plan : Plan) (drafted : CommandPlan) (draft : Draft) (i : Inspected)
        → plan.critical_patterns ≡ cfg.critical_patterns
        → matches_safety_floor planner.is_match draft.working_cmd ≡ none
        → IsGuarded (
            proposed_command plan.payload.task_id
              (proposal planner plan drafted draft i cfg.approval_mode))
    unfolding proposal risk_level
    proposal-IsGuarded plan drafted draft i patterns off = (
      off,
      λ critical.
          let matched : is_critical planner.is_critical_match plan.critical_patterns
                draft.working_cmd
              ≡ true =
            ap (λ ps. is_critical planner.is_critical_match ps draft.working_cmd) patterns
            ∙ critical in
          (
            rw matched refl,
            λ not_auto.
                rw matched
                  (approval_of_critical cfg.approval_mode plan.prior.approval_override not_auto),
          ),
    )

    send_proposal-Keeps :
        (plan : Plan) (drafted : CommandPlan) (draft : Draft) (i : Inspected)
        → plan.critical_patterns ≡ cfg.critical_patterns
        → matches_safety_floor planner.is_match draft.working_cmd ≡ none
        → Keeps Safe (send_proposal planner plan drafted draft i)
    unfolding send_proposal proposed_task
    send_proposal-Keeps plan drafted draft i patterns off =
        Keeps-bind Safe
          (λ s.
            send
              (proposed_command plan.payload.task_id
                (proposal planner plan drafted draft i s.config.approval_mode))
              s)
          _
          (λ s h.
            sent-Keeps _ (rw (h.0) (proposal-IsGuarded plan drafted draft i patterns off)) s h)
          (λ _ s h. inserted plan.payload.task_id (proposed_task planner plan draft s.now) s off h)

    conclude-Keeps :
        (plan : Plan) (drafted : CommandPlan)
        → plan.critical_patterns ≡ cfg.critical_patterns
        → (planned : Planned) → OffFloorPlanned planned
        → Keeps Safe (conclude planner plan drafted planned)
    unfolding conclude
    conclude-Keeps plan drafted patterns finished off s h = h
    conclude-Keeps plan drafted patterns unfinished off s h = h
    conclude-Keeps plan drafted patterns (good draft i) off s h =
        Keeps-bind Safe (send_proposal planner plan drafted draft i) _
          (send_proposal-Keeps plan drafted draft i patterns off) (λ _ s h. h) s h

    -- In a state with the settings `cfg`, where no proposed command of a task is on the safety
    -- floor and every proposal that was sent is guarded, this still holds when the planning of a
    -- command ends, and when it fails: the settings are the same, no proposed command of a task is
    -- on the floor, and every proposal that was sent is off the floor and, where it matches a
    -- critical pattern, told as critical and, unless the approval mode is `auto`, marked to need
    -- approval, also after an approve-all. This needs that no pattern of the floor matches the
    -- empty text, and that the calls of the model keep it.
    pub propose_command_for_execution-Safe :
        matches_safety_floor planner.is_match [] ≡ none
        → ((start : StartTask) (prompt : Text) → Keeps Safe (planner.orchestrate start prompt))
        → ((start : StartTask) → Keeps Safe (planner.redraft start))
        → (fuel : ℕ) (payload : StartTask) (provider_continuation : Bool) (drafted : CommandPlan)
          (s : DaemonState)
        → Safe s
        → Leaves Safe
            (propose_command_for_execution planner fuel payload provider_continuation drafted s)
    unfolding propose_command_for_execution
    propose_command_for_execution-Safe bare orchestrates redrafts fuel payload provider_continuation
          drafted s h =
        let plan = plan_of planner payload provider_continuation drafted s in
        Keeps-then Safe OffFloorPlanned
          (plan_loop planner fuel plan (first_draft planner payload drafted)) _
          (plan_loop-Keeps planner Safe framed removed
            (λ message plain. sent-Keeps message (plain-IsGuarded message plain))
            (λ k task t empty k'. inserted k task t (rw empty bare) k') orchestrates redrafts fuel
            plan _)
          (plan_loop-OffFloor fuel plan _)
          (conclude-Keeps plan drafted (ap (λ (c : Config). c.critical_patterns) h.0)) s h
