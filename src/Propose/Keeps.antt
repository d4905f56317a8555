-- ===== src/Propose/Keeps.antt =====
-- A rule for invariants of `propose_command_for_execution`: what the single steps keep, the planning
-- keeps.
use termlm.Base.{
  ℕ, zero, suc, max, Bool, true, ◌&&◌, List, [], Option, none, some, String, ltb, leb, ◌≡◌, refl,
  if◌then◌else◌, any,
}
use termlm.Base.Text.{Text, is_empty}
use termlm.Base.Maps.{remove, insert}
use termlm.Safety.{SafetyFloorMatch, matches_safety_floor}
use termlm.Daemon.{
  ChatMessage, InFlightTask, ServerMessage, task_complete, error, model_text, needs_clarification,
  proposed_command, Config, DaemonState, Reply, done, failed, blocked, M, ◌>>=◌, return, send,
}
use termlm.Tasks.Engine.{StartTask}
use termlm.Tasks.Keeps.{Leaves, Keeps, Keeps-bind, Keeps-if, Leaves-if, Keeps-with_conversations}
use termlm.Tasks.Steps
use termlm.Planning.Words.{is_kind}
use termlm.Propose.Findings.{validation_findings_need_web_fallback}
use termlm.Propose.Draft.{
  Planner, Plan, Draft, Inspected, Verdict, answered, accepted, again, Planned, finished, good,
  waiting_task, ask, session_turn, refuse_floor, inspect,
}
use termlm.Propose.Loop.{
  count_history, readonly_tool_round_count, validation_web_fallback_attempt_count, give_up,
  exhausted, unrevised, web_available, web_attempt, web_round, try_web, try_redraft, report_unknown,
  record_feedback, revise_draft, redraft_or_revise, reject_draft, plan_round, plan_loop,
}

-- A message that proposes no command.
abbrev pub IsPlain : ServerMessage → Type 0
IsPlain (task_complete _ _ _) = Unit
IsPlain (error _ _ _ _) = Unit
IsPlain (model_text _ _) = Unit
IsPlain (needs_clarification _ _) = Unit
IsPlain (proposed_command _ _) = ⊥

-- what a step gives where it ends
abbrev pub Gives : {A : Type 0} → (A → Type 0) → Reply A → Type 0
Gives Q (done a _) = Q a
Gives Q (failed _) = Unit
Gives Q blocked = Unit

-- what a step gives in every state
abbrev pub Returns : {A : Type 0} → (A → Type 0) → M A → Type 0
Returns Q m = (s : DaemonState) → Gives Q (m s)

pub Returns-bind :
    {A B : Type 0} (Q : B → Type 0) (m : M A) (f : A → M B)
    → ((a : A) → Returns Q (f a))
    → Returns Q (m >>= f)
Returns-bind {A = A} {B = B} Q m f h s = after (m s)
  where
    after :
        (r : Reply A)
        → Gives Q (elim r as (λ _. Reply B) [
          | done a t ↦ f a t
          | failed t ↦ failed t
          | blocked ↦ blocked
        ])
    after (done a t) = h a t
    after (failed t) = tt
    after blocked = tt

-- A step that keeps `P` and gives what the next one needs.
pub Keeps-then :
    {A B : Type 0} (P : DaemonState → Type 0) (Q : A → Type 0) (m : M A) (f : A → M B)
    → Keeps P m
    → Returns Q m
    → ((a : A) → Q a → Keeps P (f a))
    → Keeps P (m >>= f)
Keeps-then {A = A} {B = B} P Q m f keeps gives next s h = after (m s) (keeps s h) (gives s)
  where
    after :
        (r : Reply A)
        → Leaves P r
        → Gives Q r
        → Leaves P (elim r as (λ _. Reply B) [
          | done a t ↦ f a t
          | failed t ↦ failed t
          | blocked ↦ blocked
        ])
    after (done a t) k g = next a g t k
    after (failed t) k g = k
    after blocked k g = tt

module _ (planner : Planner) (P : DaemonState → Type 0)
    (framed : (s t : DaemonState)
      → t.tasks ≡ s.tasks
      → t.config ≡ s.config
      → t.outbox ≡ s.outbox
      → P s
      → P t)
    (removed : (k : ℕ) (s : DaemonState) → P s → P (record s { tasks = remove k s.tasks }))
    (plain-Keeps : (message : ServerMessage) → IsPlain message → Keeps P (send message))
    (inserted : (k : ℕ) (task : InFlightTask) (s : DaemonState)
      → task.proposed_command ≡ []
      → P s
      → P (record s { tasks = insert k task s.tasks }))
    (orchestrate-Keeps : (start : StartTask) (prompt : Text)
      → Keeps P (planner.orchestrate start prompt))
    (redraft-Keeps : (start : StartTask) → Keeps P (planner.redraft start)) where
  ask-Keeps :
      (plan : Plan) (continuation : Bool) (question : Text)
      → Keeps P (ask plan continuation question)
  unfolding ask waiting_task
  ask-Keeps plan continuation question s h =
      plain-Keeps _ tt _
        (inserted plan.payload.task_id (waiting_task plan continuation s.now) s refl h)

  session-Keeps : (plan : Plan) (text : Text) → Keeps P (session_turn plan text)
  unfolding session_turn
  session-Keeps plan text = Steps.session-Keeps P framed removed _ _ _ _

  refuse_floor-Keeps : (plan : Plan) (pattern : String) → Keeps P (refuse_floor plan pattern)
  unfolding refuse_floor
  refuse_floor-Keeps plan pattern = Keeps-bind P _ _ (plain-Keeps _ tt) (λ _.
      Keeps-bind P _ _ (Keeps-with_conversations P framed _) (λ _ s h.
        Leaves-if P s.config.allow_clarifications _ _ (ask-Keeps plan true _ s h) (
          Keeps-bind P _ _ (plain-Keeps _ tt)
            (λ _.
              Keeps-bind P _ _ (session-Keeps plan _)
                (λ _. Steps.clear-Keeps P framed removed plan.payload.task_id))
            s h)))

  give_up-Keeps :
      (plan : Plan) (question message summary session : Text)
      → Keeps P (give_up plan question message summary session)
  unfolding give_up
  give_up-Keeps plan question message summary session s h =
      Leaves-if P s.config.allow_clarifications _ _ (ask-Keeps plan plan.continuation question s h)
        (Keeps-bind P _ _ (plain-Keeps _ tt)
          (λ _. Keeps-bind P _ _ (plain-Keeps _ tt) (λ _. session-Keeps plan session)) s h)

  count-Keeps : (count : List ChatMessage → ℕ) (task_id : ℕ) → Keeps P (count_history count task_id)
  unfolding count_history
  count-Keeps count task_id s h = Leaves-if P s.conversations_locked _ _ tt h

  web_attempt-Keeps : (plan : Plan) (cfg : Config) → Keeps P (web_attempt planner plan cfg)
  unfolding web_attempt validation_web_fallback_attempt_count
  web_attempt-Keeps plan cfg = Keeps-bind P _ _ (count-Keeps _ _) (λ attempts.
      Keeps-if P (ltb attempts (max cfg.max_planning_rounds 1)) _ _ (orchestrate-Keeps _ _)
        (λ s h. h))

  web_round-Keeps : (plan : Plan) (cfg : Config) → Keeps P (web_round planner plan cfg)
  unfolding web_round readonly_tool_round_count
  web_round-Keeps plan cfg = Keeps-bind P _ _ (count-Keeps _ _) (λ rounds.
      Keeps-if P (ltb rounds (max cfg.max_tool_rounds 1)) _ _ (web_attempt-Keeps plan cfg)
        (λ s h. h))

  try_web-Keeps : (plan : Plan) (i : Inspected) → Keeps P (try_web planner plan i)
  unfolding try_web
  try_web-Keeps plan i s h =
      Leaves-if P (web_available planner plan s && validation_findings_need_web_fallback i.findings)
        _ _ (web_round-Keeps plan s.config s h) h

  try_redraft-Keeps : (plan : Plan) (draft : Draft) → Keeps P (try_redraft planner plan draft)
  unfolding try_redraft
  try_redraft-Keeps plan draft =
      Keeps-if P planner.stub_enabled _ _ (λ s h. h)
        (Keeps-bind P _ _ (redraft-Keeps _) (λ _ s h. h))

  revise_draft-Keeps :
      (plan : Plan) (draft : Draft) (i : Inspected) → Keeps P (revise_draft planner plan draft i)
  unfolding revise_draft exhausted unrevised
  revise_draft-Keeps plan draft i =
      Keeps-if P (leb plan.max_rounds draft.planning_round) _ _
        (Keeps-bind P _ _ (give_up-Keeps plan _ _ _ _) (λ _ s h. h)) (by_revision _ _ _)
    where
      by_revision :
          (message : Text) (next : Text → Draft) (o : Option Text)
          → Keeps P (elim o as (λ _. M Verdict) [
            | none ↦ unrevised plan message >>= λ _. return answered
            | some next_cmd ↦ return (again (next next_cmd))
          ])
      by_revision message next none s h =
          Keeps-bind P _ _ (give_up-Keeps plan _ _ _ _) (λ _ s h. h) s h
      by_revision message next (some next_cmd) s h = h

  reject_draft-Keeps :
      (plan : Plan) (draft : Draft) (i : Inspected) → Keeps P (reject_draft planner plan draft i)
  unfolding reject_draft record_feedback redraft_or_revise report_unknown
  reject_draft-Keeps plan draft i = Keeps-bind P _ _ (Keeps-with_conversations P framed _) (λ _.
      Keeps-bind P _ _
        (Keeps-if P (any (is_kind "unknown_command") i.findings) _ _ (plain-Keeps _ tt) (λ s h. h))
        (λ _. Keeps-bind P _ _ (try_web-Keeps plan i) (λ handled.
          Keeps-if P handled _ _ (λ s h. h)
            (Keeps-bind P _ _ (try_redraft-Keeps plan draft) (λ o. by_redraft _ o)))))
    where
      by_redraft :
          (next : Text → Verdict) (o : Option Text)
          → Keeps P (elim o as (λ _. M Verdict) [
            | some cmd ↦ return (next cmd)
            | none ↦ revise_draft planner plan draft i
          ])
      by_redraft next none s h = revise_draft-Keeps plan draft i s h
      by_redraft next (some cmd) s h = h

  plan_round-Keeps : (plan : Plan) (draft : Draft) → Keeps P (plan_round planner plan draft)
  unfolding plan_round
  plan_round-Keeps plan draft = by_floor (matches_safety_floor planner.is_match draft.working_cmd)
    where
      by_floor :
          (o : Option SafetyFloorMatch)
          → Keeps P (elim o as (λ _. M Verdict) [
            | some matched ↦ refuse_floor plan matched.pattern >>= λ _. return answered
            | none ↦ λ s.
                let i = inspect planner plan draft.working_cmd s in
                if is_empty i.findings
                then done (accepted draft i) s
                else reject_draft planner plan draft i s
          ])
      by_floor none s h =
          Leaves-if P (is_empty (inspect planner plan draft.working_cmd s).findings) _ _ h
            (reject_draft-Keeps plan draft _ s h)
      by_floor (some matched) s h =
          Keeps-bind P _ _ (refuse_floor-Keeps plan matched.pattern) (λ _ s h. h) s h

  pub plan_loop-Keeps :
      (fuel : ℕ) (plan : Plan) (draft : Draft) → Keeps P (plan_loop planner fuel plan draft)
  unfolding plan_loop
  plan_loop-Keeps zero plan draft s h = h
  plan_loop-Keeps (suc fuel) plan draft s h =
      Keeps-bind P _ _ (plan_round-Keeps plan draft)
        (by_verdict (λ next. plan_loop-Keeps fuel plan next)) s h
    where
      by_verdict :
          ((next : Draft) → Keeps P (plan_loop planner fuel plan next))
          → (v : Verdict)
          → Keeps P (elim v as (λ _. M Planned) [
            | answered ↦ return finished
            | accepted d i ↦ return (good d i)
            | again next ↦ plan_loop planner fuel plan next
          ])
      by_verdict ih answered s h = h
      by_verdict ih (accepted d i) s h = h
      by_verdict ih (again next) s h = ih next s h
