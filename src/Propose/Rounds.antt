-- ===== src/Propose/Rounds.antt =====
-- The planning of a command ends within its rounds where the model gives no draft of its own.
use termlm.Base.{
  ℕ, zero, suc, ◌+◌, ◌≤◌, max, Bool, true, false, Option, none, some, leb, ◌≡◌, refl, arith,
  if◌then◌else◌, ◌⊎◌, inl, inr,
}
use termlm.Base.Text.{Text, is_empty}
use termlm.Safety.{SafetyFloorMatch, matches_safety_floor}
use termlm.Daemon.{DaemonState, Reply, done, failed, blocked, M, ◌>>=◌, return}
use termlm.Tasks.Engine.{StartTask}
use termlm.Propose.Draft.{
  Planner, Plan, Draft, Inspected, Verdict, answered, accepted, again, Planned, finished, good,
  unfinished, refuse_floor, inspect,
}
use termlm.Propose.Loop.{next_draft, new_draft, try_redraft, reject_draft, plan_round, plan_loop}
use termlm.Propose.Proposal.{
  CommandPlan, send_proposal, plan_of, first_draft, conclude, propose_command_for_execution,
}
use termlm.Propose.Keeps.{Gives, Returns, Returns-bind}
use termlm.Propose.Verdicts.{Returns-if, Returns-then, reject_draft-Returns}

module _ (planner : Planner)
    (no_redraft : (planner.stub_enabled ≡ true)
      ⊎ ((start : StartTask) → Returns (λ o. o ≡ none) (planner.redraft start))) where
  -- a next draft is in the next round, within the limit
  abbrev Advances : Plan → Draft → Verdict → Type 0
  Advances plan draft answered = Unit
  Advances plan draft (accepted d i) = Unit
  Advances plan draft (again next) =
      (next.planning_round ≡ draft.planning_round + 1)
      × (leb plan.max_rounds draft.planning_round ≡ false)

  abbrev IsEnded : Planned → Type 0
  IsEnded finished = Unit
  IsEnded (good d i) = Unit
  IsEnded unfinished = ⊥

  try_redraft-none :
      (plan : Plan) (draft : Draft) → Returns (λ o. o ≡ none) (try_redraft planner plan draft)
  unfolding try_redraft new_draft
  try_redraft-none plan draft = elim no_redraft [
    | inl stub ↦ Returns-if _ planner.stub_enabled _ _ (λ _ s. refl) (λ off. absurd (ground arith))
    | inr none_given ↦
        Returns-if _ planner.stub_enabled _ _ (λ _ s. refl)
          (λ _.
            Returns-then (λ o. o ≡ none) _ (planner.redraft plan.payload) _
              (none_given plan.payload) (λ o e s. rw e refl))
  ]

  reject_draft-Advances :
      (plan : Plan) (draft : Draft) (i : Inspected)
      → Returns (Advances plan draft) (reject_draft planner plan draft i)
  reject_draft-Advances plan draft i =
      reject_draft-Returns planner plan draft i (Advances plan draft) tt (λ next e left. (e, left))
        (vacuous (try_redraft-none plan draft))
    where
      vacuous :
          Returns (λ o. o ≡ none) (try_redraft planner plan draft)
          → Returns
              (λ o.
                (cmd : Text)
                → o ≡ some cmd
                → Advances plan draft (again (next_draft planner plan draft i cmd)))
              (try_redraft planner plan draft)
      vacuous h s = by_reply (try_redraft planner plan draft s) (h s)
        where
          by_reply :
              (r : Reply (Option Text))
              → Gives (λ o. o ≡ none) r
              → Gives
                  (λ o.
                    (cmd : Text)
                    → o ≡ some cmd
                    → Advances plan draft (again (next_draft planner plan draft i cmd)))
                  r
          by_reply (done o t) e = λ cmd e'. absurd (cc)
          by_reply (failed t) e = tt
          by_reply blocked e = tt

  plan_round-Advances :
      (plan : Plan) (draft : Draft) → Returns (Advances plan draft) (plan_round planner plan draft)
  unfolding plan_round
  plan_round-Advances plan draft =
      by_floor (matches_safety_floor planner.is_match draft.working_cmd)
    where
      accepted_or :
          (s : DaemonState) (i : Inspected) (b : Bool)
          → Gives
              (Advances plan draft)
              (if b then done (accepted draft i) s else reject_draft planner plan draft i s)
      accepted_or s i true = tt
      accepted_or s i false = reject_draft-Advances plan draft i s

      by_floor :
          (o : Option SafetyFloorMatch)
          → Returns (Advances plan draft) (elim o as (λ _. M Verdict) [
            | some matched ↦ refuse_floor plan matched.pattern >>= λ _. return answered
            | none ↦ λ s.
                let i = inspect planner plan draft.working_cmd s in
                if is_empty i.findings
                then done (accepted draft i) s
                else reject_draft planner plan draft i s
          ])
      by_floor none s = accepted_or s (inspect planner plan draft.working_cmd s) _
      by_floor (some matched) s =
          Returns-bind (Advances plan draft) (refuse_floor plan matched.pattern) _ (λ _ _. tt) s

  plan_loop-IsEnded :
      (fuel : ℕ) (plan : Plan) (draft : Draft)
      → draft.planning_round ≤ plan.max_rounds
      → plan.max_rounds + 1 ≤ fuel + draft.planning_round
      → Returns IsEnded (plan_loop planner fuel plan draft)
  unfolding plan_loop
  plan_loop-IsEnded zero plan draft within enough s = absurd (omega arith)
  plan_loop-IsEnded (suc fuel) plan draft within enough s =
      Returns-then (Advances plan draft) IsEnded (plan_round planner plan draft) _
        (plan_round-Advances plan draft)
        (by_verdict (λ next h k. plan_loop-IsEnded fuel plan next h k)) s
    where
      by_verdict :
          ((next : Draft)
            → next.planning_round ≤ plan.max_rounds
            → plan.max_rounds + 1 ≤ fuel + next.planning_round
            → Returns IsEnded (plan_loop planner fuel plan next))
          → (v : Verdict) → Advances plan draft v
          → Returns IsEnded (elim v as (λ _. M Planned) [
            | answered ↦ return finished
            | accepted d i ↦ return (good d i)
            | again next ↦ plan_loop planner fuel plan next
          ])
      by_verdict ih answered e s = tt
      by_verdict ih (accepted d i) e s = tt
      by_verdict ih (again next) (round, left) s =
          ih next (ground (arith, round, left)) (omega (arith, round)) s

  conclude-ended :
      (plan : Plan) (drafted : CommandPlan) (planned : Planned)
      → IsEnded planned
      → Returns (λ b. b ≡ true) (conclude planner plan drafted planned)
  unfolding conclude
  conclude-ended plan drafted finished e s = refl
  conclude-ended plan drafted (good draft i) e s =
      Returns-bind (λ b. b ≡ true) (send_proposal planner plan drafted draft i) _ (λ _ _. refl) s
  conclude-ended plan drafted unfinished e s = elim e [ ]

  -- Where the stub of the model is in use, or the model gives no draft of its own after a
  -- validation, the planning of a command ends within the rounds of the settings, at least one: fuel for so
  -- many rounds never runs out.
  pub propose_command_for_execution-ends :
      (fuel : ℕ) (payload : StartTask) (provider_continuation : Bool) (drafted : CommandPlan)
      (s : DaemonState)
      → max s.config.max_planning_rounds 1 ≤ fuel
      → Gives
          (λ ended. ended ≡ true)
          (propose_command_for_execution planner fuel payload provider_continuation drafted s)
  unfolding propose_command_for_execution
  propose_command_for_execution-ends fuel payload provider_continuation drafted s enough =
      let plan = plan_of planner payload provider_continuation drafted s in
      Returns-then IsEnded (λ b. b ≡ true)
        (plan_loop planner fuel plan (first_draft planner payload drafted)) _
        (plan_loop-IsEnded fuel plan _ (omega arith) (omega arith)) (conclude-ended plan drafted) s
