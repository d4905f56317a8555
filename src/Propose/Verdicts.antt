-- ===== src/Propose/Verdicts.antt =====
-- A rule for what the rounds of the planning give.
use termlm.Base.{◌+◌, Bool, true, false, Option, none, some, leb, ◌≡◌, refl, if◌then◌else◌}
use termlm.Base.Text.{Text, eq_text}
use termlm.Daemon.{Reply, done, failed, blocked, M, ◌>>=◌, return}
use termlm.Propose.Findings.{summarize_validation_findings}
use termlm.Propose.Draft.{Planner, Plan, Draft, Inspected, Verdict, answered, again}
use termlm.Propose.Loop.{
  exhausted, unrevised, record_feedback, report_unknown, try_web, try_redraft, next_draft,
  same_draft, revise_draft, redraft_or_revise, reject_draft,
}
use termlm.Propose.Keeps.{Gives, Returns, Returns-bind}

pub Returns-all : {A : Type 0} (Q : A → Type 0) (m : M A) → ((a : A) → Q a) → Returns Q m
Returns-all {A = A} Q m h s = by_reply (m s)
  where
    by_reply : (r : Reply A) → Gives Q r
    by_reply (done a t) = h a
    by_reply (failed t) = tt
    by_reply blocked = tt

pub Returns-if :
    {A : Type 0} (Q : A → Type 0) (b : Bool) (m n : M A)
    → (b ≡ true → Returns Q m)
    → (b ≡ false → Returns Q n)
    → Returns Q (if b then m else n)
Returns-if Q true m n h k s = h refl s
Returns-if Q false m n h k s = k refl s

-- A step whose value is known.
pub Returns-then :
    {A B : Type 0} (R : A → Type 0) (Q : B → Type 0) (m : M A) (f : A → M B)
    → Returns R m
    → ((a : A) → R a → Returns Q (f a))
    → Returns Q (m >>= f)
Returns-then {A = A} {B = B} R Q m f g h s = after (m s) (g s)
  where
    after :
        (r : Reply A)
        → Gives R r
        → Gives Q (elim r as (λ _. Reply B) [
          | done a t ↦ f a t
          | failed t ↦ failed t
          | blocked ↦ blocked
        ])
    after (done a t) k = h a k t
    after (failed t) k = tt
    after blocked k = tt

module _ (planner : Planner) (plan : Plan) (draft : Draft) (i : Inspected) (Q : Verdict → Type 0)
    (ends : Q answered)
    (revised : (next : Draft)
      → next.planning_round ≡ draft.planning_round + 1
      → leb plan.max_rounds draft.planning_round ≡ false
      → Q (again next))
    (redrafted : Returns
      (λ o. (cmd : Text) → o ≡ some cmd → Q (again (next_draft planner plan draft i cmd)))
      (try_redraft planner plan draft)) where
  revise_draft-Returns : Returns Q (revise_draft planner plan draft i)
  unfolding revise_draft
  revise_draft-Returns =
      Returns-if Q (leb plan.max_rounds draft.planning_round) _ _
        (λ _.
          Returns-bind Q (exhausted plan (summarize_validation_findings i.findings)) _
            (λ _ _. ends))
        (λ left. by_revision left _ _)
    where
      either :
          (b : Bool) (x y : Draft)
          → x.planning_round ≡ draft.planning_round + 1
          → y.planning_round ≡ draft.planning_round + 1
          → (if b then x else y).planning_round ≡ draft.planning_round + 1
      either true x y e k = e
      either false x y e k = k

      by_revision :
          leb plan.max_rounds draft.planning_round ≡ false
          → (message : Text) (o : Option Text)
          → Returns Q (elim o as (λ _. M Verdict) [
            | none ↦ unrevised plan message >>= λ _. return answered
            | some next_cmd ↦ return (
                again (
                  if eq_text next_cmd draft.working_cmd
                  then same_draft planner draft i
                  else next_draft planner plan draft i next_cmd))
          ])
      by_revision left message none s = Returns-bind Q (unrevised plan message) _ (λ _ _. ends) s
      by_revision left message (some next_cmd) s =
          revised _ (either (eq_text next_cmd draft.working_cmd) _ _ refl refl) left

  -- a draft with findings: the answer is given, or there is a next draft
  pub reject_draft-Returns : Returns Q (reject_draft planner plan draft i)
  unfolding reject_draft redraft_or_revise
  reject_draft-Returns = Returns-bind Q (record_feedback planner plan draft i) _ (λ _.
      Returns-bind Q (report_unknown planner plan i) _ (λ _.
        Returns-bind Q (try_web planner plan i) _ (λ handled.
          Returns-if Q handled (return answered) (redraft_or_revise planner plan draft i)
            (λ _ _. ends)
            (λ _. Returns-then _ Q (try_redraft planner plan draft) _ redrafted by_redraft))))
    where
      by_redraft :
          (o : Option Text)
          → ((cmd : Text) → o ≡ some cmd → Q (again (next_draft planner plan draft i cmd)))
          → Returns Q (elim o as (λ _. M Verdict) [
            | some cmd ↦ return (again (next_draft planner plan draft i cmd))
            | none ↦ revise_draft planner plan draft i
          ])
      by_redraft none h s = revise_draft-Returns s
      by_redraft (some cmd) h s = h cmd refl
