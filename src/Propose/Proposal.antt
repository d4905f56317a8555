-- ===== src/Propose/Proposal.antt =====
-- `propose_command_for_execution` of crates/termlm-core/src/main.rs: what is proposed at the end of
-- the planning.
use termlm.Base.{
  ℕ, max, Bool, true, false, not, ◌&&◌, ◌||◌, List, [], Option, none, some, if◌then◌else◌,
}
use termlm.Base.Text.{Text, codes, eq_text, is_empty, trim, first_piece}
use termlm.Base.Maps.{lookup, insert}
use termlm.Shell.{ParsedCommand, has_risky_constructs}
use termlm.Safety.{is_critical}
use termlm.Daemon.{
  InFlightTask, ProposedCommand, proposed_command, DaemonState, M, ◌>>=◌, ◌>>◌, return, update,
  send,
}
use termlm.Tasks.{approval_override_for_shell}
use termlm.Tasks.Engine.{StartTask}
use termlm.Propose.Findings.{command_has_destructive_file_action}
use termlm.Propose.Draft.{
  Planner, Prior, Plan, Draft, Inspected, Planned, finished, good, unfinished, waiting_task,
}
use termlm.Propose.Loop.{plan_loop}

pub record CommandPlan : Type 0 where
  pub cmd : Text
  pub rationale : Text
  pub intent : Text
  pub expected_effect : Text
  pub commands_used : List Text
  pub continue_after_execution : Bool

unfoldable pub prior_of : Bool → Option InFlightTask → Prior
prior_of shell_override none = record {
  approval_override = shell_override;
  provider_continuation = false;
  tool_round = 0;
}
prior_of shell_override (some t) = record {
  approval_override = t.approval_override;
  provider_continuation = t.provider_continuation;
  tool_round = t.tool_round;
}

-- `approval.mode`, and the override that an earlier answer gave
unfoldable pub requires_approval : Text → Bool → Bool → Bool
requires_approval mode prior_override critical =
    let by_mode =
      if eq_text mode (codes "auto")
      then false
      else if eq_text mode (codes "manual_critical")
      then critical
      else true in
    if prior_override && not critical then false else by_mode

unfoldable pub risk_level : Bool → ParsedCommand → Text → Text
risk_level critical parsed cmd =
    if critical
    then codes "critical"
    else if has_risky_constructs parsed || command_has_destructive_file_action cmd
    then codes "elevated"
    else codes "read_only"

unfoldable pub critical_match : Bool → Bool → Option Text
critical_match matched parser_critical =
    if matched || parser_critical
    then some (
        if parser_critical && not matched
        then codes "parser_ambiguity_risk"
        else codes "critical_pattern")
    else none

module _ (planner : Planner) where
  open planner use {is_critical_match, sanitize}

  unfoldable pub proposal : Plan → CommandPlan → Draft → Inspected → Text → ProposedCommand
  proposal plan drafted draft i mode =
      let matched = is_critical is_critical_match plan.critical_patterns draft.working_cmd in
      let parser_critical = i.parsed.ambiguous && has_risky_constructs i.parsed in
      let critical = matched || parser_critical in
      record {
        cmd = draft.working_cmd;
        rationale = drafted.rationale;
        intent = drafted.intent;
        expected_effect = drafted.expected_effect;
        commands_used =
            if not (is_empty drafted.commands_used)
            then drafted.commands_used
            else if is_empty (first_piece i.names)
            then []
            else i.names;
        risk_level = risk_level critical i.parsed draft.working_cmd;
        requires_approval = requires_approval mode plan.prior.approval_override critical;
        critical_match = critical_match matched parser_critical;
        grounding = i.grounding;
        validation_status =
            if is_empty draft.last_findings then codes "passed" else codes "revised";
        round = draft.planning_round;
      }

  unfoldable pub proposed_task : Plan → Draft → ℕ → InFlightTask
  proposed_task plan draft now = record (waiting_task plan plan.continuation now) {
    proposed_command = draft.working_cmd;
    awaiting_clarification = false;
  }

  unfoldable pub send_proposal : Plan → CommandPlan → Draft → Inspected → M (Unit {0})
  send_proposal plan drafted draft i = do
    λ s.
        send
          (proposed_command plan.payload.task_id
            (proposal plan drafted draft i s.config.approval_mode))
          s
    update (λ s. record s {
      tasks = insert plan.payload.task_id (proposed_task plan draft s.now) s.tasks;
    })

  abbrev pub plan_of : StartTask → Bool → CommandPlan → DaemonState → Plan
  plan_of payload provider_continuation drafted s =
      let prior =
        prior_of (approval_override_for_shell s payload.shell_id)
          (lookup payload.task_id s.tasks) in
      record {
        payload = payload;
        prior = prior;
        continuation =
            (provider_continuation || prior.provider_continuation)
            && drafted.continue_after_execution;
        by_tool_call = eq_text drafted.rationale (codes "provider_tool_call");
        critical_patterns = s.config.critical_patterns;
        max_rounds = max s.config.max_planning_rounds 1;
      }

  abbrev pub first_draft : StartTask → CommandPlan → Draft
  first_draft payload drafted = record {
    working_cmd = trim (sanitize drafted.cmd (trim payload.prompt));
    planning_round = 1;
    last_findings = [];
  }

  -- whether the loop has ended
  unfoldable pub conclude : Plan → CommandPlan → Planned → M Bool
  conclude plan drafted finished = return true
  conclude plan drafted unfinished = return false
  conclude plan drafted (good draft i) = do send_proposal plan drafted draft i; return true

  -- `false` where the fuel has run out
  unfoldable pub propose_command_for_execution : ℕ → StartTask → Bool → CommandPlan → M Bool
  propose_command_for_execution fuel payload provider_continuation drafted s =
      let plan = plan_of payload provider_continuation drafted s in
      (do
        planned ← plan_loop planner fuel plan (first_draft payload drafted)
        conclude plan drafted planned)
        s
