-- ===== src/Propose/Loop.antt =====
-- The loop of `propose_command_for_execution` in crates/termlm-core/src/main.rs. It runs on fuel:
-- where the model gives a new draft in every round it does not end.
use termlm.Base.{
  ℕ, zero, suc, ◌+◌, max, Bool, true, false, ◌&&◌, List, [], ◌∷◌, ◌++◌, Option, none, some, ltb,
  leb, if◌then◌else◌, any, take,
}
use termlm.Base.Text.{Text, codes, eq_text, is_empty, starts_with, trim, join, show_u64}
use termlm.Base.Maps.{lookup}
use termlm.Safety.{matches_safety_floor}
use termlm.Daemon.{
  Config, ChatMessage, user, tool, system, assistant, unknown_command, bad_tool_call, model_done,
  DaemonState, done, blocked, M, ◌>>=◌, ◌>>◌, return, send, with_conversations, error,
  task_complete,
}
use termlm.Tasks.{push_message}
use termlm.Exposure.{determine_tool_exposure}
use termlm.Planning.Words.{is_kind}
use termlm.Planning.Revise.{revise_command}
use termlm.Propose.Findings.{summarize_validation_findings, validation_findings_need_web_fallback}
use termlm.Propose.Draft.{
  Planner, Plan, Draft, Inspected, Verdict, answered, accepted, again, Planned, finished, good,
  unfinished, ask, session_turn, refuse_floor, inspect,
}

abbrev is_other_tool : Text → Bool
is_other_tool name = if eq_text name (codes "execute_shell_command") then false else true

-- the results of tools other than the proposal of a command
unfoldable pub count_tool_rounds : List ChatMessage → ℕ
count_tool_rounds [] = 0
count_tool_rounds (tool name _ ∷ rest) =
    let others = count_tool_rounds rest in if is_other_tool name then others + 1 else others
count_tool_rounds (system _ ∷ rest) = count_tool_rounds rest
count_tool_rounds (user _ ∷ rest) = count_tool_rounds rest
count_tool_rounds (assistant _ ∷ rest) = count_tool_rounds rest

-- the prompts that asked the model to look for documentation
unfoldable pub count_web_attempts : List ChatMessage → ℕ
count_web_attempts [] = 0
count_web_attempts (user content ∷ rest) =
    let others = count_web_attempts rest in
    if starts_with content
      (codes "Local validation found missing or insufficient command grounding.")
    then others + 1
    else others
count_web_attempts (system _ ∷ rest) = count_web_attempts rest
count_web_attempts (assistant _ ∷ rest) = count_web_attempts rest
count_web_attempts (tool _ _ ∷ rest) = count_web_attempts rest

-- a count over the history of a task, under the lock
unfoldable pub count_history : (List ChatMessage → ℕ) → ℕ → M ℕ
count_history count task_id s =
    if s.conversations_locked
    then blocked
    else done
        (elim (lookup task_id s.task_conversations) [ none ↦ 0 | some history ↦ count history ]) s

unfoldable pub readonly_tool_round_count : ℕ → M ℕ
readonly_tool_round_count task_id = count_history count_tool_rounds task_id

unfoldable pub validation_web_fallback_attempt_count : ℕ → M ℕ
validation_web_fallback_attempt_count task_id = count_history count_web_attempts task_id

unfoldable pub unknown_command_message : Inspected → Text
unknown_command_message i =
    if is_empty i.validation_token
    then codes "validation blocked: unknown command token"
    else if is_empty i.suggestions
    then codes "validation blocked: unknown command `" ++ i.validation_token ++ codes "`"
    else codes "validation blocked: unknown command `"
      ++ i.validation_token
      ++ codes "`; suggestions: "
      ++ join (codes ", ") (take 5 i.suggestions)

abbrev web_prompt : Text
web_prompt =
    codes
      "Local validation found missing or insufficient command grounding. Use local lookup results if they are enough; otherwise use web_search/web_read to find reliable command documentation, then emit one corrected execute_shell_command tool call. Ask one focused clarification question only if no grounded command is possible."

-- The answer where a draft cannot be validated: a question, or the end of the task.
unfoldable pub give_up : Plan → Text → Text → Text → Text → M (Unit {0})
give_up plan question message summary session s =
    if s.config.allow_clarifications
    then ask plan plan.continuation question s
    else (do
      send (error plan.payload.task_id bad_tool_call message none)
      send (task_complete plan.payload.task_id model_done summary)
      session_turn plan session)
        s

-- The rounds are used up.
unfoldable pub exhausted : Plan → Text → M (Unit {0})
exhausted plan message =
    let rounds = show_u64 plan.max_rounds in
    give_up plan
      (codes "validation_incomplete: I could not validate a safe command within "
        ++ rounds
        ++ codes " planning rounds ("
        ++ message
        ++ codes "). What exact behavior should I run?")
      (codes "planning validation failed: "
        ++ message
        ++ codes "; no hard-coded fallback command was substituted")
      (codes "validation_incomplete: no validated command after "
        ++ rounds
        ++ codes " planning rounds.")
      (codes "validation_incomplete: no validated command after "
        ++ rounds
        ++ codes " planning rounds ("
        ++ message
        ++ codes ")")

-- The findings do not say how to change the draft.
unfoldable pub unrevised : Plan → Text → M (Unit {0})
unrevised plan message =
    give_up plan
      (codes "I couldn't validate a safe command ("
        ++ message
        ++ codes "). What exact behavior do you want?")
      (codes "planning validation failed: " ++ message)
      (codes "Planning validation failed and no safe revision was found.")
      (codes "Planning validation failed and no safe revision was found: " ++ message)

abbrev first_suggestion : List Text → Option Text
first_suggestion [] = none
first_suggestion (t ∷ ts) = some t

module _ (planner : Planner) where
  open planner use {is_match, sanitize, tool_response, orchestrate, redraft, stub_enabled}

  abbrev pub web_available : Plan → DaemonState → Bool
  web_available plan s =
      (determine_tool_exposure plan.payload.classification.classification
        s.config.routing).web_tools
      && s.config.routing.web_enabled
      && s.config.routing.web_expose_tools

  -- The model may look for documentation in the web: the limits on its rounds and attempts, `cfg`
  -- the settings before the look at the history.
  unfoldable pub web_attempt : Plan → Config → M Bool
  web_attempt plan cfg = do
    attempts ← validation_web_fallback_attempt_count plan.payload.task_id
    if ltb attempts (max cfg.max_planning_rounds 1)
        then orchestrate plan.payload web_prompt
        else return false

  unfoldable pub web_round : Plan → Config → M Bool
  web_round plan cfg = do
    rounds ← readonly_tool_round_count plan.payload.task_id
    if ltb rounds (max cfg.max_tool_rounds 1) then web_attempt plan cfg else return false

  unfoldable pub try_web : Plan → Inspected → M Bool
  try_web plan i s =
      if web_available plan s && validation_findings_need_web_fallback i.findings
      then web_round plan s.config s
      else done false s

  -- a draft that is another than the one before
  unfoldable pub new_draft : Text → Option Text → Option Text
  new_draft working_cmd none = none
  new_draft working_cmd (some cmd) =
      if eq_text (trim cmd) (trim working_cmd) then none else some (trim cmd)

  unfoldable pub try_redraft : Plan → Draft → M (Option Text)
  try_redraft plan draft =
      if stub_enabled
      then return none
      else (do cmd ← redraft plan.payload; return (new_draft draft.working_cmd cmd))

  abbrev pub next_draft : Plan → Draft → Inspected → Text → Draft
  next_draft plan draft i cmd = record {
    working_cmd = sanitize cmd plan.payload.prompt;
    planning_round = draft.planning_round + 1;
    last_findings = i.findings;
  }

  abbrev pub same_draft : Draft → Inspected → Draft
  same_draft draft i = record draft {
    planning_round = draft.planning_round + 1;
    last_findings = i.findings;
  }

  -- The draft is revised by its findings where rounds are left.
  unfoldable pub revise_draft : Plan → Draft → Inspected → M Verdict
  revise_draft plan draft i =
      let message = summarize_validation_findings i.findings in
      if leb plan.max_rounds draft.planning_round
      then (do exhausted plan message; return answered)
      else elim (revise_command draft.working_cmd plan.payload.prompt i.findings
          (first_suggestion i.suggestions)) [
            | none ↦ (do unrevised plan message; return answered)
            | some next_cmd ↦ return (
                again (
                  if eq_text next_cmd draft.working_cmd
                  then same_draft draft i
                  else next_draft plan draft i next_cmd))
          ]

  unfoldable pub report_unknown : Plan → Inspected → M (Unit {0})
  report_unknown plan i =
      if any (is_kind "unknown_command") i.findings
      then send (error plan.payload.task_id unknown_command (unknown_command_message i) none)
      else return tt

  unfoldable pub redraft_or_revise : Plan → Draft → Inspected → M Verdict
  redraft_or_revise plan draft i = do
    redrafted ← try_redraft plan draft
    elim redrafted [
      | some cmd ↦ return (again (next_draft plan draft i cmd))
      | none ↦ revise_draft plan draft i
    ]

  -- what the model is told of the findings
  unfoldable pub record_feedback : Plan → Draft → Inspected → M (Unit {0})
  record_feedback plan draft i = with_conversations (
      push_message plan.payload.task_id (
        tool (codes "execute_shell_command") (
          tool_response draft.working_cmd i.validation_token i.findings i.suggestions
            draft.planning_round plan.max_rounds)))

  -- A draft with findings.
  unfoldable pub reject_draft : Plan → Draft → Inspected → M Verdict
  reject_draft plan draft i = do
    record_feedback plan draft i
    report_unknown plan i
    handled ← try_web plan i
    if handled then return answered else redraft_or_revise plan draft i

  -- one round
  unfoldable pub plan_round : Plan → Draft → M Verdict
  plan_round plan draft = elim (matches_safety_floor is_match draft.working_cmd) [
    | some matched ↦ (do refuse_floor plan matched.pattern; return answered)
    | none ↦ λ s.
        let i = inspect planner plan draft.working_cmd s in
        if is_empty i.findings then done (accepted draft i) s else reject_draft plan draft i s
  ]

  unfoldable pub plan_loop : ℕ → Plan → Draft → M Planned
  plan_loop zero plan draft = return unfinished
  plan_loop (suc fuel) plan draft = do
    verdict ← plan_round plan draft
    elim verdict [
      | answered ↦ return finished
      | accepted d i ↦ return (good d i)
      | again next ↦ plan_loop fuel plan next
    ]
