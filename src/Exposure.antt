-- ===== src/Exposure.antt =====
-- Which tools a task may offer to the model, in crates/termlm-core/src/context/mod.rs.
use termlm.Base.{Bool, true, false, not, ◌&&◌, ◌||◌, ◌≡◌, arith, if◌then◌else◌}
use termlm.Daemon.{
  Routing, TaskClassification, fresh_command_request, referential_followup, diagnostic_debugging,
  documentation_question, web_current_info_question, exploratory_shell_question,
}

pub record ToolExposureProfile : Type 0 where
  pub execute_shell_command : Bool
  pub lookup_command_docs : Bool
  pub local_file_tools : Bool
  pub terminal_context_tool : Bool
  pub web_tools : Bool

abbrev everything : ToolExposureProfile
everything = record {
  execute_shell_command = true;
  lookup_command_docs = true;
  local_file_tools = true;
  terminal_context_tool = true;
  web_tools = true;
}

unfoldable pub exposure_for : TaskClassification → ToolExposureProfile
exposure_for fresh_command_request = record everything { terminal_context_tool = false }
exposure_for diagnostic_debugging = everything
exposure_for web_current_info_question = record everything {
  execute_shell_command = false;
  local_file_tools = false;
  terminal_context_tool = false;
}
exposure_for documentation_question = record everything {
  execute_shell_command = false;
  local_file_tools = false;
  terminal_context_tool = false;
  web_tools = false;
}
exposure_for referential_followup = everything
exposure_for exploratory_shell_question = everything

abbrev pub is_web_question : TaskClassification → Bool
is_web_question fresh_command_request = false
is_web_question diagnostic_debugging = false
is_web_question web_current_info_question = true
is_web_question documentation_question = false
is_web_question referential_followup = false
is_web_question exploratory_shell_question = false

-- The assignments to the profile, in their order.
expose_execute : Routing → ToolExposureProfile → ToolExposureProfile
expose_execute cfg p =
    if cfg.always_expose_execute then record p { execute_shell_command = true } else p

expose_lookup : Routing → ToolExposureProfile → ToolExposureProfile
expose_lookup cfg p =
    if cfg.always_expose_lookup_docs then record p { lookup_command_docs = true } else p

hide_local : Routing → ToolExposureProfile → ToolExposureProfile
hide_local cfg p =
    if not cfg.local_tools_enabled
    then record p { local_file_tools = false; terminal_context_tool = false }
    else p

hide_files : Routing → ToolExposureProfile → ToolExposureProfile
hide_files cfg p =
    if not cfg.expose_file_tools_for_local_questions
    then record p { local_file_tools = false }
    else p

expose_terminal : Routing → ToolExposureProfile → ToolExposureProfile
expose_terminal cfg p =
    if not cfg.expose_terminal_context_only_when_needed
    then record p { terminal_context_tool = cfg.local_tools_enabled }
    else p

hide_web : Routing → ToolExposureProfile → ToolExposureProfile
hide_web cfg p =
    if not cfg.web_enabled || not cfg.web_expose_tools then record p { web_tools = false } else p

hide_unneeded_web : TaskClassification → Routing → ToolExposureProfile → ToolExposureProfile
hide_unneeded_web classification cfg p =
    if cfg.expose_web_only_when_needed
      && (not (is_web_question classification) && not p.execute_shell_command)
    then record p { web_tools = false }
    else p

unfoldable pub determine_tool_exposure : TaskClassification → Routing → ToolExposureProfile
unfolding expose_execute expose_lookup hide_local hide_files expose_terminal hide_web
    hide_unneeded_web
determine_tool_exposure classification cfg =
    let profile =
      if cfg.dynamic_exposure_enabled then exposure_for classification else everything in
    hide_unneeded_web classification cfg (
      hide_web cfg (
        expose_terminal cfg
          (hide_files cfg (hide_local cfg (expose_lookup cfg (expose_execute cfg profile))))))

-- A profile as one formula for each tool.
abbrev pub specified : TaskClassification → Routing → ToolExposureProfile
specified c cfg =
    let all = not cfg.dynamic_exposure_enabled in
    let execute = cfg.always_expose_execute || (all || (exposure_for c).execute_shell_command) in
    record {
      execute_shell_command = execute;
      lookup_command_docs = true;
      local_file_tools =
          cfg.local_tools_enabled
          && (cfg.expose_file_tools_for_local_questions
              && (all || (exposure_for c).local_file_tools));
      terminal_context_tool =
          cfg.local_tools_enabled
          && (not cfg.expose_terminal_context_only_when_needed
              || (all || (exposure_for c).terminal_context_tool));
      web_tools =
          cfg.web_enabled
          && (cfg.web_expose_tools
              && ((all || (exposure_for c).web_tools)
                  && (not cfg.expose_web_only_when_needed || (is_web_question c || execute))));
    }

-- The exposed tools as one formula each: `execute_shell_command` where it is forced, where routing
-- is not dynamic, or where the classification has it; the lookup of documentation always; the
-- local tools only where they are enabled, and the web tools only where the web is enabled and
-- exposed, and, where they are kept for need, only for a web question or with the shell.
pub determine_tool_exposure_lem :
    (classification : TaskClassification) (cfg : Routing)
    → determine_tool_exposure classification cfg ≡ specified classification cfg
unfolding determine_tool_exposure exposure_for
determine_tool_exposure_lem classification cfg = ground arith
