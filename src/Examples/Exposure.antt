-- ===== src/Examples/Exposure.antt =====
-- The tools of a question about documentation, with the default settings.
use termlm.Base.{true, false, ◌≡◌}
use termlm.Daemon.{Routing, documentation_question}
use termlm.Exposure.{determine_tool_exposure, specified, determine_tool_exposure_lem}

abbrev defaults : Routing
defaults = record {
  dynamic_exposure_enabled = true;
  always_expose_execute = false;
  always_expose_lookup_docs = true;
  local_tools_enabled = true;
  expose_file_tools_for_local_questions = true;
  expose_terminal_context_only_when_needed = true;
  web_enabled = true;
  web_expose_tools = true;
  expose_web_only_when_needed = true;
}

determine_tool_exposure_lem_example :
    determine_tool_exposure documentation_question defaults
    ≡ specified documentation_question defaults
determine_tool_exposure_lem_example = determine_tool_exposure_lem documentation_question defaults
