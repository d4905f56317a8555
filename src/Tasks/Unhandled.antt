-- ===== src/Tasks/Unhandled.antt =====
-- The start of a task by a prompt that no handler handles.
use termlm.Base.Text.{Text, codes}
use termlm.Tasks.Engine.{Engine}

abbrev pub behavior_question : Text
behavior_question =
    codes
      "I couldn't produce a grounded command from the available context yet. What exact command behavior should run, and which path or target should it use?"
