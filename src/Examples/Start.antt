-- ===== src/Examples/Start.antt =====
-- The start of a task on the state of Tasks.
use termlm.Base.{ℕ, ◌==◌, if◌then◌else◌, false, [], ◌∷◌, ◌++◌, none, some, ◌≡◌, refl, arith}
use termlm.Base.Text.{codes, eq_text, trim, is_whitespace}
use termlm.Safety.{find_pattern, matches_safety_floor}
use termlm.Daemon.{
  DaemonState, done, error, task_complete, needs_clarification, safety_floor, safety_floor_hit,
}
use termlm.Tasks.Start.{Answerers, Prompted, process_start_task}
use termlm.Tasks.Starts.{waiting, process_start_task-asks, process_start_task-refused}
use termlm.Base.Maps.{lookup}
use termlm.Examples.Clarify.{half_quoted, complete_question, half_quoted-asked, rust_files}
use termlm.Examples.Tasks.{running, wipes, first_pattern, idle}

-- handlers that handle nothing
abbrev silent : Answerers
silent = record {
  answer_documentation = λ start s. done tt s;
  answer_web = λ start s. done tt s;
  try_local = λ start s. done false s;
  run_stub = λ start s. done false s;
  stub_enabled = false;
}

abbrev wiped : Prompted
wiped = record { task_id = 3; shell_id = 7; mode = codes "?"; prompt = codes " rm -rf /" }

abbrev unclear : Prompted
unclear = record wiped { prompt = half_quoted }

unclear-off : matches_safety_floor wipes (trim unclear.prompt) ≡ none
unfolding matches_safety_floor find_pattern eq_text trim is_whitespace
unclear-off = refl

process_start_task-asks_example :
    (t : DaemonState) × (process_start_task idle silent unclear running ≡ done tt t)
    × (t.outbox ≡ running.outbox ++ needs_clarification 3 complete_question ∷ [])
    × ((j : ℕ)
        → lookup j t.tasks
          ≡ (if 3 == j then some (waiting false idle unclear running) else lookup j running.tasks))
    × (t.task_conversations ≡ running.task_conversations)
    × (t.timed_out_tasks ≡ running.timed_out_tasks)
    × (t.cancelled ≡ running.cancelled)
process_start_task-asks_example =
    process_start_task-asks idle silent unclear complete_question running unclear-off refl
      half_quoted-asked (omega arith)

wiped-matched :
    matches_safety_floor wipes (trim wiped.prompt)
    ≡ some (record { pattern = first_pattern; command = codes "rm -rf /" })
unfolding matches_safety_floor find_pattern eq_text trim is_whitespace
wiped-matched = refl

process_start_task-refused_example :
    (t : DaemonState) × (process_start_task idle silent wiped running ≡ done tt t)
    × (t.outbox
        ≡ running.outbox
          ++ error 3 safety_floor
              (codes "Refused: prompt requested an immutable safety-floor command")
              (some first_pattern)
            ∷ task_complete 3 safety_floor_hit (codes "Prompt matched immutable safety floor.")
            ∷ [])
    × (t.tasks ≡ running.tasks)
    × (t.task_conversations ≡ running.task_conversations)
    × (t.timed_out_tasks ≡ running.timed_out_tasks)
    × (t.cancelled ≡ running.cancelled)
process_start_task-refused_example =
    process_start_task-refused idle silent wiped
      (record { pattern = first_pattern; command = codes "rm -rf /" }) running wiped-matched
      (omega arith)

abbrev listed : Prompted
listed = record wiped { prompt = rust_files }
