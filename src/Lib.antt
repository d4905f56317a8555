-- ===== src/Lib.antt =====
-- A verification library for termlm, a daemon that proposes shell commands with a language model.
--
-- The daemon (crates/termlm-core) keeps a table of tasks. A task starts with a prompt of a shell's
-- user; the model proposes a command, may run read-only probes of its own before, and the user
-- approves, edits, rejects or clarifies. The shell runs the command and acknowledges it, and the
-- task goes on for a bounded number of rounds. Every text that is run or proposed passes the
-- checks of crates/termlm-safety.
--
-- The parts and their files:
-- - Base: what the other files share. A `Text` is the list of the code points of a `String`, and
--   the string functions of Rust's standard library that the code calls are written over it
--   (Base/Text.antt); a `BTreeMap` keyed by a `Uuid` is an association list (Base/Maps.antt).
-- - Shell: `scan_shell`, `parse_command` and `first_significant_token` of
--   crates/termlm-safety/src/parse.rs. The state of the loop is `Scanner`, a branch of its `match`
--   is a definition (`step_pipe`, ...), and `step` returns whether it has taken the next character
--   too. Shell/Word.antt has `shell_quote_word` of crates/termlm-core/src/main.rs.
-- - Probe: `validate_readonly_command_tokens` of crates/termlm-core/src/main.rs, which decides what
--   the model may run unasked, with the allowlist and the splitting of pipelines. It uses Shell.
-- - Safety: the floor of crates/termlm-safety/src/floor.rs and the critical commands of
--   crates/termlm-safety/src/critical.rs. Whether a pattern matches is the `regex` crate's, a
--   parameter `is_match`.
-- - Clarify: `clarification_question_for_ambiguous_prompt` of crates/termlm-core/src/tasks/mod.rs, and
--   in Clarify/Answers.antt `prompt_prefers_direct_answer`.
-- - Session: `estimate_tokens` and `trim_to_tokens` of crates/termlm-core/src/context/mod.rs and
--   `trim_session_conversation` of crates/termlm-core/src/main.rs.
-- - Daemon: the state of crates/termlm-core/src/main.rs, `DaemonState`, and the steps of a handler, `M`.
--   A step ends, fails where a send to the client fails, or waits for ever for the lock of the
--   conversations where its own handler holds it.
-- - Tasks: the table of tasks, and the handlers that change it. Tasks/Start.antt has
--   `process_start_task`, Tasks/Response.antt `process_user_response`, Tasks/Ack.antt `process_ack`. What
--   they call and is not modelled is the record `Engine` of Tasks/Engine.antt: the regular
--   expressions, the classifier of prompts and `try_provider_orchestration`; for the start of a
--   task also the record `Answerers`.
-- - Planning: crates/termlm-core/src/planning/mod.rs, which finds fault with a drafted command and
--   revises it. A file has the tests of prompts, one those of drafts, and one each `validate_round`
--   and `revise_command`.
-- - Propose: `propose_command_for_execution` of crates/termlm-core/src/main.rs, the only place where a
--   command of the model becomes a proposal. It drafts in rounds, each of which checks the safety
--   floor and validates by Planning. What it calls and is not modelled is the record `Planner`.
-- - Sandbox: `task_cwd_for_sandbox` and `resolve_path_within_root` of crates/termlm-core/src/main.rs. A
--   path is the list of its components, and `Path::canonicalize` is a parameter. `Walks` of
--   Sandbox/Bounds.antt is the walk from directory to directory that a path stands for.
-- - ShellRegistry: crates/termlm-core/src/shell_registry.rs, the shells that the daemon knows.
-- - Exposure: `determine_tool_exposure` of crates/termlm-core/src/context/mod.rs.
-- - Index: the index of documentation, crates/termlm-indexer/src. Index/Bytes.antt and Index/Utf8.antt
--   have what the files stand on, Index/Entries.antt the files of the executables in store.rs (a writer
--   gives the bytes of its file), Index/Lookup.antt and Index/Levenshtein.antt lookup.rs.
-- - WebCache: the cache of crates/termlm-web/src/cache.rs, with the instants as arguments. Its loop of
--   evictions runs on fuel, the length of its order, which is enough since each round shortens it.
-- - TimedCache: the cache of crates/termlm-core/src/cache/mod.rs. WebSecurity: the checks of URLs in
--   crates/termlm-web/src/security.rs.
-- - Examples: tests, and the theorems at concrete inputs.
--
-- Bounds: a `usize` is a natural number where it is only counted, with its saturation at 2^64 - 1
-- written out where the source saturates; a `u32` likewise. The other loops are recursion on
-- their list, but for the digits of a decimal number, which has at most 20 of them.
-- The rounds of Propose run on fuel, of which the allowed number of rounds is enough where the
-- model gives no draft of its own; a loop of Planning runs on the length of its text, which each
-- round shortens. Time is counted in nanoseconds, and a duration stops at 0.
--
-- Not modelled: connections, processes and files, the calls of the model and of the web, the files of
-- chunks and of postings and the retrieval, the classification of prompts, configuration files, the
-- client and the shell plugin. The ledger of sources, the timings and the log, which no decision
-- reads, are left out of the handlers. Other locks than that of the conversations are taken for one statement each, and two
-- handlers do not interleave: the steps of one handler are a sequence.
pub mod Base
pub mod Shell
pub mod Probe
pub mod Session
pub mod Clarify
pub mod Safety
pub mod Daemon
pub mod Planning
pub mod Tasks
pub mod Exposure
pub mod Propose
pub mod Index
pub mod WebCache
pub mod TimedCache
pub mod WebSecurity
pub mod Sandbox
pub mod ShellRegistry
pub mod Examples
