-- ===== src/Propose.antt =====
-- How the daemon proposes a command: `propose_command_for_execution` of
-- crates/termlm-core/src/main.rs.
-- - Segments: the names of the commands in a line. Findings: which findings on a draft count.
-- - Draft: what a round finds out of its draft. Loop: the rounds. Proposal: what is proposed, and the handler.
-- - Safe: what is proposed is off the safety floor, and needs approval where it is critical.
-- - Rounds: the loop ends where the model gives no new draft
pub mod Segments
pub mod Findings
pub mod Draft
pub mod Loop
pub mod Proposal
pub mod Keeps
pub mod Verdicts
pub mod Safe
pub mod Rounds
