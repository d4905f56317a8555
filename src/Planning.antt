-- ===== src/Planning.antt =====
-- The validation and revision of a drafted command, crates/termlm-core/src/planning/mod.rs. A draft
-- goes through rounds: a round collects findings, and the next draft is revised by them.
-- - Words: words and flags of a text. Prompts: what a prompt asks for. Commands: what a draft does.
-- - Transfers, Effects, Round: `validate_compound_file_transfer_effects`,
--   `validate_prompt_effects` and `validate_round`. Revise: `revise_command`.
pub mod Words
pub mod Prompts
pub mod Commands
pub mod Transfers
pub mod Effects
pub mod Round
pub mod Revise
pub mod Effective
pub mod Passes
pub mod Strips
pub mod Settles
pub mod Revisions
