-- ===== src/Examples.antt =====
-- Tests of the definitions on concrete inputs, and the theorems at concrete inputs.
pub mod Shell
pub mod Probe
pub mod Session
pub mod Tasks
pub mod Exposure
pub mod WebCache
pub mod Clarify
pub mod Index
pub mod Planning
pub mod Propose
pub mod Start
pub mod Lookup
pub mod TimedCache
pub mod WebSecurity
pub mod Sandbox
pub mod ShellRegistry
