-- ===== src/Spawn.antt =====
-- supervisor/internal/spawn: a session of an agent, from the lines of its output to the rows that it
-- leaves behind.
pub mod Adjudicate
pub mod Policy
pub mod Run
pub mod Payload
pub mod Diary
pub mod Finalize
pub mod Session
pub mod Prepare
pub mod Inflight
mod Examples
mod PrepareExamples
