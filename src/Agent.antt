-- ===== src/Agent.antt =====
-- The agent: its events and interrupts, the world it runs in, and its runs.
pub mod Event
pub mod World
pub mod Config
pub mod Interrupts
pub mod Compaction
pub mod Tools
pub mod Stream
pub mod Persistence
pub mod Runner
pub mod Conversation
pub mod Resume
pub mod Subagent
