-- ===== src/Jsonl.antt =====
-- storage/metadata/jsonl: the filesystem store.
pub mod Journal
pub mod Replay
pub mod Changes
pub mod Sessions
pub mod Domains
pub mod Listing
