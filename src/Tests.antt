-- ===== src/Tests.antt =====
-- Concrete stores and agents, and the theorems at them.
mod Store
mod Engines
mod Tables
mod Protocols
mod Sessions
mod Worlds
mod Runs
mod Resumes
mod Logs
mod Domains
mod Listings
mod Subagents
