-- ===== src/Lib.antt =====
-- rakit: an agent kit. An agent answers a message by a loop over a model provider and tools, keeps the
-- conversation in a session of a metadata store, and pauses a batch of tool calls that needs an
-- approval or a result of the client.
--
-- The parts and their files:
--   * Jsonl/Journal, Replay, Changes, Sessions: the sessions of the filesystem store
--     (storage/metadata/jsonl/store.go and sessions.go). A session is a transcript of records
--     (`envelope`); `GetSession` replays it, `UpdateSession` appends the message records of one
--     transaction and the "session.updated" record that commits it. A `Disk` maps session ids to
--     transcripts. Jsonl/Listing: `ListSessions` and `ListSessionsByUser`. Jsonl/Sessions/* and
--     Jsonl/Changes/*, Jsonl/Replay/* hold the proofs.
--   * Jsonl/Domains: the logs of put and delete records (storage/metadata/jsonl/domains.go) with
--     their compaction; Jsonl/Domains/Operations: the tools, skills, memory and MCP servers kept
--     in them. A `Log` is one file `_store/<name>.jsonl`.
--   * Metadata/Contract: what the store interface of storage/metadata/metadata.go promises of
--     `UpdateSession`, a compare-and-swap of snapshots by their revision. Both stores are compared
--     with it: Jsonl/Sessions/Swapped and Sqlite/Sessions/Swapped, Atomic.
--   * Sqlite: the store of storage/metadata/sqlite/store.go. Sqlite/Database: the tables, and
--     statements and transactions as functions on them; Sqlite/Rows: what the clauses of SQL do to a
--     list of rows; Sqlite/Sessions, Definitions, Memory: the operations of the store.
--   * Protocol: the registry and `Negotiate` of protocol/registry.go; Protocol/Frames, Agui, Aisdk:
--     the frames and streams of protocol/agui/protocol.go and protocol/aisdk/protocol.go.
--   * Skill: the registry of skill/registry.go over the skills log, without Register and Get.
--   * Metadata, Metadata/Definitions: the persisted types of storage/metadata/metadata.go.
--   * Provider, Tool: the types of provider/provider.go, tool/tool.go and the registry of
--     tool/registry.go.
--   * Agent/Event, Config: agent/event.go, the types of agent/hil.go, and the fields of `Agent`
--     in agent/agent.go that a run reads.
--   * Agent/World: what a run calls (store, provider, registries, tools, clock, ids, context) as
--     a record of functions on a state of the caller's choosing, and the statements of a run as
--     `Run W A = W → Option A × List Effect × W`: `none` is the early return of the goroutine,
--     the effects are the events sent on the channel, the writes, the requests and the
--     executions, in their order.
--   * Agent/Compaction, Interrupts, Tools, Stream, Persistence: agent/compaction.go; the gates
--     of agent/hil.go and agent/resume.go; the merged registry, the reading of the provider's
--     stream and the writes of agent/runner.go and agent/persistence.go.
--   * Agent/Runner: the loop of agent/runner.go over replies and batches
--     (`continueAgenticLoop`); Agent/Conversation: `Run`, `RunWithProtocol`, `RunWithSession`;
--     Agent/Resume: `Resume` of agent/resume.go; Agent/Subagent: `Spawn` of agent/agent.go;
--     Agent/Subagent/Delegated: `RunSubagent` and the tool of `SpawnAgentTool` of agent/runner.go.
--   * Tests: concrete stores, logs and agents, and the theorems at them.
-- The agent calls the store through `World.update_session` and `World.get_session`; a theorem that
-- needs a property of the store names it as a hypothesis. `World.leaves_messages` says whether
-- `UpdateSession` leaves the slice of messages of the session that it is given where it is, as the
-- SQLite store does, or replaces the session, as the JSONL store does: the pointer that `Resume`
-- takes into that slice is then of no use behind a write, and the model drops what is written
-- through it.
--
-- Failures. A `Fault` says how a write ends: it succeeds, nothing is written, all is written but the
-- sync fails, or a part of the record is. A disk and a log hold the faults of their next writes;
-- without more, the writes succeed. A record that was cut short is a `torn` line, which no reader
-- accepts; one that lacks only its newline counts as whole, since a reader repairs it. A file that a
-- failed creation leaves empty counts as no file. An `Outcome` says how a statement of SQLite ends: it
-- is done, it fails with no effect, or it takes effect and reports an error. A transaction that does
-- not commit leaves the tables that it began with. A `Writer` holds whether the next writes of a
-- stream succeed.
--
-- Loops. The loop over iterations is recursion on the iterations that are left, as
-- `maxIterations` bounds it; the loops over records, calls and inputs are recursion on their lists;
-- the ten attempts at a new session id are a list of ten. No fuel is used besides.
--
-- Numbers are natural; the revision of a session wraps at 2 ^ 64 as `uint64` does, and times are the
-- milliseconds that the clock shows. A provider's stream is the list of its events, so the
-- interleaving of a run with its reader is left out. Maps are association lists with one pair for a
-- key; a listing that Go makes in the order of a map is made in the order of the list.
--
-- Parameters: `encoding/json` as codecs that decode what they encode (`Codec`), the letters and
-- digits of Unicode, its lower case and its spaces, the size of a file, the order that SQLite
-- gives rows of equal times, whether it enforces foreign keys, its LIKE, the hooks, the approval
-- policy, the handlers of tools, and the model providers.
--
-- Not modelled: the session index, which nothing reads back; the check for symbolic links; the
-- locks between processes (each operation of the store is one step); the opening and
-- migration of a SQLite database, and a query of it that ends early without an error; the Firestore
-- and MongoDB stores and the blob stores, which are calls of their clients; the MCP client and the
-- vendors' model clients; the HTTP and script handlers of skills; the examples.
pub mod Prelude
pub mod Metadata
pub mod Jsonl
pub mod Tool
pub mod Provider
pub mod Sqlite
pub mod Skill
pub mod Agent
pub mod Protocol
pub mod Tests
