-- ===== src/Agent/Config.antt =====
-- `Agent` of agent/agent.go, of which the runner reads these fields.
use rakit.Prelude.{ℕ, String, Bool, List, Option, elem}
use rakit.Tool.{Registry}
use rakit.Provider.{Error}
use rakit.Agent.Event.{Event}
use rakit.Agent.World.{World}

pub record CompactionConfig : Type 0 where
  pub max_messages : ℕ
  pub keep_recent : ℕ
  pub summary_role : String

-- `DefaultCompactionConfig`
abbrev pub default_compaction_config : CompactionConfig
default_compaction_config = record { max_messages = 20; keep_recent = 6; summary_role = "system" }

-- `ApprovalPolicy`: a tool's name and its arguments.
abbrev pub ApprovalPolicy : Type 0
ApprovalPolicy = String → String → Bool

unfoldable pub require_none : ApprovalPolicy
require_none name arguments = Bool.false

unfoldable pub require_all : ApprovalPolicy
require_all name arguments = Bool.true

unfoldable pub require_for : List String → ApprovalPolicy
require_for names name arguments = elem name names

-- The agent; the tests say which of its fields are set: the provider, the default protocol, the
-- store, and the skill and MCP registries.
pub record Agent (W : Type 0) : Type 0 where
  pub world : World W
  pub tools : Registry
  pub has_provider : Bool
  pub has_protocol : Bool
  pub has_store : Bool
  pub has_skills : Bool
  pub has_mcp : Bool
  pub hooks : List (Event → W → Option Error × W)
  pub compaction : CompactionConfig
  pub max_iterations : ℕ
  pub approval_policy : Option ApprovalPolicy
