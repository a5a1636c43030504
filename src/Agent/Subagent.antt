-- ===== src/Agent/Subagent.antt =====
-- `Spawn` of agent/agent.go. The system prompt of the configuration is not read.
pub mod Inherited
pub mod Delegated
pub mod Answered
use rakit.Prelude.{ℕ, String, Bool, ◌||◌, List, [], ◌∷◌, none, ltb, if◌then◌else◌}
use rakit.Tool.{Tool, Registry, new_registry, all, register_all}
use rakit.Agent.World.{World, Run, ◌>>=◌, pure, call}
use rakit.Agent.Config.{Agent}

pub record SubagentConfig : Type 0 where
  pub system : String
  pub tools : List Tool
  pub max_iterations : ℕ
  pub inherit_tools : Bool

-- `cfg.InheritTools || len(cfg.Tools) == 0`
abbrev pub inherits : SubagentConfig → Bool
inherits cfg = cfg.inherit_tools || elim cfg.tools [ [] ↦ Bool.true | t ∷ ts ↦ Bool.false ]

unfoldable pub child_tools : Registry → SubagentConfig → Registry
child_tools parent cfg =
    register_all cfg.tools
      (if inherits cfg then register_all (all parent) new_registry else new_registry)

module _ {W : Type 0} where
  -- `Spawn`. The store and the registries list what belongs to an agent's id, so the child has the
  -- world of its own id; its sessions' parent id is not among the fields that a run reads.
  unfoldable pub spawn : (String → World W) → Agent W → SubagentConfig → Run W (Agent W)
  spawn world_of a cfg = do
    id ← call a.world.generate_id
    pure (record {
      world = world_of id;
      tools = child_tools a.tools cfg;
      has_provider = a.has_provider;
      has_protocol = a.has_protocol;
      has_store = a.has_store;
      has_skills = a.has_skills;
      has_mcp = a.has_mcp;
      hooks = a.hooks;
      compaction = a.compaction;
      max_iterations = if ltb 0 cfg.max_iterations then cfg.max_iterations else a.max_iterations;
      approval_policy = none;
    })
