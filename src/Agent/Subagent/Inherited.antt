-- ===== src/Agent/Subagent/Inherited.antt =====
-- The tools and the gates of a spawned agent.
use rakit.Prelude.{
  String, ◌≡◌, refl, List, [], ◌∷◌, none, some, ◌==◌, eq_iff, if◌then◌else◌, Bool-cases, inl, inr,
  ◌⊎◌, true, find, insert, find-insert, arith,
}
use rakit.Tool.{Tool, Registry, new_registry, register, get, all, register_all}
use rakit.Prelude.{or_else}
use rakit.Tool.Lookup.{last_named, get-register_all}
use rakit.Agent.World.{World, ◌>>=◌, pure, call}
use rakit.Agent.Config.{Agent}
use rakit.Agent.Subagent.{SubagentConfig, inherits, child_tools, spawn}

-- Each key of the registry is the name of its tool and stands there once.
abbrev pub IsNamed : Registry → Type 0
IsNamed [] = Unit
IsNamed ((k, t) ∷ r) = (k ≡ t.name) × (get k r ≡ none) × IsNamed r

IsNamed-register : (t : Tool) (r : Registry) → IsNamed r → IsNamed (register t r)
unfolding register insert get find
IsNamed-register t [] h = (refl, refl, tt)
IsNamed-register t ((k, u) ∷ r) h = elim (Bool-cases (k == t.name)) [
  | inl same ↦
      let e : k ≡ t.name = ground (arith, eq_iff k t.name) in
      rw (same, IsNamed) (refl, rw e at h.1, h.2)
  | inr other ↦
      rw (other, IsNamed)
        (
          h.0,
          ground (arith, h.1, find-insert t.name k t r, eq_iff t.name k, eq_iff k t.name),
          IsNamed-register t r h.2,
        )
]

-- A registry that is built by registrations.
pub IsNamed-register_all : (ts : List Tool) (r : Registry) → IsNamed r → IsNamed (register_all ts r)
unfolding register_all
IsNamed-register_all [] r h = h
IsNamed-register_all (t ∷ ts) r h = IsNamed-register_all ts (register t r) (IsNamed-register t r h)

last_named-all : (k : String) (r : Registry) → IsNamed r → last_named k (all r) ≡ get k r
unfolding all get find
last_named-all k [] h = refl
last_named-all k ((j, t) ∷ r) h =
    ground (arith, last_named-all k r h.2, h.0, h.1, eq_iff j k, eq_iff t.name k)

get-child_tools :
    (parent : Registry) (cfg : SubagentConfig) (k : String)
    → IsNamed parent
    → get k (child_tools parent cfg)
      ≡ or_else (last_named k cfg.tools) (if inherits cfg then get k parent else none)
unfolding child_tools get find
get-child_tools parent cfg k h = ground (
  arith,
  get-register_all cfg.tools (register_all (all parent) new_registry) k,
  get-register_all cfg.tools new_registry k,
  get-register_all (all parent) new_registry k,
  last_named-all k parent h,
)

inherits-asked :
    (cfg : SubagentConfig) → cfg.inherit_tools ≡ true ⊎ cfg.tools ≡ [] → inherits cfg ≡ true
inherits-asked cfg (inl set) = rw (set, inherits) refl
inherits-asked cfg (inr bare) = elim (Bool-cases cfg.inherit_tools) [
  | inl h ↦ rw (h, inherits) refl
  | inr h ↦ rw (h, bare, inherits) refl
]

module _ {W : Type 0} where
  -- A spawned agent whose configuration sets InheritTools or lists no tools has, by their names,
  -- the tools of its configuration, the last of a name, and besides them the tools of its parent.
  -- The keys of the parent's registry are the names of its tools.
  pub spawn-inherits :
      (world_of : String → World W) (a : Agent W) (cfg : SubagentConfig) (w : W) (k : String)
      → IsNamed a.tools
      → cfg.inherit_tools ≡ true ⊎ cfg.tools ≡ []
      → (child : Agent W) × (w' : W) × (spawn world_of a cfg w ≡ (some child, [], w'))
        × (get k child.tools ≡ or_else (last_named k cfg.tools) (get k a.tools))
  unfolding spawn ◌>>=◌ pure call
  spawn-inherits world_of a cfg w k named asked =
      let inherited : inherits cfg ≡ true = inherits-asked cfg asked in
      (_, _, refl, ground (arith, get-child_tools a.tools cfg k named))
