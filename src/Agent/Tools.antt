-- ===== src/Agent/Tools.antt =====
-- The merged registry of a run: `buildMergedRegistry` of agent/runner.go and `ToolFromDef` of
-- skill/handlers.go.
pub mod Precedence
use rakit.Prelude.{
  String, ◌^^◌, Bool, true, false, List, [], ◌∷◌, ◌++◌, Option, none, some, Result, ok, err, ◌==◌,
  if◌then◌else◌, ◌&&◌, ◌||◌,
}
use rakit.Tool.{Tool, Handler, Registry, new_registry, register, register_all, all}
use rakit.Provider.{Error, message, wrapped}
use rakit.Agent.World.{World, SkillTool, SkillEntry, SkillDefinition, Run, ◌>>=◌, pure, call}
use rakit.Agent.Config.{Agent}

abbrev pub built_tool : SkillTool → Handler → Tool
built_tool d h = record {
  name = d.name;
  description = d.description;
  parameters = d.parameters;
  client_side = false;
  handler = h;
}

-- `ToolFromDef`; `quote` is `%q`.
unfoldable pub tool_from_def : (String → String) → SkillTool → Result Error Tool
tool_from_def quote d =
    let refused : String → Result Error Tool =
      λ text. err (message ("tool " ^^ quote d.name ^^ ": " ^^ text)) in
    if d.handler == "http" || d.handler == ""
    then if d.endpoint == ""
      then refused "http handler requires an endpoint"
      else ok (built_tool d (Handler.http d.endpoint d.headers d.input_mapping d.response_field))
    else if d.handler == "script"
    then if d.script_path == ""
      then refused "script handler requires a script_path"
      else ok (built_tool d (Handler.script d.script_path))
    else refused ("unknown handler " ^^ quote d.handler)

-- The tools that can be built; those that cannot are skipped with a warning.
unfoldable pub built_tools : (String → String) → List SkillTool → List Tool
built_tools quote [] = []
built_tools quote (d ∷ ds) =
    let rest = built_tools quote ds in
    elim (tool_from_def quote d) [ ok t ↦ t ∷ rest | err e ↦ rest ]

-- `strings.Join(texts, "\n\n")`
unfoldable pub join : List String → String
join [] = ""
join (s ∷ []) = s
join (s ∷ t ∷ ts) = s ^^ "\n\n" ^^ join (t ∷ ts)

abbrev pub instructions_of : SkillDefinition → List String
instructions_of d =
    if d.instructions == "" then [] else ("[" ^^ d.name ^^ "]\n" ^^ d.instructions) ∷ []

-- The four sources, registered in the order that gives the later one precedence.
unfoldable pub merge_tools : List Tool → List Tool → List Tool → List Tool → Registry
merge_tools skills persisted mcp static =
    register_all static
      (register_all mcp (register_all persisted (register_all skills new_registry)))

module _ {W : Type 0} (a : Agent W) where
  -- The enabled skills' tools and instructions, in the order of the list; a skill that does not load
  -- is skipped.
  unfoldable pub load_skills : List SkillEntry → Run W (List Tool × List String)
  load_skills [] = pure ([], [])
  load_skills (e ∷ es) =
      let rest = load_skills es in
      elim e.enabled [
        | false ↦ rest
        | true ↦ do
          found ← call (a.world.get_skill e.name)
          others ← rest
          pure (elim found [
            | err x ↦ others
            | ok d ↦ (built_tools a.world.quote d.tools ++ others.0, instructions_of d ++ others.1)
          ])
      ]

  -- What the skill registry offers, nothing if the agent has none.
  unfoldable pub skill_tools : Run W (Result Error (List Tool × List String))
  skill_tools = elim (a.has_skills && a.has_store) [
    | false ↦ pure (ok ([], []))
    | true ↦ do
      listed ← call a.world.list_skills
      elim listed [
        | err e ↦ pure (err (wrapped "list skills: " e))
        | ok entries ↦ do loaded ← load_skills entries; pure (ok loaded)
      ]
  ]

  -- A failed discovery is a warning.
  unfoldable pub mcp_tools : Run W (List Tool)
  mcp_tools = elim a.has_mcp [
    | false ↦ pure []
    | true ↦ do
      found ← call a.world.discover_tools
      pure (elim found [ err e ↦ [] | ok tools ↦ tools ])
  ]

  -- The tools of the store, none if the agent has none.
  unfoldable pub persisted_tools : Run W (Result Error (List Tool))
  persisted_tools = elim a.has_store [
    | false ↦ pure (ok [])
    | true ↦ do
      listed ← call a.world.list_tools
      pure (elim listed [
        | err e ↦ err (wrapped "list tools: " e)
        | ok defs ↦ ok (built_tools a.world.quote defs)
      ])
  ]

  -- `buildMergedRegistry`
  unfoldable pub build_merged_registry : Run W (Result Error (Registry × String))
  build_merged_registry = do
    skills ← skill_tools
    elim skills [
      | err e ↦ pure (err e)
      | ok (tools, instructions) ↦ do
        persisted ← persisted_tools
        elim persisted [
          | err e ↦ pure (err e)
          | ok stored ↦ do
            mcp ← mcp_tools
            pure (ok (merge_tools tools stored mcp (all a.tools), join instructions))
        ]
    ]

  -- The registry and the system prompt of a run; the static tools alone where the merge fails.
  unfoldable pub load_registry : Run W (Registry × String)
  load_registry = do
    built ← build_merged_registry
    pure (elim built [ ok r ↦ r | err e ↦ (a.tools, "") ])
