-- ===== src/Agent/Tools/Precedence.antt =====
-- Which tool a name stands for in the merged registry.
use rakit.Prelude.{String, ◌≡◌, refl, ap, List, [], Option, none, some, find}
use rakit.Tool.{Tool, get, register_all}
use rakit.Prelude.{or_else}
use rakit.Tool.Lookup.{last_named, get-register_all}
use rakit.Agent.Tools.{merge_tools}

-- A name in the merged registry stands for the last static tool of that name, and without one for
-- the last tool of the MCP servers, then of the store, and then of the skills.
pub get-merge_tools :
    (k : String) (skills persisted mcp static : List Tool)
    → get k (merge_tools skills persisted mcp static)
      ≡ or_else
          (last_named k static)
          (or_else (last_named k mcp) (or_else (last_named k persisted) (last_named k skills)))
unfolding merge_tools get find
get-merge_tools k skills persisted mcp static =
    rw
      (
        get-register_all static (register_all mcp (register_all persisted (register_all skills [])))
            k,
        get-register_all mcp (register_all persisted (register_all skills [])) k,
        get-register_all persisted (register_all skills []) k,
        get-register_all skills [] k,
      )
      (ap
        (λ o.
          or_else (last_named k static)
            (or_else (last_named k mcp) (or_else (last_named k persisted) o)))
        (or_else-none (last_named k skills)))
  where
    or_else-none : (o : Option Tool) → or_else o (get k []) ≡ o
    or_else-none none = refl
    or_else-none (some t) = refl
