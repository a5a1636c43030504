-- ===== src/Agent/World.antt =====
-- What a run calls, what it leaves behind, and the sequencing of its statements.
use rakit.Prelude.{ℕ, String, ◌^^◌, Bool, List, [], ◌∷◌, ◌++◌, Option, none, some, Result, Assoc}
use rakit.Metadata.{Value, Fields, Session}
use rakit.Tool.{Tool, ToolResult}
use rakit.Provider.{Error, message, wrapped, Request, ProviderEvent}
use rakit.Agent.Event.{Event}

-- A skill that the skill registry lists, with its instructions and those of its tool definitions
-- that JSON carries over.
pub record SkillTool : Type 0 where
  pub name : String
  pub description : String
  pub parameters : Value
  pub handler : String
  pub endpoint : String
  pub headers : Assoc String
  pub input_mapping : Assoc String
  pub response_field : String
  pub script_path : String

pub record SkillEntry : Type 0 where
  pub name : String
  pub enabled : Bool

pub record SkillDefinition : Type 0 where
  pub name : String
  pub instructions : String
  pub tools : List SkillTool

-- The calls that leave the agent: the store, the provider, the registries, the tools, the clock,
-- the random ids, the context, and the JSON and the `%q` of the standard library. `W` is the state of all that.
pub record World (W : Type 0) : Type 0 where
  pub get_session : String → W → Result Error (Option Session) × W
  pub update_session : Session → W → Result Error Session × W
  pub leaves_messages : Bool
  pub list_skills : W → Result Error (List SkillEntry) × W
  pub get_skill : String → W → Result Error SkillDefinition × W
  pub list_tools : W → Result Error (List SkillTool) × W
  pub discover_tools : W → Result Error (List Tool) × W
  pub model : String
  pub stream : Request → W → Result Error (List ProviderEvent) × W
  pub generate : Request → W → Result Error String × W
  pub execute : Tool → Fields → W → Result Error ToolResult × W
  pub generate_id : W → String × W
  pub now : W → ℕ × W
  pub context_error : W → Option Error × W
  pub unmarshal : String → Result Error Fields
  pub marshal : Value → Result Error String
  pub quote : String → String

-- What a run leaves behind, in order.
pub data Effect : Type 0 where
  emitted : Event → Effect
  saved : Session → Effect
  save_failed : Session → Effect
  requested : Request → Effect
  executed : Tool → Fields → Effect

-- Statements of a function of the run: `none` is its early return.
abbrev pub Run : Type 0 → Type 0 → Type 0
Run W A = W → Option A × List Effect × W

module _ {W : Type 0} where
  abbrev pub then_run :
      {A B : Type 0} → Option A × List Effect × W → (A → Run W B) → Option B × List Effect × W
  then_run (none, t, w) f = (none, t, w)
  then_run (some a, t, w) f = let r = f a w in (r.0, t ++ r.1, r.2)

  infixl 5 ◌>>=◌ ◌>>◌
  unfoldable pub ◌>>=◌ : {A B : Type 0} → Run W A → (A → Run W B) → Run W B
  ◌>>=◌ m f w = then_run (m w) f

  abbrev pub ◌>>◌ : {A B : Type 0} → Run W A → Run W B → Run W B
  m >> k = m >>= λ _. k

  unfoldable pub pure : {A : Type 0} → A → Run W A
  pure a w = (some a, [], w)

  unfoldable pub return_early : {A : Type 0} → Run W A
  return_early w = (none, [], w)

  -- A call of the world that no effect records.
  unfoldable pub call : {A : Type 0} → (W → A × W) → Run W A
  call f w = let (a, w') = f w in (some a, [], w')

  unfoldable pub record_effect : Effect → Run W (Unit {0})
  record_effect e w = (some tt, e ∷ [], w)

  abbrev pub emit : Event → Run W (Unit {0})
  emit ev = record_effect (emitted ev)

-- `err.Error()`
unfoldable pub error_text : Error → String
error_text (message s) = s
error_text (wrapped s e) = s ^^ error_text e
