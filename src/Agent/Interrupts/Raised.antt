-- ===== src/Agent/Interrupts/Raised.antt =====
-- The interrupts of a batch against the rule for gated calls.
use rakit.Prelude.{String, ◌≡◌, true, List, [], ◌∷◌, some}
use rakit.Tool.{Tool, Registry, get}
use rakit.Provider.{ToolCall}
use rakit.Agent.Event.{Interrupt}
use rakit.Agent.Config.{Agent, ApprovalPolicy}
use rakit.Agent.Interrupts.{interrupt_kind}

module _ {W : Type 0} (a : Agent W) (r : Registry) where
  -- The call's tool is registered and runs on the client.
  abbrev pub IsForClient : ToolCall → Type 0
  IsForClient tc = (t : Tool) × (get tc.name r ≡ some t) × (t.client_side ≡ true)

  -- The agent's policy asks for an approval of the call's name and arguments.
  abbrev pub IsSubmitted : ToolCall → Type 0
  IsSubmitted tc =
      (p : ApprovalPolicy) × (a.approval_policy ≡ some p) × (p tc.name tc.arguments ≡ true)

  -- The interrupt names the call and says why it waits.
  abbrev pub Names : ToolCall → String → Interrupt → Type 0
  Names tc kind i = (i.tool_call_id ≡ tc.id) × (i.reason ≡ "tool_call") × (interrupt_kind i ≡ kind)

  -- The interrupts of a batch, as the rule of `classifyPending` states them.
  pub data Raises : List ToolCall → List Interrupt → Type 0 where
    finished : Raises [] []
    free :
        (tc : ToolCall) (tcs : List ToolCall) (is : List Interrupt)
        → ¬ IsForClient tc
        → ¬ IsSubmitted tc
        → Raises tcs is
        → Raises (tc ∷ tcs) is
    for_client :
        (tc : ToolCall) (tcs : List ToolCall) (i : Interrupt) (is : List Interrupt)
        → IsForClient tc
        → Names tc "client_side" i
        → Raises tcs is
        → Raises (tc ∷ tcs) (i ∷ is)
    submitted :
        (tc : ToolCall) (tcs : List ToolCall) (i : Interrupt) (is : List Interrupt)
        → ¬ IsForClient tc
        → IsSubmitted tc
        → Names tc "approval_required" i
        → Raises tcs is
        → Raises (tc ∷ tcs) (i ∷ is)
