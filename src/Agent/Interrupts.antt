-- ===== src/Agent/Interrupts.antt =====
-- The interrupts of agent/hil.go and agent/resume.go: which tool calls are gated, and the two shapes
-- of an interrupt.
pub mod Gates
pub mod Raised
pub mod Shapes
use Prim.Native.Nat.{◌/◌}
use rakit.Prelude.{
  ℕ, ◌*◌, String, ◌^^◌, Bool, true, false, List, [], ◌∷◌, Option, none, some, ◌==◌, nat_eq,
  if◌then◌else◌, map,
}
use rakit.Metadata
use rakit.Metadata.{Value, Fields, str, end, field}
use rakit.Tool.{Tool, Registry, get}
use rakit.Provider.{ToolCall}
use rakit.Agent.Event.{Interrupt}
use rakit.Agent.World.{World, Run, ◌>>=◌, pure, call}
use rakit.Agent.Config.{Agent, ApprovalPolicy}

abbrev pub kind_approval : String
kind_approval = "approval_required"

abbrev pub kind_client_side : String
kind_client_side = "client_side"

-- `m[key]` of a decoded JSON object
unfoldable pub get_field : String → Fields → Option Value
get_field k end = none
get_field k (field j v fs) = if j == k then some v else get_field k fs

abbrev pub as_string : Option Value → String
as_string (some (str s)) = s
as_string _ = ""

-- `interruptKind`
unfoldable pub interrupt_kind : Interrupt → String
unfolding get_field
interrupt_kind i = as_string (get_field "rakit.kind" i.metadata)

abbrev pub is_client_side : Option Tool → Bool
is_client_side none = false
is_client_side (some t) = t.client_side

abbrev pub requires_approval : Option ApprovalPolicy → ToolCall → Bool
requires_approval none tc = false
requires_approval (some p) tc = p tc.name tc.arguments

module _ {W : Type 0} (a : Agent W) (registry : Registry) where
  -- The kind of the interrupt of a tool call, if it is gated.
  unfoldable pub gate : ToolCall → Option String
  gate tc =
      if is_client_side (get tc.name registry)
      then some kind_client_side
      else if requires_approval a.approval_policy tc
      then some kind_approval
      else none

  unfoldable pub gate_message : ToolCall → String → String
  gate_message tc kind =
      let name = a.world.quote tc.name in
      if kind == kind_client_side
      then "Tool " ^^ name ^^ " runs on the client; provide its result to continue."
      else "Tool " ^^ name ^^ " requires approval before it can run."

  abbrev pub interrupt_of : ToolCall → String → String → Interrupt
  interrupt_of tc kind id = record {
    id = id;
    reason = "tool_call";
    message = gate_message tc kind;
    tool_call_id = tc.id;
    response_schema = end;
    expires_at = none;
    metadata = field "rakit.kind" (str kind) end;
  }

  unfoldable pub interrupt_id : Run W String
  interrupt_id = do id ← call a.world.generate_id; pure ("intr-" ^^ id)

  unfoldable pub classify_pending : List ToolCall → Run W (List Interrupt)
  classify_pending [] = pure []
  classify_pending (tc ∷ tcs) = elim (gate tc) [
    | none ↦ classify_pending tcs
    | some kind ↦ do
      id ← interrupt_id
      rest ← classify_pending tcs
      pure (interrupt_of tc kind id ∷ rest)
  ]

-- `pendingStatusFor`
unfoldable pub pending_status_for : String → List Interrupt → String
pending_status_for id [] = "pending"
pending_status_for id (i ∷ is) =
    let rest = pending_status_for id is in
    if i.tool_call_id == id
    then if interrupt_kind i == kind_client_side
      then "pending_client"
      else if interrupt_kind i == kind_approval
      then "pending_approval"
      else rest
    else rest

abbrev pub milliseconds : Option ℕ → ℕ
milliseconds none = 0
milliseconds (some t) = t / 1000000

-- `interruptsToMetadata`
unfoldable pub interrupts_to_metadata : List Interrupt → List Metadata.Interrupt
interrupts_to_metadata = map (λ i. record {
  id = i.id;
  reason = i.reason;
  message = i.message;
  tool_call_id = i.tool_call_id;
  response_schema = i.response_schema;
  expires_at_ms = milliseconds i.expires_at;
  metadata = i.metadata;
})

-- `metadataToInterrupts`
unfoldable pub metadata_to_interrupts : List Metadata.Interrupt → List Interrupt
metadata_to_interrupts = map (λ i. record {
  id = i.id;
  reason = i.reason;
  message = i.message;
  tool_call_id = i.tool_call_id;
  response_schema = i.response_schema;
  expires_at = if nat_eq i.expires_at_ms 0 then none else some (i.expires_at_ms * 1000000);
  metadata = i.metadata;
})
