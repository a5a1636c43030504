-- ===== src/Metadata.antt =====
-- storage/metadata/metadata.go: the persisted shapes. A slice or map that is nil and one that is
-- empty are the same list here. Times are the milliseconds that the clock shows, which are not
-- negative.
pub mod Definitions
pub mod Contract
use rakit.Prelude.{ℕ, String, Bool, List}

-- A decoded JSON document (Go's `any`), a number kept as its literal.
mutual
  pub data Value : Type 0 where
    null : Value
    bool : Bool → Value
    num : String → Value
    str : String → Value
    arr : Items → Value
    obj : Fields → Value

  pub data Items : Type 0 where
    nil : Items
    item : Value → Items → Items

  pub data Fields : Type 0 where
    end : Fields
    field : String → Value → Fields → Fields

pub record ToolCallRecord : Type 0 where
  pub id : String
  pub name : String
  pub arguments : String
  pub result : String
  pub status : String

pub record Message : Type 0 where
  pub id : String
  pub role : String
  pub content : String
  pub tool_calls : List ToolCallRecord
  pub created_at : ℕ

pub record Interrupt : Type 0 where
  pub id : String
  pub reason : String
  pub message : String
  pub tool_call_id : String
  pub response_schema : Fields
  pub expires_at_ms : ℕ
  pub metadata : Fields

pub record Session : Type 0 where
  pub id : String
  pub agent_id : String
  pub user_id : String
  pub parent_session_id : String
  pub messages : List Message
  pub state : Fields
  pub open_interrupts : List Interrupt
  pub revision : ℕ
  pub created_at : ℕ
  pub updated_at : ℕ
