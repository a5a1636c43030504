-- ===== src/Provider.antt =====
-- provider/provider.go: messages, requests and stream events.
use rakit.Prelude.{ℕ, String, List, Option}
use rakit.Tool.{ToolSchema}

-- A Go `error`: its own text, or a text put before another error by `%w`.
pub data Error : Type 0 where
  message : String → Error
  wrapped : String → Error → Error

pub record ToolCall : Type 0 where
  pub id : String
  pub name : String
  pub arguments : String
  pub thought_signature : List ℕ

pub record ProviderMessage : Type 0 where
  pub role : String
  pub content : String
  pub tool_calls : List ToolCall

pub record Request : Type 0 where
  pub model : String
  pub messages : List ProviderMessage
  pub tools : List ToolSchema
  pub system : String
  pub max_tokens : ℕ

-- The stream events; the error of an error event may be nil.
pub data ProviderEvent : Type 0 where
  text_delta : String → ProviderEvent
  tool_call : ToolCall → ProviderEvent
  tool_result : String → String → ProviderEvent
  done : ProviderEvent
  error : Option Error → ProviderEvent
