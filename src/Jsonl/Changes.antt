-- ===== src/Jsonl/Changes.antt =====
-- `sessionMessageChanges` of storage/metadata/jsonl/sessions.go: the message records that lead
-- from the stored messages to the new ones.
pub mod Equal
pub mod Events
pub mod Applied
use rakit.Prelude.{
  ℕ, suc, String, Bool, true, false, ◌&&◌, List, [], ◌∷◌, ◌==◌, nat_eq, if◌then◌else◌, Result, ok,
  ◌>>=◌,
}
use rakit.Metadata.{ToolCallRecord, Message}
use rakit.Jsonl.Journal.{Error, Envelope, Std, Source, new_envelope}

abbrev pub tool_call_eq : ToolCallRecord → ToolCallRecord → Bool
tool_call_eq a b =
    a.id == b.id
    && a.name == b.name
    && a.arguments == b.arguments
    && a.result == b.result
    && a.status == b.status

abbrev pub tool_calls_eq : List ToolCallRecord → List ToolCallRecord → Bool
tool_calls_eq [] [] = true
tool_calls_eq [] (b ∷ bs) = false
tool_calls_eq (a ∷ as') [] = false
tool_calls_eq (a ∷ as') (b ∷ bs) = tool_call_eq a b && tool_calls_eq as' bs

-- `reflect.DeepEqual` of two messages
unfoldable pub message_eq : Message → Message → Bool
message_eq a b =
    a.id == b.id
    && a.role == b.role
    && a.content == b.content
    && tool_calls_eq a.tool_calls b.tool_calls
    && nat_eq a.created_at b.created_at

-- Whether the new messages begin with the ids of the stored ones: the loop that sets `incremental`.
unfoldable pub is_incremental : List Message → List Message → Bool
is_incremental [] next = true
is_incremental (c ∷ cs) [] = false
is_incremental (c ∷ cs) (n ∷ ns) = c.id == n.id && is_incremental cs ns

module _ {Raw : Type 0} (std : Std Raw) (src : Source) (transaction session_id : String) where
  abbrev pub in_transaction : Envelope Raw → Envelope Raw
  in_transaction e = record e { transaction_id = transaction }

  unfoldable pub upsert_event : ℕ → Message → Result Error (Envelope Raw)
  upsert_event i m = do
    e ← new_envelope std.message src i "message.upsert" session_id m.id m
    ok (in_transaction e)

  -- The loop over the new messages: those that differ from the stored ones at their index.
  unfoldable pub upsert_events :
      ℕ → List Message → List Message → Result Error (List (Envelope Raw))
  upsert_events i cs [] = ok []
  upsert_events i [] (n ∷ ns) = do
    e ← upsert_event i n
    es ← upsert_events (suc i) [] ns
    ok (e ∷ es)
  upsert_events i (c ∷ cs) (n ∷ ns) =
      let rest = upsert_events (suc i) cs ns in
      if message_eq c n then rest else do e ← upsert_event i n; es ← rest; ok (e ∷ es)

  unfoldable pub replacement_event : List Message → Result Error (Envelope Raw)
  replacement_event next = do
    e ← new_envelope std.replacement src 0 "messages.replaced" session_id "" next
    ok (in_transaction e)

  unfoldable pub session_message_changes :
      List Message → List Message → Result Error (List (Envelope Raw))
  session_message_changes current next =
      if is_incremental current next
      then upsert_events 0 current next
      else do e ← replacement_event next; ok (e ∷ [])
