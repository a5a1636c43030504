-- ===== src/Jsonl/Changes/Equal.antt =====
-- The test for equal messages, and the ids of a list of messages.
use rakit.Prelude.{
  String, ◌≡◌, refl, ap, true, false, List, [], ◌∷◌, ◌++◌, map, ◌==◌, eq_iff, elem, IsDistinct,
  arith,
}
use rakit.Metadata.{ToolCallRecord, Message}
use rakit.Jsonl.Replay.{upsert_message}
use rakit.Jsonl.Changes.{tool_call_eq, tool_calls_eq, message_eq}

tool_call_eq→eq : (a b : ToolCallRecord) → tool_call_eq a b ≡ true → a ≡ b
tool_call_eq→eq a b h = ground (
  arith,
  eq_iff a.id b.id,
  eq_iff a.name b.name,
  eq_iff a.arguments b.arguments,
  eq_iff a.result b.result,
  eq_iff a.status b.status,
)

tool_calls_eq→eq : (as' bs : List ToolCallRecord) → tool_calls_eq as' bs ≡ true → as' ≡ bs
tool_calls_eq→eq [] [] h = refl
tool_calls_eq→eq [] (b ∷ bs) h = ground arith
tool_calls_eq→eq (a ∷ as') [] h = ground arith
tool_calls_eq→eq (a ∷ as') (b ∷ bs) h =
    let p : tool_call_eq a b ≡ true = ground arith in
    let q : tool_calls_eq as' bs ≡ true = ground arith in
    cc (tool_call_eq→eq a b p, tool_calls_eq→eq as' bs q)

pub message_eq→eq : (a b : Message) → message_eq a b ≡ true → a ≡ b
unfolding message_eq
message_eq→eq a b h =
    let q : tool_calls_eq a.tool_calls b.tool_calls ≡ true = ground arith in
    ground (
      arith,
      eq_iff a.id b.id,
      eq_iff a.role b.role,
      eq_iff a.content b.content,
      tool_calls_eq→eq a.tool_calls b.tool_calls q,
    )

abbrev pub ids : List Message → List String
ids = map (λ m. m.id)

-- No message of the list has the id.
abbrev pub Avoids : String → List Message → Type 0
Avoids k [] = Unit
Avoids k (m ∷ ms) = ((m.id == k) ≡ false) × Avoids k ms

elem-later :
    (k : String) (ms ns : List Message) (n : Message)
    → elem k (ids (ms ++ n ∷ ns)) ≡ false
    → (n.id == k) ≡ false
elem-later k [] ns n h = ground arith
elem-later k (m ∷ ms) ns n h = elem-later k ms ns n (ground arith)

-- In a list of distinct ids, the messages before one avoid its id.
pub Avoids-of_distinct :
    (ms ns : List Message) (n : Message) → IsDistinct (ids (ms ++ n ∷ ns)) → Avoids n.id ms
Avoids-of_distinct [] ns n h = tt
Avoids-of_distinct (m ∷ ms) ns n h = (
  ground (arith, eq_iff m.id n.id, eq_iff n.id m.id, elem-later m.id ms ns n h.0),
  Avoids-of_distinct ms ns n h.1,
)

pub upsert_message-append :
    (n : Message) (ms rest : List Message)
    → Avoids n.id ms
    → upsert_message n (ms ++ rest) ≡ ms ++ upsert_message n rest
unfolding upsert_message
upsert_message-append n [] rest h = refl
upsert_message-append n (m ∷ ms) rest h =
    rw h.0 (ap (λ (l : List Message). m ∷ l) (upsert_message-append n ms rest h.1))
