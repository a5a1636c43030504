-- ===== src/Agent/Runner/Stored.antt =====
-- The calls of a message, and the results written into them.
use Prim.Native.Nat.{ℕ, zero, suc}
use rakit.Prelude.{
  String, ◌≡◌, refl, ap, ◌∙◌, Bool, true, false, ◌&&◌, ◌||◌, List, [], ◌∷◌, ◌++◌, map, drop, length,
  arith, ◌==◌, eq_refl,
}
use rakit.Metadata.{Message, ToolCallRecord}
use rakit.Provider.{ToolCall}
use rakit.Agent.Persistence.{update_at, with_result, with_tool_calls}
use rakit.Agent.Compaction.{provider_tool_calls_to_records}

-- A call with this id and this result in one of the messages.
abbrev pub holds_call : String → String → List ToolCallRecord → Bool
holds_call id r [] = false
holds_call id r (tc ∷ tcs) = (tc.id == id && tc.result == r) || holds_call id r tcs

abbrev pub holds_result : String → String → List Message → Bool
holds_result id r [] = false
holds_result id r (m ∷ ms) = holds_call id r m.tool_calls || holds_result id r ms

-- The ids of the calls of the `idx`-th message.
abbrev pub calls_at : ℕ → List Message → List ToolCallRecord
calls_at idx [] = []
calls_at zero (m ∷ ms) = m.tool_calls
calls_at (suc idx) (m ∷ ms) = calls_at idx ms

abbrev pub call_ids : List ToolCallRecord → List String
call_ids = map (λ tc. tc.id)

drop-update_at :
    (i : ℕ) (r st : String) (tcs : List ToolCallRecord)
    → call_ids (drop (suc i) (update_at i (with_result r st) tcs)) ≡ call_ids (drop (suc i) tcs)
unfolding update_at
drop-update_at i r st [] = refl
drop-update_at zero r st (tc ∷ tcs) = refl
drop-update_at (suc i) r st (tc ∷ tcs) = drop-update_at i r st tcs

holds_call-update_at :
    (i : ℕ) (id r st : String) (rest : List String) (tcs : List ToolCallRecord)
    → call_ids (drop i tcs) ≡ id ∷ rest
    → holds_call id r (update_at i (with_result r st) tcs) ≡ true
unfolding update_at
holds_call-update_at zero id r st rest [] p = absurd (ground arith)
holds_call-update_at (suc i) id r st rest [] p = absurd (ground arith)
holds_call-update_at zero id r st rest (tc ∷ tcs) p = ground (arith, eq_refl r, eq_refl id)
holds_call-update_at (suc i) id r st rest (tc ∷ tcs) p =
    ground (arith, holds_call-update_at i id r st rest tcs p)

pub call_ids-tail :
    (i : ℕ) (id : String) (rest : List String) (tcs : List ToolCallRecord)
    → call_ids (drop i tcs) ≡ id ∷ rest
    → call_ids (drop (suc i) tcs) ≡ rest
call_ids-tail zero id rest [] p = absurd (ground arith)
call_ids-tail (suc i) id rest [] p = absurd (ground arith)
call_ids-tail zero id rest (tc ∷ tcs) p = ground arith
call_ids-tail (suc i) id rest (tc ∷ tcs) p = call_ids-tail i id rest tcs p

pub calls_at-backfill :
    (idx i : ℕ) (r st : String) (ms : List Message) (id : String) (rest : List String)
    → call_ids (drop i (calls_at idx ms)) ≡ id ∷ rest
    → let ms' =
        update_at idx (λ m. with_tool_calls (update_at i (with_result r st) m.tool_calls) m) ms in
      (call_ids (drop (suc i) (calls_at idx ms')) ≡ rest) × (holds_result id r ms' ≡ true)
unfolding update_at
calls_at-backfill idx i r st [] id rest p = absurd (ground (arith, drop-empty i p))
  where
    drop-empty : (i : ℕ) → call_ids (drop i []) ≡ id ∷ rest → false ≡ true
    drop-empty zero p = absurd (ground arith)
    drop-empty (suc i) p = absurd (ground arith)
calls_at-backfill zero i r st (m ∷ ms) id rest p = (
  drop-update_at i r st m.tool_calls ∙ call_ids-tail i id rest m.tool_calls p,
  ground (arith, holds_call-update_at i id r st rest m.tool_calls p),
)
calls_at-backfill (suc idx) i r st (m ∷ ms) id rest p =
    let (q, h) = calls_at-backfill idx i r st ms id rest p in (q, ground arith)

pub calls_at-append :
    (ms : List Message) (m : Message) → calls_at (length ms) (ms ++ (m ∷ [])) ≡ m.tool_calls
calls_at-append [] m = refl
calls_at-append (n ∷ ms) m = calls_at-append ms m

pub call_ids-provider_tool_calls_to_records :
    (tcs : List ToolCall) → call_ids (provider_tool_calls_to_records tcs) ≡ map (λ tc. tc.id) tcs
unfolding provider_tool_calls_to_records
call_ids-provider_tool_calls_to_records [] = refl
call_ids-provider_tool_calls_to_records (tc ∷ tcs) =
    ap (λ l. tc.id ∷ l) (call_ids-provider_tool_calls_to_records tcs)
