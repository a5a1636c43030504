-- ===== src/Agent/Interrupts/Gates.antt =====
-- Which tool calls of a batch are paused, and the status that each gets.
use rakit.Prelude.{String, ◌^^◌, ◌≡◌, refl, List, [], ◌∷◌, none, some, Option-cases, inl, inr}
use rakit.Tool.{Registry}
use rakit.Provider.{ToolCall}
use rakit.Agent.Event.{Interrupt}
use rakit.Agent.World.{◌>>=◌, pure, call}
use rakit.Agent.Config.{Agent}
use rakit.Agent.Interrupts.{
  gate, interrupt_of, interrupt_id, classify_pending, interrupt_kind, pending_status_for,
  kind_approval, kind_client_side,
}

-- The interrupts match the gated calls, one for each, in their order.
abbrev pub Matches : {W : Type 0} → Agent W → Registry → List ToolCall → List Interrupt → Type 0
Matches a r [] is = is ≡ []
Matches a r (tc ∷ tcs) is = elim (gate a r tc) [
  | none ↦ Matches a r tcs is
  | some kind ↦
      (id : String) × (rest : List Interrupt) × (is ≡ interrupt_of a r tc kind id ∷ rest)
      × Matches a r tcs rest
]

module _ {W : Type 0} (a : Agent W) (r : Registry) where
  -- `classifyPending` raises one interrupt for each gated call and for no other, in the order of
  -- the calls, without an effect and without an early return.
  pub classify_pending-Matches :
      (tcs : List ToolCall) (w : W)
      → (is : List Interrupt) × (w' : W) × (classify_pending a r tcs w ≡ (some is, [], w'))
        × Matches a r tcs is
  unfolding classify_pending ◌>>=◌ pure interrupt_id call rakit.Agent.Interrupts.gate_message
  classify_pending-Matches [] w = ([], w, refl, refl)
  classify_pending-Matches (tc ∷ tcs) w = elim (Option-cases (gate a r tc)) [
    | inl p ↦
        let (is, w', eq, m) = classify_pending-Matches tcs w in
        (is, w', rw (classify_pending, p) eq, rw (Matches, p) m)
    | inr (kind, p) ↦
        let (id, w1) = a.world.generate_id w in
        let (is, w', eq, m) = classify_pending-Matches tcs w1 in
        (
          interrupt_of a r tc kind ("intr-" ^^ id) ∷ is,
          w',
          rw (classify_pending, p, ◌>>=◌, interrupt_id, call, eq, pure) refl,
          rw (Matches, p) ("intr-" ^^ id, is, refl, m),
        )
  ]
