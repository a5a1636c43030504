-- ===== src/Agent/Compaction/Kept.antt =====
-- What a compaction keeps.
use Prim.Native.Nat.{◌-◌}
use rakit.Prelude.{
  suc, ◌≡◌, refl, true, List, [], ◌∷◌, some, ok, length, drop, length-drop, leb, arith, Bool-cases,
  take, Result-cases, inl, inr,
}
use rakit.Metadata.{Message}
use rakit.Agent.World.{World, ◌>>=◌, pure, call, record_effect}
use rakit.Agent.Config.{CompactionConfig}
use rakit.Agent.Compaction.{new_message, summary_request, should_compact, compact}

-- The history that a due compaction returns: one summary message, with the configured role and no
-- tool calls, and behind it the last `keep_recent` messages as they were.
abbrev pub IsKept : CompactionConfig → List Message → List Message → Type 0
IsKept c ms ms' =
    (m : Message) × (ms' ≡ m ∷ drop (length ms - c.keep_recent) ms)
    × (m.role ≡ c.summary_role)
    × (m.tool_calls ≡ [])

-- If a compaction is due and does not fail, it returns a summary message and the last
-- `keep_recent` messages unchanged, so `keep_recent + 1` messages.
pub compact-IsKept :
    {W : Type 0} (env : World W) (ms ms' : List Message) (c : CompactionConfig) (w : W)
    → should_compact ms c ≡ true
    → (compact env ms c w).0 ≡ some (ok ms')
    → IsKept c ms ms' × (length ms' ≡ suc c.keep_recent)
unfolding should_compact compact ◌>>=◌ pure call record_effect
compact-IsKept env ms ms' c w due p = elim (Bool-cases (leb (length ms) c.keep_recent)) [
  | inl short ↦ absurd (ground arith)
  | inr long ↦
      let request = summary_request env.model (take (length ms - c.keep_recent) ms) in
      let (answer, w1) = env.generate request w in
      elim (Result-cases (env.generate request w).0) [
        | inl (content, q) ↦
            let m =
              new_message (env.generate_id w1).0 c.summary_role content []
                (env.now (env.generate_id w1).1).0 in
            let e : ms' ≡ m ∷ drop (length ms - c.keep_recent) ms = ground arith in
            ((m, e, refl, refl), rw e (ground (arith, length-drop (length ms - c.keep_recent) ms)))
        | inr (x, q) ↦ absurd (ground arith)
      ]
]
