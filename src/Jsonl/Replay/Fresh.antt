-- ===== src/Jsonl/Replay/Fresh.antt =====
-- Transaction ids that no record of a transcript carries.
use rakit.Prelude.{
  String, ◌≡◌, false, List, [], ◌∷◌, ◌++◌, ◌==◌, none, ok, Result-cases, inl, inr, find, elem,
  find-insert, find-delete, arith,
}
use rakit.Jsonl.Journal.{Envelope, Std}
use rakit.Jsonl.Replay.{
  ReplayState, pending_of, defer, replay_created, replay_updated, replay_message, replay_deleted,
  commit_pending, replay_step, replay_records,
}

pub record IsUnused {Raw : Type 0} (t : String) (r : ReplayState Raw) : Type 0 where
  pub uncommitted : elem t r.committed ≡ false
  pub absent : find t r.pending ≡ none

-- No record carries the transaction id.
abbrev pub IsFresh : {Raw : Type 0} → String → List (Envelope Raw) → Type 0
IsFresh t [] = Unit
IsFresh t (e ∷ es) = ((e.transaction_id == t) ≡ false) × IsFresh t es

module _ {Raw : Type 0} (std : Std Raw) (id t : String) where
  created-IsUnused :
      (e : Envelope Raw) (r r' : ReplayState Raw)
      → replay_created std id e r ≡ ok r'
      → IsUnused t r
      → IsUnused t r'
  unfolding replay_created
  created-IsUnused e r r' h u = ground arith

  deleted-IsUnused :
      (e : Envelope Raw) (r r' : ReplayState Raw)
      → replay_deleted std e r ≡ ok r'
      → IsUnused t r
      → IsUnused t r'
  unfolding replay_deleted
  deleted-IsUnused e r r' h u = ground arith

  commit-IsUnused :
      (x : String) (r r' : ReplayState Raw)
      → (x == t) ≡ false
      → commit_pending std x r ≡ ok r'
      → IsUnused t r
      → IsUnused t r'
  unfolding commit_pending
  commit-IsUnused x r r' ne h u = ground (arith, find-delete x t r.pending)

  updated-IsUnused :
      (e : Envelope Raw) (r r' : ReplayState Raw)
      → (e.transaction_id == t) ≡ false
      → replay_updated std id e r ≡ ok r'
      → IsUnused t r
      → IsUnused t r'
  unfolding replay_updated
  updated-IsUnused e r r' ne h u = elim (Result-cases (commit_pending std e.transaction_id r)) [
    | inl (s, p) ↦ ground (arith, commit-IsUnused e.transaction_id r s ne p u)
    | inr (x, p) ↦ ground arith
  ]

  message-IsUnused :
      (e : Envelope Raw) (r r' : ReplayState Raw)
      → (e.transaction_id == t) ≡ false
      → replay_message std e r ≡ ok r'
      → IsUnused t r
      → IsUnused t r'
  unfolding replay_message defer
  message-IsUnused e r r' ne h u = ground (
    arith,
    find-insert e.transaction_id t (pending_of e.transaction_id r.pending ++ e ∷ []) r.pending,
  )

  step-IsUnused :
      (e : Envelope Raw) (r r' : ReplayState Raw)
      → (e.transaction_id == t) ≡ false
      → replay_step std id e r ≡ ok r'
      → IsUnused t r
      → IsUnused t r'
  unfolding replay_step
  step-IsUnused e r r' ne h u = ground (
    arith,
    created-IsUnused e r r',
    updated-IsUnused e r r',
    message-IsUnused e r r',
    deleted-IsUnused e r r',
  )

  pub replay_records-IsUnused :
      (es : List (Envelope Raw)) (r r' : ReplayState Raw)
      → IsFresh t es
      → replay_records std id es r ≡ ok r'
      → IsUnused t r
      → IsUnused t r'
  unfolding replay_records
  replay_records-IsUnused [] r r' f h u = ground arith
  replay_records-IsUnused (e ∷ es) r r' f h u = elim (Result-cases (replay_step std id e r)) [
    | inl (s, p) ↦ replay_records-IsUnused es s r' f.1 (rw p at h) (step-IsUnused e r s f.0 p u)
    | inr (x, p) ↦ cc
  ]
