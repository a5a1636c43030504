-- ===== src/Jsonl/Replay/Deferred.antt =====
-- Replay of a log in pieces, and of the message records of a transaction before their commit.
use mathlib.Core.List.{append-nil, append_assoc}
use rakit.Prelude.{
  String, ◌≡◌, refl, ◌⊎◌, inl, inr, true, false, List, [], ◌∷◌, ◌++◌, ◌==◌, eq_refl, ok, ◌>>=◌,
  Result-cases, Assoc, elem, find-insert, and-false,
}
use rakit.Jsonl.Journal.{Envelope, Std}
use rakit.Jsonl.Replay.{ReplayState, pending_of, defer, replay_message, replay_step, replay_records}

module _ {Raw : Type 0} (std : Std Raw) (id : String) where
  pub replay_records-append :
      (xs ys : List (Envelope Raw)) (r : ReplayState Raw)
      → replay_records std id (xs ++ ys) r
        ≡ (replay_records std id xs r >>= λ r'. replay_records std id ys r')
  unfolding replay_records
  replay_records-append [] ys r = refl
  replay_records-append (x ∷ xs) ys r = elim (Result-cases (replay_step std id x r)) [
    | inl (r', e) ↦ rw e (replay_records-append xs ys r')
    | inr (x', e) ↦ rw e
  ]

-- A message record of the transaction `t` of the session `id`.
pub record IsDeferred {Raw : Type 0} (id t : String) (e : Envelope Raw) : Type 0 where
  pub session : e.session_id ≡ id
  pub transaction : e.transaction_id ≡ t
  pub kind : (e.type ≡ "message.upsert") ⊎ (e.type ≡ "messages.replaced")

abbrev pub AllDeferred : {Raw : Type 0} → String → String → List (Envelope Raw) → Type 0
AllDeferred id t [] = Unit
AllDeferred id t (e ∷ es) = IsDeferred id t e × AllDeferred id t es

-- A state in which records of the transaction `t` are put aside.
pub record IsOpen {Raw : Type 0} (t : String) (r : ReplayState Raw) : Type 0 where
  pub created : r.created ≡ true
  pub deleted : r.deleted ≡ false
  pub uncommitted : elem t r.committed ≡ false
  pub named : (t == "") ≡ false

abbrev pub defer_all :
    {Raw : Type 0}
    → List (Envelope Raw)
    → List (String × List (Envelope Raw))
    → List (String × List (Envelope Raw))
defer_all [] p = p
defer_all (e ∷ es) p = defer_all es (defer e p)

module _ {Raw : Type 0} (std : Std Raw) (id t : String) where
  step-deferred :
      (e : Envelope Raw) (r : ReplayState Raw)
      → IsDeferred id t e
      → IsOpen t r
      → replay_step std id e r ≡ ok (record r { pending = defer e r.pending })
  unfolding replay_step replay_message
  step-deferred e r h o = elim h.kind [
    | inl k ↦ rw (
      h.session,
      k,
      h.transaction,
      o.created,
      o.deleted,
      o.named,
      o.uncommitted,
      eq_refl id,
      and-false,
    )
    | inr k ↦ rw (
      h.session,
      k,
      h.transaction,
      o.created,
      o.deleted,
      o.named,
      o.uncommitted,
      eq_refl id,
      and-false,
    )
  ]

  pub replay_records-deferred :
      (es : List (Envelope Raw)) (r : ReplayState Raw)
      → AllDeferred id t es
      → IsOpen t r
      → replay_records std id es r ≡ ok (record r { pending = defer_all es r.pending })
  unfolding replay_records
  replay_records-deferred [] r h o = refl
  replay_records-deferred (e ∷ es) r h o = rw (step-deferred e r h.0 o) (
      replay_records-deferred es (record r { pending = defer e r.pending }) h.1
        (record {
          created = o.created;
          deleted = o.deleted;
          uncommitted = o.uncommitted;
          named = o.named;
        }))

  pending_of-defer :
      (e : Envelope Raw) (p : Assoc (List (Envelope Raw)))
      → e.transaction_id ≡ t
      → pending_of t (defer e p) ≡ pending_of t p ++ e ∷ []
  unfolding defer
  pending_of-defer e p h = rw (h, pending_of, find-insert, eq_refl t)

  pub pending_of-defer_all :
      (es : List (Envelope Raw)) (p : Assoc (List (Envelope Raw)))
      → AllDeferred id t es
      → pending_of t (defer_all es p) ≡ pending_of t p ++ es
  pending_of-defer_all [] p h = rw append-nil
  pending_of-defer_all (e ∷ es) p h =
      rw (
        pending_of-defer_all es (defer e p) h.1,
        pending_of-defer e p h.0.transaction,
        append_assoc,
      )
