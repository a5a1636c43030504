-- ===== src/Jsonl/Sessions/Swapped.antt =====
-- A successful UpdateSession of the filesystem store is the compare-and-swap that the store
-- interface promises.
use rakit.Prelude.{
  ℕ, ◌+◌, ◌<◌, ◌%◌, ◌^◌, String, ◌≡◌, refl, ap, ◌∙◌, true, false, not, ◌||◌, none, some,
  Result-cases, inl, inr, ok, err, arith, nat_eq, ltb, ◌==◌, eq_iff, IsDistinct,
}
use rakit.Metadata.{Session}
use rakit.Metadata.Contract.{Sessions, Limits, later, successor, can_follow, put, swap}
use rakit.Jsonl.Journal.{Std, Source, Disk, lines_of}
use rakit.Jsonl.Changes.Equal.{ids}
use rakit.Jsonl.Sessions.{
  max_int64, max_uint64, get_session, next_updated_at, next_session, transaction_of, update_session,
}
use rakit.Jsonl.Sessions.Files.{IsFreshIn, NoCut}
use rakit.Jsonl.Sessions.Inversion.{
  clone_session-eq, get_of_IsStored, prepare_update-IsPrepared, update_session-ok,
}
use rakit.Jsonl.Sessions.Prepared.{id-replay_session}
use rakit.Jsonl.Sessions.Update.{update_session-get}
use rakit.Jsonl.Sessions.Isolated.{update_session-other}

-- The bounds of `uint64` and `int64`.
abbrev pub limits : Limits
limits = record { last_revision = max_uint64; last_time = max_int64 }

time_follows :
    (id : String) (now stored t : ℕ)
    → next_updated_at id now stored ≡ ok t
    → (t ≡ later now stored) × ((ltb stored now || not (nat_eq stored max_int64)) ≡ true)
unfolding next_updated_at
time_follows id now stored t h = ground arith

swap-follows :
    (now : ℕ) (s current next : Session) (m : Sessions)
    → m s.id ≡ some current
    → can_follow limits now s current ≡ true
    → next ≡ successor now s current
    → swap limits now s m ≡ (some next, put next m)
unfolding swap
swap-follows now s current next m e f g = rw (e, swap, f, g)

module _ {Raw : Type 0} (std : Std Raw) where
  -- What GetSession finds: `none` also for a session that cannot be read.
  unfoldable pub observe : Disk Raw → Sessions
  observe d id = elim (get_session std id d) [ ok o ↦ o | err _ ↦ none ]

  next_session-time :
      (src : Source) (s current next : Session)
      → next_session std src s current ≡ ok next
      → (t : ℕ) × (next_updated_at s.id src.now current.updated_at ≡ ok t)
        × (next ≡ record s {
          id = current.id;
          created_at = current.created_at;
          revision = (current.revision + 1) % 2 ^ 64;
          updated_at = t;
        })
  unfolding next_session
  next_session-time src s current next h =
      elim (Result-cases (next_updated_at s.id src.now current.updated_at)) [
        | inl (t, p) ↦ (t, p, ground (arith, clone_session-eq std s))
        | inr (x, p) ↦ absurd (ground arith)
      ]

  -- The stored snapshot is the successor that the specification stores.
  next_session-successor :
      (src : Source) (s current next : Session)
      → next_session std src s current ≡ ok next
      → current.id ≡ s.id
      → s.revision ≡ current.revision
      → current.revision < max_uint64
      → (can_follow limits src.now s current ≡ true) × (next ≡ successor src.now s current)
  next_session-successor src s current next h kept revision small =
      let (t, time, fields) = next_session-time src s current next h in
      let (later_time, room) = time_follows s.id src.now current.updated_at t time in
      let step : (current.revision + 1) % 2 ^ 64 ≡ s.revision + 1 = ground arith in
      (ground arith, fields ∙ ground arith)

  module _ (src : Source) (s : Session) (d : Disk Raw) (no_cut : NoCut d.faults)
      (fresh : IsFreshIn (transaction_of src) (lines_of s.id d))
      (distinct : IsDistinct (ids s.messages)) (next : Session) (d' : Disk Raw)
      (updated : update_session std src s d ≡ (ok next, d')) where
    observe_other : (k : String) → (s.id == k) ≡ false → observe d' k ≡ observe d k
    unfolding observe
    observe_other k other = ground (arith, update_session-other std src s k d other)

    observe_next : observe d' s.id ≡ some next
    unfolding observe
    observe_next =
        rw (update_session-get std src s d no_cut fresh distinct next d' updated, observe)

    observe_put : next.id ≡ s.id → (k : String) → observe d' k ≡ put next (observe d) k
    observe_put same k = ground (arith, observe_next, observe_other k, eq_iff s.id k)

    -- A successful update of the JSONL store answers and stores what the specification's
    -- compare-and-swap does, for every session that a reader finds, where the stored revision has
    -- a successor, the ids of the caller's messages are distinct, the transaction id is new to the
    -- transcript and no write is cut short.
    pub update_session-swaps :
        (current : Session)
        → get_session std s.id d ≡ ok (some current)
        → current.revision < max_uint64
        → ((swap limits src.now s (observe d)).0 ≡ some next)
          × ((k : String) → observe d' k ≡ (swap limits src.now s (observe d)).1 k)
    unfolding observe
    update_session-swaps current stored small =
        let (events, commit, p, _) = update_session-ok std src s d next d' updated in
        let prepared = prepare_update-IsPrepared std src s d next events commit p in
        let same : prepared.current ≡ current =
          ground (arith, get_of_IsStored std s.id d prepared.current prepared.stored) in
        let kept =
          id-replay_session std s.id prepared.stored.records prepared.current
            prepared.stored.replays in
        let (follows, succeeds) =
          next_session-successor src s current next (rw same at prepared.made) (rw same at kept)
            (rw same at prepared.revision) small in
        let swapped =
          swap-follows src.now s current next (observe d) (rw (stored, observe)) follows succeeds in
        rw swapped (refl, observe_put (ap (λ (x : Session). x.id) succeeds))
