-- ===== src/Jsonl/Changes/Applied.antt =====
-- `sessionMessageChanges` and `applySessionMessageEvent` together.
use mathlib.Core.Path.{subst}
use mathlib.Core.List.{append-nil, append_assoc}
use rakit.Prelude.{
  ℕ, suc, String, ◌≡◌, refl, true, List, [], ◌∷◌, ◌++◌, ◌==◌, Result, ok, ◌>>=◌, Result-cases, inl,
  inr, arith, Bool-cases, IsDistinct,
}
use rakit.Metadata.{Message, Session}
use rakit.Jsonl.Journal.{Error, Envelope, Std, Source, new_envelope, check_envelope}
use rakit.Jsonl.Replay.{upsert_message, apply_message_event, apply_message_events}
use rakit.Jsonl.Replay.Deferred.{IsDeferred, AllDeferred}
use rakit.Jsonl.Changes.{
  replacement_event, upsert_event, upsert_events, message_eq, is_incremental,
  session_message_changes,
}
use rakit.Jsonl.Changes.Equal.{
  message_eq→eq, ids, Avoids, Avoids-of_distinct, upsert_message-append,
}
use rakit.Jsonl.Changes.Events.{IsEnvelope, new_envelope-IsEnvelope}

abbrev pub AllReadable : {Raw : Type 0} → List (Envelope Raw) → Type 0
AllReadable [] = Unit
AllReadable (e ∷ es) = (check_envelope e ≡ ok e) × AllReadable es

shift :
    (done : List Message) (n : Message) (ns : List Message)
    → (done ++ n ∷ []) ++ ns ≡ done ++ n ∷ ns
shift done n ns = append_assoc done (n ∷ []) ns

upserted_end :
    (done : List Message) (n : Message)
    → Avoids n.id done
    → upsert_message n (done ++ []) ≡ (done ++ n ∷ []) ++ []
unfolding upsert_message
upserted_end done n h = rw (upsert_message-append n done [] h, append-nil)

upserted_here :
    (done : List Message) (c n : Message) (cs : List Message)
    → Avoids n.id done
    → (c.id == n.id) ≡ true
    → upsert_message n (done ++ c ∷ cs) ≡ (done ++ n ∷ []) ++ cs
upserted_here done c n cs h same =
    rw (upsert_message-append n done (c ∷ cs) h, shift done n cs) (unfold upsert_message in rw same)

module _ {Raw : Type 0} (std : Std Raw) (src : Source) (t id : String) where
  upsert_event-IsEnvelope :
      (i : ℕ) (m : Message) (e : Envelope Raw)
      → upsert_event std src t id i m ≡ ok e
      → IsEnvelope std.message id "message.upsert" m e × (e.transaction_id ≡ t)
  unfolding upsert_event
  upsert_event-IsEnvelope i m e h =
      elim (Result-cases (new_envelope std.message src i "message.upsert" id m.id m)) [
        | inl (e', p) ↦
            let shape =
              new_envelope-IsEnvelope std.message src i "message.upsert" id m.id t m e' refl p in
            let q : record e' { transaction_id = t } ≡ e = ground arith in
            (subst (λ x. IsEnvelope std.message id "message.upsert" m x) q shape, ground arith)
        | inr (x, p) ↦ absurd (ground arith)
      ]

  upsert_event-applied :
      (i : ℕ) (m : Message) (e : Envelope Raw) (s : Session)
      → upsert_event std src t id i m ≡ ok e
      → apply_message_event std s e ≡ ok (record s { messages = upsert_message m s.messages })
  unfolding apply_message_event
  upsert_event-applied i m e s h =
      let (shape, _) = upsert_event-IsEnvelope i m e h in rw (shape.kind, shape.payload)

  upsert_event-IsDeferred :
      (i : ℕ) (m : Message) (e : Envelope Raw)
      → upsert_event std src t id i m ≡ ok e
      → IsDeferred id t e × (check_envelope e ≡ ok e)
  upsert_event-IsDeferred i m e h =
      let (shape, named) = upsert_event-IsEnvelope i m e h in
      (
        record { session = shape.session; transaction = named; kind = inl shape.kind },
        shape.readable,
      )

  abbrev WellMade : List (Envelope Raw) → Type 0
  WellMade es = AllDeferred id t es × AllReadable es

  upsert_then :
      (i : ℕ) (m : Message) (rest : Result Error (List (Envelope Raw))) (es : List (Envelope Raw))
      → (do e ← upsert_event std src t id i m; l ← rest; ok (e ∷ l)) ≡ ok es
      → (e : Envelope Raw) × (l : List (Envelope Raw)) × (upsert_event std src t id i m ≡ ok e)
        × (rest ≡ ok l)
        × (es ≡ e ∷ l)
  upsert_then i m rest es h = elim (Result-cases (upsert_event std src t id i m)) [
    | inl (e, p) ↦ elim (Result-cases rest) [
      | inl (l, q) ↦ (e, l, p, q, ground arith)
      | inr (x, q) ↦ absurd (ground arith)
    ]
    | inr (x, p) ↦ absurd (ground arith)
  ]

  WellMade-cons :
      (i : ℕ) (m : Message) (e : Envelope Raw) (es : List (Envelope Raw))
      → upsert_event std src t id i m ≡ ok e
      → WellMade es
      → WellMade (e ∷ es)
  WellMade-cons i m e es h w = let (d, r) = upsert_event-IsDeferred i m e h in ((d, w.0), (r, w.1))

  upsert_events-WellMade :
      (i : ℕ) (cs ns : List Message) (es : List (Envelope Raw))
      → upsert_events std src t id i cs ns ≡ ok es
      → WellMade es
  unfolding upsert_events
  upsert_events-WellMade i cs [] es h = let e : es ≡ [] = ground arith in rw e (tt, tt)
  upsert_events-WellMade i [] (n ∷ ns) es h =
      let (e, l, p, q, r) = upsert_then i n (upsert_events std src t id (suc i) [] ns) es h in
      rw r (WellMade-cons i n e l p (upsert_events-WellMade (suc i) [] ns l q))
  upsert_events-WellMade i (c ∷ cs) (n ∷ ns) es h = elim (Bool-cases (message_eq c n)) [
    | inl same ↦ upsert_events-WellMade (suc i) cs ns es (rw same at h)
    | inr new ↦
        let (e, l, p, q, r) =
          upsert_then i n (upsert_events std src t id (suc i) cs ns) es (rw new at h) in
        rw r (WellMade-cons i n e l p (upsert_events-WellMade (suc i) cs ns l q))
  ]

  -- The stored messages are `done ++ cs`, of which the loop has dealt with `done`.
  upsert_events-applied :
      (i : ℕ) (done cs ns : List Message) (es : List (Envelope Raw)) (s : Session)
      → upsert_events std src t id i cs ns ≡ ok es
      → is_incremental cs ns ≡ true
      → IsDistinct (ids (done ++ ns))
      → apply_message_events std (record s { messages = done ++ cs }) es
        ≡ ok (record s { messages = done ++ ns })
  unfolding upsert_events is_incremental apply_message_events
  upsert_events-applied i done [] [] es s h inc d = let e : es ≡ [] = ground arith in rw e
  upsert_events-applied i done (c ∷ cs) [] es s h inc d = absurd (ground arith)
  upsert_events-applied i done [] (n ∷ ns) es s h inc d =
      let (e, l, p, q, r) = upsert_then i n (upsert_events std src t id (suc i) [] ns) es h in
      rw
        (
          r,
          upsert_event-applied i n e _ p,
          upserted_end done n (Avoids-of_distinct done ns n d),
          ← shift done n ns,
        )
        (upsert_events-applied (suc i) (done ++ n ∷ []) [] ns l s q refl (rw (shift done n ns) d))
  upsert_events-applied i done (c ∷ cs) (n ∷ ns) es s h inc d = elim (Bool-cases (message_eq c n)) [
    | inl same ↦
        rw (message_eq→eq c n same, ← shift done n cs, ← shift done n ns)
          (upsert_events-applied (suc i) (done ++ n ∷ []) cs ns es s (rw same at h) (ground arith)
            (rw (shift done n ns) d))
    | inr new ↦
        let (e, l, p, q, r) =
          upsert_then i n (upsert_events std src t id (suc i) cs ns) es (rw new at h) in
        rw
          (
            r,
            upsert_event-applied i n e _ p,
            upserted_here done c n cs (Avoids-of_distinct done ns n d) (ground arith),
            ← shift done n ns,
          )
          (upsert_events-applied (suc i) (done ++ n ∷ []) cs ns l s q (ground arith)
            (rw (shift done n ns) d))
  ]

  replacement_event-IsEnvelope :
      (ns : List Message) (e : Envelope Raw)
      → replacement_event std src t id ns ≡ ok e
      → IsEnvelope std.replacement id "messages.replaced" ns e × (e.transaction_id ≡ t)
  unfolding replacement_event
  replacement_event-IsEnvelope ns e h =
      elim (Result-cases (new_envelope std.replacement src 0 "messages.replaced" id "" ns)) [
        | inl (e', p) ↦
            let shape =
              new_envelope-IsEnvelope std.replacement src 0 "messages.replaced" id "" t ns e' refl
                p in
            let q : record e' { transaction_id = t } ≡ e = ground arith in
            (
              subst (λ x. IsEnvelope std.replacement id "messages.replaced" ns x) q shape,
              ground arith,
            )
        | inr (x, p) ↦ absurd (ground arith)
      ]

  replaced :
      (ns : List Message) (es : List (Envelope Raw))
      → (do e ← replacement_event std src t id ns; ok (e ∷ [])) ≡ ok es
      → (e : Envelope Raw) × (replacement_event std src t id ns ≡ ok e) × (es ≡ e ∷ [])
  replaced ns es h = elim (Result-cases (replacement_event std src t id ns)) [
    | inl (e, p) ↦ (e, p, ground arith)
    | inr (x, p) ↦ absurd (ground arith)
  ]

  -- The change records belong to the transaction and can be read back.
  pub session_message_changes-WellMade :
      (cs ns : List Message) (es : List (Envelope Raw))
      → session_message_changes std src t id cs ns ≡ ok es
      → AllDeferred id t es × AllReadable es
  unfolding session_message_changes
  session_message_changes-WellMade cs ns es h = elim (Bool-cases (is_incremental cs ns)) [
    | inl inc ↦ upsert_events-WellMade 0 cs ns es (rw inc at h)
    | inr not_inc ↦
        let (e, p, q) = replaced ns es (rw not_inc at h) in
        let (shape, named) = replacement_event-IsEnvelope ns e p in
        rw q (
          (record { session = shape.session; transaction = named; kind = inr shape.kind }, tt),
          (shape.readable, tt),
        )
  ]

  -- The change records turn the stored messages into the new ones, if the ids of the new ones are
  -- distinct.
  pub session_message_changes-applied :
      (cs ns : List Message) (es : List (Envelope Raw)) (s : Session)
      → session_message_changes std src t id cs ns ≡ ok es
      → IsDistinct (ids ns)
      → apply_message_events std (record s { messages = cs }) es ≡ ok (record s { messages = ns })
  unfolding session_message_changes
  session_message_changes-applied cs ns es s h d = elim (Bool-cases (is_incremental cs ns)) [
    | inl inc ↦ upsert_events-applied 0 [] cs ns es s (rw inc at h) inc d
    | inr not_inc ↦
        let (e, p, q) = replaced ns es (rw not_inc at h) in
        let (shape, _) = replacement_event-IsEnvelope ns e p in
        rw q (unfold apply_message_events apply_message_event in rw (shape.kind, shape.payload))
  ]
