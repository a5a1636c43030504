-- ===== src/Jsonl/Domains/Reads.antt =====
-- What a log holds, before and after its compaction.
use Prim.Native.String.{compare}
use Prim.Native.Nat.{Ordering}
use rakit.Prelude.{
  ◌⊎◌, Bool-cases, String, ◌≡◌, refl, ap, ◌∙◌, true, false, ◌||◌, Option, none, some, List, [], ◌∷◌,
  ◌++◌, ◌==◌, eq_iff, if◌then◌else◌, ok, Result-cases, Option-cases, inl, inr, Assoc, find, insert,
  delete, find-insert, find-delete, elem, arith,
}
use rakit.Jsonl.Journal.{Envelope, check_envelope}
use rakit.Jsonl.Changes.Applied.{AllReadable}
use rakit.Jsonl.Domains.{Layout, insert_sorted, sort_strings, records_of, live_step, live_records}

-- A map and another give the same for every key.
abbrev pub Same {ℓ} : {V : Type ℓ} → Assoc V → Assoc V → Type ℓ
Same m n = (k : String) → find k m ≡ find k n

elem-insert_sorted :
    (j k : String) (l : List String) → elem j (insert_sorted k l) ≡ (k == j || elem j l)
unfolding insert_sorted
elem-insert_sorted j k [] = refl
elem-insert_sorted j k (i ∷ l) = at (compare k i) (elem-insert_sorted j k l)
  where
    at :
        (o : Ordering)
        → elem j (insert_sorted k l) ≡ (k == j || elem j l)
        → elem j (elim o [ Ordering.gt ↦ i ∷ insert_sorted k l | _ ↦ k ∷ i ∷ l ])
          ≡ (k == j || (i == j || elem j l))
    at Ordering.gt h = ground (arith, h)
    at Ordering.lt h = refl
    at Ordering.eq h = refl

-- Sorting keeps the keys.
pub elem-sort_strings : (j : String) (l : List String) → elem j (sort_strings l) ≡ elem j l
unfolding sort_strings
elem-sort_strings j [] = refl
elem-sort_strings j (k ∷ l) =
    elem-insert_sorted j k (sort_strings l) ∙ ap (λ b. k == j || b) (elem-sort_strings j l)

abbrev pub payload_of : {Raw : Type 0} → Option (Envelope Raw) → Option Raw
payload_of none = none
payload_of (some e) = some e.payload

module _ {Raw : Type 0} (layout : Layout Raw) where
  -- A live record: a put of its key that has a payload and is well formed.
  pub record IsPut (k : String) (e : Envelope Raw) : Type 0 where
    pub keyed : e.key ≡ k
    pub put : (e.type == "put") ≡ true
    pub filled : layout.is_empty e.payload ≡ false
    pub readable : check_envelope e ≡ ok e

  abbrev pub AllPuts : Assoc (Envelope Raw) → Type 0
  AllPuts live = (k : String) (e : Envelope Raw) → find k live ≡ some e → IsPut k e

  abbrev pub Kept : Assoc Raw → Assoc (Envelope Raw) → Type 0
  Kept m live = (k : String) → find k m ≡ payload_of (find k live)

  pub live_records-append :
      {V : Type 0} (keep : Envelope Raw → V) (es fs : List (Envelope Raw)) (m m' : Assoc V)
      → live_records layout keep es m ≡ ok m'
      → live_records layout keep (es ++ fs) m ≡ live_records layout keep fs m'
  unfolding live_records
  live_records-append keep [] fs m m' h = ground arith
  live_records-append keep (e ∷ es) fs m m' h = elim (Result-cases (live_step layout keep e m)) [
    | inl (m1, p) ↦ rw p (live_records-append keep es fs m1 m' (rw p at h))
    | inr (x, p) ↦ absurd (ground arith)
  ]

  module _ {V : Type 0} (keep : Envelope Raw → V) (e : Envelope Raw) (m m' : Assoc V) where
    IsPutStep : Type 0
    IsPutStep =
        ((e.type == "put") ≡ true)
        × (layout.is_empty e.payload ≡ false)
        × (m' ≡ insert e.key (keep e) m)

    IsDeleteStep : Type 0
    IsDeleteStep =
        ((e.type == "put") ≡ false) × ((e.type == "delete") ≡ true) × (m' ≡ delete e.key m)

    live_step-cases : live_step layout keep e m ≡ ok m' → IsPutStep ⊎ IsDeleteStep
    unfolding live_step IsPutStep IsDeleteStep
    live_step-cases h = elim (Bool-cases (e.type == "put")) [
      | inl put ↦ inl (put, ground arith, ground arith)
      | inr other ↦ inr (other, ground arith, ground arith)
    ]

  -- One round keeps the two maps alike.
  live_step-Kept :
      (e : Envelope Raw) (m m' : Assoc Raw) (live live' : Assoc (Envelope Raw))
      → Kept m live
      → live_step layout (λ f. f.payload) e m ≡ ok m'
      → live_step layout (λ f. f) e live ≡ ok live'
      → Kept m' live'
  unfolding IsPutStep IsDeleteStep
  live_step-Kept e m m' live live' kept p q k = elim (live_step-cases (λ f. f.payload) e m m' p) [
    | inl (put, _, p') ↦ elim (live_step-cases (λ f. f) e live live' q) [
      | inl (_, _, q') ↦
          rw (p', q')
            (ground (arith, find-insert e.key k e.payload m, find-insert e.key k e live, kept k))
      | inr (other, _, _) ↦ absurd (ground arith)
    ]
    | inr (other, _, p') ↦ elim (live_step-cases (λ f. f) e live live' q) [
      | inl (put, _, _) ↦ absurd (ground arith)
      | inr (_, _, q') ↦
          rw (p', q') (ground (arith, find-delete e.key k m, find-delete e.key k live, kept k))
    ]
  ]

  live_step-AllPuts :
      (e : Envelope Raw) (live live' : Assoc (Envelope Raw))
      → check_envelope e ≡ ok e
      → AllPuts live
      → live_step layout (λ f. f) e live ≡ ok live'
      → AllPuts live'
  unfolding IsPutStep IsDeleteStep
  live_step-AllPuts e live live' c puts q k f g = elim (live_step-cases (λ f. f) e live live' q) [
    | inl (put, filled, p) ↦ elim (Bool-cases (e.key == k)) [
      | inl here ↦
          let same : e ≡ f = ground (arith, find-insert e.key k e live) in
          rw (← same) (record {
            keyed = ground (arith, eq_iff e.key k);
            put = put;
            filled = filled;
            readable = c;
          })
      | inr there ↦ puts k f (ground (arith, find-insert e.key k e live))
    ]
    | inr (_, _, p) ↦ puts k f (ground (arith, find-delete e.key k live))
  ]

  pub live_records-Kept :
      (es : List (Envelope Raw)) (m m' : Assoc Raw) (live live' : Assoc (Envelope Raw))
      → Kept m live
      → live_records layout (λ f. f.payload) es m ≡ ok m'
      → live_records layout (λ f. f) es live ≡ ok live'
      → Kept m' live'
  unfolding live_records
  live_records-Kept [] m m' live live' kept p q k =
      let a : m ≡ m' = ground arith in let b : live ≡ live' = ground arith in rw (← a, ← b) (kept k)
  live_records-Kept (e ∷ es) m m' live live' kept p q k =
      elim (Result-cases (live_step layout (λ f. f.payload) e m)) [
        | inl (m1, r) ↦ elim (Result-cases (live_step layout (λ f. f) e live)) [
          | inl (live1, r') ↦
              live_records-Kept es m1 m' live1 live' (live_step-Kept e m m1 live live1 kept r r')
                (rw r at p) (rw r' at q) k
          | inr (x, r') ↦ absurd (ground arith)
        ]
        | inr (x, r) ↦ absurd (ground arith)
      ]

  pub live_records-AllPuts :
      (es : List (Envelope Raw)) (live live' : Assoc (Envelope Raw))
      → AllReadable es
      → AllPuts live
      → live_records layout (λ f. f) es live ≡ ok live'
      → AllPuts live'
  unfolding live_records
  live_records-AllPuts [] live live' c puts q k e f =
      let b : live ≡ live' = ground arith in puts k e (rw b f)
  live_records-AllPuts (e ∷ es) live live' c puts q k f g =
      elim (Result-cases (live_step layout (λ f. f) e live)) [
        | inl (live1, r) ↦
            live_records-AllPuts es live1 live' c.1 (live_step-AllPuts e live live1 c.0 puts r)
              (rw r at q) k f g
        | inr (x, r) ↦ absurd (ground arith)
      ]

  pub AllReadable-records_of :
      (ks : List String) (live : Assoc (Envelope Raw))
      → AllPuts live
      → AllReadable (records_of ks live)
  unfolding records_of
  AllReadable-records_of [] live puts = tt
  AllReadable-records_of (k ∷ ks) live puts = elim (Option-cases (find k live)) [
    | inl p ↦ rw (p, AllReadable) (AllReadable-records_of ks live puts)
    | inr (e, p) ↦ rw (p, AllReadable) ((puts k e p).readable, AllReadable-records_of ks live puts)
  ]

  -- The records of some keys leave their payloads at these keys, and the map at the others.
  abbrev pub Overlaid : List String → Assoc (Envelope Raw) → Assoc Raw → Assoc Raw → Type 0
  Overlaid ks live m m' =
      (j : String)
      → find j m' ≡ (
          if elem j ks
          then elim (find j live) [ none ↦ find j m | some e ↦ some e.payload ]
          else find j m)

  pub live_records-records_of :
      (ks : List String) (live : Assoc (Envelope Raw)) (m : Assoc Raw)
      → AllPuts live
      → (m' : Assoc Raw) × (live_records layout (λ f. f.payload) (records_of ks live) m ≡ ok m')
        × Overlaid ks live m m'
  unfolding records_of live_records live_step
  live_records-records_of [] live m puts = (m, refl, λ j. refl)
  live_records-records_of (k ∷ ks) live m puts = elim (Option-cases (find k live)) [
    | inl p ↦
        let (m', q, r) = live_records-records_of ks live m puts in
        (m', rw (p, live_records) q, λ j. ground (arith, r j, eq_iff k j))
    | inr (e, p) ↦
        let w = puts k e p in
        let (m', q, r) = live_records-records_of ks live (insert k e.payload m) puts in
        (
          m',
          rw (p, live_records, w.put, w.filled, w.keyed) q,
          λ j. ground (arith, r j, eq_iff k j, find-insert k j e.payload m),
        )
  ]
