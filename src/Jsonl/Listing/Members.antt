-- ===== src/Jsonl/Listing/Members.antt =====
-- The members of a sorted list, of its summaries and of the sorted names.
use Prim.Native.Nat.{Ordering}
use Prim.Native.String.{compare}
use mathlib.Core.List.{Memᴰ}
use rakit.Prelude.{
  ◌∙◌, String, ◌^^◌, ◌≡◌, refl, ap, ◌⊎◌, Bool, true, false, ◌||◌, some, List, [], ◌∷◌, map, ◌==◌,
  if◌then◌else◌, Bool-cases, inl, inr, Assoc, find, elem, arith,
}
use rakit.Metadata.{Session}
use rakit.Jsonl.Listing.{
  insert_file, sort_files, summary_session, comes_first, insert_session, sort_sessions, summaries,
}

Memᴰ-insert_session :
    (s y : Session) (l : List Session) → (y ≡ s) ⊎ Memᴰ y l → Memᴰ y (insert_session s l)
unfolding insert_session
Memᴰ-insert_session s y [] (inl e) = Memᴰ.head e
Memᴰ-insert_session s y [] (inr m) = elim m [ ]
Memᴰ-insert_session s y (t ∷ l) h = elim (Bool-cases (comes_first t s)) [
  | inl later ↦ rw later (past (λ h. Memᴰ-insert_session s y l h) h)
  | inr here ↦ rw here (front h)
]
  where
    front : (y ≡ s) ⊎ Memᴰ y (t ∷ l) → Memᴰ y (s ∷ t ∷ l)
    front (inl e) = Memᴰ.head e
    front (inr m) = Memᴰ.tail m

    past :
        ((y ≡ s) ⊎ Memᴰ y l → Memᴰ y (insert_session s l))
        → (y ≡ s) ⊎ Memᴰ y (t ∷ l)
        → Memᴰ y (t ∷ insert_session s l)
    past rest (inl e) = Memᴰ.tail (rest (inl e))
    past rest (inr (Memᴰ.head e)) = Memᴰ.head e
    past rest (inr (Memᴰ.tail m)) = Memᴰ.tail (rest (inr m))

insert_session-Memᴰ :
    (s y : Session) (l : List Session) → Memᴰ y (insert_session s l) → (y ≡ s) ⊎ Memᴰ y l
unfolding insert_session
insert_session-Memᴰ s y [] (Memᴰ.head e) = inl e
insert_session-Memᴰ s y [] (Memᴰ.tail m) = elim m [ ]
insert_session-Memᴰ s y (t ∷ l) h = elim (Bool-cases (comes_first t s)) [
  | inl later ↦ past (λ h. insert_session-Memᴰ s y l h) (rw later at h)
  | inr here ↦ front (rw here at h)
]
  where
    front : Memᴰ y (s ∷ t ∷ l) → (y ≡ s) ⊎ Memᴰ y (t ∷ l)
    front (Memᴰ.head e) = inl e
    front (Memᴰ.tail m) = inr m

    kept : (y ≡ s) ⊎ Memᴰ y l → (y ≡ s) ⊎ Memᴰ y (t ∷ l)
    kept (inl e) = inl e
    kept (inr m) = inr (Memᴰ.tail m)

    past :
        (Memᴰ y (insert_session s l) → (y ≡ s) ⊎ Memᴰ y l)
        → Memᴰ y (t ∷ insert_session s l)
        → (y ≡ s) ⊎ Memᴰ y (t ∷ l)
    past rest (Memᴰ.head e) = inr (Memᴰ.head e)
    past rest (Memᴰ.tail m) = kept (rest m)

pub Memᴰ-sort_sessions : (y : Session) (l : List Session) → Memᴰ y l → Memᴰ y (sort_sessions l)
unfolding sort_sessions
Memᴰ-sort_sessions y [] m = m
Memᴰ-sort_sessions y (s ∷ l) (Memᴰ.head e) = Memᴰ-insert_session s y (sort_sessions l) (inl e)
Memᴰ-sort_sessions y (s ∷ l) (Memᴰ.tail m) =
    Memᴰ-insert_session s y (sort_sessions l) (inr (Memᴰ-sort_sessions y l m))

pub sort_sessions-Memᴰ : (y : Session) (l : List Session) → Memᴰ y (sort_sessions l) → Memᴰ y l
unfolding sort_sessions
sort_sessions-Memᴰ y [] m = m
sort_sessions-Memᴰ y (s ∷ l) m = elim (insert_session-Memᴰ s y (sort_sessions l) m) [
  | inl e ↦ Memᴰ.head e
  | inr m' ↦ Memᴰ.tail (sort_sessions-Memᴰ y l m')
]

module _ (matches : Session → Bool) where
  pub Memᴰ-summaries :
      (s : Session) (l : List Session)
      → matches s ≡ true
      → Memᴰ s l
      → Memᴰ (summary_session s) (summaries matches l)
  unfolding summaries
  Memᴰ-summaries s [] p m = elim m [ ]
  Memᴰ-summaries s (t ∷ l) p (Memᴰ.head e) = rw (← e, p) (Memᴰ.head refl)
  Memᴰ-summaries s (t ∷ l) p (Memᴰ.tail m) = kept (matches t) (Memᴰ-summaries s l p m)
    where
      kept :
          (b : Bool)
          → Memᴰ (summary_session s) (summaries matches l)
          → Memᴰ
              (summary_session s)
              (if b then summary_session t ∷ summaries matches l else summaries matches l)
      kept true m = Memᴰ.tail m
      kept false m = m

  pub summaries-Memᴰ :
      (y : Session) (l : List Session)
      → Memᴰ y (summaries matches l)
      → (s : Session) × Memᴰ s l × (matches s ≡ true) × (y ≡ summary_session s)
  unfolding summaries
  summaries-Memᴰ y [] m = elim m [ ]
  summaries-Memᴰ y (t ∷ l) m = elim (Bool-cases (matches t)) [
    | inl p ↦ found p (λ m. summaries-Memᴰ y l m) (rw p at m)
    | inr p ↦ let (s, m', q, e) = summaries-Memᴰ y l (rw p at m) in (s, Memᴰ.tail m', q, e)
  ]
    where
      found :
          matches t ≡ true
          → (Memᴰ y (summaries matches l)
              → (s : Session) × Memᴰ s l × (matches s ≡ true) × (y ≡ summary_session s))
          → Memᴰ y (summary_session t ∷ summaries matches l)
          → (s : Session) × Memᴰ s (t ∷ l) × (matches s ≡ true) × (y ≡ summary_session s)
      found p rest (Memᴰ.head e) = (t, Memᴰ.head refl, p, e)
      found p rest (Memᴰ.tail m) = let (s, m', q, e) = rest m in (s, Memᴰ.tail m', q, e)

elem-insert_file :
    (j k : String) (l : List String) → elem j (insert_file k l) ≡ (k == j || elem j l)
unfolding insert_file
elem-insert_file j k [] = refl
elem-insert_file j k (i ∷ l) = at (compare (k ^^ ".jsonl") (i ^^ ".jsonl")) (elem-insert_file j k l)
  where
    at :
        (o : Ordering)
        → elem j (insert_file k l) ≡ (k == j || elem j l)
        → elem j (elim o [ Ordering.gt ↦ i ∷ insert_file k l | _ ↦ k ∷ i ∷ l ])
          ≡ (k == j || (i == j || elem j l))
    at Ordering.gt h = ground (arith, h)
    at Ordering.lt h = refl
    at Ordering.eq h = refl

pub elem-sort_files : (j : String) (l : List String) → elem j (sort_files l) ≡ elem j l
unfolding sort_files
elem-sort_files j [] = refl
elem-sort_files j (k ∷ l) =
    elem-insert_file j k (sort_files l) ∙ ap (λ b. k == j || b) (elem-sort_files j l)

pub elem-names :
    {V : Type 0} (j : String) (m : Assoc V) (v : V)
    → find j m ≡ some v
    → elem j (map (λ p. p.0) m) ≡ true
unfolding find
elem-names j [] v h = absurd (ground arith)
elem-names j ((k, w) ∷ m) v h = ground (arith, elem-names j m v)
