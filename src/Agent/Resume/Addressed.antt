-- ===== src/Agent/Resume/Addressed.antt =====
-- The inputs that `Resume` accepts.
use rakit.Prelude.{
  ℕ, zero, suc, String, ◌≡◌, refl, Bool, true, false, ◌||◌, List, [], ◌∷◌, Option, none, some,
  Option-cases, inl, inr, ok, Result-cases, eq_iff, eq_refl, Assoc, find, insert, find-insert, elem,
  map, IsDistinct, arith, Bool-cases,
}
use rakit.Metadata.{Interrupt, Session, Message}
use rakit.Agent.Resume.Inputs.{
  ResumeInput, open_by_id, check_inputs, check_addressed, check_resume, paused_message,
  has_paused_call,
}

abbrev pub input_ids : List ResumeInput → List String
input_ids = map (λ i. i.interrupt_id)

abbrev pub interrupt_ids : List Interrupt → List String
interrupt_ids = map (λ i. i.id)

abbrev pub has {ℓ} : {V : Type ℓ} → String → Assoc V → Bool
has k l = elim (find k l) [ none ↦ false | some v ↦ true ]

pub has-open_by_id :
    (is : List Interrupt) (opened : Assoc Interrupt) (k : String)
    → has k (open_by_id is opened) ≡ (elem k (interrupt_ids is) || has k opened)
unfolding open_by_id
has-open_by_id [] opened k = refl
has-open_by_id (i ∷ is) opened k =
    ground (arith, has-open_by_id is (insert i.id i opened) k, find-insert i.id k i opened)

module _ (quote : String → String) (opened : Assoc Interrupt) where
  -- What a check of the inputs that succeeds says of them.
  record Checked (inps : List ResumeInput) (seen seen' : List String) : Type 0 where
    pub distinct : IsDistinct (input_ids inps)
    pub new : (k : String) → elem k (input_ids inps) ≡ true → elem k seen ≡ false
    pub known : (k : String) → elem k (input_ids inps) ≡ true → has k opened ≡ true
    pub all_seen : (k : String) → elem k seen' ≡ (elem k (input_ids inps) || elem k seen)

  check_inputs-Checked :
      (inps : List ResumeInput) (seen seen' : List String)
      → check_inputs quote opened inps seen ≡ ok seen'
      → Checked inps seen seen'
  unfolding check_inputs
  check_inputs-Checked [] seen seen' h = record {
    distinct = tt;
    new = λ k p. ground arith;
    known = λ k p. ground arith;
    all_seen = λ k. ground arith;
  }
  check_inputs-Checked (inp ∷ inps) seen seen' h =
      let id = inp.interrupt_id in
      elim (Option-cases (find id opened)) [
        | inl unknown ↦ absurd (ground arith)
        | inr (i, found) ↦ elim (Bool-cases (elem id seen)) [
          | inl twice ↦ absurd (ground arith)
          | inr once ↦
              let rest : check_inputs quote opened inps (id ∷ seen) ≡ ok seen' = ground arith in
              let c = check_inputs-Checked inps (id ∷ seen) seen' rest in
              record {
                distinct = (no_later id (c.new id), c.distinct);
                new = λ k p. ground (arith, eq_iff id k, c.new k);
                known = λ k p. ground (arith, eq_iff id k, c.known k);
                all_seen = λ k. ground (arith, c.all_seen k);
              }
        ]
      ]
    where
      no_later :
          (k : String)
          → (elem k (input_ids inps) ≡ true → elem k (k ∷ seen) ≡ false)
          → elem k (input_ids inps) ≡ false
      no_later k new = ground (arith, eq_refl k)

  check_addressed-has :
      (l : Assoc Interrupt) (seen : List String)
      → check_addressed quote l seen ≡ ok tt
      → (k : String) → has k l ≡ true
      → elem k seen ≡ true
  unfolding check_addressed find
  check_addressed-has [] seen h k p = ground arith
  check_addressed-has ((j, i) ∷ l) seen h k p = elim (Bool-cases (elem j seen)) [
    | inl there ↦ ground (arith, check_addressed-has l seen (rw there at h) k, eq_iff j k)
    | inr missing ↦ absurd (ground arith)
  ]

-- The paused message stands at its place in the history, and is an assistant message that has a
-- pending call or a call with an open interrupt.
abbrev pub at_index {ℓ} : {A : Type ℓ} → ℕ → List A → Option A
at_index i [] = none
at_index zero (x ∷ xs) = some x
at_index (suc i) (x ∷ xs) = at_index i xs

abbrev pub IsPaused : List Interrupt → List Message → ℕ → Message → Type 0
IsPaused is ms idx p =
    (at_index idx ms ≡ some p) × (p.role ≡ "assistant") × (has_paused_call is p.tool_calls ≡ true)

paused_message-IsPaused :
    (is : List Interrupt) (ms : List Message) (idx : ℕ) (p : Message)
    → paused_message is ms ≡ some (idx, p)
    → IsPaused is ms idx p
unfolding paused_message
paused_message-IsPaused is [] idx p h = absurd (ground arith)
paused_message-IsPaused is (m ∷ ms) idx p h = elim (Option-cases (paused_message is ms)) [
  | inl last ↦
      let i : idx ≡ 0 = ground arith in
      let same : m ≡ p = ground arith in
      (rw (i, same), ground (arith, eq_iff m.role "assistant"), ground arith)
  | inr ((i, q), found) ↦
      let r = paused_message-IsPaused is ms i q found in
      let later : idx ≡ suc i = ground arith in
      let same : q ≡ p = ground arith in (rw (later, ← same) r.0, rw (← same) r.1, rw (← same) r.2)
]

-- What an accepted resume says of its inputs.
pub record IsAddressed (s : Session) (inputs : List ResumeInput) (idx : ℕ) (p : Message)
    : Type 0 where
  pub distinct : IsDistinct (input_ids inputs)
  pub same : (k : String) → elem k (input_ids inputs) ≡ elem k (interrupt_ids s.open_interrupts)
  pub paused : IsPaused s.open_interrupts s.messages idx p

-- Where `Resume` accepts its inputs, no interrupt is addressed twice, the interrupts that are
-- addressed are exactly the open ones, and the run goes on from an assistant message of the history that has a
-- pending call or a call with an open interrupt.
pub check_resume-IsAddressed :
    (quote : String → String) (id : String) (inputs : List ResumeInput) (s : Session) (idx : ℕ)
    (p : Message) (by_call : Assoc ResumeInput)
    → check_resume quote id inputs s ≡ ok (idx, p, by_call)
    → IsAddressed s inputs idx p
unfolding check_resume find
check_resume-IsAddressed quote id inputs s idx p by_call h =
    let opened = open_by_id s.open_interrupts [] in
    elim (Result-cases (check_inputs quote opened inputs [])) [
      | inl (seen, q) ↦ elim (Result-cases (check_addressed quote opened seen)) [
        | inl (u, r) ↦
            let c = check_inputs-Checked quote opened inputs [] seen q in
            let paused : paused_message s.open_interrupts s.messages ≡ some (idx, p) =
              ground arith in
            record {
              distinct = c.distinct;
              same = λ k. ground (
                arith,
                c.known k,
                c.all_seen k,
                check_addressed-has quote opened opened seen r k,
                has-open_by_id s.open_interrupts [] k,
              );
              paused = paused_message-IsPaused s.open_interrupts s.messages idx p paused;
            }
        | inr (x, r) ↦ absurd (ground arith)
      ]
      | inr (x, q) ↦ absurd (ground arith)
    ]
