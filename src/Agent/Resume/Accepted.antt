-- ===== src/Agent/Resume/Accepted.antt =====
-- `Resume` on inputs that answer the open interrupts.
use rakit.Prelude.{
  ℕ, String, ◌≡◌, refl, ◌∙◌, true, false, ◌||◌, List, [], ◌∷◌, ◌++◌, some, Option-cases, inl, inr,
  ok, eq_iff, eq_refl, Assoc, find, elem, length, IsDistinct, arith,
}
use rakit.Metadata.{Interrupt, Session, Message}
use rakit.Agent.Resume.Inputs.{
  ResumeInput, open_by_id, check_inputs, check_addressed, check_resume, paused_message,
  has_paused_call, input_by_tool_call,
}
use rakit.Agent.Resume.Addressed.{input_ids, interrupt_ids, has, has-open_by_id}

-- The inputs name each open interrupt, each of them once, and nothing else.
pub record Answers (is : List Interrupt) (inputs : List ResumeInput) : Type 0 where
  pub distinct : IsDistinct (input_ids inputs)
  pub named : elem "" (input_ids inputs) ≡ false
  pub same : (k : String) → elem k (input_ids inputs) ≡ elem k (interrupt_ids is)

module _ (quote : String → String) (opened : Assoc Interrupt) where
  check_inputs-ok :
      (inps : List ResumeInput) (seen : List String)
      → IsDistinct (input_ids inps)
      → elem "" (input_ids inps) ≡ false
      → ((k : String) → elem k (input_ids inps) ≡ true → has k opened ≡ true)
      → ((k : String) → elem k (input_ids inps) ≡ true → elem k seen ≡ false)
      → (seen' : List String) × (check_inputs quote opened inps seen ≡ ok seen')
        × ((k : String) → elem k seen' ≡ (elem k (input_ids inps) || elem k seen))
  unfolding check_inputs
  check_inputs-ok [] seen d n known new = (seen, refl, λ k. refl)
  check_inputs-ok (inp ∷ inps) seen d n known new =
      let id = inp.interrupt_id in
      let (seen', p, q) =
        check_inputs-ok inps (id ∷ seen) d.1 (ground arith) (λ k h. known k (ground arith))
          (λ k h. ground (arith, new k, d.0, eq_iff id k)) in
      elim (Option-cases (find id opened)) [
        | inl unknown ↦ absurd (ground (arith, known id, eq_refl id))
        | inr (i, found) ↦ (
          seen',
          rw (check_inputs, found) (ground (arith, p, n, new id, eq_refl id)),
          λ k. ground (arith, q k),
        )
      ]

  check_addressed-ok :
      (l : Assoc Interrupt) (seen : List String)
      → ((k : String) → has k l ≡ true → elem k seen ≡ true)
      → check_addressed quote l seen ≡ ok tt
  unfolding check_addressed find
  check_addressed-ok [] seen h = refl
  check_addressed-ok ((j, i) ∷ l) seen h =
      rw (h j (ground (arith, eq_refl j)))
        (check_addressed-ok l seen (λ k p. h k (ground (arith, p))))

-- Where the history has a paused message, Resume accepts the inputs that name each open interrupt
-- once and nothing else, none by an empty id, if there is an open interrupt, and goes on from that
-- message.
pub check_resume-ok :
    (quote : String → String) (id : String) (inputs : List ResumeInput) (s : Session)
    (j : Interrupt) (js : List Interrupt) (idx : ℕ) (p : Message)
    → s.open_interrupts ≡ j ∷ js
    → Answers s.open_interrupts inputs
    → paused_message s.open_interrupts s.messages ≡ some (idx, p)
    → check_resume quote id inputs s
      ≡ ok (idx, p, input_by_tool_call (open_by_id s.open_interrupts []) inputs [])
unfolding check_resume find
check_resume-ok quote id inputs s j js idx p opens a paused =
    let opened = open_by_id s.open_interrupts [] in
    let known : (k : String) → has k opened ≡ elem k (input_ids inputs) =
      λ k. ground (arith, has-open_by_id s.open_interrupts [] k, a.same k) in
    let (seen, q, all) =
      check_inputs-ok quote opened inputs [] a.distinct a.named (λ k h. known k ∙ h)
        (λ k h. refl) in
    let r = check_addressed-ok quote opened opened seen (λ k h. ground (arith, all k, known k)) in
    ground (arith, opens, q, r, paused)

-- The last message of a history is the paused one if it is an assistant message with a paused call.
pub paused_message-last :
    (is : List Interrupt) (ms : List Message) (p : Message)
    → p.role ≡ "assistant"
    → has_paused_call is p.tool_calls ≡ true
    → paused_message is (ms ++ (p ∷ [])) ≡ some (length ms, p)
unfolding paused_message
paused_message-last is [] p r h = rw (r, h) refl
paused_message-last is (m ∷ ms) p r h = rw (paused_message-last is ms p r h) refl
