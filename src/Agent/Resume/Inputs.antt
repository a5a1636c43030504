-- ===== src/Agent/Resume/Inputs.antt =====
-- What `Resume` of agent/resume.go checks before it starts a run: its inputs against the open
-- interrupts, and the message whose calls were paused.
use Prim.Native.Nat.{ℕ, zero, suc}
use rakit.Prelude.{
  String, ◌^^◌, Bool, false, List, [], ◌∷◌, Option, none, some, Result, ok, err, ◌>>=◌, ◌>>◌, ◌==◌,
  ◌&&◌, ◌||◌, if◌then◌else◌, Assoc, find, insert, elem,
}
use text.Mathlib.Text.{starts_with}
use rakit.Metadata.{Message, ToolCallRecord, Session, Value, Interrupt}
use rakit.Provider.{Error, message}

-- `ResumeInput`
pub record ResumeInput : Type 0 where
  pub interrupt_id : String
  pub status : String
  pub payload : Value

-- The map `open` of the open interrupts by their ids.
unfoldable pub open_by_id : List Interrupt → Assoc Interrupt → Assoc Interrupt
open_by_id [] opened = opened
open_by_id (i ∷ is) opened = open_by_id is (insert i.id i opened)

module _ (quote : String → String) where
  -- The loop over the inputs: the ids seen, or the first input's error.
  unfoldable pub check_inputs :
      Assoc Interrupt → List ResumeInput → List String → Result Error (List String)
  check_inputs opened [] seen = ok seen
  check_inputs opened (inp ∷ inps) seen =
      let rest = check_inputs opened inps (inp.interrupt_id ∷ seen) in
      if inp.interrupt_id == ""
      then err (message "agent: resume input missing interruptId")
      else elim (find inp.interrupt_id opened) [
        | none ↦ err (message ("agent: unknown interruptId " ^^ quote inp.interrupt_id))
        | some i ↦
            if elem inp.interrupt_id seen
            then err (
                message
                  ("agent: duplicate resume input for interruptId " ^^ quote inp.interrupt_id))
            else rest
      ]

  -- The loop over the open interrupts.
  unfoldable pub check_addressed : Assoc Interrupt → List String → Result Error (Unit {0})
  check_addressed [] seen = ok tt
  check_addressed ((id, i) ∷ opened) seen =
      if elem id seen
      then check_addressed opened seen
      else err (message ("agent: resume must address interruptId " ^^ quote id))

-- `interruptForToolCall(…) != nil`
unfoldable pub has_interrupt : List Interrupt → String → Bool
has_interrupt [] id = false
has_interrupt (i ∷ is) id = i.tool_call_id == id || has_interrupt is id

unfoldable pub has_paused_call : List Interrupt → List ToolCallRecord → Bool
has_paused_call is [] = false
has_paused_call is (tc ∷ tcs) =
    starts_with tc.status "pending" || has_interrupt is tc.id || has_paused_call is tcs

-- The last message whose calls were paused, and its place.
unfoldable pub paused_message : List Interrupt → List Message → Option (ℕ × Message)
paused_message is [] = none
paused_message is (m ∷ ms) = elim (paused_message is ms) [
  | some (i, p) ↦ some (suc i, p)
  | none ↦ if m.role == "assistant" && has_paused_call is m.tool_calls then some (zero, m) else none
]

-- The map `inputByToolCallID`.
unfoldable pub input_by_tool_call :
    Assoc Interrupt → List ResumeInput → Assoc ResumeInput → Assoc ResumeInput
input_by_tool_call opened [] by_call = by_call
input_by_tool_call opened (inp ∷ inps) by_call =
    let id : String = elim (find inp.interrupt_id opened) [ none ↦ "" | some i ↦ i.tool_call_id ] in
    input_by_tool_call opened inps (if id == "" then by_call else insert id inp by_call)

-- The checks of `Resume` on a session that it has loaded.
unfoldable pub check_resume :
    (String → String)
    → String
    → List ResumeInput
    → Session
    → Result Error (ℕ × Message × Assoc ResumeInput)
check_resume quote id inputs s = elim s.open_interrupts [
  | [] ↦ err (message ("agent: session " ^^ quote id ^^ " has no open interrupts"))
  | j ∷ js ↦
      let opened = open_by_id s.open_interrupts [] in
      do
        seen ← check_inputs quote opened inputs []
        check_addressed quote opened seen
        elim (paused_message s.open_interrupts s.messages) [
          | none ↦ err (
              message (
                "agent: session "
                ^^ quote id
                ^^ " has open interrupts but no paused tool-call batch"))
          | some (idx, paused) ↦ ok (idx, paused, input_by_tool_call opened inputs [])
        ]
]
