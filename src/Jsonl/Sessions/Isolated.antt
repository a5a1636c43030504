-- ===== src/Jsonl/Sessions/Isolated.antt =====
-- The other sessions of a store during `UpdateSession`.
use rakit.Prelude.{String, ◌≡◌, refl, ◌∙◌, false, List, [], ◌∷◌, ◌++◌, ◌==◌, Result-cases, inl, inr}
use rakit.Metadata.{Session}
use rakit.Jsonl.Journal.{
  Envelope, Fault, fine, lost, late, cut, Disk, Std, Source, next_of, lines_of, write_under,
  append_envelope, append_all, complete, torn,
}
use rakit.Jsonl.Sessions.{get_session, prepare_update, update_session}
use rakit.Jsonl.Sessions.Files.{lines_of-add_line}
use rakit.Jsonl.Sessions.Created.{get_session-lines}

module _ {Raw : Type 0} where
  lines_of-write_under :
      (id j : String)
      → (id == j) ≡ false
      → (f : Fault) (e : Envelope Raw) (d : Disk Raw)
      → lines_of j (write_under f id e d).1 ≡ lines_of j d
  lines_of-write_under id j other fine e d = lines_of-add_line id j (complete e) d ∙ rw other refl
  lines_of-write_under id j other lost e d = refl
  lines_of-write_under id j other late e d = lines_of-add_line id j (complete e) d ∙ rw other refl
  lines_of-write_under id j other cut e d = lines_of-add_line id j torn d ∙ rw other refl

  lines_of-append_all :
      (id j : String)
      → (id == j) ≡ false
      → (es : List (Envelope Raw)) (d : Disk Raw) → lines_of j (append_all id es d).1 ≡ lines_of j d
  unfolding append_all append_envelope
  lines_of-append_all id j other [] d = refl
  lines_of-append_all id j other (e ∷ es) d =
      let d0 = record d { faults = (next_of d.faults).1 } in
      let now = write_under (next_of d.faults).0 id e d0 in
      let first : lines_of j now.1 ≡ lines_of j d =
        lines_of-write_under id j other (next_of d.faults).0 e d0 ∙ (unfold lines_of in refl) in
      elim (Result-cases now.0) [
        | inl (u, p) ↦ rw (p, append_all) (lines_of-append_all id j other es now.1 ∙ first)
        | inr (x, p) ↦ rw (p, append_all) first
      ]

-- Whatever becomes of its writes, an update of one session leaves what is read of every other
-- session as it was.
pub update_session-other :
    {Raw : Type 0} (std : Std Raw) (src : Source) (s : Session) (j : String) (d : Disk Raw)
    → (s.id == j) ≡ false
    → get_session std j (update_session std src s d).1 ≡ get_session std j d
unfolding update_session
update_session-other std src s j d other = elim (Result-cases (prepare_update std src s d)) [
  | inl ((next, events, commit), p) ↦
      let written = append_all s.id (events ++ (commit ∷ [])) d in
      let same = get_session-lines std j d written.1 (lines_of-append_all s.id j other _ d) in
      elim (Result-cases written.0) [
        | inl (u, q) ↦ rw (p, q, update_session) same
        | inr (x, q) ↦ rw (p, q, update_session) same
      ]
  | inr (x, p) ↦ rw (p, update_session) refl
]
