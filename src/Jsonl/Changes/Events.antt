-- ===== src/Jsonl/Changes/Events.antt =====
-- The records that `sessionMessageChanges` makes: they can be read back, and belong to the
-- transaction.
use rakit.Prelude.{
  ℕ, String, ◌≡◌, refl, false, some, Option-cases, inl, inr, ◌==◌, eq_iff, ok, arith, Bool-cases,
}
use text.Mathlib.TextLemmas.{append-eq-nil_iff}
use rakit.Jsonl.Journal.{Envelope, Codec, Source, new_id, new_envelope, check_envelope}

-- What `newEnvelope` makes, whatever its transaction id is set to.
pub record IsEnvelope {Raw A : Type 0} (c : Codec Raw A) (id type : String) (a : A)
    (e : Envelope Raw) : Type 0 where
  pub session : e.session_id ≡ id
  pub kind : e.type ≡ type
  pub readable : check_envelope e ≡ ok e
  pub payload : c.decode e.payload ≡ some a

-- An id with a prefix is not empty.
pub new_id-ne-empty :
    (prefix random : String) → (prefix == "") ≡ false → (new_id prefix random == "") ≡ false
unfolding new_id
new_id-ne-empty prefix random h = elim (Bool-cases (new_id prefix random == "")) [
  | inl e ↦
      let p : prefix ≡ "" = (append-eq-nil_iff.0 ((eq_iff _ _).0 e)).0 in
      absurd (ground (arith, eq_iff prefix ""))
  | inr e ↦ e
]

module _ {Raw A : Type 0} (c : Codec Raw A) (src : Source) where
  pub new_envelope-IsEnvelope :
      (i : ℕ) (type id key t : String) (a : A) (e : Envelope Raw)
      → (type == "") ≡ false
      → new_envelope c src i type id key a ≡ ok e
      → IsEnvelope c id type a (record e { transaction_id = t })
  unfolding new_envelope check_envelope
  new_envelope-IsEnvelope i type id key t a e named h = elim (Option-cases (c.encode a)) [
    | inl p ↦ absurd (ground arith)
    | inr (raw, p) ↦ record {
      session = ground arith;
      kind = ground arith;
      readable = ground (arith, new_id-ne-empty "evt-" (src.event i) refl);
      payload = ground (arith, c.decode-encode a raw p);
    }
  ]
