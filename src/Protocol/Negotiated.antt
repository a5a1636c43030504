-- ===== src/Protocol/Negotiated.antt =====
-- Which protocol `Negotiate` selects for the media types of a header.
use rakit.Prelude.{
  String, ◌≡◌, refl, true, false, none, some, List, [], ◌∷◌, ◌==◌, eq_iff, find, Bool-cases, inl,
  inr, ◌↔◌, arith, Option-cases,
}
use rakit.Protocol.{Runes, Registry, is_agui, is_aisdk, negotiate_parts, media_types, negotiate}

-- No part is of two of the media types.
agui_other :
    (part : String)
    → is_agui part ≡ true
    → (is_aisdk part ≡ false) × ((part == "text/event-stream") ≡ false)
agui_other part h = elim (Bool-cases (part == "text/vnd.ag-ui")) [
  | inl e ↦ rw ((eq_iff part "text/vnd.ag-ui").0 e) (refl, refl)
  | inr e ↦ rw ((eq_iff part "application/vnd.ag-ui").0 (ground arith)) (refl, refl)
]

aisdk_other :
    (part : String)
    → is_aisdk part ≡ true
    → (is_agui part ≡ false) × ((part == "text/event-stream") ≡ false)
aisdk_other part h = elim (Bool-cases (part == "text/vnd.ai-sdk")) [
  | inl e ↦ rw ((eq_iff part "text/vnd.ai-sdk").0 e) (refl, refl)
  | inr e ↦ rw ((eq_iff part "application/vnd.ai-sdk").0 (ground arith)) (refl, refl)
]

stream_other :
    (part : String)
    → (part == "text/event-stream") ≡ true
    → (is_agui part ≡ false) × (is_aisdk part ≡ false)
stream_other part h = rw ((eq_iff part "text/event-stream").0 h) (refl, refl)

module _ {P : Type 0} (r : Registry P) where
  -- A media type that the registry has no protocol for.
  abbrev pub Skips : String → Type 0
  Skips part =
      ((part == "text/event-stream") ≡ false)
      × (is_agui part ≡ true → find "ag-ui" r.protocols ≡ none)
      × (is_aisdk part ≡ true → find "ai-sdk" r.protocols ≡ none)

  -- The first media type that is not passed over stands for the protocol.
  pub data Selects (p : P) : List String → Type 0 where
    by_agui :
        (part : String) (parts : List String)
        → is_agui part ≡ true
        → find "ag-ui" r.protocols ≡ some p
        → Selects p (part ∷ parts)
    by_aisdk :
        (part : String) (parts : List String)
        → is_aisdk part ≡ true
        → find "ai-sdk" r.protocols ≡ some p
        → Selects p (part ∷ parts)
    by_default :
        (part : String) (parts : List String)
        → (part == "text/event-stream") ≡ true
        → r.default ≡ some p
        → Selects p (part ∷ parts)
    passed_over :
        (part : String) (parts : List String)
        → Skips part
        → Selects p parts
        → Selects p (part ∷ parts)

  Selects-negotiate_parts :
      (p : P) (parts : List String) → Selects p parts → negotiate_parts r parts ≡ some p
  unfolding negotiate_parts
  Selects-negotiate_parts p l (by_agui part parts h f) = rw (h, f)
  Selects-negotiate_parts p l (by_aisdk part parts h f) = rw ((aisdk_other part h).0, h, f)
  Selects-negotiate_parts p l (by_default part parts h f) =
      rw ((stream_other part h).0, (stream_other part h).1, h) f
  Selects-negotiate_parts p l (passed_over part parts s tail) =
      ground (arith, Selects-negotiate_parts p parts tail)

  negotiate_parts-Selects :
      (p : P) (parts : List String) → negotiate_parts r parts ≡ some p → Selects p parts
  unfolding negotiate_parts
  negotiate_parts-Selects p [] h = cc
  negotiate_parts-Selects p (part ∷ parts) h = elim (Bool-cases (is_agui part)) [
    | inl a ↦ elim (Option-cases (find "ag-ui" r.protocols)) [
      | inl gone ↦
          passed_over part parts
            ((agui_other part a).1, (λ _. gone), (λ b. absurd (ground (arith, agui_other part a))))
            (negotiate_parts-Selects p parts (ground arith))
      | inr (q, found) ↦ by_agui part parts a (ground arith)
    ]
    | inr a ↦ elim (Bool-cases (is_aisdk part)) [
      | inl b ↦ elim (Option-cases (find "ai-sdk" r.protocols)) [
        | inl gone ↦
            passed_over part parts
              ((aisdk_other part b).1, (λ c. absurd (ground arith)), (λ _. gone))
              (negotiate_parts-Selects p parts (ground arith))
        | inr (q, found) ↦ by_aisdk part parts b (ground arith)
      ]
      | inr b ↦ elim (Bool-cases (part == "text/event-stream")) [
        | inl c ↦ by_default part parts c (ground arith)
        | inr c ↦
            passed_over part parts (c, (λ d. absurd (ground arith)), (λ d. absurd (ground arith)))
              (negotiate_parts-Selects p parts (ground arith))
      ]
    ]
  ]

  -- Negotiate returns a protocol exactly if a media type of the header stands for it, and none of
  -- the media types before is text/event-stream or has a protocol in the registry. The media type
  -- text/event-stream stands for the default that was set, if one was.
  pub negotiate-Selects :
      (runes : Runes) (accept : String) (p : P)
      → (negotiate runes r accept ≡ some p) ↔ Selects p (media_types runes accept)
  unfolding negotiate
  negotiate-Selects runes accept p = (
    negotiate_parts-Selects p (media_types runes accept),
    Selects-negotiate_parts p (media_types runes accept),
  )
