-- ===== src/Jsonl/Domains/Saved.antt =====
-- `SaveTool` and `GetTool` together.
use rakit.Prelude.{
  String, ◌≡◌, refl, ◌∙◌, Option-cases, false, Option, none, some, ◌==◌, eq_refl, if◌then◌else◌, ok,
  Result-cases, inl, inr, Assoc, find, arith,
}
use rakit.Metadata.Definitions.{ToolDef}
use rakit.Jsonl.Journal.{Source}
use rakit.Jsonl.Sessions.Files.{NoCut}
use rakit.Jsonl.Domains.{Log, read_latest, append_domain}
use rakit.Jsonl.Domains.Operations.{
  DomainStd, decode_found, get_from, tool_maps, tool_identity, stored_tool, save_tool, get_tool,
}
use rakit.Jsonl.Domains.Lookup.{append_domain-get_from}

module _ {Raw : Type 0} (std : DomainStd Raw) where
  -- What a successful `SaveTool` has done.
  save_tool-inversion :
      (src : Source) (td : ToolDef) (l : Log Raw)
      → (save_tool std src td l).0 ≡ ok tt
      → (m : Assoc Raw) × (td' : ToolDef) × (read_latest std.layout l.lines ≡ ok m)
        × (stored_tool std src td (find td.name m) ≡ ok td')
        × (save_tool std src td l
            ≡ (ok tt, td', (append_domain std.layout std.tool src td.name td' l).1))
        × ((append_domain std.layout std.tool src td.name td' l).0 ≡ ok tt)
  unfolding save_tool
  save_tool-inversion src td l done = elim (Result-cases (read_latest std.layout l.lines)) [
    | inl (m, h) ↦ elim (Result-cases (stored_tool std src td (find td.name m))) [
      | inl (td', p) ↦
          let done' = rw (h, p, save_tool) at done in
          (m, td', h, p, rw (h, p, save_tool, done') refl, done')
      | inr (x, p) ↦ absurd (ground (arith, rw (h, p, save_tool) at done))
    ]
    | inr (x, h) ↦ absurd (ground (arith, rw (h, save_tool) at done))
  ]

  -- A tool that is saved is read back as the caller's definition that `SaveTool` leaves, its maps
  -- not nil, and every other tool is read as before, where `SaveTool` reports success, no encoded
  -- definition is empty and no write is cut short.
  pub save_tool-get_tool :
      (filled : (a : ToolDef) (raw : Raw)
        → std.tool.encode a ≡ some raw
        → std.layout.is_empty raw ≡ false)
      (src : Source) (td : ToolDef) (j : String) (l : Log Raw)
      → NoCut l.faults
      → (save_tool std src td l).0 ≡ ok tt
      → get_tool std j (save_tool std src td l).2 ≡ (
          if td.name == j
          then ok (some (tool_maps (save_tool std src td l).1))
          else get_tool std j l)
  unfolding get_tool
  save_tool-get_tool filled src td j l nocut done =
      let (m, td', h, p, q, done') = save_tool-inversion src td l done in
      rw q
        (append_domain-get_from std std.tool tool_maps filled src td.name j td' m l h nocut done')

  stored_tool-identity :
      (src : Source) (td td' old : ToolDef) (o : Option Raw)
      → decode_found std.tool tool_maps td.name o ≡ ok (some old)
      → stored_tool std src td o ≡ ok td'
      → td' ≡ tool_identity old.id old.created_at td
  stored_tool-identity src td td' old none p q = absurd (ground arith)
  stored_tool-identity src td td' old (some raw) p q = elim (Option-cases (std.tool.decode raw)) [
    | inl none_read ↦ absurd (ground arith)
    | inr (a, d) ↦
        let e : tool_maps a ≡ old = ground arith in
        let e' : tool_identity a.id a.created_at td ≡ td' = ground arith in rw (← e, ← e') refl
  ]

  -- A saved tool replaces the one that is read under its name, of which it keeps the id and the time of
  -- creation, where `SaveTool` reports success, no encoded definition is empty and no write is cut
  -- short.
  pub save_tool-identity :
      (filled : (a : ToolDef) (raw : Raw)
        → std.tool.encode a ≡ some raw
        → std.layout.is_empty raw ≡ false)
      (src : Source) (td old : ToolDef) (l : Log Raw)
      → NoCut l.faults
      → get_tool std td.name l ≡ ok (some old)
      → (save_tool std src td l).0 ≡ ok tt
      → get_tool std td.name (save_tool std src td l).2
        ≡ ok (some (tool_maps (tool_identity old.id old.created_at td)))
  unfolding get_tool get_from
  save_tool-identity filled src td old l nocut was done =
      let (m, td', h, p, q, done') = save_tool-inversion src td l done in
      let kept = stored_tool-identity src td td' old (find td.name m) (rw h at was) p in
      rw q (
        append_domain-get_from std std.tool tool_maps filled src td.name td.name td' m l h nocut
          done'
        ∙ rw (eq_refl td.name, kept) refl)
