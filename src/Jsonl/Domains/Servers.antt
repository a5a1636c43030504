-- ===== src/Jsonl/Domains/Servers.antt =====
-- `SaveMCPServer` and `GetMCPServer` together.
use rakit.Prelude.{
  ◌≡◌, refl, ap, ◌∙◌, Bool-cases, Option-cases, false, Option, none, some, ◌==◌, eq_refl, ok,
  Result-cases, inl, inr, Assoc, find, arith,
}
use rakit.Metadata.Definitions.{McpServerDef}
use rakit.Jsonl.Journal.{Source}
use rakit.Jsonl.Sessions.Files.{NoCut}
use rakit.Jsonl.Domains.{Log, read_latest, append_domain}
use rakit.Jsonl.Domains.Operations.{
  DomainStd, decode_found, get_from, server_read, server_identity, server_transport, stored_server,
  save_mcp_server, get_mcp_server,
}
use rakit.Jsonl.Domains.Lookup.{append_domain-get_from}

server_read-server_transport : (s : McpServerDef) → server_read (server_transport s) ≡ server_read s
server_read-server_transport s = elim (Bool-cases (s.transport == "")) [
  | inl unset ↦ rw unset refl
  | inr set ↦ rw (set, set) refl
]

module _ {Raw : Type 0} (std : DomainStd Raw) where
  -- What a successful `SaveMCPServer` has done.
  save_mcp_server-inversion :
      (src : Source) (s : McpServerDef) (l : Log Raw)
      → (save_mcp_server std src s l).0 ≡ ok tt
      → (m : Assoc Raw) × (s' : McpServerDef) × (read_latest std.layout l.lines ≡ ok m)
        × (stored_server std src s (find s.name m) ≡ ok s')
        × (save_mcp_server std src s l
            ≡ (ok tt, s', (append_domain std.layout std.server src s.name s' l).1))
        × ((append_domain std.layout std.server src s.name s' l).0 ≡ ok tt)
  unfolding save_mcp_server
  save_mcp_server-inversion src s l done = elim (Result-cases (read_latest std.layout l.lines)) [
    | inl (m, h) ↦ elim (Result-cases (stored_server std src s (find s.name m))) [
      | inl (s', p) ↦
          let done' = rw (h, p, save_mcp_server) at done in
          (m, s', h, p, rw (h, p, save_mcp_server, done') refl, done')
      | inr (x, p) ↦ absurd (ground (arith, rw (h, p, save_mcp_server) at done))
    ]
    | inr (x, h) ↦ absurd (ground (arith, rw (h, save_mcp_server) at done))
  ]

  stored_server-identity :
      (src : Source) (s s' old : McpServerDef) (o : Option Raw)
      → decode_found std.server server_read s.name o ≡ ok (some old)
      → stored_server std src s o ≡ ok s'
      → s' ≡ server_transport (server_identity old.id old.created_at s)
  stored_server-identity src s s' old none p q = absurd (ground arith)
  stored_server-identity src s s' old (some raw) p q = elim (Option-cases (std.server.decode raw)) [
    | inl none_read ↦ absurd (ground arith)
    | inr (a, d) ↦
        let e : server_read a ≡ old = ground arith in
        let e' : server_transport (server_identity a.id a.created_at s) ≡ s' = ground arith in
        rw (← e, ← e') refl
  ]

  -- A saved MCP server replaces the one that is read under its name, of which it keeps the id and
  -- the time of creation, with "http" for a transport that is not set, where `SaveMCPServer` reports
  -- success, no encoded definition is empty and no write is cut short.
  pub save_mcp_server-identity :
      (filled : (a : McpServerDef) (raw : Raw)
        → std.server.encode a ≡ some raw
        → std.layout.is_empty raw ≡ false)
      (src : Source) (s old : McpServerDef) (l : Log Raw)
      → NoCut l.faults
      → get_mcp_server std s.name l ≡ ok (some old)
      → (save_mcp_server std src s l).0 ≡ ok tt
      → get_mcp_server std s.name (save_mcp_server std src s l).2
        ≡ ok (some (server_read (server_identity old.id old.created_at s)))
  unfolding get_mcp_server get_from
  save_mcp_server-identity filled src s old l nocut was done =
      let (m, s', h, p, q, done') = save_mcp_server-inversion src s l done in
      let kept = stored_server-identity src s s' old (find s.name m) (rw h at was) p in
      rw q (
        append_domain-get_from std std.server server_read filled src s.name s.name s' m l h nocut
          done'
        ∙ rw (eq_refl s.name, kept)
            (ap (λ x. ok (some x))
              (server_read-server_transport (server_identity old.id old.created_at s))))
