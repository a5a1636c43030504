-- ===== src/Sqlite/Definitions/Saved.antt =====
-- What a reader finds after SaveTool.
use rakit.Prelude.{
  ℕ, String, ◌≡◌, refl, ap, sym, ◌∙◌, Option, none, some, List, ◌==◌, if◌then◌else◌, ok, arith,
  Option-cases, inl, inr,
}
use rakit.Metadata.Definitions.{or_empty, ToolDef}
use rakit.Sqlite.Database.{
  ToolRow, Tables, DefinitionColumns, fault_free, ◌>>=◌, pure, lift, statement, next_of,
}
use rakit.Sqlite.Rows.{find_row}
use rakit.Sqlite.Rows.Found.{find_row-key, merged, find_row-append, find_row-upsert_row}
use rakit.Sqlite.Sessions.{or_default}
use rakit.Sqlite.Sessions.Observed.{found_in}
use rakit.Sqlite.Definitions.{
  insert_named, tool_id, tool_name, update_tool, tool_row, tool_of, identified_tool, found_as,
  save_tool, get_tool,
}

-- The row that is found after an insert that succeeds.
pub find_row-insert_named :
    {Row : Type 0} (id name : Row → String) (merge : Row → Row → Row)
    → ((s r : Row) → name s ≡ name r → name (merge s r) ≡ name r)
    → (k : String) (row : Row) (rows rows' : List Row)
    → insert_named id name merge row rows ≡ (ok tt, rows')
    → find_row name k rows' ≡ (
        if name row == k
        then some (merged merge row (find_row name (name row) rows))
        else find_row name k rows)
unfolding insert_named
find_row-insert_named id name merge keeps k row rows rows' h =
    elim (Option-cases (find_row name (name row) rows)) [
      | inr (old, found) ↦ ground (arith, find_row-upsert_row name merge keeps k row rows)
      | inl absent ↦ elim (Option-cases (find_row id (id row) rows)) [
        | inr (other, taken) ↦ absurd (ground arith)
        | inl free ↦ ground (arith, find_row-append name k rows row absent)
      ]
    ]

module _ {Raw : Type 0} (columns : DefinitionColumns Raw) where
  -- What GetTool finds whose statement succeeds.
  unfoldable pub observe_tool : Tables Raw → String → Option ToolDef
  observe_tool t name = found_in (get_tool columns name (fault_free t)).0

  observe_tool_lem :
      (t : Tables Raw) (name : String)
      → observe_tool t name ≡ found_as (tool_of columns) (find_row tool_name name t.tools)
  unfolding observe_tool get_tool ◌>>=◌ statement next_of pure
  observe_tool_lem t name = refl

  -- A saved definition as it is read: its maps are not nil, and it has the id and the time of the
  -- definition that was stored under its name.
  abbrev pub with_maps : ToolDef → ToolDef
  with_maps td = record td {
    headers = or_empty td.headers;
    input_mapping = or_empty td.input_mapping;
  }

  abbrev pub kept_identity : Option ToolDef → ToolDef → ToolDef
  kept_identity none td = with_maps td
  kept_identity (some old) td = record (with_maps td) { id = old.id; created_at = old.created_at }

  -- What a save that succeeds has written.
  record Inserted (now : ℕ) (fresh : String) (td saved : ToolDef) (t t' : Tables Raw) : Type 0 where
    parameters : Raw
    headers : Raw
    mapping : Raw
    parameters_encoded : columns.value.encode td.parameters ≡ some parameters
    headers_encoded : columns.texts.encode td.headers ≡ some headers
    mapping_encoded : columns.texts.encode td.input_mapping ≡ some mapping
    inserted :
        insert_named tool_id tool_name update_tool
          (tool_row columns (identified_tool columns now fresh td) parameters headers mapping)
          t.tools
        ≡ (ok tt, t'.tools)
    returned : saved ≡ identified_tool columns now fresh td

  save_tool-Inserted :
      (now : ℕ) (fresh : String) (td saved : ToolDef) (t t' : Tables Raw)
      → save_tool columns now fresh td (fault_free t) ≡ (ok saved, fault_free t')
      → Inserted now fresh td saved t t'
  unfolding save_tool ◌>>=◌ statement next_of pure lift
  save_tool-Inserted now fresh td saved t t' e =
      elim (Option-cases (columns.value.encode td.parameters)) [
        | inl p ↦ absurd (ground arith)
        | inr (parameters, p) ↦ elim (Option-cases (columns.texts.encode td.headers)) [
          | inl h ↦ absurd (ground arith)
          | inr (headers, h) ↦ elim (Option-cases (columns.texts.encode td.input_mapping)) [
            | inl m ↦ absurd (ground arith)
            | inr (mapping, m) ↦ record {
              parameters = parameters;
              headers = headers;
              mapping = mapping;
              parameters_encoded = p;
              headers_encoded = h;
              mapping_encoded = m;
              inserted = ground arith;
              returned = ground arith;
            }
          ]
        ]
      ]

  -- The row that is left is read as the definition.
  read-Inserted :
      (now : ℕ) (fresh : String) (td saved : ToolDef) (t t' : Tables Raw)
      (i : Inserted now fresh td saved t t') (o : Option (ToolRow Raw))
      → ((r : ToolRow Raw) → o ≡ some r → r.name ≡ saved.name)
      → tool_of columns (
          merged update_tool
            (tool_row columns
              (identified_tool columns now fresh td)
              i.parameters
              i.headers
              i.mapping)
            o)
        ≡ kept_identity (found_as (tool_of columns) o) saved
  unfolding tool_of or_default
  read-Inserted now fresh td saved t t' i none named = ground (
    arith,
    i.returned,
    columns.value.decode-encode td.parameters i.parameters i.parameters_encoded,
    columns.texts.decode-encode td.headers i.headers i.headers_encoded,
    columns.texts.decode-encode td.input_mapping i.mapping i.mapping_encoded,
  )
  read-Inserted now fresh td saved t t' i (some r) named = ground (
    arith,
    i.returned,
    named r refl,
    columns.value.decode-encode td.parameters i.parameters i.parameters_encoded,
    columns.texts.decode-encode td.headers i.headers i.headers_encoded,
    columns.texts.decode-encode td.input_mapping i.mapping i.mapping_encoded,
  )

  -- A tool that the SQLite store saves is read back as the definition that SaveTool leaves with
  -- its caller, its maps not nil, but with the id and the time of creation of the tool that was
  -- stored under its name, if there was one; every other tool is read as before. No statement
  -- fails and SaveTool reports success.
  pub save_tool-observe_tool :
      (now : ℕ) (fresh : String) (td saved : ToolDef) (t t' : Tables Raw)
      → save_tool columns now fresh td (fault_free t) ≡ (ok saved, fault_free t')
      → (k : String)
      → observe_tool t' k ≡ (
          if td.name == k
          then some (kept_identity (observe_tool t td.name) saved)
          else observe_tool t k)
  save_tool-observe_tool now fresh td saved t t' e k =
      let i = save_tool-Inserted now fresh td saved t t' e in
      let row =
        tool_row columns (identified_tool columns now fresh td) i.parameters i.headers i.mapping in
      let named : saved.name ≡ td.name = ap (λ (x : ToolDef). x.name) i.returned in
      observe_tool_lem t' k
      ∙ ap (found_as (tool_of columns)) (
          find_row-insert_named tool_id tool_name update_tool (λ s r same. same) k row t.tools
            t'.tools i.inserted)
      ∙ ground (
        arith,
        observe_tool_lem t k,
        observe_tool_lem t td.name,
        read-Inserted now fresh td saved t t' i (find_row tool_name td.name t.tools)
            (λ r found. find_row-key tool_name td.name t.tools r found ∙ sym named),
      )
