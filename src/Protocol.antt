-- ===== src/Protocol.antt =====
-- protocol/registry.go: the registry of protocols and the negotiation by an Accept header, with the
-- functions of Go's `strings` that it calls.
pub mod Frames
pub mod Agui
pub mod Aisdk
pub mod Streamed
pub mod Negotiated
use Prim.Native.Char.{Char}
use rakit.Prelude.{
  String, Bool, true, false, ◌&&◌, ◌||◌, Option, none, some, List, [], ◌∷◌, map, ◌==◌,
  if◌then◌else◌, Assoc, find, insert,
}

-- What Go's `unicode` decides of a rune.
pub record Runes : Type 0 where
  pub lower : Char → Char
  pub is_space : Char → Bool

abbrev pub rune_eq : Char → String → Bool
rune_eq c s = String.◌∷◌ c "" == s

module _ (runes : Runes) where
  -- `strings.ToLower`
  unfoldable pub to_lower : String → String
  to_lower String.[] = ""
  to_lower (String.◌∷◌ c s) = String.◌∷◌ (runes.lower c) (to_lower s)

  unfoldable pub trim_left : String → String
  trim_left String.[] = ""
  trim_left (String.◌∷◌ c s) = if runes.is_space c then trim_left s else String.◌∷◌ c s

  unfoldable pub trim_right : String → String
  trim_right String.[] = ""
  trim_right (String.◌∷◌ c s) =
      if runes.is_space c && trim_right s == "" then "" else String.◌∷◌ c (trim_right s)

  -- `strings.TrimSpace`
  abbrev pub trim_space : String → String
  trim_space s = trim_right (trim_left s)

-- A rune before the first of the parts.
unfoldable pub cons_rune : Char → List String → List String
cons_rune c [] = String.◌∷◌ c "" ∷ []
cons_rune c (s ∷ parts) = String.◌∷◌ c s ∷ parts

-- `strings.Split(accept, ",")`
unfoldable pub split_commas : String → List String
unfolding cons_rune
split_commas String.[] = "" ∷ []
split_commas (String.◌∷◌ c s) =
    if rune_eq c "," then "" ∷ split_commas s else cons_rune c (split_commas s)

-- The part up to the first ";", or all of it.
unfoldable pub before_semicolon : String → String
before_semicolon String.[] = ""
before_semicolon (String.◌∷◌ c s) = if rune_eq c ";" then "" else String.◌∷◌ c (before_semicolon s)

abbrev pub is_agui : String → Bool
is_agui part = part == "text/vnd.ag-ui" || part == "application/vnd.ag-ui"

abbrev pub is_aisdk : String → Bool
is_aisdk part = part == "text/vnd.ai-sdk" || part == "application/vnd.ai-sdk"

-- The media types of a header, as the loop reads them.
unfoldable pub media_types : Runes → String → List String
unfolding split_commas to_lower trim_left trim_right before_semicolon
media_types runes accept =
    map (λ part. before_semicolon (trim_space runes part)) (split_commas (to_lower runes accept))

-- `Registry`: the protocols by name, and the default.
pub record Registry (P : Type 0) : Type 0 where
  pub protocols : Assoc P
  pub default : Option P

module _ {P : Type 0} where
  unfoldable pub new_registry : Registry P
  new_registry = record { protocols = []; default = none }

  -- `name` is the protocol's `Name` method.
  unfoldable pub register : (P → String) → P → Registry P → Registry P
  register name p r = record r { protocols = insert (name p) p r.protocols }

  unfoldable pub get : String → Registry P → Option P
  get name r = find name r.protocols

  unfoldable pub set_default : P → Registry P → Registry P
  set_default p r = record r { default = some p }

  unfoldable pub default : Registry P → Option P
  default r = r.default

  abbrev pub or_continue : Option P → Option P → Option P
  or_continue (some p) rest = some p
  or_continue none rest = rest

  -- The loop of `Negotiate` over the parts.
  unfoldable pub negotiate_parts : Registry P → List String → Option P
  negotiate_parts r [] = none
  negotiate_parts r (part ∷ parts) =
      let rest = negotiate_parts r parts in
      if is_agui part
      then or_continue (find "ag-ui" r.protocols) rest
      else if is_aisdk part
      then or_continue (find "ai-sdk" r.protocols) rest
      else if part == "text/event-stream"
      then r.default
      else rest

  -- `Negotiate`
  unfoldable pub negotiate : Runes → Registry P → String → Option P
  unfolding media_types negotiate_parts
  negotiate runes r accept = negotiate_parts r (media_types runes accept)
