-- ===== src/Jsonl/Journal.antt =====
-- The on-disk records of storage/metadata/jsonl/store.go, and reading and appending them.
use Prim.Native.Char.{Char}
use Prim.Native.String.{len}
use rakit.Prelude.{
  ℕ, String, ◌^^◌, ◌≡◌, Bool, true, false, ◌&&◌, ◌||◌, not, Option, none, some, List, [], ◌∷◌, ◌++◌,
  ◌==◌, ltb, nat_eq, if◌then◌else◌, Result, ok, err, ◌>>=◌, Assoc, find, insert,
}
use rakit.Metadata.{Fields, Message, Interrupt, Session}

pub data Error : Type 0 where
  invalid_session_id : String → Error
  malformed_record unsupported_version incomplete_envelope marshal_failed io_failed : Error
  foreign_record : String → Error
  invalid_position : String → Error
  decode_failed : String → Error
  id_mismatch : String → String → Error
  duplicate_transaction : String → Error
  follows_commit : String → Error
  unknown_event : String → Error
  no_created_record : Error
  not_found : String → Error
  session_conflict : String → ℕ → ℕ → Error
  revision_overflow : String → Error
  updated_at_overflow : String → Error
  no_unique_id no_payload : Error

pub record Envelope (Raw : Type 0) : Type 0 where
  pub version : ℕ
  pub event_id : String
  pub transaction_id : String
  pub type : String
  pub session_id : String
  pub key : String
  pub timestamp : ℕ
  pub payload : Raw

pub record SessionMeta : Type 0 where
  pub id : String
  pub agent_id : String
  pub user_id : String
  pub parent_session_id : String
  pub state : Fields
  pub open_interrupts : List Interrupt
  pub revision : ℕ
  pub created_at : ℕ
  pub updated_at : ℕ

-- `json.Marshal` and `json.Unmarshal` at one type. A value that is encoded is decoded again.
pub record Codec (Raw A : Type 0) : Type 0 where
  pub encode : A → Option Raw
  pub decode : Raw → Option A
  pub decode-encode : (a : A) (r : Raw) → encode a ≡ some r → decode r ≡ some a

-- What the store takes from Go's standard library: the codecs, and `unicode.IsLetter` or
-- `unicode.IsDigit` of a rune.
pub record Std (Raw : Type 0) : Type 0 where
  pub meta : Codec Raw SessionMeta
  pub message : Codec Raw Message
  pub replacement : Codec Raw (List Message)
  pub session : Codec Raw Session
  pub id_object : Codec Raw String
  pub letter_or_digit : Char → Bool

abbrev pub schema_version : ℕ
schema_version = 1

-- The clock and the random texts of one operation: one text for each event, one for the
-- transaction and one for each attempt at a session id.
pub record Source : Type 0 where
  pub now : ℕ
  pub event : ℕ → String
  pub transaction : String
  pub attempt : ℕ → String

unfoldable pub new_id : String → String → String
new_id prefix random = prefix ^^ random

-- A line of a file: a whole record, or what is left of one that was cut short.
pub data Line (Raw : Type 0) : Type 0 where
  complete : Envelope Raw → Line Raw
  torn : Line Raw

-- How a write can fail: nothing is written, or all is and the sync fails, or a part is.
pub data Fault : Type 0 where
  fine lost late cut : Fault

-- The fault of the next write and those that come after; without more, the writes succeed.
unfoldable pub next_of : List Fault → Fault × List Fault
next_of [] = (fine, [])
next_of (f ∷ fs) = (f, fs)

-- The transcripts by session id, the transcripts renamed to `.deleted`, and the faults to come.
pub record Disk (Raw : Type 0) : Type 0 where
  pub transcripts : Assoc (List (Line Raw))
  pub staged : List String
  pub faults : List Fault

module _ {Raw : Type 0} where
  unfoldable pub new_envelope :
      {A : Type 0}
      → Codec Raw A
      → Source
      → ℕ
      → String
      → String
      → String
      → A
      → Result Error (Envelope Raw)
  unfolding new_id
  new_envelope c src i type session_id key payload = elim (c.encode payload) [
    | none ↦ err marshal_failed
    | some raw ↦ ok (record {
      version = schema_version;
      event_id = new_id "evt-" (src.event i);
      transaction_id = "";
      type = type;
      session_id = session_id;
      key = key;
      timestamp = src.now;
      payload = raw;
    })
  ]

  unfoldable pub check_envelope : Envelope Raw → Result Error (Envelope Raw)
  check_envelope e =
      if not (nat_eq e.version schema_version)
      then err unsupported_version
      else if e.event_id == "" || e.type == ""
      then err incomplete_envelope
      else ok e

  unfoldable pub read_envelopes : List (Line Raw) → Result Error (List (Envelope Raw))
  unfolding check_envelope
  read_envelopes [] = ok []
  read_envelopes (torn ∷ lines) = err malformed_record
  read_envelopes (complete e ∷ lines) = do
    e' ← check_envelope e
    rest ← read_envelopes lines
    ok (e' ∷ rest)

  -- The lines of a file; a file that does not exist has none.
  unfoldable pub lines_of : String → Disk Raw → List (Line Raw)
  lines_of id d = elim (find id d.transcripts) [ none ↦ [] | some lines ↦ lines ]

  abbrev pub next_fault : Disk Raw → Fault × Disk Raw
  next_fault d = let (f, fs) = next_of d.faults in (f, record d { faults = fs })

  unfoldable pub add_line : String → Line Raw → Disk Raw → Disk Raw
  add_line id line d = record d {
    transcripts = insert id (lines_of id d ++ line ∷ []) d.transcripts;
  }

  abbrev pub write_under :
      Fault → String → Envelope Raw → Disk Raw → Result Error (Unit {0}) × Disk Raw
  write_under fine id e d = (ok tt, add_line id (complete e) d)
  write_under lost id e d = (err io_failed, d)
  write_under late id e d = (err io_failed, add_line id (complete e) d)
  write_under cut id e d = (err io_failed, add_line id torn d)

  -- `appendEnvelope` on the transcript of a session.
  unfoldable pub append_envelope :
      String → Envelope Raw → Disk Raw → Result Error (Unit {0}) × Disk Raw
  append_envelope id e d = let (f, d') = next_fault d in write_under f id e d'

  -- The loop of `UpdateSession` over its records: the first failure ends it.
  unfoldable pub append_all :
      String → List (Envelope Raw) → Disk Raw → Result Error (Unit {0}) × Disk Raw
  append_all id [] d = (ok tt, d)
  append_all id (e ∷ es) d =
      let (r, d') = append_envelope id e d in
      let rest = append_all id es d' in elim r [ ok _ ↦ rest | err x ↦ (err x, d') ]

module _ {Raw : Type 0} (std : Std Raw) where
  abbrev word_rune : Char → Bool
  word_rune c =
      std.letter_or_digit c
      || (String.◌∷◌ c "" == "." || String.◌∷◌ c "" == "_" || String.◌∷◌ c "" == "-")

  abbrev all_word_runes : String → Bool
  all_word_runes String.[] = true
  all_word_runes (String.◌∷◌ c s) = word_rune c && all_word_runes s

  abbrev has_slash : String → Bool
  has_slash String.[] = false
  has_slash (String.◌∷◌ c s) = String.◌∷◌ c "" == "/" || String.◌∷◌ c "" == "\\" || has_slash s

  unfoldable pub is_session_id : String → Bool
  is_session_id id =
      not (id == "" || id == "." || id == ".." || ltb 256 (len id))
      && not (has_slash id)
      && all_word_runes id

  unfoldable pub session_path : String → Result Error String
  session_path id = if is_session_id id then ok id else err (invalid_session_id id)
