-- ===== src/Tests/Store.antt =====
-- A store whose payloads are the values themselves.
use rakit.Prelude.{ℕ, String, ◌≡◌, refl, true, Option, none, some, List, []}
use rakit.Metadata.{Message, Session}
use rakit.Jsonl.Journal.{SessionMeta, Std, Source, Disk, Fault}

pub data Raw : Type 0 where
  meta_raw : SessionMeta → Raw
  message_raw : Message → Raw
  messages_raw : List Message → Raw
  session_raw : Session → Raw
  id_raw : String → Raw

abbrev decode_meta : Raw → Option SessionMeta
decode_meta (meta_raw m) = some m
decode_meta _ = none

abbrev decode_message : Raw → Option Message
decode_message (message_raw m) = some m
decode_message _ = none

abbrev decode_messages : Raw → Option (List Message)
decode_messages (messages_raw m) = some m
decode_messages _ = none

abbrev decode_session : Raw → Option Session
decode_session (session_raw s) = some s
decode_session _ = none

abbrev decode_id : Raw → Option String
decode_id (id_raw s) = some s
decode_id _ = none

-- Encoding by a constructor that decoding takes off again.
pub decode_of :
    {R A : Type 0} (wrap : A → R) (decode : R → Option A)
    → ((a : A) → decode (wrap a) ≡ some a)
    → (a : A) (r : R) → some (wrap a) ≡ some r
    → decode r ≡ some a
decode_of wrap decode h a r p = cc (h a)

abbrev pub plain_std : Std Raw
plain_std = record {
  meta = record {
    encode = λ a. some (meta_raw a);
    decode = decode_meta;
    decode-encode = decode_of meta_raw decode_meta (λ a. refl);
  };
  message = record {
    encode = λ a. some (message_raw a);
    decode = decode_message;
    decode-encode = decode_of message_raw decode_message (λ a. refl);
  };
  replacement = record {
    encode = λ a. some (messages_raw a);
    decode = decode_messages;
    decode-encode = decode_of messages_raw decode_messages (λ a. refl);
  };
  session = record {
    encode = λ a. some (session_raw a);
    decode = decode_session;
    decode-encode = decode_of session_raw decode_session (λ a. refl);
  };
  id_object = record {
    encode = λ a. some (id_raw a);
    decode = decode_id;
    decode-encode = decode_of id_raw decode_id (λ a. refl);
  };
  letter_or_digit = λ c. true;
}

abbrev pub at_time : ℕ → String → Source
at_time t transaction = record {
  now = t;
  event = λ i. "e";
  transaction = transaction;
  attempt = λ i. "7";
}

abbrev pub empty_disk : List Fault → Disk Raw
empty_disk faults = record { transcripts = []; staged = []; faults = faults }

abbrev pub user_message : String → String → Message
user_message id content = record {
  id = id;
  role = "user";
  content = content;
  tool_calls = [];
  created_at = 5;
}
