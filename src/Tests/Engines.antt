-- ===== src/Tests/Engines.antt =====
-- A database engine that orders rows by insertion, and columns that hold the values themselves.
use rakit.Prelude.{
  ℕ, ◌≤◌, String, ◌≡◌, refl, true, false, Option, none, some, List, [], ◌∷◌, map, ◌==◌, leb, eq_iff,
  elem, IsDistinct, if◌then◌else◌, arith,
}
use rakit.Metadata.Definitions.{Texts}
use rakit.Metadata.{Value, Fields, Interrupt, ToolCallRecord}
use rakit.Sqlite.Database.{MessageRow, Columns, DefinitionColumns, Engine}
use rakit.Sqlite.Rows.{find_row}
use rakit.Sqlite.Rows.Sorted.{All, IsAscending}
use rakit.Sqlite.Sessions.{message_key}
use rakit.Sqlite.Sessions.Observed.{Orders}
use rakit.Tests.Store.{decode_of}

pub data Column : Type 0 where
  state_text : Fields → Column
  interrupts_text : List Interrupt → Column
  calls_text : List ToolCallRecord → Column
  value_text : Value → Column
  texts_text : Texts → Column
  values_text : List Value → Column

abbrev decode_state : Column → Option Fields
decode_state (state_text f) = some f
decode_state _ = none

abbrev decode_interrupts : Column → Option (List Interrupt)
decode_interrupts (interrupts_text l) = some l
decode_interrupts _ = none

abbrev decode_calls : Column → Option (List ToolCallRecord)
decode_calls (calls_text l) = some l
decode_calls _ = none

abbrev decode_value : Column → Option Value
decode_value (value_text v) = some v
decode_value _ = none

abbrev decode_texts : Column → Option Texts
decode_texts (texts_text m) = some m
decode_texts _ = none

abbrev decode_values : Column → Option (List Value)
decode_values (values_text l) = some l
decode_values _ = none

abbrev pub plain_definitions : DefinitionColumns Column
plain_definitions = record {
  value = record {
    encode = λ a. some (value_text a);
    decode = decode_value;
    decode-encode = decode_of value_text decode_value (λ a. refl);
  };
  texts = record {
    encode = λ a. some (texts_text a);
    decode = decode_texts;
    decode-encode = decode_of texts_text decode_texts (λ a. refl);
  };
  values = record {
    encode = λ a. some (values_text a);
    decode = decode_values;
    decode-encode = decode_of values_text decode_values (λ a. refl);
  };
  config = record {
    encode = λ a. some (state_text a);
    decode = decode_state;
    decode-encode = decode_of state_text decode_state (λ a. refl);
  };
}

abbrev pub plain_columns : Columns Column
plain_columns = record {
  state = record {
    encode = λ a. some (state_text a);
    decode = decode_state;
    decode-encode = decode_of state_text decode_state (λ a. refl);
  };
  interrupts = record {
    encode = λ a. some (interrupts_text a);
    decode = decode_interrupts;
    decode-encode = decode_of interrupts_text decode_interrupts (λ a. refl);
  };
  tool_calls = record {
    encode = λ a. some (calls_text a);
    decode = decode_calls;
    decode-encode = decode_of calls_text decode_calls (λ a. refl);
  };
  object_text = state_text Fields.end;
  array_text = interrupts_text [];
  is_empty_text = λ raw. false;
  encode-is_empty_text = λ l raw e. refl;
}

insert_row : MessageRow Column → List (MessageRow Column) → List (MessageRow Column)
insert_row r [] = r ∷ []
insert_row r (s ∷ rows) =
    if leb r.created_at s.created_at then r ∷ s ∷ rows else s ∷ insert_row r rows

unfoldable pub sort_rows : List (MessageRow Column) → List (MessageRow Column)
unfolding insert_row
sort_rows [] = []
sort_rows (r ∷ rows) = insert_row r (sort_rows rows)

find-insert_row :
    (k : String) (r : MessageRow Column) (rows : List (MessageRow Column))
    → elem r.id (map message_key rows) ≡ false
    → find_row message_key k (insert_row r rows)
      ≡ (if r.id == k then some r else find_row message_key k rows)
unfolding find_row insert_row
find-insert_row k r [] n = refl
find-insert_row k r (s ∷ rows) n =
    ground (arith, find-insert_row k r rows, eq_iff r.id k, eq_iff s.id k, eq_iff s.id r.id)

elem-insert_row :
    (k : String) (r : MessageRow Column) (rows : List (MessageRow Column))
    → elem k (map message_key rows) ≡ false
    → (r.id == k) ≡ false
    → elem k (map message_key (insert_row r rows)) ≡ false
unfolding insert_row
elem-insert_row k r [] n d = ground arith
elem-insert_row k r (s ∷ rows) n d = ground (arith, elem-insert_row k r rows)

insert_row-IsDistinct :
    (r : MessageRow Column) (rows : List (MessageRow Column))
    → elem r.id (map message_key rows) ≡ false
    → IsDistinct (map message_key rows)
    → IsDistinct (map message_key (insert_row r rows))
unfolding insert_row
insert_row-IsDistinct r [] n d = (refl, tt)
insert_row-IsDistinct r (s ∷ rows) n d = ground (
  arith,
  insert_row-IsDistinct r rows,
  elem-insert_row s.id r rows d.0,
  eq_iff r.id s.id,
  eq_iff s.id r.id,
)

elem-sort_rows :
    (k : String) (rows : List (MessageRow Column))
    → elem k (map message_key rows) ≡ false
    → elem k (map message_key (sort_rows rows)) ≡ false
unfolding sort_rows
elem-sort_rows k [] n = refl
elem-sort_rows k (r ∷ rows) n =
    elem-insert_row k r (sort_rows rows) (elem-sort_rows k rows (ground arith)) (ground arith)

sort_rows-IsDistinct :
    (rows : List (MessageRow Column))
    → IsDistinct (map message_key rows)
    → IsDistinct (map message_key (sort_rows rows))
unfolding sort_rows
sort_rows-IsDistinct [] d = tt
sort_rows-IsDistinct (r ∷ rows) d =
    insert_row-IsDistinct r (sort_rows rows) (elem-sort_rows r.id rows d.0)
      (sort_rows-IsDistinct rows d.1)

find-sort_rows :
    (k : String) (rows : List (MessageRow Column))
    → IsDistinct (map message_key rows)
    → find_row message_key k (sort_rows rows) ≡ find_row message_key k rows
unfolding sort_rows find_row
find-sort_rows k [] d = refl
find-sort_rows k (r ∷ rows) d = ground (
  arith,
  find-sort_rows k rows d.1,
  find-insert_row k r (sort_rows rows) (elem-sort_rows r.id rows d.0),
)

All-insert_row :
    (t : ℕ) (r : MessageRow Column) (rows : List (MessageRow Column))
    → t ≤ r.created_at
    → All (λ s. t ≤ s.created_at) rows
    → All (λ s. t ≤ s.created_at) (insert_row r rows)
unfolding insert_row
All-insert_row t r [] h a = (h, tt)
All-insert_row t r (s ∷ rows) h a = ground (arith, All-insert_row t r rows h a.1)

All-weaken :
    (t u : ℕ) (rows : List (MessageRow Column))
    → t ≤ u
    → All (λ s. u ≤ s.created_at) rows
    → All (λ s. t ≤ s.created_at) rows
All-weaken t u [] h a = tt
All-weaken t u (s ∷ rows) h a = (omega arith, All-weaken t u rows h a.1)

insert_row-IsAscending :
    (r : MessageRow Column) (rows : List (MessageRow Column))
    → IsAscending (λ s. s.created_at) rows
    → IsAscending (λ s. s.created_at) (insert_row r rows)
unfolding insert_row
insert_row-IsAscending r [] a = (tt, tt)
insert_row-IsAscending r (s ∷ rows) a = ground (
  arith,
  insert_row-IsAscending r rows a.1,
  All-insert_row s.created_at r rows,
  All-weaken r.created_at s.created_at rows,
)

sort_rows-IsAscending :
    (rows : List (MessageRow Column)) → IsAscending (λ s. s.created_at) (sort_rows rows)
unfolding sort_rows
sort_rows-IsAscending [] = tt
sort_rows-IsAscending (r ∷ rows) =
    insert_row-IsAscending r (sort_rows rows) (sort_rows-IsAscending rows)

abbrev pub plain_engine : Engine Column
plain_engine = record {
  by_created_at = sort_rows;
  by_updated_at_desc = λ rows. rows;
  foreign_keys = true;
}

pub plain_engine-Orders : Orders plain_engine
plain_engine-Orders = record {
  same = find-sort_rows;
  unique = sort_rows-IsDistinct;
  ascending = sort_rows-IsAscending;
}
