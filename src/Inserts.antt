-- ===== src/Inserts.antt =====
-- `_insert` of ClickHouseStore in src/cow_indexer/storage/clickhouse.py: the columns of an insert, its
-- settings, and the attempts. What the database answers is a parameter, by the number of the call.
pub mod Attempts
use cow_indexer.Prelude.{
  ℕ, zero, suc, ◌+◌, ◌∷◌, ◌++◌, [], ◌||◌, ◌&&◌, Bool, List, Option, PyError, Result, Text, codes,
  key_error, err, false, if◌then◌else◌, none, ok, some, true, ◌>>=◌, map, not, text_eq,
}
use cow_indexer.Json.{Json}
use cow_indexer.Loader.{is_one_of}
use cow_indexer.Rpc.{contains}
use cow_indexer.Rows.{Row}

-- INSERT_ATTEMPTS.
abbrev pub insert_attempts : ℕ
insert_attempts = 3

-- SYNC_INSERT_TABLES.
abbrev pub sync_insert_tables : List Text
sync_insert_tables =
    codes "work_items" ∷ codes "indexing_checkpoints" ∷ codes "schema_migrations" ∷ []

-- `_is_burned_insert_body`, of the message of a database error.
unfoldable pub is_burned_insert_body : Text → Bool
is_burned_insert_body message =
    contains (codes "code: 62") message && contains (codes "Empty query") message

-- What an insert sends: the table, the columns, the values of each row, and whether the call waits for
-- the data to be durable.
pub record Insert : Type 0 where
  pub table : Text
  pub columns : List Text
  pub values : List (List Json)
  pub waits : Bool

-- The calls made, and the inserts that the database took, oldest first.
pub record Inserted : Type 0 where
  pub calls : ℕ
  pub inserts : List Insert

pub data InsertFailure : Type 0 where
  missing_column : InsertFailure
  database_error : Text → InsertFailure

-- `row[column]`.
unfoldable pub value_in : Text → Row → Result InsertFailure Json
value_in column [] = err missing_column
value_in column ((name, value) ∷ cells) =
    let later = value_in column cells in if text_eq name column then ok value else later

unfoldable pub values_in : List Text → Row → Result InsertFailure (List Json)
unfolding value_in
values_in [] row = ok []
values_in (column ∷ columns) row = do
  value ← value_in column row
  values ← values_in columns row
  ok (value ∷ values)

unfoldable pub data_of : List Text → List Row → Result InsertFailure (List (List Json))
unfolding values_in
data_of columns [] = ok []
data_of columns (row ∷ rows) = do
  values ← values_in columns row
  others ← data_of columns rows
  ok (values ∷ others)

-- `durable if durable is not None else table in SYNC_INSERT_TABLES`.
abbrev pub is_sync : Option Bool → Text → Bool
is_sync (some durable) table = durable
is_sync none table = is_one_of table sync_insert_tables

-- `list(rows[0])`.
abbrev pub columns_of : Row → List Text
columns_of row = map (λ cell. cell.0) row

-- The answers of the client: nothing, or the message of a database error, by the number of the call.
module _ (answer : ℕ → Option Text) where
  abbrev pub Writing : Type 0
  Writing = Inserted → Result InsertFailure (Unit {0}) × Inserted

  -- `if attempt == INSERT_ATTEMPTS or not _is_burned_insert_body(exc): raise`.
  abbrev pub raise_or : Text → Writing → Bool → Writing
  raise_or message again true w = (err (database_error message), w)
  raise_or message again false w = again w

  abbrev pub is_last : ℕ → Bool
  is_last zero = true
  is_last (suc n) = false

  -- What follows the answer of a call; `left` is the number of the attempts after it.
  abbrev pub answered : Insert → ℕ → Writing → Option Text → Writing
  answered insert left again none w =
      (ok tt, record { calls = w.calls + 1; inserts = w.inserts ++ insert ∷ [] })
  answered insert left again (some message) w =
      raise_or message again (is_last left || not (is_burned_insert_body message))
        (record w { calls = w.calls + 1 })

  -- The attempts, so many of them.
  unfoldable pub attempts : ℕ → Insert → Writing
  unfolding is_burned_insert_body
  attempts zero insert w = (ok tt, w)
  attempts (suc n) insert w = answered insert n (attempts n insert) (answer w.calls) w

  abbrev pub send_values :
      Text → List Text → Bool → Result InsertFailure (List (List Json)) → Writing
  send_values table columns waits (err e) w = (err e, w)
  send_values table columns waits (ok values) w =
      attempts insert_attempts
        (record { table = table; columns = columns; values = values; waits = waits }) w

  -- `_insert`; `async_insert_wait` is the setting.
  unfoldable pub insert_into : Bool → Text → Option Bool → List Row → Writing
  unfolding attempts data_of
  insert_into async_insert_wait table durable [] w = (ok tt, w)
  insert_into async_insert_wait table durable (row ∷ rows) w =
      send_values table (columns_of row) (is_sync durable table || async_insert_wait)
        (data_of (columns_of row) (row ∷ rows)) w
