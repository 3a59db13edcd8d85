-- ===== src/Tests/Inserts.antt =====
-- Inserts that lose their body.
use cow_indexer.Prelude.{
  ℕ, ◌≡◌, ◌||◌, refl, none, some, [], ◌∷◌, Text, codes, ok, err, text_eq, starts_with, Option,
  false, if◌then◌else◌, ◌==◌,
}
use cow_indexer.Json.{int}
use cow_indexer.Loader.{is_one_of}
use cow_indexer.Rpc.{contains}
use cow_indexer.Rows.{Row, cell}
use cow_indexer.Inserts.{
  Insert, Inserted, database_error, insert_into, attempts, data_of, values_in, value_in,
  is_burned_insert_body, is_sync, columns_of,
}
use cow_indexer.Inserts.Attempts.{Ended, insert_into-Ended}

program : Unit {0}
unfolding is_one_of contains insert_into attempts data_of values_in value_in is_burned_insert_body
    text_eq starts_with
program = tt

abbrev burned : Text
burned = codes "code: 62. Empty query"

-- The second call of the client loses its body.
abbrev answer : ℕ → Option Text
answer n = if n == 1 then some burned else none

abbrev row : ℕ → Row
row n = cell "chain_id" (int 1) ∷ cell "number" (int n) ∷ []

abbrev table : Text
table = codes "blocks"

abbrev start : Inserted
start = record { calls = 1; inserts = [] }

abbrev sent : Insert
sent = record {
  table = table;
  columns = columns_of (row 5);
  values = (int 1 ∷ int 5 ∷ []) ∷ (int 1 ∷ int 6 ∷ []) ∷ [];
  waits = false;
}

values : data_of (columns_of (row 5)) (row 5 ∷ row 6 ∷ []) ≡ ok sent.values
unfolding program
values = refl

second_time :
    insert_into answer false table none (row 5 ∷ row 6 ∷ []) start
    ≡ (ok tt, record { calls = 3; inserts = sent ∷ [] })
unfolding program
second_time = refl

always_burned :
    insert_into (λ n. some burned) false table none (row 5 ∷ []) start
    ≡ (err (database_error burned), record { calls = 4; inserts = [] })
unfolding program
always_burned = refl

insert_into-Ended_example :
    Ended answer 3
      (record {
        table = table;
        columns = columns_of (row 5);
        values = sent.values;
        waits = is_sync none table || false;
      })
      start
      (insert_into answer false table none (row 5 ∷ row 6 ∷ []) start)
insert_into-Ended_example =
    insert_into-Ended answer false table none (row 5) (row 6 ∷ []) sent.values start values
