-- ===== src/Rows.antt =====
-- The rows that the store builds for its tables: src/cow_indexer/storage/clickhouse.py. A row is its
-- columns in order. Times are numbers, the reading of a time and Python's `str` of a value that is no
-- text are parameters.
pub mod Events
pub mod Orders
pub mod Trades
use cow_indexer.Prelude.{
  ◌+◌, ◌-◌, ◌*◌, ◌==◌, ◌&&◌, ℕ, if◌then◌else◌, ◌∷◌, [], List, Option, PyError, Result, String, Text,
  codes, err, none, ok, some, type_error, value_error, Bool, true, false,
}
use cow_indexer.Json.{is_truthy, Json, Fields, int, str, null, bool, as_text, subscript}
use cow_indexer.Hex.{ValueError, normalize_address, normalize_order_uid, normalize_hash}
use cow_indexer.CowApi.{is_digit}
use cow_indexer.Migrations.{strip}

abbrev pub Row : Type 0
Row = List (Text × Json)

abbrev pub cell : String → Json → Text × Json
cell name value = (codes name, value)

abbrev pub number_or_null : Option ℕ → Json
number_or_null none = null
number_or_null (some n) = int n

-- The digits of `int(text)`, in ASCII; an underscore stands between two digits.
unfoldable pub int_digits : ℕ → Bool → Text → Option ℕ
unfolding is_digit
int_digits total after_digit [] = if after_digit then some total else none
int_digits total after_digit (c ∷ cs) =
    let digit = int_digits (total * 10 + (c - 48)) true cs in
    let underscore = int_digits total false cs in
    if is_digit c then digit else if after_digit && c == b'_' then underscore else none

-- A minus sign is taken in front of zero alone, since the model has no negative number.
unfoldable pub signed : Text → Option ℕ
unfolding int_digits
signed [] = none
signed (c ∷ cs) =
    if c == b'+'
    then int_digits 0 false cs
    else if c == b'-'
    then (elim (int_digits 0 false cs) [ some n ↦ if n == 0 then some 0 else none | none ↦ none ])
    else int_digits 0 false (c ∷ cs)

-- `int(value)`. JSON is without floats and negative numbers here, so a text of a negative number, which
-- Python reads, is refused.
unfoldable pub as_int : Json → Result PyError ℕ
unfolding signed
as_int (int n) = ok n
as_int (bool true) = ok 1
as_int (bool false) = ok 0
as_int (str s) = elim (signed (strip s)) [ some n ↦ ok n | none ↦ err value_error ]
as_int _ = err type_error

abbrev pub normal : (Text → Result ValueError Text) → Text → Result PyError Text
normal normalize s = elim (normalize s) [ ok t ↦ ok t | err e ↦ err value_error ]

abbrev pub then_text : Result PyError Text → (Text → Result PyError Text) → Result PyError Text
then_text (ok s) f = f s
then_text (err e) f = err e

abbrev pub then_int : Result PyError Json → Result PyError ℕ
then_int (ok v) = as_int v
then_int (err e) = err e

abbrev pub text_at : String → Fields → Result PyError Text
text_at name fields = elim (subscript (codes name) fields) [ ok v ↦ as_text v | err e ↦ err e ]

unfoldable pub address_at : String → Fields → Result PyError Text
address_at name fields = then_text (text_at name fields) (normal normalize_address)

unfoldable pub uid_at : String → Fields → Result PyError Text
uid_at name fields = then_text (text_at name fields) (normal normalize_order_uid)

unfoldable pub int_at : String → Fields → Result PyError ℕ
unfolding as_int
int_at name fields = then_int (subscript (codes name) fields)

-- `normalize(value) if value else ""`.
unfoldable pub normal_or_empty : (Text → Result PyError Text) → Json → Result PyError Text
normal_or_empty normalize value =
    if is_truthy value then then_text (as_text value) normalize else ok []

unfoldable pub first_truthy : Json → Json → Json
first_truthy a b = if is_truthy a then a else b
