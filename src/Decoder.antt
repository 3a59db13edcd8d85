-- ===== src/Decoder.antt =====
-- The decoding of logs: src/cow_indexer/decoders/events.py. Keccak and the decoding of the ABI are
-- parameters, and so is what the event's table stores of a value that is passed on as it is.
pub mod Logs
pub mod Keys
pub mod Names
use cow_indexer.Prelude.{
  ℕ, zero, suc, ◌+◌, ◌-◌, ◌/◌, ◌%◌, ◌==◌, leb, ◌∷◌, ◌++◌, [], ◌&&◌, ◌||◌, not, Bool, List, Option,
  PyError, Result, Text, codes, err, false, if◌then◌else◌, length, none, ok, some, text_eq, true,
  ◌>>=◌, value_error, type_error, attribute_error, drop, starts_with, keep, map,
}
use cow_indexer.Json.{Fields, Items, Json, arr, cons, end, field, get, nil, obj, set_field, str}
use cow_indexer.Hex.{ValueError, from_hex, lower, normalize_address}
use cow_indexer.Loader.{is_one_of}
use cow_indexer.Models.{DecodedEvent, RpcLog}

mutual
  -- An input of an event: its type, its name, whether it is indexed, and its components.
  pub data Input : Type 0 where
    input : Text → Text → Bool → Inputs → Input

  pub data Inputs : Type 0 where
    no_inputs : Inputs
    more : Input → Inputs → Inputs

mutual
  -- A value that the decoding of the ABI gives.
  pub data Value : Type 0 where
    text_value : Text → Value
    bytes : List ℕ → Value
    tuple : Values → Value
    other : Json → Value

  pub data Values : Type 0 where
    none_left : Values
    next : Value → Values → Values

abbrev pub type_of : Input → Text
type_of (input type name indexed components) = type

abbrev pub name_of : Input → Text
name_of (input type name indexed components) = name

abbrev pub is_indexed : Input → Bool
is_indexed (input type name indexed components) = indexed

abbrev tuple_or : Bool → Text → Text → Text
tuple_or true inner type = (b'(' ∷ inner) ++ (b')' ∷ drop 5 type)
tuple_or false inner type = type

abbrev then_comma : Text → Inputs → Text → Text
then_comma first no_inputs rest = first
then_comma first (more i is) rest = first ++ (b',' ∷ rest)

unfoldable mutual
  unfolding starts_with

  pub canonical_type : Input → Text
  canonical_type (input type name indexed components) =
      tuple_or (starts_with (codes "tuple") type) (joined_types components) type

  pub joined_types : Inputs → Text
  joined_types no_inputs = []
  joined_types (more i is) = then_comma (canonical_type i) is (joined_types is)

pub record Event : Type 0 where
  pub name : Text
  pub inputs : Inputs

unfoldable pub event_signature : Event → Text
unfolding canonical_type
event_signature e = e.name ++ ((b'(' ∷ joined_types e.inputs) ++ (b')' ∷ []))

-- `text.endswith("[]")`.
unfoldable pub ends_with_brackets : Text → Bool
ends_with_brackets [] = false
ends_with_brackets (c ∷ cs) = text_eq (c ∷ cs) (codes "[]") || ends_with_brackets cs

-- `bytes.hex()`.
abbrev digit_of : ℕ → ℕ
digit_of n = if leb n 9 then n + 48 else n + 87

unfoldable pub to_hex : List ℕ → Text
to_hex [] = []
to_hex (b ∷ bs) = digit_of (b / 16) ∷ digit_of (b % 16) ∷ to_hex bs

-- `event_topic`, for a hash function.
unfoldable pub event_topic : (Text → List ℕ) → Event → Text
unfolding event_signature to_hex
event_topic keccak e = codes "0x" ++ to_hex (keccak (event_signature e))

abbrev as_normal : Result ValueError Text → Result PyError Json
as_normal (ok s) = ok (str s)
as_normal (err e) = err value_error

-- `normalize_address(value)`.
abbrev address_of : Value → Result PyError Json
address_of (text_value s) = as_normal (normalize_address s)
address_of _ = err attribute_error

abbrev pub with_field : Text → Result PyError Json → Result PyError Fields → Result PyError Fields
with_field name (err e) rest = err e
with_field name (ok value) (err e) = err e
with_field name (ok value) (ok fields) = ok (field name value fields)

abbrev with_dict : Result PyError Fields → Result PyError Items → Result PyError Items
with_dict (err e) rest = err e
with_dict (ok fields) (err e) = err e
with_dict (ok fields) (ok items) = ok (cons (obj fields) items)

-- A tuple as a dictionary, by what its components make of its parts.
abbrev as_dict_of : (Values → Result PyError Fields) → Value → Result PyError Fields
as_dict_of fields (tuple parts) = fields parts
as_dict_of fields _ = err type_error

unfoldable pub row_dicts : (Values → Result PyError Fields) → Values → Result PyError Items
row_dicts fields none_left = ok nil
row_dicts fields (next row rows) = with_dict (as_dict_of fields row) (row_dicts fields rows)

abbrev as_obj : Result PyError Fields → Result PyError Json
as_obj (ok fields) = ok (obj fields)
as_obj (err e) = err e

abbrev as_arr : Result PyError Items → Result PyError Json
as_arr (ok items) = ok (arr items)
as_arr (err e) = err e

-- What the two branches for a tuple make of it.
abbrev tuple_value : Bool → (Values → Result PyError Fields) → Value → Result PyError Json
tuple_value true fields (tuple rows) = as_arr (row_dicts fields rows)
tuple_value true fields _ = err type_error
tuple_value false fields value = as_obj (as_dict_of fields value)

module _ (passed_on : Value → Json) where
  -- The branches for what is no tuple; a list of values is passed on as it is.
  abbrev plain_value : Bool → Value → Result PyError Json
  plain_value true value = address_of value
  plain_value false (bytes bs) = ok (str (codes "0x" ++ to_hex bs))
  plain_value false value = ok (passed_on value)

  abbrev value_by : Bool → Text → (Values → Result PyError Fields) → Value → Result PyError Json
  value_by true type fields value = tuple_value (ends_with_brackets type) fields value
  value_by false type fields value = plain_value (text_eq type (codes "address")) value

  -- `_normalize_value`, and the parts of a tuple; `zip` is strict.
  unfoldable mutual
    unfolding starts_with row_dicts to_hex ends_with_brackets text_eq

    pub normalize_value : Input → Value → Result PyError Json
    normalize_value (input type name indexed components) value =
        value_by (starts_with (codes "tuple") type) type (normalize_parts components) value

    pub normalize_parts : Inputs → Values → Result PyError Fields
    normalize_parts no_inputs none_left = ok end
    normalize_parts (more i is) (next value values) =
        with_field (name_of i) (normalize_value i value) (normalize_parts is values)
    normalize_parts _ _ = err value_error
