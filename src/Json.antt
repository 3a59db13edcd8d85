-- ===== src/Json.antt =====
-- The values that the program reads from JSON and writes as JSON, and `canonical_json` and
-- `sha256_json` of src/cow_indexer/utils.py. Python's `json` and `hashlib` are the parameter
-- `Codec`. Amounts, block numbers and timestamps are whole numbers; no number of the payloads that
-- are read is negative.
use cow_indexer.Prelude.{
  Bool, Option, PyError, Result, Text, attribute_error, codes, err, false, if◌then◌else◌, key_error,
  none, not, ok, some, text_eq, true, type_error, ℕ, ◌==◌, ◌≡◌,
}

mutual
  pub data Json : Type 0 where
    null : Json
    bool : Bool → Json
    int : ℕ → Json
    str : Text → Json
    arr : Items → Json
    obj : Fields → Json

  pub data Items : Type 0 where
    nil : Items
    cons : Json → Items → Items

  pub data Fields : Type 0 where
    end : Fields
    field : Text → Json → Fields → Fields

-- What the program takes from the standard library: the compact encoding with sorted keys, its
-- decoding, and the digest. Decoding gives back a value that encodes as before.
pub record Codec : Type 0 where
  pub dumps : Json → Text
  pub loads : Text → Json
  pub sha256 : Text → Text
  pub dumps-loads : (value : Json) → dumps (loads (dumps value)) ≡ dumps value

unfoldable pub canonical_json : Codec → Json → Text
canonical_json c value = c.dumps value

unfoldable pub sha256_json : Codec → Json → Text
unfolding canonical_json
sha256_json c value = c.sha256 (canonical_json c value)

-- `row.get(name)`: `none` where the key is absent.
unfoldable pub get : Text → Fields → Option Json
get name end = none
get name (field k v rest) = if text_eq k name then some v else get name rest

-- `row[name]`.
unfoldable pub subscript : Text → Fields → Result PyError Json
subscript name fields = elim (get name fields) [ none ↦ err key_error | some v ↦ ok v ]

-- Python's truth of a value; an absent one is `None`.
unfoldable pub is_truthy : Json → Bool
is_truthy null = false
is_truthy (bool b) = b
is_truthy (int n) = not (n == 0)
is_truthy (str s) = not (text_eq s (codes ""))
is_truthy (arr nil) = false
is_truthy (arr (cons v vs)) = true
is_truthy (obj end) = false
is_truthy (obj (field k v rest)) = true

abbrev pub or_none : Option Json → Json
or_none none = null
or_none (some v) = v

-- A value used as a text: `value.lower()` of anything else raises.
unfoldable pub as_text : Json → Result PyError Text
as_text (str s) = ok s
as_text _ = err attribute_error

-- `value[name]` where the value may be no dictionary.
unfoldable pub as_fields : Json → Result PyError Fields
as_fields (obj fields) = ok fields
as_fields _ = err type_error

-- `fields[name] = value`.
unfoldable pub set_field : Text → Json → Fields → Fields
set_field name value end = field name value end
set_field name value (field k v rest) =
    let later = field k v (set_field name value rest) in
    if text_eq k name then field k value rest else later
