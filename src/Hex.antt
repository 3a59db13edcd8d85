-- ===== src/Hex.antt =====
-- Normal forms of addresses, hashes and order UIDs: the hexadecimal part of
-- src/cow_indexer/utils.py, and `decode_valid_to` of src/cow_indexer/services/backfill_orderbook.py.
-- Letters are lowered as ASCII; any other letter lowers to no hexadecimal digit, so it is refused
-- either way.
pub mod Normal
pub mod Spelling
pub mod OrderUid
use cow_indexer.Prelude.{
  ℕ, ◌+◌, ◌-◌, ◌*◌, Bool, true, false, not, ◌&&◌, ◌||◌, Option, none, some, List, [], ◌∷◌, ◌++◌,
  map, leb, ◌==◌, if◌then◌else◌, length, take, drop, every, Text, codes, text_eq, starts_with,
  Result, ok, err, ◌>>=◌, ◌>>◌, require,
}

-- The `ValueError`s, by what their messages say.
pub data ValueError : Type 0 where
  not_hexadecimal wrong_length owner_mismatch valid_to_mismatch : ValueError

-- `str.lower`.
lower_code : ℕ → ℕ
lower_code c = if leb 65 c && leb c 90 then c + 32 else c

unfoldable pub lower : Text → Text
unfolding lower_code
lower = map lower_code

-- `character in "0123456789abcdef"`.
unfoldable pub is_hex_code : ℕ → Bool
is_hex_code c = (leb 48 c && leb c 57) || (leb 97 c && leb c 102)

abbrev pub hex_prefix : Text
hex_prefix = codes "0x"

-- The text after `normalized = f"0x{normalized}"`.
unfoldable pub prefixed : Text → Text
prefixed s = if starts_with hex_prefix s then s else hex_prefix ++ s

unfoldable pub length_fits : Option ℕ → Text → Bool
length_fits none payload = true
length_fits (some n) payload = length payload == n * 2

unfoldable pub normalize_hex : Text → Option ℕ → Result ValueError Text
normalize_hex value byte_length = do
  let normalized = prefixed (lower value)
  let payload = drop 2 normalized
  require (every is_hex_code payload) not_hexadecimal
  require (length_fits byte_length payload) wrong_length
  ok normalized

unfoldable pub normalize_address : Text → Result ValueError Text
normalize_address value = normalize_hex value (some 20)

unfoldable pub normalize_hash : Text → Result ValueError Text
normalize_hash value = normalize_hex value (some 32)

unfoldable pub normalize_order_uid : Text → Result ValueError Text
normalize_order_uid value = normalize_hex value (some 56)

-- The value of one hexadecimal digit.
unfoldable pub digit : ℕ → ℕ
digit c = if leb c 57 then c - 48 else c - 87

-- `bytes.fromhex` on hexadecimal digits; an odd one out is a `ValueError`.
unfoldable pub from_hex : Text → Result ValueError (List ℕ)
unfolding digit
from_hex [] = ok []
from_hex (a ∷ []) = err not_hexadecimal
from_hex (a ∷ b ∷ s) = do rest ← from_hex s; ok ((digit a * 16 + digit b) ∷ rest)

-- `int.from_bytes(…, "big")`.
unfoldable pub from_bytes : ℕ → List ℕ → ℕ
from_bytes acc [] = acc
from_bytes acc (b ∷ bs) = from_bytes (acc * 256 + b) bs

-- `int(s, 16)` on hexadecimal digits.
unfoldable pub from_hex_digits : ℕ → Text → ℕ
unfolding digit
from_hex_digits acc [] = acc
from_hex_digits acc (c ∷ s) = from_hex_digits (acc * 16 + digit c) s

-- `raw[a:b]`.
unfoldable pub slice {ℓ} : {A : Type ℓ} → ℕ → ℕ → List A → List A
slice a b xs = take (b - a) (drop a xs)

-- The check of the owner's twenty bytes, made when an owner is given.
owner_check : Option Text → List ℕ → Result ValueError (Unit {0})
owner_check none raw = ok tt
owner_check (some owner) raw = do
  normal ← normalize_address owner
  bytes ← from_hex (drop 2 normal)
  require (text_eq (slice 32 52 raw) bytes) owner_mismatch

valid_to_check : Option ℕ → List ℕ → Result ValueError (Unit {0})
valid_to_check none raw = ok tt
valid_to_check (some valid_to) raw =
    require (from_bytes 0 (slice 52 56 raw) == valid_to) valid_to_mismatch

unfoldable pub validate_order_uid : Text → Option Text → Option ℕ → Result ValueError Text
unfolding owner_check valid_to_check
validate_order_uid value owner valid_to = do
  uid ← normalize_order_uid value
  raw ← from_hex (drop 2 uid)
  owner_check owner raw
  valid_to_check valid_to raw
  ok uid

-- `decode_valid_to`: the hexadecimal digits at VALID_TO_HEX_SLICE, read as one number.
unfoldable pub decode_valid_to : Text → Result ValueError ℕ
decode_valid_to order_uid = do
  uid ← normalize_order_uid order_uid
  ok (from_hex_digits 0 (slice 106 114 uid))
