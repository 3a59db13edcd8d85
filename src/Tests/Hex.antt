-- ===== src/Tests/Hex.antt =====
-- Addresses and order UIDs.
use cow_indexer.Prelude.{
  ◌≡◌, refl, ◌↔◌, some, none, ◌++◌, replicate, Text, codes, ok, err, drop, starts_with, text_eq,
}
use cow_indexer.Hex.{
  not_hexadecimal, wrong_length, owner_mismatch, lower, is_hex_code, prefixed, length_fits,
  normalize_hex, normalize_address, normalize_order_uid, from_hex, from_bytes, from_hex_digits,
  slice, validate_order_uid, decode_valid_to,
}
use cow_indexer.Hex.Normal.{normalize_hex_idem}
use cow_indexer.Hex.Spelling.{IsNormalised, normalize_hex-IsNormalised}
use cow_indexer.Hex.OrderUid.{validate_order_uid_iff}

program : Unit {0}
unfolding lower is_hex_code prefixed length_fits normalize_hex normalize_address normalize_order_uid
    from_hex from_bytes from_hex_digits slice validate_order_uid decode_valid_to starts_with text_eq
program = tt

upper_case : normalize_hex (codes "ABcd") (some 2) ≡ ok (codes "0xabcd")
unfolding program
upper_case = refl

upper_prefix : normalize_hex (codes "0XAB") none ≡ ok (codes "0xab")
unfolding program
upper_prefix = refl

odd : normalize_hex (codes "0xabc") (some 2) ≡ err wrong_length
unfolding program
odd = refl

not_hex : normalize_hex (codes "0xzz") (some 1) ≡ err not_hexadecimal
unfolding program
not_hex = refl

normalize_hex-IsNormalised_example :
    (normalize_hex (codes "ABcd") (some 2) ≡ ok (codes "0xabcd"))
    ↔ IsNormalised (codes "ABcd") (some 2) (codes "0xabcd")
normalize_hex-IsNormalised_example =
    normalize_hex-IsNormalised (codes "ABcd") (some 2) (codes "0xabcd")

idem_run : normalize_hex (codes "0xabcd") (some 2) ≡ ok (codes "0xabcd")
idem_run = normalize_hex_idem (codes "ABcd") (some 2) (codes "0xabcd") upper_case

-- A UID of digest 11…, owner 22… and validTo 0x0000ff01.
abbrev owner : Text
owner = codes "0x" ++ replicate 40 50

abbrev uid : Text
uid = codes "0x" ++ (replicate 64 49 ++ (replicate 40 50 ++ codes "0000ff01"))

normal_uid : normalize_order_uid uid ≡ ok uid
unfolding program
normal_uid = refl

normal_owner : normalize_address owner ≡ ok owner
unfolding program
normal_owner = refl

valid_uid : validate_order_uid uid (some owner) (some 65281) ≡ ok uid
unfolding program
valid_uid = refl

other_owner :
    validate_order_uid uid (some (codes "0x" ++ replicate 40 51)) none ≡ err owner_mismatch
unfolding program
other_owner = refl

decoded : decode_valid_to uid ≡ ok 65281
unfolding program
decoded = refl

validate_order_uid_iff_example :
    (validate_order_uid uid (some owner) (some 65281) ≡ ok uid)
    ↔ ((slice 66 106 uid ≡ drop 2 owner) × (decode_valid_to uid ≡ ok 65281))
validate_order_uid_iff_example =
    validate_order_uid_iff owner owner uid 65281 uid normal_uid normal_owner
