-- ===== src/Tests/Exports.antt =====
-- An export of three orders.
use cow_indexer.Prelude.{
  Result, PyError, ℕ, ◌≡◌, ◌≢◌, refl, none, some, List, [], ◌∷◌, ◌++◌, Text, codes, replicate, ok,
  err, text_eq, starts_with, inl, inr, Option, if◌then◌else◌,
}
use cow_indexer.Hex.{
  lower, is_hex_code, prefixed, length_fits, normalize_hex, normalize_address, normalize_order_uid,
  normalize_hash, validate_order_uid, from_hex, from_bytes, slice,
}
use cow_indexer.Json.{
  Json, Fields, str, int, null, field, end, get, canonical_json, sha256_json, as_text, is_truthy,
}
use cow_indexer.CowApi.{is_digit}
use cow_indexer.Migrations.{strip, strip_left, strip_right, is_space}
use cow_indexer.Rows.{signed, int_digits, as_int}
use cow_indexer.Rows.Orders.{to_str, parse_datetime}
use cow_indexer.Exports.{one, pick, named, order, immutable}
use cow_indexer.Exports.Normalise.{
  Imported, nothing, outcome_of_row, each_row, normalize_export_rows, conflict_row,
}
use cow_indexer.Exports.Normalise.Counts.{
  IsCounted, normalize_export_rows-IsCounted, normalize_export_rows-ownerless,
}
use cow_indexer.Exports.Normalise.Conflicts.{IsSeparated, normalize_export_rows-IsSeparated}
use cow_indexer.Tests.Values.{codec, chain, text_of}

program : Unit {0}
unfolding lower is_hex_code prefixed length_fits normalize_hex normalize_address normalize_order_uid
    normalize_hash validate_order_uid from_hex from_bytes slice get canonical_json sha256_json
    as_text is_truthy int_digits signed strip strip_left strip_right is_space is_digit as_int to_str
    parse_datetime pick named order immutable outcome_of_row each_row normalize_export_rows
    conflict_row text_eq starts_with codec text_of
program = tt

-- The owner's twenty bytes, and the last four bytes of a UID.
abbrev owner : Text
owner = codes "0x" ++ replicate 40 b'a'

abbrev uid : ℕ → Text
uid c = codes "0x" ++ replicate 64 c ++ replicate 40 b'a' ++ codes "00000010"

abbrev order_of : ℕ → Fields
order_of c = field (codes "owner") (str owner) (
    field (codes "validTo") (int 16) (
      field (codes "uid") (str (uid c)) (
        field (codes "sellToken") (str owner) (
          field (codes "buyToken") (str owner) (
            field (codes "sellAmount") (str (codes "5"))
              (field (codes "buyAmount") (str (codes "7")) end))))))

-- A row whose `validTo` is missing.
abbrev partial : Fields
partial = field (codes "owner") (str owner) end

-- A row whose owner is null.
abbrev ownerless : Fields
ownerless = field (codes "owner") null end

abbrev parse : Text → Option ℕ
parse s = none

abbrev shown : Json → Text
shown value = codes "None"

-- The store has the second order under another hash.
abbrev existing : Text → Option Text
existing key = if text_eq key (uid b'2') then some (codes "other") else none

abbrev rows : List Fields
rows = order_of b'1' ∷ order_of b'2' ∷ partial ∷ []

abbrev import_of : List Fields → Result PyError Imported
import_of rows =
    normalize_export_rows codec parse shown chain 5 6 (codes "b1") existing (codes "orders") rows

imported : Imported
unfolding program
imported = elim (import_of rows) [ ok i ↦ i | err e ↦ nothing ]

is_imported : import_of rows ≡ ok imported
unfolding program imported
is_imported = refl

one_of_each : imported.stats ≡ record { accepted = 1; duplicates = 0; rejected = 1; conflicts = 1 }
unfolding program imported
one_of_each = refl

normalize_export_rows-IsCounted_example : IsCounted 3 imported
normalize_export_rows-IsCounted_example =
    normalize_export_rows-IsCounted codec parse shown chain 5 6 (codes "b1") existing
      (codes "orders") rows imported is_imported

normalize_export_rows-IsSeparated_example :
    IsSeparated codec parse shown chain 5 6 (codes "b1") existing rows imported
normalize_export_rows-IsSeparated_example =
    normalize_export_rows-IsSeparated codec parse shown chain 5 6 (codes "b1") existing rows
      imported is_imported

ownerless-owner : one "owner" ownerless ≡ null
unfolding program
ownerless-owner = refl

normalize_export_rows-ownerless_example : import_of (partial ∷ ownerless ∷ []) ≢ ok nothing
normalize_export_rows-ownerless_example =
    normalize_export_rows-ownerless codec parse shown chain 5 6 (codes "b1") existing ownerless
      (partial ∷ ownerless ∷ []) nothing ownerless-owner (inr (inl refl))
