-- ===== src/Tests/Rows.antt =====
-- Rows of a small batch of events.
use cow_indexer.Prelude.{
  ℕ, ◌≡◌, refl, false, some, List, [], ◌∷◌, ◌++◌, codes, replicate, ok, err, length, text_eq,
  starts_with,
}
use cow_indexer.Hex.{
  lower, is_hex_code, prefixed, length_fits, normalize_hex, normalize_address, normalize_order_uid,
}
use cow_indexer.Json.{Json, str, int, field, end, get, subscript, canonical_json, as_text}
use cow_indexer.CowApi.{is_digit}
use cow_indexer.Migrations.{strip, strip_left, strip_right, is_space}
use cow_indexer.Loader.{is_one_of}
use cow_indexer.Models.{DecodedEvent}
use cow_indexer.Rows.{signed, int_digits, address_at, uid_at, int_at, as_int}
use cow_indexer.Rows.Events.{
  Tables, no_rows, combine, decoded_row, trade_row, with_own_row, decoded_event_rows, event_batches,
}
use cow_indexer.Rows.Events.Counts.{event_batches-lengths}
use cow_indexer.Tests.Values.{codec}

program : Unit {0}
unfolding lower is_hex_code prefixed length_fits normalize_hex normalize_address normalize_order_uid
    get as_text subscript canonical_json int_digits signed strip strip_left strip_right is_space
    is_digit is_one_of address_at uid_at int_at as_int no_rows combine decoded_row trade_row
    with_own_row decoded_event_rows event_batches text_eq starts_with
program = tt

hex : ℕ → Json
hex digits = str (codes "0x" ++ replicate digits 97)

trade : DecodedEvent
unfolding hex
trade = record {
  environment = codes "prod";
  chain_id = 1;
  contract_name = codes "Settlement";
  contract_address = codes "0xc";
  event_name = codes "Trade";
  args = field (codes "orderUid") (hex 112) (
      field (codes "owner") (hex 40) (
        field (codes "sellToken") (hex 40) (
          field (codes "buyToken") (hex 40) (
            field (codes "sellAmount") (int 5) (
              field (codes "buyAmount") (str (codes "12"))
                (field (codes "feeAmount") (int 0) end))))));
  block_number = 7;
  block_hash = codes "0xb";
  transaction_hash = codes "0xt";
  transaction_index = 0;
  log_index = 1;
  removed = false;
  block_timestamp = some 100;
}

abbrev batch : List DecodedEvent
batch = trade ∷ record trade { event_name = codes "Other" } ∷ []

tables : Tables
unfolding program trade
tables = elim (event_batches codec 10 batch) [ ok t ↦ t | err e ↦ no_rows ]

event_batches-lengths_example : (length tables.decoded_events ≡ 2) × (length tables.trades ≡ 1)
unfolding program trade tables
event_batches-lengths_example = event_batches-lengths codec 10 batch tables refl
