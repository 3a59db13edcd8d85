-- ===== src/Exports/Datasets.antt =====
-- The rows of the datasets other than orders: `normalize_export_rows` of
-- src/cow_indexer/sources/exports/adapters.py, and its loop.
use cow_indexer.Prelude.{ℕ, ◌∷◌, [], Option, PyError, Result, Text, codes, ok, ◌>>=◌}
use cow_indexer.Json.{Codec, Fields, Json, canonical_json, int, obj, sha256_json, str}
use cow_indexer.Hex.{normalize_address, normalize_hash, normalize_order_uid}
use cow_indexer.WorkQueue.{Chain}
use cow_indexer.Rows.{Row, as_int, cell}
use cow_indexer.Exports.{
  one, two, one_or, two_or, normalized, or_empty, int_or_null, text_of, time_of, or_snapshot,
  time_or_null,
}

module _ (codec : Codec) (parse : Text → Option ℕ) (shown : Json → Text) (chain : Chain)
    (snapshot_at now : ℕ) where
  abbrev text : Json → Json
  text value = str (text_of codec parse shown chain snapshot_at now value)

  abbrev time : Json → Result PyError (Option ℕ)
  time value = time_of codec parse shown chain snapshot_at now value

  abbrev nullable : Option ℕ → Json
  nullable t = time_or_null codec parse shown chain snapshot_at now t

  abbrev raw : Fields → Json
  raw row = str (canonical_json codec (obj row))

  abbrev on_chain : Row → Row
  on_chain cells =
      cell "environment" (str chain.environment) ∷ cell "chain_id" (int chain.chain_id) ∷ cells

  unfoldable pub order_event : Fields → Result PyError Row
  order_event row = do
    uid ← or_empty normalize_order_uid (one "order_uid" row)
    owner ← or_empty normalize_address (one "owner" row)
    block_number ← int_or_null (one "block_number" row)
    tx_hash ← or_empty normalize_hash (one "transaction_hash" row)
    log_index ← int_or_null (one "log_index" row)
    at ← time (two "event_timestamp" "timestamp" row)
    ok (
        cell "event_id" (text (one_or "event_id" (str (sha256_json codec (obj row))) row))
        ∷ on_chain (
            cell "order_uid" (str uid)
            ∷ cell "owner" (str owner)
            ∷ cell "event_type" (text (two "event_type" "type" row))
            ∷ cell "source" (str (codes "export"))
            ∷ cell "block_number" block_number
            ∷ cell "transaction_hash" (str tx_hash)
            ∷ cell "log_index" log_index
            ∷ cell "event_timestamp" (nullable at)
            ∷ cell "payload" (raw row)
            ∷ cell "observed_at" (int now)
            ∷ []))

  unfoldable pub auction : Fields → Result PyError Row
  auction row = do
    id ← as_int (two "auction_id" "id" row)
    block ← as_int (two_or "block_number" "block" (int 0) row)
    deadline ← time (one "deadline" row)
    ok (
        on_chain (
          cell "auction_id" (int id)
          ∷ cell "block_number" (int block)
          ∷ cell "deadline" (nullable deadline)
          ∷ cell "source" (str (codes "export"))
          ∷ cell "payload" (raw row)
          ∷ cell "observed_at" (int now)
          ∷ []))

  unfoldable pub auction_order : Fields → Result PyError Row
  auction_order row = do
    id ← as_int (one "auction_id" row)
    uid ← normalized normalize_order_uid (two "order_uid" "uid" row)
    ok (
        on_chain (
          cell "auction_id" (int id)
          ∷ cell "order_uid" (str uid)
          ∷ cell "payload" (raw row)
          ∷ cell "observed_at" (int now)
          ∷ []))

  unfoldable pub solver_competition : Fields → Result PyError Row
  solver_competition row = do
    id ← as_int (one "auction_id" row)
    tx_hash ← or_empty normalize_hash (two_or "tx_hash" "transaction_hash" (str []) row)
    winner ← or_empty normalize_address (one_or "winner" (str []) row)
    block ← as_int (one_or "auction_block" (int 0) row)
    ok (
        on_chain (
          cell "auction_id" (int id)
          ∷ cell "tx_hash" (str tx_hash)
          ∷ cell "winner" (str winner)
          ∷ cell "reference_score" (text (one_or "reference_score" (str []) row))
          ∷ cell "auction_block" (int block)
          ∷ cell "source" (str (codes "export"))
          ∷ cell "raw_payload" (raw row)
          ∷ cell "observed_at" (int now)
          ∷ []))

  unfoldable pub trade : Fields → Result PyError Row
  trade row = do
    uid ← normalized normalize_order_uid (one "order_uid" row)
    tx_hash ← normalized normalize_hash (two "tx_hash" "transaction_hash" row)
    log_index ← as_int (one_or "log_index" (int 0) row)
    block_number ← as_int (one_or "block_number" (int 0) row)
    block_hash ← or_empty normalize_hash (one "block_hash" row)
    at ← time (one "block_timestamp" row)
    owner ← normalized normalize_address (one "owner" row)
    sell_token ← normalized normalize_address (one "sell_token" row)
    buy_token ← normalized normalize_address (one "buy_token" row)
    sell_amount ← as_int (one "sell_amount" row)
    buy_amount ← as_int (one "buy_amount" row)
    fee_amount ← as_int (one_or "fee_amount" (int 0) row)
    ok (
        on_chain (
          cell "order_uid" (str uid)
          ∷ cell "tx_hash" (str tx_hash)
          ∷ cell "log_index" (int log_index)
          ∷ cell "block_number" (int block_number)
          ∷ cell "block_hash" (str block_hash)
          ∷ cell "block_timestamp" (nullable at)
          ∷ cell "owner" (str owner)
          ∷ cell "sell_token" (str sell_token)
          ∷ cell "buy_token" (str buy_token)
          ∷ cell "sell_amount" (int sell_amount)
          ∷ cell "buy_amount" (int buy_amount)
          ∷ cell "fee_amount" (int fee_amount)
          ∷ cell "source" (str (codes "export"))
          ∷ cell "raw_payload" (raw row)
          ∷ cell "observed_at" (int now)
          ∷ []))

  unfoldable pub document : Fields → Result PyError Row
  document row = do
    hash ← normalized normalize_hash (one "app_data_hash" row)
    ok (
        on_chain (
          cell "app_data_hash" (str hash)
          ∷ cell "full_app_data" (str (canonical_json codec (two "full_app_data" "app_data" row)))
          ∷ cell "source" (str (codes "export"))
          ∷ cell "observed_at" (int now)
          ∷ []))

  unfoldable pub quote : Fields → Result PyError Row
  quote row = do
    owner ← or_empty normalize_address (one "owner" row)
    sell_token ← normalized normalize_address (one "sell_token" row)
    buy_token ← normalized normalize_address (one "buy_token" row)
    sell_amount ← as_int (one_or "sell_amount" (int 0) row)
    buy_amount ← as_int (one_or "buy_amount" (int 0) row)
    fee_amount ← as_int (one_or "fee_amount" (int 0) row)
    created ← time (one "created_at" row)
    ok (
        on_chain (
          cell "quote_id" (text (two "quote_id" "id" row))
          ∷ cell "owner" (str owner)
          ∷ cell "sell_token" (str sell_token)
          ∷ cell "buy_token" (str buy_token)
          ∷ cell "sell_amount" (int sell_amount)
          ∷ cell "buy_amount" (int buy_amount)
          ∷ cell "fee_amount" (int fee_amount)
          ∷ cell "payload" (raw row)
          ∷ cell "source" (str (codes "export"))
          ∷ cell "created_at" (or_snapshot codec parse shown chain snapshot_at now created)
          ∷ cell "observed_at" (int now)
          ∷ []))
