-- ===== src/Rows/Trades.antt =====
-- The rows of API trades and their fees: `store_api_trades` of
-- src/cow_indexer/storage/clickhouse.py.
use cow_indexer.Prelude.{
  ℕ, ◌+◌, ◌∷◌, ◌++◌, [], List, Option, PyError, Result, Text, attribute_error, codes, err,
  if◌then◌else◌, ok, type_error, ◌>>=◌,
}
use cow_indexer.Json.{
  Codec, Fields, Items, Json, arr, as_text, canonical_json, cons, get, int, is_truthy, nil, obj,
  or_none, str, subscript,
}
use cow_indexer.Hex.{normalize_address, normalize_hash}
use cow_indexer.WorkQueue.{Chain}
use cow_indexer.Rows.{
  Row, address_at, as_int, cell, int_at, normal, normal_or_empty, number_or_null, then_text, uid_at,
}
use cow_indexer.Rows.Orders.{or_value, parse_datetime, to_str}

-- `fee.get`, which only a dictionary has.
unfoldable pub dict_of : Json → Result PyError Fields
dict_of (obj fields) = ok fields
dict_of _ = err attribute_error

-- `row.get("executedProtocolFees") or []`, as a list of dictionaries.
unfoldable pub fee_list : Items → Result PyError (List Fields)
unfolding dict_of
fee_list nil = ok []
fee_list (cons fee fees) = do own ← dict_of fee; others ← fee_list fees; ok (own ∷ others)

unfoldable pub fees_of : Json → Result PyError (List Fields)
unfolding fee_list
fees_of (arr items) = fee_list items
fees_of value = if is_truthy value then err type_error else ok []

unfoldable pub fee_amount : Fields → Result PyError ℕ
fee_amount fee = as_int (or_value (get (codes "amount") fee) (int 0))

unfoldable pub total_fee : List Fields → Result PyError ℕ
unfolding fee_amount
total_fee [] = ok 0
total_fee (fee ∷ fees) = do own ← fee_amount fee; others ← total_fee fees; ok (own + others)

unfoldable pub either_at : Json → Result PyError Json → Result PyError Json
either_at value other = if is_truthy value then ok value else other

module _ (codec : Codec) (parse : Text → Option ℕ) (shown : Json → Text) (chain : Chain) (now : ℕ)
    (source : Text) where
  unfoldable pub fee_rows : Fields → Text → Text → ℕ → ℕ → List Fields → Result PyError (List Row)
  unfolding fee_amount either_at
  fee_rows row uid tx_hash log_index index [] = ok []
  fee_rows row uid tx_hash log_index index (fee ∷ fees) = do
    given ← either_at (or_none (get (codes "token") fee)) (subscript (codes "sellToken") row)
    token ← then_text (as_text given) (normal normalize_address)
    amount ← fee_amount fee
    others ← fee_rows row uid tx_hash log_index (index + 1) fees
    ok (
        (cell "environment" (str chain.environment)
          ∷ cell "chain_id" (int chain.chain_id)
          ∷ cell "order_uid" (str uid)
          ∷ cell "tx_hash" (str tx_hash)
          ∷ cell "log_index" (int log_index)
          ∷ cell "fee_index" (int index)
          ∷ cell "token" (str token)
          ∷ cell "amount" (int amount)
          ∷ cell "policy" (
              str (
                to_str codec parse shown chain now source
                  (or_value (get (codes "policy") fee) (str []))))
          ∷ cell "source" (str source)
          ∷ cell "raw_payload" (str (canonical_json codec (obj fee)))
          ∷ cell "observed_at" (int now)
          ∷ [])
        ∷ others)

  unfoldable pub api_trade_row : Fields → Result PyError (Row × List Row)
  unfolding fee_rows total_fee either_at
  api_trade_row row = do
    given ← either_at (or_none (get (codes "txHash") row)) (subscript (codes "transactionHash") row)
    tx_hash ← then_text (as_text given) (normal normalize_hash)
    uid ← uid_at "orderUid" row
    log_index ← as_int (or_value (get (codes "logIndex") row) (int 0))
    fees ← fees_of (or_none (get (codes "executedProtocolFees") row))
    block_number ← as_int (or_value (get (codes "blockNumber") row) (int 0))
    block_hash ← normal_or_empty (normal normalize_hash) (or_none (get (codes "blockHash") row))
    block_timestamp ←
        parse_datetime codec parse shown chain now source
          (or_none (get (codes "blockTimestamp") row))
    owner ← address_at "owner" row
    sell_token ← address_at "sellToken" row
    buy_token ← address_at "buyToken" row
    sell_amount ← int_at "sellAmount" row
    buy_amount ← int_at "buyAmount" row
    fee_total ← total_fee fees
    own_fees ← fee_rows row uid tx_hash log_index 0 fees
    ok (
      (cell "environment" (str chain.environment)
          ∷ cell "chain_id" (int chain.chain_id)
          ∷ cell "order_uid" (str uid)
          ∷ cell "tx_hash" (str tx_hash)
          ∷ cell "log_index" (int log_index)
          ∷ cell "block_number" (int block_number)
          ∷ cell "block_hash" (str block_hash)
          ∷ cell "block_timestamp" (number_or_null block_timestamp)
          ∷ cell "owner" (str owner)
          ∷ cell "sell_token" (str sell_token)
          ∷ cell "buy_token" (str buy_token)
          ∷ cell "sell_amount" (int sell_amount)
          ∷ cell "buy_amount" (int buy_amount)
          ∷ cell "fee_amount" (int fee_total)
          ∷ cell "source" (str source)
          ∷ cell "raw_payload" (str (canonical_json codec (obj row)))
          ∷ cell "observed_at" (int now)
          ∷ []),
      own_fees,
    )

  -- The rows for `trades` and for `protocol_fees`.
  unfoldable pub api_trade_rows : List Fields → Result PyError (List Row × List Row)
  unfolding api_trade_row
  api_trade_rows [] = ok ([], [])
  api_trade_rows (row ∷ rows) = do
    own ← api_trade_row row
    others ← api_trade_rows rows
    ok (own.0 ∷ others.0, own.1 ++ others.1)
