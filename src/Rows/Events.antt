-- ===== src/Rows/Events.antt =====
-- The rows of decoded events: `_decoded_event_rows` and `store_events` of
-- src/cow_indexer/storage/clickhouse.py.
pub mod Counts
use cow_indexer.Prelude.{
  ℕ, ◌∷◌, ◌++◌, [], Bool, List, Option, PyError, Result, Text, codes, err, false, if◌then◌else◌,
  none, ok, some, text_eq, true, ◌>>=◌,
}
use cow_indexer.Json.{
  Codec, Fields, Json, arr, bool, canonical_json, cons, get, int, is_truthy, nil, null, obj,
  or_none, sha256_json, str, subscript,
}
use cow_indexer.Loader.{is_one_of}
use cow_indexer.Models.{DecodedEvent}
use cow_indexer.Hex.{normalize_address, normalize_order_uid}
use cow_indexer.Json.{as_text}
use cow_indexer.Rows.{
  Row, address_at, cell, first_truthy, int_at, normal, normal_or_empty, number_or_null, then_text,
  uid_at,
}

pub record Tables : Type 0 where
  pub decoded_events : List Row
  pub trades : List Row
  pub settlements : List Row
  pub interactions : List Row
  pub order_events : List Row

unfoldable pub no_rows : Tables
no_rows = record {
  decoded_events = [];
  trades = [];
  settlements = [];
  interactions = [];
  order_events = [];
}

unfoldable pub combine : Tables → Tables → Tables
combine a b = record {
  decoded_events = a.decoded_events ++ b.decoded_events;
  trades = a.trades ++ b.trades;
  settlements = a.settlements ++ b.settlements;
  interactions = a.interactions ++ b.interactions;
  order_events = a.order_events ++ b.order_events;
}

module _ (codec : Codec) (now : ℕ) where
  unfoldable pub decoded_row : DecodedEvent → Row
  decoded_row e =
      cell "environment" (str e.environment)
      ∷ cell "chain_id" (int e.chain_id)
      ∷ cell "contract_name" (str e.contract_name)
      ∷ cell "contract_address" (str e.contract_address)
      ∷ cell "event_name" (str e.event_name)
      ∷ cell "args" (str (canonical_json codec (obj e.args)))
      ∷ cell "block_number" (int e.block_number)
      ∷ cell "block_hash" (str e.block_hash)
      ∷ cell "block_timestamp" (number_or_null e.block_timestamp)
      ∷ cell "transaction_hash" (str e.transaction_hash)
      ∷ cell "transaction_index" (int e.transaction_index)
      ∷ cell "log_index" (int e.log_index)
      ∷ cell "removed" (bool e.removed)
      ∷ cell "observed_at" (int now)
      ∷ []

  unfoldable pub trade_row : DecodedEvent → Result PyError Row
  trade_row e = do
    uid ← uid_at "orderUid" e.args
    owner ← address_at "owner" e.args
    sell_token ← address_at "sellToken" e.args
    buy_token ← address_at "buyToken" e.args
    sell_amount ← int_at "sellAmount" e.args
    buy_amount ← int_at "buyAmount" e.args
    fee_amount ← int_at "feeAmount" e.args
    ok (
        cell "environment" (str e.environment)
        ∷ cell "chain_id" (int e.chain_id)
        ∷ cell "order_uid" (str uid)
        ∷ cell "tx_hash" (str e.transaction_hash)
        ∷ cell "log_index" (int e.log_index)
        ∷ cell "block_number" (int e.block_number)
        ∷ cell "block_hash" (str e.block_hash)
        ∷ cell "block_timestamp" (number_or_null e.block_timestamp)
        ∷ cell "owner" (str owner)
        ∷ cell "sell_token" (str sell_token)
        ∷ cell "buy_token" (str buy_token)
        ∷ cell "sell_amount" (int sell_amount)
        ∷ cell "buy_amount" (int buy_amount)
        ∷ cell "fee_amount" (int fee_amount)
        ∷ cell "source" (str (codes "rpc"))
        ∷ cell "raw_payload" (str (canonical_json codec (obj e.args)))
        ∷ cell "observed_at" (int now)
        ∷ [])

  unfoldable pub settlement_row : DecodedEvent → Result PyError Row
  settlement_row e = do
    solver ← address_at "solver" e.args
    ok (
        cell "environment" (str e.environment)
        ∷ cell "chain_id" (int e.chain_id)
        ∷ cell "tx_hash" (str e.transaction_hash)
        ∷ cell "block_number" (int e.block_number)
        ∷ cell "block_hash" (str e.block_hash)
        ∷ cell "block_timestamp" (number_or_null e.block_timestamp)
        ∷ cell "solver" (str solver)
        ∷ cell "log_index" (int e.log_index)
        ∷ cell "observed_at" (int now)
        ∷ [])

  unfoldable pub interaction_row : DecodedEvent → Result PyError Row
  interaction_row e = do
    target ← address_at "target" e.args
    value ← int_at "value" e.args
    selector ← subscript (codes "selector") e.args
    ok (
        cell "environment" (str e.environment)
        ∷ cell "chain_id" (int e.chain_id)
        ∷ cell "tx_hash" (str e.transaction_hash)
        ∷ cell "block_number" (int e.block_number)
        ∷ cell "block_hash" (str e.block_hash)
        ∷ cell "block_timestamp" (number_or_null e.block_timestamp)
        ∷ cell "log_index" (int e.log_index)
        ∷ cell "target" (str target)
        ∷ cell "value" (int value)
        ∷ cell "selector" selector
        ∷ cell "observed_at" (int now)
        ∷ [])

  unfoldable pub order_event_row : DecodedEvent → Result PyError Row
  unfolding normal_or_empty first_truthy
  order_event_row e = do
    uid ← normal_or_empty (normal normalize_order_uid) (or_none (get (codes "orderUid") e.args))
    owner ← normal_or_empty (normal normalize_address) (
        first_truthy (or_none (get (codes "owner") e.args)) (or_none (get (codes "sender") e.args)))
    let event_id = sha256_json codec (
        arr (
          cons (str e.environment) (
            cons (int e.chain_id) (
              cons (str e.transaction_hash)
                (cons (int e.log_index) (cons (str e.event_name) nil))))))
    ok (
        cell "event_id" (str event_id)
        ∷ cell "environment" (str e.environment)
        ∷ cell "chain_id" (int e.chain_id)
        ∷ cell "order_uid" (str uid)
        ∷ cell "owner" (str owner)
        ∷ cell "event_type" (str e.event_name)
        ∷ cell "source" (str (codes "rpc"))
        ∷ cell "block_number" (int e.block_number)
        ∷ cell "transaction_hash" (str e.transaction_hash)
        ∷ cell "log_index" (int e.log_index)
        ∷ cell "event_timestamp" (number_or_null e.block_timestamp)
        ∷ cell "payload" (str (canonical_json codec (obj e.args)))
        ∷ cell "observed_at" (int now)
        ∷ [])

  abbrev pub order_event_names : List Text
  order_event_names =
      codes "OrderInvalidated"
      ∷ codes "OrderInvalidation"
      ∷ codes "OrderRefund"
      ∷ codes "PreSignature"
      ∷ codes "OrderPlacement"
      ∷ codes "ConditionalOrderCreated"
      ∷ codes "MerkleRootSet"
      ∷ codes "SwapGuardSet"
      ∷ []

  -- The if/elif ladder for the three tables of their own.
  unfoldable pub with_own_row : DecodedEvent → Tables → Result PyError Tables
  unfolding trade_row settlement_row interaction_row
  with_own_row e t =
      if text_eq e.event_name (codes "Trade")
      then (do row ← trade_row e; ok (record t { trades = row ∷ [] }))
      else if text_eq e.event_name (codes "Settlement")
      then (do row ← settlement_row e; ok (record t { settlements = row ∷ [] }))
      else if text_eq e.event_name (codes "Interaction")
      then (do row ← interaction_row e; ok (record t { interactions = row ∷ [] }))
      else ok t

  unfoldable pub decoded_event_rows : DecodedEvent → Result PyError Tables
  unfolding decoded_row with_own_row order_event_row no_rows
  decoded_event_rows e = do
    tables ← with_own_row e (record no_rows { decoded_events = decoded_row e ∷ [] })
    if is_one_of e.event_name order_event_names
        then (do row ← order_event_row e; ok (record tables { order_events = row ∷ [] }))
        else ok tables

  -- The batches of `store_events`.
  unfoldable pub event_batches : List DecodedEvent → Result PyError Tables
  unfolding decoded_event_rows combine no_rows
  event_batches [] = ok no_rows
  event_batches (e ∷ es) = do
    own ← decoded_event_rows e
    others ← event_batches es
    ok (combine own others)
