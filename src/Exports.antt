-- ===== src/Exports.antt =====
-- The rows of an export bundle: src/cow_indexer/sources/exports/adapters.py. What the store holds of an
-- order is a parameter, and so are the reading of times and Python's `str`. A row is a dictionary, as
-- it is read from a file; the reading of the file is not modelled.
pub mod Datasets
pub mod Normalise
use cow_indexer.Prelude.{
  ℕ, ◌+◌, ◌∷◌, ◌++◌, [], Bool, List, Option, PyError, Result, String, Text, attribute_error,
  key_error, type_error, value_error, codes, err, false, if◌then◌else◌, none, ok, some, text_eq,
  true, ◌>>=◌, map,
}
use cow_indexer.Json.{
  Codec, Fields, Json, as_text, bool, canonical_json, end, field, get, int, is_truthy, null, obj,
  or_none, sha256_json, str,
}
use cow_indexer.Hex.{
  ValueError, normalize_address, normalize_hash, normalize_order_uid, validate_order_uid,
}
use cow_indexer.Models.{ImportStats}
use cow_indexer.WorkQueue.{Chain}
use cow_indexer.Rows.{Row, as_int, cell, normal, then_text}
use cow_indexer.Rows.Orders.{parse_datetime, to_str}

-- SUPPORTED_DATASETS.
pub data Dataset : Type 0 where
  orders order_events auctions auction_orders solver_competitions trades app_data quotes : Dataset

abbrev pub dataset_name : Dataset → Text
dataset_name orders = codes "orders"
dataset_name order_events = codes "order_events"
dataset_name auctions = codes "auctions"
dataset_name auction_orders = codes "auction_orders"
dataset_name solver_competitions = codes "solver_competitions"
dataset_name trades = codes "trades"
dataset_name app_data = codes "app_data"
dataset_name quotes = codes "quotes"

abbrev pub supported_datasets : List Dataset
supported_datasets =
    orders ∷ order_events ∷ auctions ∷ auction_orders ∷ solver_competitions ∷ trades ∷ app_data
    ∷ quotes ∷ []

unfoldable pub named : Text → List Dataset → Option Dataset
named name [] = none
named name (d ∷ ds) =
    let later = named name ds in if text_eq (dataset_name d) name then some d else later

-- `_get`, with the names and the default.
abbrev given_or : Option Json → Json → Json
given_or none later = later
given_or (some null) later = later
given_or (some value) later = value

unfoldable pub pick : List String → Json → Fields → Json
pick [] default row = default
pick (name ∷ names) default row = given_or (get (codes name) row) (pick names default row)

abbrev pub one : String → Fields → Json
one name row = pick (name ∷ []) null row

abbrev pub two : String → String → Fields → Json
two name other row = pick (name ∷ other ∷ []) null row

abbrev pub one_or : String → Json → Fields → Json
one_or name default row = pick (name ∷ []) default row

abbrev pub two_or : String → String → Json → Fields → Json
two_or name other default row = pick (name ∷ other ∷ []) default row

abbrev pub normalized : (Text → Result ValueError Text) → Json → Result PyError Text
normalized normalize value = then_text (as_text value) (normal normalize)

-- `normalize(value) if value else ""`.
abbrev pub or_empty : (Text → Result ValueError Text) → Json → Result PyError Text
or_empty normalize value = if is_truthy value then normalized normalize value else ok []

abbrev or_null : Result PyError Text → Json → Result PyError Json
or_null (ok s) value = ok (if is_truthy value then str s else null)
or_null (err e) value = err e

-- `int(value) if value is not None else None`.
abbrev pub int_or_null : Json → Result PyError Json
int_or_null null = ok null
int_or_null value = as_int value >>= λ n. ok (int n)

-- What becomes of a row: a row for the dataset's table, a duplicate, or a conflict.
pub data RowOutcome : Type 0 where
  accepted : Row → RowOutcome
  duplicate : RowOutcome
  conflict : Row → RowOutcome

pub record Order : Type 0 where
  pub uid : Text
  pub row : Row
  pub immutable_hash : Text

module _ (codec : Codec) (parse : Text → Option ℕ) (shown : Json → Text) (chain : Chain)
    (snapshot_at now : ℕ) where
  abbrev pub text_of : Json → Text
  text_of value = to_str codec parse shown chain now (codes "export") value

  abbrev pub time_of : Json → Result PyError (Option ℕ)
  time_of value = parse_datetime codec parse shown chain now (codes "export") value

  abbrev pub or_snapshot : Option ℕ → Json
  or_snapshot none = int snapshot_at
  or_snapshot (some time) = int time

  abbrev pub time_or_null : Option ℕ → Json
  time_or_null none = null
  time_or_null (some time) = int time

  -- `normalize_hash(app_data)`, unless it is empty.
  abbrev app_data_of : Json → Result PyError Json
  app_data_of value =
      if is_truthy value
      then (normalized normalize_hash value >>= λ hash. ok (str hash))
      else ok value

  abbrev checked_uid : Text → ℕ → Json → Result PyError Text
  checked_uid owner valid_to value =
      normalized (λ uid. validate_order_uid uid (some owner) (some valid_to)) value

  -- The dictionary `immutable`.
  unfoldable pub immutable : Text → Text → ℕ → Json → Text → Text → Json → Fields → Json
  unfolding pick
  immutable uid owner valid_to document sell_token buy_token receiver row = obj (
      field (codes "uid") (str uid) (
        field (codes "owner") (str owner) (
          field (codes "sellToken") (str sell_token) (
            field (codes "buyToken") (str buy_token) (
              field (codes "receiver") receiver (
                field (codes "sellAmount") (str (text_of (two "sell_amount" "sellAmount" row))) (
                  field (codes "buyAmount") (str (text_of (two "buy_amount" "buyAmount" row))) (
                    field (codes "validTo") (int valid_to) (
                      field (codes "appDataHash") document (
                        field (codes "kind") (one "kind" row) (
                          field (codes "partiallyFillable")
                            (bool (is_truthy (two "partially_fillable" "partiallyFillable" row)))
                            end)))))))))))

  -- `_order`.
  unfoldable pub order : Fields → Result PyError Order
  unfolding immutable
  order row = do
    owner ← normalized normalize_address (one "owner" row)
    valid_to ← as_int (two "valid_to" "validTo" row)
    uid ← checked_uid owner valid_to (two "order_uid" "uid" row)
    document ← app_data_of (two_or "app_data_hash" "appDataHash" (str []) row)
    sell_token ← normalized normalize_address (two "sell_token" "sellToken" row)
    buy_token ← normalized normalize_address (two "buy_token" "buyToken" row)
    receiver ← or_null (or_empty normalize_address (one "receiver" row)) (one "receiver" row)
    let kept = immutable uid owner valid_to document sell_token buy_token receiver row
    sell_amount ← as_int (str (text_of (two "sell_amount" "sellAmount" row)))
    buy_amount ← as_int (str (text_of (two "buy_amount" "buyAmount" row)))
    fee_amount ← as_int (two_or "fee_amount" "feeAmount" (int 0) row)
    created ← time_of (two "creation_date" "creationDate" row)
    executed_sell ← as_int (two_or "executed_sell_amount" "executedSellAmount" (int 0) row)
    executed_buy ← as_int (two_or "executed_buy_amount" "executedBuyAmount" (int 0) row)
    executed_fee ← as_int (two_or "executed_fee_amount" "executedFeeAmount" (int 0) row)
    updated ← time_of (two "source_updated_at" "updated_at" row)
    ok (record {
      uid = uid;
      immutable_hash = sha256_json codec kept;
      row =
          cell "environment" (str chain.environment)
          ∷ cell "chain_id" (int chain.chain_id)
          ∷ cell "order_uid" (str uid)
          ∷ cell "owner" (str owner)
          ∷ cell "sell_token" (str sell_token)
          ∷ cell "buy_token" (str buy_token)
          ∷ cell "receiver" receiver
          ∷ cell "sell_amount" (int sell_amount)
          ∷ cell "buy_amount" (int buy_amount)
          ∷ cell "valid_to" (int valid_to)
          ∷ cell "app_data_hash" document
          ∷ cell "fee_amount" (int fee_amount)
          ∷ cell "kind" (str (text_of (one "kind" row)))
          ∷ cell "partially_fillable"
              (bool (is_truthy (two "partially_fillable" "partiallyFillable" row)))
          ∷ cell "sell_token_balance" (
              str (
                text_of (two_or "sell_token_balance" "sellTokenBalance" (str (codes "erc20")) row)))
          ∷ cell "buy_token_balance" (
              str
                (text_of (two_or "buy_token_balance" "buyTokenBalance" (str (codes "erc20")) row)))
          ∷ cell "signing_scheme"
              (str (text_of (two_or "signing_scheme" "signingScheme" (str []) row)))
          ∷ cell "signature" (str (text_of (one_or "signature" (str []) row)))
          ∷ cell "creation_date" (or_snapshot created)
          ∷ cell "status" (str (text_of (one_or "status" (str (codes "unknown")) row)))
          ∷ cell "class" (str (text_of (one_or "class" (str (codes "unknown")) row)))
          ∷ cell "executed_sell_amount" (int executed_sell)
          ∷ cell "executed_buy_amount" (int executed_buy)
          ∷ cell "executed_fee_amount" (int executed_fee)
          ∷ cell "immutable_hash" (str (sha256_json codec kept))
          ∷ cell "source" (str (codes "export"))
          ∷ cell "raw_payload" (str (canonical_json codec (obj row)))
          ∷ cell "source_updated_at" (or_snapshot updated)
          ∷ cell "observed_at" (int now)
          ∷ [];
    })
