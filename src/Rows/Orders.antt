-- ===== src/Rows/Orders.antt =====
-- The rows of API orders, of payloads and of ranges: `store_orders`, `store_api_payload`,
-- `store_app_data`, `store_native_price` and `record_range` of
-- src/cow_indexer/storage/clickhouse.py.
use cow_indexer.Prelude.{
  ℕ, ◌==◌, ◌∷◌, ◌++◌, [], Bool, List, Option, PyError, Result, String, Text, attribute_error, codes,
  err, false, if◌then◌else◌, length, none, ok, some, value_error, ◌>>=◌,
}
use cow_indexer.Json.{
  Codec, Fields, Json, arr, as_text, bool, canonical_json, cons, end, field, get, int, is_truthy,
  nil, null, obj, or_none, sha256_json, str, subscript,
}
use cow_indexer.Hex.{lower, normalize_address, normalize_hash, validate_order_uid}
use cow_indexer.WorkQueue.{Chain}
use cow_indexer.Rows.{
  Row, address_at, as_int, cell, first_truthy, normal_or_empty, int_at, normal, text_at, then_text,
}

abbrev pub or_value : Option Json → Json → Json
or_value none d = d
or_value (some v) d = v

unfoldable pub is_hash_text : Json → Bool
is_hash_text (str s) = length s == 66
is_hash_text _ = false

unfoldable pub hash_or_empty : Json → Result PyError Text
unfolding is_hash_text
hash_or_empty value =
    if is_hash_text value then then_text (as_text value) (normal normalize_hash) else ok []

-- The rows of an insert into `orders`, and those into `order_events`.
abbrev pub OrderRows : Type 0
OrderRows = List Row × List Row

module _ (codec : Codec) (parse : Text → Option ℕ) (shown : Json → Text) (chain : Chain) (now : ℕ)
    (source : Text) where
  -- `str(value)`.
  unfoldable pub to_str : Json → Text
  to_str (str s) = s
  to_str value = shown value

  -- `parse_datetime(value)`.
  unfoldable pub parse_datetime : Json → Result PyError (Option ℕ)
  parse_datetime null = ok none
  parse_datetime (str s) = elim (parse s) [ some time ↦ ok (some time) | none ↦ err value_error ]
  parse_datetime _ = err attribute_error

  abbrev pub or_now : Option ℕ → ℕ
  or_now none = now
  or_now (some time) = time

  abbrev pub value_at : String → Fields → Json
  value_at name row = or_none (get (codes name) row)

  abbrev pub default_text : String → String → Fields → Json
  default_text name text row = str (to_str (or_value (get (codes name) row) (str (codes text))))

  abbrev pub default_int : String → Fields → Result PyError ℕ
  default_int name row = as_int (or_value (get (codes name) row) (int 0))

  abbrev pub text_or_null : Text → Json
  text_or_null [] = null
  text_or_null (c ∷ cs) = str (c ∷ cs)

  unfoldable pub status_rows : Text → Text → Json → List Row
  unfolding to_str
  status_rows uid owner status =
      if is_truthy status
      then (cell "event_id" (
            str (
              sha256_json codec (
                arr (
                  cons (str chain.environment) (
                    cons (int chain.chain_id) (
                      cons (str uid)
                        (cons (str (codes "status")) (cons status (cons (str source) nil)))))))))
          ∷ cell "environment" (str chain.environment)
          ∷ cell "chain_id" (int chain.chain_id)
          ∷ cell "order_uid" (str uid)
          ∷ cell "owner" (str owner)
          ∷ cell "event_type" (str (codes "status:" ++ to_str status))
          ∷ cell "source" (str source)
          ∷ cell "block_number" null
          ∷ cell "transaction_hash" (str [])
          ∷ cell "log_index" null
          ∷ cell "event_timestamp" (int now)
          ∷ cell "payload" (str (canonical_json codec (obj (field (codes "status") status end))))
          ∷ cell "observed_at" (int now)
          ∷ [])
        ∷ []
      else []

  unfoldable pub order_row : Fields → Result PyError OrderRows
  unfolding parse_datetime to_str status_rows hash_or_empty
  order_row row = do
    owner ← address_at "owner" row
    valid_to ← int_at "validTo" row
    given ← text_at "uid" row
    uid ← normal (λ s. validate_order_uid s (some owner) (some valid_to)) given
    app_data_hash ←
        hash_or_empty (
          first_truthy (value_at "appDataHash" row)
            (first_truthy (value_at "appData" row) (str [])))
    created ← parse_datetime (value_at "creationDate" row)
    sell_token ← address_at "sellToken" row
    buy_token ← address_at "buyToken" row
    receiver ← normal_or_empty (normal normalize_address) (value_at "receiver" row)
    sell ← subscript (codes "sellAmount") row
    buy ← subscript (codes "buyAmount") row
    kind ← subscript (codes "kind") row
    fillable ← subscript (codes "partiallyFillable") row
    sell_amount ← as_int sell
    buy_amount ← as_int buy
    fee_amount ← default_int "feeAmount" row
    executed_sell ← default_int "executedSellAmount" row
    executed_buy ← default_int "executedBuyAmount" row
    executed_fee ← default_int "executedFeeAmount" row
    updated ← parse_datetime (value_at "lastUpdate" row)
    let immutable = obj (
        field (codes "uid") (str uid) (
          field (codes "owner") (str owner) (
            field (codes "sellToken") (str sell_token) (
              field (codes "buyToken") (str buy_token) (
                field (codes "receiver") (text_or_null receiver) (
                  field (codes "sellAmount") (str (to_str sell)) (
                    field (codes "buyAmount") (str (to_str buy)) (
                      field (codes "validTo") (int valid_to) (
                        field (codes "appDataHash") (str app_data_hash) (
                          field (codes "kind") kind (
                            field (codes "partiallyFillable") (bool (is_truthy fillable))
                              end)))))))))))
    ok (
      (cell "environment" (str chain.environment)
            ∷ cell "chain_id" (int chain.chain_id)
            ∷ cell "order_uid" (str uid)
            ∷ cell "owner" (str owner)
            ∷ cell "sell_token" (str sell_token)
            ∷ cell "buy_token" (str buy_token)
            ∷ cell "receiver" (text_or_null receiver)
            ∷ cell "sell_amount" (int sell_amount)
            ∷ cell "buy_amount" (int buy_amount)
            ∷ cell "valid_to" (int valid_to)
            ∷ cell "app_data_hash" (str app_data_hash)
            ∷ cell "fee_amount" (int fee_amount)
            ∷ cell "kind" (str (to_str kind))
            ∷ cell "partially_fillable" (bool (is_truthy fillable))
            ∷ cell "sell_token_balance" (default_text "sellTokenBalance" "erc20" row)
            ∷ cell "buy_token_balance" (default_text "buyTokenBalance" "erc20" row)
            ∷ cell "signing_scheme" (default_text "signingScheme" "" row)
            ∷ cell "signature" (default_text "signature" "" row)
            ∷ cell "creation_date" (int (or_now created))
            ∷ cell "status" (default_text "status" "unknown" row)
            ∷ cell "class" (default_text "class" "unknown" row)
            ∷ cell "executed_sell_amount" (int executed_sell)
            ∷ cell "executed_buy_amount" (int executed_buy)
            ∷ cell "executed_fee_amount" (int executed_fee)
            ∷ cell "immutable_hash" (str (sha256_json codec immutable))
            ∷ cell "source" (str source)
            ∷ cell "raw_payload" (str (canonical_json codec (obj row)))
            ∷ cell "source_updated_at" (int (or_now updated))
            ∷ cell "observed_at" (int now)
            ∷ [])
          ∷ [],
      status_rows uid owner (value_at "status" row),
    )

  -- The rows of `store_orders`: nothing is inserted when one of them raises.
  unfoldable pub order_rows : List Fields → Result PyError OrderRows
  unfolding order_row
  order_rows [] = ok ([], [])
  order_rows (row ∷ rows) = do
    own ← order_row row
    others ← order_rows rows
    ok (own.0 ++ others.0, own.1 ++ others.1)

  unfoldable pub api_payload_row : Text → Text → Json → Row
  api_payload_row endpoint source_key payload =
      cell "environment" (str chain.environment)
      ∷ cell "chain_id" (int chain.chain_id)
      ∷ cell "endpoint" (str endpoint)
      ∷ cell "source_key" (str (lower source_key))
      ∷ cell "payload" (str (canonical_json codec payload))
      ∷ cell "payload_hash" (str (sha256_json codec payload))
      ∷ cell "observed_at" (int now)
      ∷ []

  unfoldable pub app_data_row : Text → Json → Result PyError Row
  app_data_row app_data_hash payload = do
    hash ← normal normalize_hash app_data_hash
    ok (
        cell "environment" (str chain.environment)
        ∷ cell "chain_id" (int chain.chain_id)
        ∷ cell "app_data_hash" (str hash)
        ∷ cell "full_app_data" (str (canonical_json codec payload))
        ∷ cell "source" (str source)
        ∷ cell "observed_at" (int now)
        ∷ [])

  unfoldable pub price_of : Json → Json
  price_of (obj fields) = or_none (get (codes "price") fields)
  price_of payload = payload

  unfoldable pub native_price_row : Text → Json → Result PyError Row
  unfolding price_of to_str
  native_price_row token payload = do
    address ← normal normalize_address token
    ok (
        cell "environment" (str chain.environment)
        ∷ cell "chain_id" (int chain.chain_id)
        ∷ cell "token" (str address)
        ∷ cell "native_price" (str (to_str (price_of payload)))
        ∷ cell "source" (str source)
        ∷ cell "observed_at" (int now)
        ∷ [])

  unfoldable pub range_row : Text → ℕ → ℕ → ℕ → Text → ℕ → Text → Row
  range_row run_id from_block to_block rows status started_at error =
      cell "run_id" (str run_id)
      ∷ cell "environment" (str chain.environment)
      ∷ cell "chain_id" (int chain.chain_id)
      ∷ cell "from_block" (int from_block)
      ∷ cell "to_block" (int to_block)
      ∷ cell "rows" (int rows)
      ∷ cell "status" (str status)
      ∷ cell "error" (str error)
      ∷ cell "started_at" (int started_at)
      ∷ cell "finished_at" (int now)
      ∷ []
