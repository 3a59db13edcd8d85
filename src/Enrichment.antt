-- ===== src/Enrichment.antt =====
-- The work of one leased item: `EnrichmentService` of src/cow_indexer/services/enrichment.py. The
-- API and the store are interfaces: each call of the API takes the number of the call, and each call
-- of the store the number of those that the store took before it.
pub mod Outcomes
pub mod Journals
pub mod Batch
pub mod Deadline
use cow_indexer.Prelude.{
  ℕ, ◌*◌, type_error, value_error, ◌+◌, ◌^◌, ◌==◌, ◌∷◌, ◌++◌, [], Bool, List, Option, PyError,
  Result, Text, attribute_error, codes, err, false, if◌then◌else◌, leb, length, min, none, ok, some,
  text_eq, true,
}
use cow_indexer.Exec.{Exec, go_on, raising, returning, ◌>>=◌, ◌>>◌}
use cow_indexer.Json.{
  Fields, Json, as_text, field, get, is_truthy, null, obj, or_none, str, arr, Items, nil, cons, end,
}
use cow_indexer.Hex.{ValueError, normalize_order_uid}
use cow_indexer.WorkQueue.{
  Kind, order_uid, owner, tx_hash, tx_competition, app_data, token, order_uids_batch,
  owner_orders_backfill, WorkItem, Outcome, unavailable_from_public_api,
}
use cow_indexer.WorkQueue.Enqueue.{WorkKey}

pub data Failure : Type 0 where
  competition_unavailable : Text → Failure
  exception : Text → Failure

pub data StoreCall : Type 0 where
  store_api_payload : Text → Text → Json → StoreCall
  store_orders : List Json → StoreCall
  store_api_trades : List Json → StoreCall
  store_competition : Json → StoreCall
  store_app_data : Text → Json → StoreCall
  store_native_price : Text → Json → StoreCall
  store_native_price_miss : Text → StoreCall
  release_work : List WorkItem → StoreCall
  enqueue_work_many : List WorkKey → StoreCall
  finish_work : WorkItem → Outcome → StoreCall

-- The pages of an endpoint, and the failure that ends them, if one does.
abbrev pub Pages : Type 0
Pages = List (List Json) × Option Failure

pub record Services : Type 0 where
  pub get_order : ℕ → Text → Result Failure Json
  pub get_orders_by_uids : ℕ → List Text → Result Failure (List Json)
  pub get_order_status : ℕ → Text → Result Failure Json
  pub get_orders_by_transaction : ℕ → Text → Result Failure (List Json)
  pub competition_by_transaction : ℕ → Text → Result Failure Json
  pub get_app_data : ℕ → Text → Result Failure Json
  pub native_price : ℕ → Text → Result Failure Json
  pub order_trades : ℕ → Text → Pages
  pub owner_trades : ℕ → Text → Pages
  pub account_orders : ℕ → Text → Pages
  pub refuses : ℕ → StoreCall → Option Failure
  pub describe : PyError → Text
  pub describe_value : ValueError → Text

pub record Journal : Type 0 where
  pub asked : ℕ
  pub done : List StoreCall

abbrev pub Work : Type 0 → Type 0
Work A = Exec Journal Failure A

-- `order.get`, which only a dictionary has.
unfoldable pub as_dict : Json → Result PyError Fields
as_dict (obj fields) = ok fields
as_dict _ = err attribute_error

abbrev pub either_of : Json → Json → Json
either_of a b = if is_truthy a then a else b

abbrev pub value_of : Text → Fields → Json
value_of name fields = or_none (get name fields)

-- One of the optional items of a fan-out.
unfoldable pub key_if : Kind → Json → Result PyError (List WorkKey)
key_if kind value =
    if is_truthy value
    then (elim (as_text value) [ ok key ↦ ok ((kind, key, none) ∷ []) | err e ↦ err e ])
    else ok []

unfoldable pub document_key : Json → List WorkKey
document_key (str s) = if length s == 66 then (app_data, s, none) ∷ [] else []
document_key _ = []

abbrev pub joined :
    Result PyError (List WorkKey) → Result PyError (List WorkKey) → Result PyError (List WorkKey)
joined (err e) later = err e
joined (ok keys) (err e) = err e
joined (ok keys) (ok others) = ok (keys ++ others)

-- The items of `_fanout_order`.
unfoldable pub order_keys : Bool → Fields → Result PyError (List WorkKey)
unfolding key_if document_key
order_keys include_owner order = joined (key_if order_uid (value_of (codes "uid") order)) (
    joined (if include_owner then key_if owner (value_of (codes "owner") order) else ok []) (
      joined (key_if token (value_of (codes "sellToken") order)) (
        joined (key_if token (value_of (codes "buyToken") order)) (
          ok (
            document_key (
              either_of (value_of (codes "appDataHash") order)
                (value_of (codes "appData") order)))))))

unfoldable pub uid_or_none : Result ValueError Text → Json → Option (Text × Json)
uid_or_none (ok uid) payload = some (uid, payload)
uid_or_none (err e) payload = none

unfoldable pub named_order : Json → Json → Option (Text × Json)
unfolding uid_or_none
named_order (str uid) payload = uid_or_none (normalize_order_uid uid) payload
named_order _ payload = none

-- `normalize_auction_order` of src/cow_indexer/utils.py.
unfoldable pub normalize_auction_order : Json → Option (Text × Json)
unfolding named_order
normalize_auction_order (str uid) = named_order (str uid) (obj (field (codes "uid") (str uid) end))
normalize_auction_order (obj order) =
    named_order (either_of (value_of (codes "uid") order) (value_of (codes "orderUid") order))
      (obj order)
normalize_auction_order _ = none

-- The items of `_fanout_competition`.
unfoldable pub auction_keys : Items → List WorkKey
auction_keys nil = []
auction_keys (cons order orders) =
    let rest = auction_keys orders in
    elim (normalize_auction_order order) [
      | some (uid, payload) ↦ (order_uid, uid, none) ∷ rest
      | none ↦ rest
    ]

unfoldable pub items_of : List Json → Items
items_of [] = nil
items_of (x ∷ xs) = cons x (items_of xs)

unfoldable pub keys_of : Fields → Items
keys_of end = nil
keys_of (field name value rest) = cons (str name) (keys_of rest)

-- `for order in auction.get("orders", [])`: the characters of a text are no UIDs.
unfoldable pub iterated : Option Json → Result PyError Items
unfolding keys_of
iterated none = ok nil
iterated (some (arr items)) = ok items
iterated (some (obj fields)) = ok (keys_of fields)
iterated (some (str s)) = ok nil
iterated (some _) = err type_error

unfoldable pub auction_orders : Json → Result PyError Items
unfolding iterated
auction_orders auction =
    if is_truthy auction
    then (elim (as_dict auction) [
      | ok fields ↦ iterated (get (codes "orders") fields)
      | err e ↦ err e
    ])
    else ok nil

unfoldable pub order_at : Text → List (Text × Json) → Json
order_at uid [] = null
order_at uid ((name, order) ∷ orders) =
    let later = order_at uid orders in if text_eq name uid then order else later

-- The dictionary of `_prefetch_orders`, the latest entry first.
unfoldable pub prefetched_from :
    List (Text × Json) → List Json → Result PyError (List (Text × Json))
prefetched_from found [] = ok found
prefetched_from found (order ∷ orders) = elim (as_dict order) [
  | err e ↦ err e
  | ok fields ↦ elim (is_truthy (value_of (codes "uid") fields)) [
    | false ↦ prefetched_from found orders
    | true ↦ elim (as_text (value_of (codes "uid") fields)) [
      | err e ↦ err e
      | ok text ↦ elim (normalize_order_uid text) [
        | ok uid ↦ prefetched_from ((uid, order) ∷ found) orders
        | err e ↦ prefetched_from found orders
      ]
    ]
  ]
]

unfoldable pub delay : WorkItem → ℕ
delay item = min 3600 (2 ^ item.attempts)

module _ (s : Services) where
  unfoldable pub ask : {A : Type 0} → (ℕ → Result Failure A) → Work A
  ask question j = (question j.asked, record j { asked = j.asked + 1 })

  unfoldable pub store : StoreCall → Work (Unit {0})
  store call j = elim (s.refuses (length j.done) call) [
    | some failure ↦ (err failure, j)
    | none ↦ (ok tt, record j { done = call ∷ j.done })
  ]

  unfoldable pub lift : {A : Type 0} → Result PyError A → Work A
  lift (ok a) = returning a
  lift (err e) = raising (exception (s.describe e))

  -- `async for page in …`.
  unfoldable pub each_page :
      (List Json → Work (Unit {0})) → List (List Json) → Option Failure → Work (Unit {0})
  each_page body [] none = returning tt
  each_page body [] (some failure) = raising failure
  each_page body (page ∷ pages) failure = do body page; each_page body pages failure

  unfoldable pub over_pages : (ℕ → Pages) → (List Json → Work (Unit {0})) → Work (Unit {0})
  unfolding each_page
  over_pages question body j =
      each_page body (question j.asked).0 (question j.asked).1 (record j { asked = j.asked + 1 })

  unfoldable pub enqueue : List WorkKey → Work (Unit {0})
  enqueue [] = returning tt
  enqueue (key ∷ keys) = store (enqueue_work_many (key ∷ keys))

  unfoldable pub fanout_order : Bool → Json → Work (Unit {0})
  fanout_order include_owner order = do
    fields ← lift (as_dict order)
    keys ← lift (order_keys include_owner fields)
    enqueue keys

  unfoldable pub fanout_orders : Bool → List Json → Work (Unit {0})
  unfolding fanout_order
  fanout_orders include_owner [] = returning tt
  fanout_orders include_owner (order ∷ orders) = do
    fanout_order include_owner order
    fanout_orders include_owner orders

  -- The rest of `process` for one order that may be absent.
  unfoldable pub keep_order : Json → Work (Unit {0})
  unfolding fanout_order
  keep_order order =
      if is_truthy order
      then (do store (store_orders (order ∷ [])); fanout_order true order)
      else returning tt

  unfoldable pub keep_trades : Text → Text → List Json → Work (Unit {0})
  keep_trades endpoint key trades = do
    store (store_api_payload endpoint key (arr (items_of trades)))
    store (store_api_trades trades)

  unfoldable pub keep_account_orders : Text → List Json → Work (Unit {0})
  unfolding fanout_orders
  keep_account_orders key orders = do
    store (store_api_payload (codes "account_orders") key (arr (items_of orders)))
    store (store_orders orders)
    fanout_orders false orders

  unfoldable pub fanout_competition : Json → Work (Unit {0})
  unfolding auction_orders
  fanout_competition payload = do
    fields ← lift (as_dict payload)
    orders ← lift (auction_orders (value_of (codes "auction") fields))
    enqueue (auction_keys orders)

  abbrev pub Prefetched : Type 0
  Prefetched = Option (List (Text × Json))

  unfoldable pub prefetch_orders : List Text → Work Prefetched
  unfolding prefetched_from
  prefetch_orders [] j = (ok (some []), j)
  prefetch_orders (key ∷ keys) j = elim (s.get_orders_by_uids j.asked (key ∷ keys)) [
    | err failure ↦ (ok none, record j { asked = j.asked + 1 })
    | ok orders ↦
        (do found ← lift (prefetched_from [] orders); returning (some found))
          (record j { asked = j.asked + 1 })
  ]

  abbrev pub resolved : List (Text × Json) → Result ValueError Text → Work Json
  resolved orders (ok uid) = returning (order_at uid orders)
  resolved orders (err e) = raising (exception (s.describe_value e))

  unfoldable pub resolve_order : Text → Prefetched → Work Json
  unfolding order_at
  resolve_order key none = ask (λ n. s.get_order n key)
  resolve_order key (some orders) = resolved orders (normalize_order_uid key)

  unfoldable pub process_kind : Kind → Text → Prefetched → Work (Unit {0})
  unfolding keep_order keep_trades keep_account_orders fanout_orders fanout_competition over_pages
      resolve_order
  process_kind order_uid key prefetched = do
    order ← resolve_order key prefetched
    store (store_api_payload (codes "order") key order)
    keep_order order
    over_pages (λ n. s.order_trades n key) (keep_trades (codes "trades:order") key)
    status ← ask (λ n. s.get_order_status n key)
    store (store_api_payload (codes "order_status") key status)
  process_kind owner key prefetched = do
    over_pages (λ n. s.account_orders n key) (keep_account_orders key)
    over_pages (λ n. s.owner_trades n key) (keep_trades (codes "trades:owner") key)
  process_kind tx_hash key prefetched = do
    orders ← ask (λ n. s.get_orders_by_transaction n key)
    store (store_api_payload (codes "transaction_orders") key (arr (items_of orders)))
    store (store_orders orders)
    fanout_orders true orders
  process_kind tx_competition key prefetched = do
    competition ← ask (λ n. s.competition_by_transaction n key)
    store (store_api_payload (codes "competition:tx") key competition)
    store (store_competition competition)
    fanout_competition competition
  process_kind app_data key prefetched = do
    payload ← ask (λ n. s.get_app_data n key)
    store (store_api_payload (codes "app_data") key payload)
    if is_truthy payload then store (store_app_data key payload) else returning tt
  process_kind token key prefetched = do
    payload ← ask (λ n. s.native_price n key)
    store (store_api_payload (codes "native_price") key payload)
    if is_truthy payload
        then store (store_native_price key payload)
        else store (store_native_price_miss key)
  process_kind order_uids_batch key prefetched = lift (err value_error)
  process_kind owner_orders_backfill key prefetched = lift (err value_error)

  unfoldable pub process : WorkItem → Prefetched → Work (Unit {0})
  unfolding process_kind
  process item prefetched = process_kind item.kind item.key prefetched

  abbrev pub outcome_of : Bool → Option Text → Option ℕ → Outcome
  outcome_of success error retry_at = record {
    success = success;
    error = error;
    retry_at = retry_at;
    terminal = none;
  }

  -- The two handlers of `_process_and_finish`, at the time of the failure.
  unfoldable pub handled :
      ℕ → ℕ → WorkItem → Result Failure (Unit {0}) × Journal → Result Failure (Unit {0}) × Journal
  unfolding delay
  handled max_attempts now item (ok done, j) = (ok done, j)
  handled max_attempts now item (err (competition_unavailable key), j) =
      store
        (finish_work item (record {
          success = false;
          error = some (codes "solver competition unavailable from public API: " ++ key);
          retry_at = none;
          terminal = some unavailable_from_public_api;
        }))
        j
  handled max_attempts now item (err (exception text), j) =
      if leb max_attempts item.attempts
      then store (finish_work item (outcome_of false (some text) none)) j
      else store (finish_work item (outcome_of false (some text) (some (now + delay item * 1000))))
          j

  unfoldable pub process_and_finish : ℕ → ℕ → WorkItem → Prefetched → Work (Unit {0})
  unfolding process handled
  process_and_finish max_attempts now item prefetched j =
      handled max_attempts now item
        ((do process item prefetched; store (finish_work item (outcome_of true none none))) j)
