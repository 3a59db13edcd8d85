-- ===== src/Loader.antt =====
-- The API work that an event implies: `_work_for_event` of src/cow_indexer/loaders/events.py.
use cow_indexer.Prelude.{
  Bool, false, ◌||◌, none, List, [], ◌∷◌, ◌++◌, if◌then◌else◌, Text, codes, text_eq, Result, ok,
  ◌>>=◌, PyError, String,
}
use cow_indexer.Json.{Json, Fields, get, subscript, is_truthy, or_none, as_text, as_fields}
use cow_indexer.Models.{DecodedEvent}
use cow_indexer.WorkQueue.{Kind, order_uid, owner, tx_hash, tx_competition, app_data, token}
use cow_indexer.WorkQueue.Enqueue.{WorkKey}

-- `args[name]`, as the key of a work item.
unfoldable pub text_arg : String → Fields → Result PyError Text
text_arg name args = do v ← subscript (codes name) args; as_text v

abbrev pub work : Kind → Text → WorkKey
work kind key = (kind, key, none)

trade_work : DecodedEvent → Result PyError (List WorkKey)
trade_work event = do
  uid ← text_arg "orderUid" event.args
  trader ← text_arg "owner" event.args
  sell ← text_arg "sellToken" event.args
  buy ← text_arg "buyToken" event.args
  ok (
      work order_uid uid
      ∷ work owner trader
      ∷ work tx_hash event.transaction_hash
      ∷ work token sell
      ∷ work token buy
      ∷ [])

settlement_work : DecodedEvent → List WorkKey
settlement_work event =
    work tx_hash event.transaction_hash ∷ work tx_competition event.transaction_hash ∷ []

-- `if owner := args.get("owner")`.
optional_owner : Json → Result PyError (List WorkKey)
optional_owner value =
    if is_truthy value then (do key ← as_text value; ok (work owner key ∷ [])) else ok []

invalidation_work : DecodedEvent → Result PyError (List WorkKey)
invalidation_work event = do
  uid ← text_arg "orderUid" event.args
  owners ← optional_owner (or_none (get (codes "owner") event.args))
  ok (work order_uid uid ∷ owners)

signature_work : DecodedEvent → Result PyError (List WorkKey)
signature_work event = do
  uid ← text_arg "orderUid" event.args
  signer ← text_arg "owner" event.args
  ok (work order_uid uid ∷ work owner signer ∷ [])

placement_work : DecodedEvent → Result PyError (List WorkKey)
placement_work event = do
  sender ← text_arg "sender" event.args
  placed ← subscript (codes "order") event.args
  order ← as_fields placed
  sell ← text_arg "sellToken" order
  buy ← text_arg "buyToken" order
  document ← text_arg "appData" order
  ok (
      work tx_hash event.transaction_hash
      ∷ work owner sender
      ∷ work token sell
      ∷ work token buy
      ∷ work app_data document
      ∷ [])

owner_work : DecodedEvent → Result PyError (List WorkKey)
owner_work event = do key ← text_arg "owner" event.args; ok (work owner key ∷ [])

-- `name in {…}`.
unfoldable pub is_one_of : Text → List Text → Bool
is_one_of name [] = false
is_one_of name (x ∷ xs) = text_eq name x || is_one_of name xs

unfoldable pub work_for_event : DecodedEvent → Result PyError (List WorkKey)
unfolding text_arg trade_work settlement_work optional_owner invalidation_work signature_work
    placement_work owner_work
work_for_event event =
    let name = event.event_name in
    if text_eq name (codes "Trade")
    then trade_work event
    else if text_eq name (codes "Settlement")
    then ok (settlement_work event)
    else if is_one_of name
        (codes "OrderInvalidated" ∷ codes "OrderInvalidation" ∷ codes "OrderRefund" ∷ [])
    then invalidation_work event
    else if text_eq name (codes "PreSignature")
    then signature_work event
    else if text_eq name (codes "OrderPlacement")
    then placement_work event
    else if is_one_of name
        (codes "ConditionalOrderCreated" ∷ codes "MerkleRootSet" ∷ codes "SwapGuardSet" ∷ [])
    then owner_work event
    else ok []

-- The loop of `process_many`.
unfoldable pub work_for_events : List DecodedEvent → Result PyError (List WorkKey)
work_for_events [] = ok []
work_for_events (event ∷ rest) = do
  own ← work_for_event event
  others ← work_for_events rest
  ok (own ++ others)
