-- ===== src/Backfill/Drain.antt =====
-- The drain of the backfill: `process`, `_process_and_finish`, `_outstanding`, `drain` and
-- `_returned_uids` of src/cow_indexer/services/backfill_orderbook.py. What the store leases and counts
-- and what the clock shows are parameters, by the number of the call. The items of a lease are run one
-- after the other, and the first failure that gets out of one ends the drain.
pub mod Rounds
pub mod Verdicts
pub mod Journals
pub mod Finished
use cow_indexer.Prelude.{
  ℕ, zero, suc, ◌+◌, ◌*◌, ◌^◌, ◌==◌, leb, min, ◌||◌, Bool, true, false, List, [], ◌∷◌, ◌++◌,
  if◌then◌else◌, length, Option, none, some, Text, codes, text_eq, Result, ok, err, PyError,
  type_error, value_error,
}
use cow_indexer.Exec.{Exec, go_on, raising, returning, ◌>>=◌, ◌>>◌}
use cow_indexer.Json.{set_field, Json, Fields, obj, str, int, bool, field, end, get, or_none}
use cow_indexer.Loader.{is_one_of}
use cow_indexer.Hex.{ValueError, normalize_order_uid}
use cow_indexer.WorkQueue.{
  WorkItem, Outcome, Kind, order_uids_batch, owner_orders_backfill, Status, pending, running,
}
use cow_indexer.Enrichment.{
  Services, Failure, competition_unavailable, exception, Journal, Work, Pages, ask, store, lift,
  as_dict, outcome_of, delay, store_orders, finish_work,
}
use cow_indexer.Backfill.{BatchError, bad_uid, empty_batch, too_many_uids, decode_uid_batch_key}

abbrev add_uid : Result ValueError Text → List Text → List Text
add_uid (err e) found = found
add_uid (ok uid) found = if is_one_of uid found then found else uid ∷ found

abbrev found_in : Json → List Text → List Text
found_in (str uid) found = add_uid (normalize_order_uid uid) found
found_in _ found = found

-- The set of `_returned_uids`, as a list without repetitions.
unfoldable pub returned_uids : List Json → Result PyError (List Text)
returned_uids [] = ok []
returned_uids (order ∷ orders) = elim (as_dict order) [
  | err e ↦ err e
  | ok fields ↦ elim (returned_uids orders) [
    | err e ↦ err e
    | ok found ↦ ok (found_in (or_none (get (codes "uid") fields)) found)
  ]
]

unfoldable pub missing_from : List Text → List Text → ℕ
missing_from found [] = 0
missing_from found (uid ∷ uids) =
    let rest = missing_from found uids in if is_one_of uid found then rest else rest + 1

abbrev as_mapping : Json → Result PyError Fields
as_mapping (obj fields) = ok fields
as_mapping _ = err type_error

-- What the pages of an owner came to.
pub record Swept : Type 0 where
  pub orders : ℕ
  pub pages : ℕ
  pub truncated : Bool

module _ (s : Services) where
  abbrev pub batch_text : BatchError → Text
  batch_text (bad_uid e) = s.describe_value e
  batch_text empty_batch = s.describe value_error
  batch_text too_many_uids = s.describe value_error

  abbrev lift_batch : {A : Type 0} → Result BatchError A → Work A
  lift_batch (ok a) = returning a
  lift_batch (err e) = raising (exception (batch_text e))

  -- `if orders: await self.store.store_orders(…)`.
  abbrev keep_orders : List Json → Work (Unit {0})
  keep_orders [] = returning tt
  keep_orders (order ∷ rest) = store s (store_orders (order ∷ rest))

  unfoldable pub uid_batch : WorkItem → Work WorkItem
  unfolding ask store lift returned_uids missing_from set_field
  uid_batch item = do
    uids ← lift_batch (decode_uid_batch_key item.key)
    orders ← ask s (λ n. s.get_orders_by_uids n uids)
    keep_orders orders
    found ← lift s (returned_uids orders)
    fields ← lift s (as_mapping item.payload)
    returning (record item {
      payload = obj (
          set_field (codes "missing") (int (missing_from found uids))
            (set_field (codes "found") (int (length found)) fields));
    })

  -- `if pages >= …: truncated = True; break`.
  abbrev break_or : Swept → Work Swept → Bool → Work Swept
  break_or swept rest true = returning (record swept { truncated = true })
  break_or swept rest false = rest

  -- `async for page in …`, up to so many pages.
  unfoldable pub sweep : ℕ → Swept → List (List Json) → Option Failure → Work Swept
  unfolding store
  sweep max_pages swept [] none = returning swept
  sweep max_pages swept [] (some failure) = raising failure
  sweep max_pages swept (page ∷ pages) failure = do
    store s (store_orders page)
    let more = record swept { orders = swept.orders + length page; pages = swept.pages + 1 }
    break_or more (sweep max_pages more pages failure) (leb max_pages more.pages)

  abbrev swept_payload : Swept → Fields → Fields
  swept_payload swept fields = set_field (codes "truncated") (bool swept.truncated) (
      set_field (codes "pages") (int swept.pages)
        (set_field (codes "orders") (int swept.orders) fields))

  unfoldable pub owner_orders : ℕ → WorkItem → Work WorkItem
  unfolding sweep set_field
  owner_orders max_pages item j =
      (do
        swept ←
            sweep max_pages (record { orders = 0; pages = 0; truncated = false })
              (s.account_orders j.asked item.key).0 (s.account_orders j.asked item.key).1
        fields ← lift s (as_mapping item.payload)
        returning (record item { payload = obj (swept_payload swept fields) }))
        (record j { asked = j.asked + 1 })

  -- `process`, which changes the item's payload as its last step.
  unfoldable pub process_kind : ℕ → Kind → WorkItem → Work WorkItem
  unfolding uid_batch owner_orders
  process_kind max_pages order_uids_batch item = uid_batch item
  process_kind max_pages owner_orders_backfill item = owner_orders max_pages item
  process_kind max_pages _ item = lift s (err value_error)

  unfoldable pub process : ℕ → WorkItem → Work WorkItem
  unfolding process_kind
  process max_pages item = process_kind max_pages item.kind item

  abbrev failure_text : Failure → Text
  failure_text (exception text) = text
  failure_text (competition_unavailable key) = codes "CompetitionUnavailable: " ++ key

  -- The handler of `_process_and_finish`, at the time of the failure.
  unfoldable pub failed : ℕ → ℕ → WorkItem → Failure → Work (Unit {0})
  unfolding store delay
  failed max_attempts now item failure =
      if leb max_attempts item.attempts
      then store s (finish_work item (outcome_of s false (some (failure_text failure)) none))
      else store s (
          finish_work item
            (outcome_of s false (some (failure_text failure)) (some (now + delay item * 1000))))

  abbrev pub finished_or :
      ℕ → ℕ → WorkItem → Result Failure (Unit {0}) × Journal → Result Failure (Unit {0}) × Journal
  finished_or max_attempts now item (ok done, j) = (ok done, j)
  finished_or max_attempts now item (err failure, j) = failed max_attempts now item failure j

  abbrev pub processed_or :
      ℕ → ℕ → WorkItem → Result Failure WorkItem × Journal → Result Failure (Unit {0}) × Journal
  processed_or max_attempts now item (ok changed, j) =
      finished_or max_attempts now changed
        (store s (finish_work changed (outcome_of s true none none)) j)
  processed_or max_attempts now item (err failure, j) = failed max_attempts now item failure j

  unfoldable pub process_and_finish : ℕ → ℕ → ℕ → WorkItem → Work (Unit {0})
  unfolding process failed
  process_and_finish max_pages max_attempts now item j =
      processed_or max_attempts now item (process max_pages item j)
