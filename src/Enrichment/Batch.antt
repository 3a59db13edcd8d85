-- ===== src/Enrichment/Batch.antt =====
-- One batch of leased items under its deadline: `run_once` of
-- src/cow_indexer/services/enrichment.py. Which tasks end before the deadline, and what a cancelled one
-- has done until then, are parameters, by the position of the item.
use cow_indexer.Prelude.{
  ℕ, ◌+◌, ◌-◌, ◌∷◌, [], List, Bool, true, false, Result, ok, err, length, if◌then◌else◌, Text,
}
use cow_indexer.Exec.{go_on, returning}
use cow_indexer.WorkQueue.{WorkItem, Kind, order_uid}
use cow_indexer.Enrichment.{
  Failure, release_work, Journal, Services, Work, Prefetched, store, prefetch_orders,
  process_and_finish,
}

-- What the event loop and the clock make of the tasks.
pub record Schedule : Type 0 where
  pub in_time : ℕ → Bool
  pub cut_short : ℕ → WorkItem → Journal → Journal
  pub now : ℕ → ℕ

abbrev is_order : Kind → Bool
is_order order_uid = true
is_order _ = false

-- `[item.key for item in items if item.kind == "order_uid"]`.
unfoldable pub order_uids : List WorkItem → List Text
order_uids [] = []
order_uids (item ∷ items) =
    let rest = order_uids items in if is_order item.kind then item.key ∷ rest else rest

-- What the tasks leave: the journal, the items still pending, and whether the deadline passed.
pub record Tasks : Type 0 where
  pub journal : Journal
  pub pending : List WorkItem
  pub timed_out : Bool

module _ (s : Services) (schedule : Schedule) (max_attempts : ℕ) where
  -- A task that ended: an exception of it is dropped, and the item stays pending.
  abbrev pub ended : WorkItem → List WorkItem → Result Failure (Unit {0}) → List WorkItem
  ended item pending (ok done) = pending
  ended item pending (err failure) = item ∷ pending

  abbrev pub task :
      ℕ → WorkItem → Prefetched s → Journal → Bool → Result Failure (Unit {0}) × Journal
  task position item prefetched j true =
      process_and_finish s max_attempts (schedule.now position) item prefetched j
  task position item prefetched j false = (ok tt, schedule.cut_short position item j)

  abbrev pub with_task : WorkItem → Bool → Result Failure (Unit {0}) → Tasks → Tasks
  with_task item true r tasks = record tasks { pending = ended item tasks.pending r }
  with_task item false r tasks = record tasks { pending = item ∷ tasks.pending; timed_out = true }

  -- The tasks of the items, from a position on.
  unfoldable pub run_tasks : ℕ → List WorkItem → Prefetched s → Journal → Tasks
  run_tasks position [] prefetched j = record { journal = j; pending = []; timed_out = false }
  run_tasks position (item ∷ items) prefetched j =
      with_task item (schedule.in_time position)
        (task position item prefetched j (schedule.in_time position)).0
        (run_tasks (position + 1) items prefetched
          (task position item prefetched j (schedule.in_time position)).1)

  -- The release of the stranded items, after the deadline.
  abbrev pub released : ℕ → Tasks → Result Failure ℕ × Journal
  released leased tasks =
      go_on
        (if tasks.timed_out
          then store s (release_work tasks.pending) tasks.journal
          else (ok tt, tasks.journal))
        (λ u. returning (leased - length tasks.pending))

  -- `run_once`, with the items that were leased.
  unfoldable pub run_once : List WorkItem → Work ℕ
  unfolding run_tasks order_uids
  run_once [] j = (ok 0, j)
  run_once (item ∷ items) j =
      go_on (prefetch_orders s (order_uids (item ∷ items)) j) (λ prefetched j'.
        released (length (item ∷ items)) (run_tasks 0 (item ∷ items) prefetched j'))
