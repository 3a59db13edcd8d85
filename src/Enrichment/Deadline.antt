-- ===== src/Enrichment/Deadline.antt =====
-- No leased item is lost at the deadline of a batch: `run_once` of
-- src/cow_indexer/services/enrichment.py.
use cow_indexer.Prelude.{ℕ, ◌+◌, ◌≡◌, ◌≤◌, ◌⊎◌, List, Bool, true, ok, length, In, All}
use cow_indexer.WorkQueue.{WorkItem, Outcome}
use cow_indexer.Enrichment.{
  finish_work, release_work, Journal, Services, Prefetched, prefetch_orders, process,
}
use cow_indexer.Enrichment.Journals.{Keeps}
use cow_indexer.Enrichment.Outcomes.{IsDecided}
use cow_indexer.Enrichment.Batch.{Schedule, Tasks, order_uids}

-- A cancelled task takes nothing back.
abbrev pub OnlyAdds : Schedule → Type 0
OnlyAdds schedule =
    (position : ℕ) (item : WorkItem) (j : Journal) → Keeps j (schedule.cut_short position item j)

module _ (s : Services) (schedule : Schedule) (max_attempts : ℕ) (prefetched : Prefetched s)
    (start : Journal) where
  -- The store has taken a call that finishes the item, with the outcome of its processing, which a task
  -- of the batch began at a journal `begun`, with what was prefetched for the batch.
  pub record IsClosed (j : Journal) (item : WorkItem) : Type 0 where
    pub position : ℕ
    pub begun : Journal
    pub later : Keeps start begun
    pub outcome : Outcome
    pub there : In (finish_work item outcome) j.done
    pub decided :
        IsDecided s max_attempts
          (schedule.now position)
          item
          (process s item prefetched begun)
          outcome

  -- The items of a batch, after their tasks.
  abbrev Settled : List WorkItem → Journal → List WorkItem → Type 0
  Settled items j pending = All (λ item. IsClosed j item ⊎ In item pending) items

  record IsRun (items : List WorkItem) (j : Journal) (tasks : Tasks) : Type 0 where
    keeps : Keeps j tasks.journal
    settled : Settled items tasks.journal tasks.pending
    only_items : (item : WorkItem) → In item tasks.pending → In item items
    fewer : length tasks.pending ≤ length items

module _ (s : Services) (schedule : Schedule) (max_attempts : ℕ) where
  -- What a batch that returned has made of its items: as many as it reports are not pending, each one
  -- that is not pending was closed with the outcome of its processing, the pending ones are items of the batch, and after the deadline they
  -- were released.
  pub record IsAccounted (items : List WorkItem) (begin : Journal) (n : ℕ) (j : Journal)
      : Type 0 where
    pub prefetched : Prefetched s
    pub start : Journal
    pub fetched : prefetch_orders s (order_uids items) begin ≡ (ok prefetched, start)
    pub pending : List WorkItem
    pub timed_out : Bool
    pub all : n + length pending ≡ length items
    pub settled :
        All
          (λ item. IsClosed s schedule max_attempts prefetched start j item ⊎ In item pending)
          items
    pub only_items : (item : WorkItem) → In item pending → In item items
    pub are_released : timed_out ≡ true → In (release_work pending) j.done
