-- ===== src/Backfill/Drain/Rounds.antt =====
-- The loop of `drain` and `_outstanding` of src/cow_indexer/services/backfill_orderbook.py.
use cow_indexer.Prelude.{
  ℕ, zero, suc, ◌+◌, leb, Bool, true, false, List, [], ◌∷◌, map, if◌then◌else◌, length, Option,
  none, some, Text, text_eq, Result, ok,
}
use cow_indexer.Exec.{Exec, returning, ◌>>=◌, ◌>>◌}
use cow_indexer.WorkQueue.{WorkItem, Status, pending, running}
use cow_indexer.Enrichment.{Services, Failure, Journal}
use cow_indexer.Backfill.Drain.{process_and_finish}

-- The answers of the store, of the clock of the loop and of that of the system, by the number of the call, and the client of each chain.
pub record World : Type 0 where
  pub services : Text → Services
  pub lease : ℕ → Text → Result Failure (List WorkItem)
  pub counts : ℕ → Text → Result Failure (List (List (Status × ℕ)))
  pub clock : ℕ → ℕ
  pub now : ℕ → ℕ

-- The calls made so far, and `processed_total`.
pub record Draining : Type 0 where
  pub leases : ℕ
  pub countings : ℕ
  pub journal : Journal
  pub totals : List (Text × ℕ)

abbrev pub Drain : Type 0 → Type 0
Drain A = Exec Draining Failure A

pub data Verdict : Type 0 where
  drained deadline : Verdict

unfoldable pub bump : Text → ℕ → List (Text × ℕ) → List (Text × ℕ)
bump key n [] = []
bump key n ((k, total) ∷ totals) =
    let rest = bump key n totals in
    if text_eq k key then (k, total + n) ∷ rest else (k, total) ∷ rest

-- The items of one status that is still open.
abbrev open_count : Status × ℕ → ℕ
open_count (pending, n) = n
open_count (running, n) = n
open_count (_, n) = 0

unfoldable pub open_statuses : List (Status × ℕ) → ℕ
open_statuses [] = 0
open_statuses (c ∷ cs) = open_count c + open_statuses cs

unfoldable pub open_kinds : List (List (Status × ℕ)) → ℕ
unfolding open_statuses
open_kinds [] = 0
open_kinds (statuses ∷ kinds) = open_statuses statuses + open_kinds kinds

module _ (w : World) (max_pages max_attempts : ℕ) where
  unfoldable pub lease_work : Text → Drain (List WorkItem)
  lease_work key d = (w.lease d.leases key, record d { leases = d.leases + 1 })

  unfoldable pub backfill_work_counts : Text → Drain (List (List (Status × ℕ)))
  backfill_work_counts key d = (w.counts d.countings key, record d { countings = d.countings + 1 })

  abbrev pub put_back :
      Draining → Result Failure (Unit {0}) × Journal → Result Failure (Unit {0}) × Draining
  put_back d (r, j) = (r, record d { journal = j })

  unfoldable pub guarded : Text → WorkItem → Drain (Unit {0})
  guarded key item d = put_back d (
      process_and_finish (w.services key) max_pages max_attempts (w.now (length d.journal.done))
        item d.journal)

  -- The items of one lease.
  unfoldable pub gather : Text → List WorkItem → Drain (Unit {0})
  unfolding guarded
  gather key [] = returning tt
  gather key (item ∷ items) = do guarded key item; gather key items

  abbrev pub counted : Text → ℕ → Drain ℕ
  counted key n d = (ok n, record d { totals = bump key n d.totals })

  abbrev pub drain_items : Text → List WorkItem → Drain ℕ
  drain_items key [] = returning 0
  drain_items key (item ∷ items) = do gather key (item ∷ items); counted key (length (item ∷ items))

  -- One round over the chains: how many items it processed.
  unfoldable pub round : List Text → Drain ℕ
  unfolding lease_work gather bump
  round [] = returning 0
  round (key ∷ keys) = do
    items ← lease_work key
    n ← drain_items key items
    rest ← round keys
    returning (n + rest)

  unfoldable pub outstanding : List Text → Drain ℕ
  unfolding backfill_work_counts
  outstanding [] = returning 0
  outstanding (key ∷ keys) = do
    kinds ← backfill_work_counts key
    rest ← outstanding keys
    returning (open_kinds kinds + rest)

  unfoldable pub is_over : Option ℕ → ℕ → Bool
  is_over none reading = false
  is_over (some at) reading = leb at (w.clock reading)

  -- The rest of the loop's body: after the count of the open items, after the round, and after the
  -- look at the clock; `again` is its next turn.
  abbrev pub after_count : Drain (Option Verdict) → ℕ → Drain (Option Verdict)
  after_count again zero = returning (some drained)
  after_count again (suc more) = again

  abbrev pub after_round : List Text → Drain (Option Verdict) → ℕ → Drain (Option Verdict)
  after_round keys again zero = do open_items ← outstanding keys; after_count again open_items
  after_round keys again (suc more) = again

  abbrev pub after_check : List Text → Drain (Option Verdict) → Bool → Drain (Option Verdict)
  after_check keys again true = returning (some deadline)
  after_check keys again false = do processed ← round keys; after_round keys again processed

  -- The loop, from a reading of the clock; `none` is the end of the fuel.
  unfoldable pub drain_loop : ℕ → Option ℕ → List Text → ℕ → Drain (Option Verdict)
  unfolding round outstanding is_over
  drain_loop zero until keys reading = returning none
  drain_loop (suc n) until keys reading =
      after_check keys (drain_loop n until keys (reading + 1)) (is_over until reading)

  abbrev pub deadline_of : Option ℕ → Option ℕ
  deadline_of none = none
  deadline_of (some run_seconds) = some (w.clock 0 + run_seconds)

  abbrev pub no_totals : List Text → List (Text × ℕ)
  no_totals keys = map (λ key. (key, 0)) keys

  -- `drain`: `run_seconds` after the first reading.
  unfoldable pub drain :
      ℕ → Option ℕ → List Text → Journal → Result Failure (Option Verdict) × Draining
  unfolding drain_loop
  drain fuel run_seconds keys j =
      drain_loop fuel (deadline_of run_seconds) keys 1
        (record { leases = 0; countings = 0; journal = j; totals = no_totals keys })
