-- ===== src/Tests/Queue.antt =====
-- Runs of the work queue and of the remembered set.
use cow_indexer.Prelude.{
  ◌&&◌, ℕ, ◌+◌, ◌≤◌, ◌≡◌, ◌≢◌, refl, inl, inr, true, false, none, Option, Bool, List, [], ◌∷◌, ◌++◌,
  arith, Text, codes, In, length, if◌then◌else◌, text_eq, err, ok,
}
use cow_indexer.Json.{sha256_json}
use cow_indexer.Hex.{lower}
use cow_indexer.RecentEnqueues.{
  RecentEnqueues, enabled, lookup, is_live, take_new, take_each, put_last,
}
use cow_indexer.RecentEnqueues.Bounds.{length-take_new-le}
use cow_indexer.RecentEnqueues.Suppression.{WrittenWithin, Backed, stamped, take_new-WrittenWithin}
use cow_indexer.WorkQueue.{
  Kind, order_uid, pending, running, done, is_terminal, is_backfill_kind, wants_kind, is_due,
  is_leasable, Chain, WorkRow, identity, item_identity, leased_item, leased_row, released_row,
  finished_row, finished_status, is_dead, dead_letter, finish_work, release_work, lease_work,
  lease_query, lease_milliseconds, Queue, insert_refused, insert_finished, insert_letter,
  insert_leases, is_taken,
}
use cow_indexer.WorkQueue.Enqueue.{Store, enqueue_work_many, WorkKey, pending_row}
use cow_indexer.WorkQueue.Enqueue.Lost.{enqueue_work_many-lost, first_try, second_try}
use cow_indexer.WorkQueue.Wins.{finish_work-wins}
use cow_indexer.WorkQueue.Releases.{lease_work-released, after_release, after_lease}
use cow_indexer.WorkQueue.Steps.{Reach, here, next, released, enqueued}
use cow_indexer.WorkQueue.Terminal.{Reach-IsTerminal, Reach-IsExclusive}
use cow_indexer.Tests.Engine.{engine, final}
use cow_indexer.Tests.Values.{chain, codec, row, item, queue, success}

-- What a run of the queue computes with.
program : Unit {0}
unfolding final lease_query lease_work is_leasable wants_kind is_backfill_kind is_due leased_item
    leased_row released_row finished_row finished_status finish_work insert_finished insert_letter
    insert_leases is_taken release_work is_dead text_eq enqueue_work_many lower take_new enabled
    pending_row sha256_json
program = tt

worker : Text
worker = codes "me"

leases :
    lease_query engine chain none 20 5
      (row 0 0 pending ∷ row 1 18_446_744_073_709_551_615 done ∷ [])
    ≡ []
unfolding program
leases = refl

lease_pending : lease_query engine chain none 20 5 (row 0 0 pending ∷ []) ≡ row 0 0 pending ∷ []
unfolding program
lease_pending = refl

abbrev leased_once : Queue
leased_once = queue (row 1 11 running ∷ [])

given_back : WorkRow
given_back = released_row codec 12 (item 1)

-- The same item is handed out twice after a release.
asked_again : In given_back (
    lease_query engine chain none 20 5
      (after_release codec engine chain worker none 5 12 20 21 (item 1) leased_once).work_items)
unfolding program given_back codec
asked_again = inl refl

shown_again : In given_back (
    engine.final
      (after_lease codec engine chain worker none 5 12 20 21 (item 1) leased_once).work_items)
unfolding program given_back codec
shown_again = inl refl

same_again : identity given_back ≡ item_identity (item 1)
unfolding given_back released_row
same_again = refl

lease_work-released_example :
    ((leased_item codec chain given_back).attempts ≡ 1)
    × (given_back ≡ released_row codec 12 (item 1))
    × ((later : ℕ) → 20 ≤ later → is_leasable chain none later given_back ≡ true)
lease_work-released_example =
    lease_work-released codec engine chain worker none 5 12 20 21 (item 1) leased_once given_back
      given_back (omega arith)
      (λ x m k. elim m [ inl e ↦ rw e (omega arith) | inr no_more ↦ elim no_more [ ] ]) asked_again
      same_again shown_again same_again

finished : WorkRow
finished = finished_row codec 30 (item 1) success

shown_finished : In finished (
    engine.final
      (finish_work codec 30 (item 1) success true (λ x. x) true leased_once).1.work_items)
unfolding program finished codec
shown_finished = inl refl

same_finished : identity finished ≡ item_identity (item 1)
unfolding finished finished_row
same_finished = refl

finish_work-wins_example :
    (finished ≡ finished_row codec 30 (item 1) success)
    × (finished.status ≡ (finished_status (item 1) success).0)
    × ((finish_work codec 30 (item 1) success true (λ x. x) true leased_once).1.dead_letters ≡ (
        if is_dead finished.status && true
        then leased_once.dead_letters ++ dead_letter codec 30 (item 1) success ∷ []
        else leased_once.dead_letters))
finish_work-wins_example =
    finish_work-wins codec engine 30 (item 1) success true leased_once finished (omega arith)
      (λ x m k. elim m [ inl e ↦ rw e (omega arith) | inr no_more ↦ elim no_more [ ] ])
      shown_finished same_finished

abbrev finished_row_1 : WorkRow
finished_row_1 = row 1 18_446_744_073_709_551_615 done

abbrev finished_queue : Queue
finished_queue = queue (finished_row_1 ∷ [])

-- A worker whose lease had lapsed gives the finished item back.
abbrev after_late_release : Queue
after_late_release = release_work codec 12 (item 1 ∷ []) finished_queue

late_release : Reach codec engine true finished_queue after_late_release
late_release = next here (released 12 (item 1 ∷ []) refl (omega arith) refl)

Reach-IsTerminal_example :
    ((r : WorkRow)
      → In r (engine.final after_late_release.work_items)
      → identity finished_row_1 ≡ identity r
      → is_terminal r.status ≡ true)
    × ((chain' : Chain) (kinds : Option (Kind → Bool)) (now limit : ℕ) (r : WorkRow)
        → In r (lease_query engine chain' kinds now limit after_late_release.work_items)
        → identity finished_row_1 ≢ identity r)
unfolding is_terminal
Reach-IsTerminal_example =
    Reach-IsTerminal codec engine {q = finished_queue} {q' = after_late_release} late_release
      ((λ h. omega arith, λ h. cc), tt) finished_row_1 (inl refl) refl

abbrev remembers_nothing : RecentEnqueues
remembers_nothing = record { ttl = 0; max_entries = 0; seen = [] }

abbrev empty : Queue
empty = queue []

abbrev work : List WorkKey
work = (order_uid, codes "0xAA", none) ∷ []

abbrev enqueued_once : Queue
enqueued_once =
    (enqueue_work_many codec chain 5 5 true work
      (record { recent = remembers_nothing; queue = empty })).0.queue

fresh_row : WorkRow
fresh_row = pending_row codec chain 5 (order_uid, codes "0xAA", none)

asked_fresh : In fresh_row (lease_query engine chain none 20 5 enqueued_once.work_items)
unfolding program fresh_row codec
asked_fresh = inl refl

shown_fresh : In (leased_row chain worker 21 fresh_row) (
    engine.final
      (lease_work codec engine chain worker none 5 20 21 (λ x. x) true enqueued_once).1.work_items)
unfolding program fresh_row codec
shown_fresh = inl refl

Reach-IsExclusive_example :
    (leased_row chain worker 21 fresh_row ≡ leased_row chain worker 21 fresh_row)
    × ((chain' : Chain) (kinds' : Option (Kind → Bool)) (later : ℕ)
        → later ≤ 21 + lease_milliseconds
        → is_leasable chain' kinds' later (leased_row chain worker 21 fresh_row) ≡ false)
unfolding program fresh_row codec
Reach-IsExclusive_example =
    Reach-IsExclusive codec engine chain worker none 5 20 21 (λ x. x) {q = enqueued_once}
      (next here (enqueued chain 5 5 true work remembers_nothing refl)) [] fresh_row
      (leased_row chain worker 21 fresh_row) refl (λ x m. elim m [ ]) asked_fresh shown_fresh refl

-- The remembered set: a duplicate in one batch, and a second batch.
abbrev remembers : RecentEnqueues
remembers = record { ttl = 900; max_entries = 2; seen = [] }

length-take_new-le_example :
    length (take_new remembers (codes "a" ∷ codes "b" ∷ codes "c" ∷ []) 7).1.seen
    ≤ (take_new remembers (codes "a" ∷ codes "b" ∷ codes "c" ∷ []) 7).1.max_entries
length-take_new-le_example =
    length-take_new-le remembers (codes "a" ∷ codes "b" ∷ codes "c" ∷ []) 7 (inl (omega arith))

abbrev batch : List Text
batch = codes "a" ∷ codes "b" ∷ codes "a" ∷ []

batch_fresh : (take_new remembers batch 7).0 ≡ codes "a" ∷ codes "b" ∷ []
unfolding take_new enabled take_each lookup is_live put_last text_eq
batch_fresh = refl

take_new-WrittenWithin_example :
    ((k : Text)
      → In k batch
      → WrittenWithin 900 7 ([] ++ stamped 7 (take_new remembers batch 7).0) k)
    × Backed 900
        ([] ++ stamped 7 (take_new remembers batch 7).0)
        (take_new remembers batch 7).1.seen
take_new-WrittenWithin_example =
    take_new-WrittenWithin remembers batch 7 [] (omega arith) (λ e m. elim m [ ])

abbrev store : Store
store = record { recent = remembers; queue = empty }

enqueue_work_many-lost_example :
    ((first_try codec chain 5 6 order_uid (codes "0xAA") none 7 8 store).1 ≡ err insert_refused)
    × ((first_try codec chain 5 6 order_uid (codes "0xAA") none 7 8 store).0.queue ≡ empty)
    × ((second_try codec chain 5 6 order_uid (codes "0xAA") none 7 8 store).1 ≡ ok tt)
    × ((second_try codec chain 5 6 order_uid (codes "0xAA") none 7 8 store).0.queue ≡ empty)
unfolding enabled lookup is_live
enqueue_work_many-lost_example =
    enqueue_work_many-lost codec chain 5 6 order_uid (codes "0xAA") none 7 8 store refl refl
      (omega arith)
