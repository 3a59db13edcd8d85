-- ===== src/WorkQueue/Terminal.antt =====
-- Terminal statuses are final along every run of the queue's writes, and a lease that no other write
-- crosses is exclusive: the work queue of
-- src/cow_indexer/storage/clickhouse.py.
use cow_indexer.Prelude.{
  ◌++◌, List, ℕ, ◌+◌, ◌<◌, ◌≤◌, ◌≡◌, ◌≢◌, inl, inr, Bool, true, false, Option, [], arith,
  Bool-cases, Text, In, In-All, All, All-In,
}
use cow_indexer.Json.{Codec}
use cow_indexer.WorkQueue.{
  Kind, is_terminal, Chain, WorkRow, WorkItem, identity, Outcome, finished_row, finished_status,
  leased_row, released_row, Engine, Queue, lease_query, lease_work, unavailable_revision,
  lease_milliseconds, is_leasable,
}
use cow_indexer.WorkQueue.Enqueue.{pending_row}
use cow_indexer.WorkQueue.Enqueue.Rows.{Grows}
use cow_indexer.WorkQueue.Steps.{attempts_limit, NamesTerminal, Reach, Written, Reach-Grows}
use cow_indexer.WorkQueue.Leases.{
  IsPaced, due_status, leasable_parts, lease_query-In, lease_work-IsExclusive,
}

-- The terminal rows are those of the top revisions.
abbrev pub IsRanked : WorkRow → Type 0
IsRanked r =
    (is_terminal r.status ≡ true → unavailable_revision ≤ r.revision)
    × (is_terminal r.status ≡ false → r.revision < unavailable_revision)

finished-IsRanked :
    (codec : Codec) (now : ℕ) (item : WorkItem) (o : Outcome)
    → item.attempts < attempts_limit
    → NamesTerminal o.terminal
    → IsRanked (finished_row codec now item o)
unfolding finished_row finished_status is_terminal
finished-IsRanked codec now item o h n = (λ k. ground arith, λ k. ground arith)

ranked : (codec : Codec) → Written codec true IsRanked
unfolding is_terminal leased_row released_row pending_row
ranked codec = record {
  of_pending = λ chain now item. (λ h. cc, λ h. omega arith);
  of_leased = λ chain worker_id now r h. (λ k. cc, λ k. omega arith);
  of_finished = finished-IsRanked codec;
  of_released = λ now item allowed h. (λ k. cc, λ k. omega arith);
}

finished-IsPaced :
    (codec : Codec) (now : ℕ) (item : WorkItem) (o : Outcome)
    → NamesTerminal o.terminal
    → IsPaced (finished_row codec now item o)
unfolding finished_row finished_status is_terminal
finished-IsPaced codec now item o n k = ground arith

paced : (codec : Codec) → Written codec false IsPaced
unfolding is_terminal leased_row pending_row
paced codec = record {
  of_pending = λ chain now item h. omega arith;
  of_leased = λ chain worker_id now r h k. omega arith;
  of_finished = λ now item o h n. finished-IsPaced codec now item o n;
  of_released = λ now item allowed. cc;
}

module _ (codec : Codec) (engine : Engine) {q q' : Queue} where
  -- A finished item stays finished. From a queue whose terminal rows, and they alone, have the top
  -- revisions, whatever enqueues, leases, releases and finishes follow, of any workers, with the INSERT of a lease at
  -- any time after its SELECT: if a row of an
  -- item is terminal at the start, then every row that FINAL shows for the item at the end is
  -- terminal, and no later query hands the item out.
  pub Reach-IsTerminal :
      Reach codec engine true q q'
      → All IsRanked q.work_items
      → (s : WorkRow) → In s q.work_items
      → is_terminal s.status ≡ true
      → ((r : WorkRow)
          → In r (engine.final q'.work_items)
          → identity s ≡ identity r
          → is_terminal r.status ≡ true)
        × ((chain : Chain) (kinds : Option (Kind → Bool)) (now limit : ℕ) (r : WorkRow)
            → In r (lease_query engine chain kinds now limit q'.work_items)
            → identity s ≢ identity r)
  Reach-IsTerminal steps sound s m done = (shown, never)
    where
      grown : Grows IsRanked q.work_items q'.work_items
      grown = Reach-Grows codec engine true IsRanked (ranked codec) steps

      shown :
          (r : WorkRow)
          → In r (engine.final q'.work_items)
          → identity s ≡ identity r
          → is_terminal r.status ≡ true
      shown r mr same = elim (Bool-cases (is_terminal r.status)) [
        | inl t ↦ t
        | inr open_row ↦
            let is_ranked : IsRanked r = (elim (grown.adds r (engine.final-In q'.work_items r mr)) [
              | inl old ↦ All-In IsRanked r q.work_items sound old
              | inr p ↦ p
            ]) in
            let low : r.revision < unavailable_revision = is_ranked.1 open_row in
            let high : unavailable_revision ≤ s.revision =
              (All-In IsRanked s q.work_items sound m).0 done in
            let top : s.revision ≤ r.revision =
              engine.final_highest q'.work_items r s mr (grown.keeps s m) same in
            absurd (omega arith)
      ]

      never :
          (chain : Chain) (kinds : Option (Kind → Bool)) (now limit : ℕ) (r : WorkRow)
          → In r (lease_query engine chain kinds now limit q'.work_items)
          → identity s ≢ identity r
      never chain kinds now limit r asked same =
          let (before, due) = lease_query-In engine chain kinds now limit q'.work_items r asked in
          let open_row : is_terminal r.status ≡ false =
            due_status now r r.status (leasable_parts chain kinds now r due).2 in
          cc (shown r before same, open_row)

module _ (codec : Codec) (engine : Engine) (chain : Chain) (worker_id : Text)
    (kinds : Option (Kind → Bool)) (limit server_now now : ℕ) (between : Queue → Queue)
    {q : Queue} where
  -- A lease that no other write to its item crosses is exclusive. From an empty table, let any enqueues,
  -- leases and finishes have been made, of any workers and interleaved in any way, and no releases; and
  -- let a `lease_work`, whose INSERT is taken, hand out an item of which no row was written between its
  -- SELECT and its INSERT (with a second worker on the same chain that is not given). Then the only row
  -- visible of the item is the running row of this lease, and no query finds that row leasable for five
  -- minutes.
  pub Reach-IsExclusive :
      Reach codec engine false (record { work_items = []; dead_letters = [] }) q
      → (more : List WorkRow) (r s : WorkRow) → (between q).work_items ≡ q.work_items ++ more
      → ((x : WorkRow) → In x more → identity x ≢ identity r)
      → In r (lease_query engine chain kinds server_now limit q.work_items)
      → In s (
          engine.final
            (lease_work codec engine chain worker_id kinds limit server_now now between true
              q).1.work_items)
      → identity s ≡ identity r
      → (s ≡ leased_row chain worker_id now r)
        × ((chain' : Chain) (kinds' : Option (Kind → Bool)) (later : ℕ)
            → later ≤ now + lease_milliseconds
            → is_leasable chain' kinds' later s ≡ false)
  Reach-IsExclusive steps more r s written of_others asked shown same =
      lease_work-IsExclusive codec engine chain worker_id kinds limit server_now now between q more
        r s written of_others asked shown same
        (In-All IsPaced q.work_items (λ x m.
          elim ((Reach-Grows codec engine false IsPaced (paced codec) steps).adds x m) [
            | inl none_before ↦ elim none_before [ ]
            | inr p ↦ p
          ]))
