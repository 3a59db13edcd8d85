-- ===== src/Scan/Outcomes.antt =====
-- What a whole scan leaves: `scan` of src/cow_indexer/services/historical.py, and `repair_range` and
-- `rescan_finality_window` of src/cow_indexer/services/repair.py.
use cow_indexer.Prelude.{
  ℕ, ◌≤◌, ◌<◌, ◌+◌, ◌≡◌, ◌≢◌, refl, Bool, true, false, Option, arith, Bool-cases, inl, inr, ltb, ok,
  err, Result-cases,
}
use cow_indexer.Models.{BlockHeader}
use cow_indexer.Scan.{
  World, ScanConfig, Trace, out_of_fuel, rounds, scan, first_block, last_block, ask_safe_head,
  scan_to, repair_range, rescan_finality_window,
}
use cow_indexer.Scan.Fuel.{IsSane, loop_total}
use cow_indexer.Scan.Commits.{Post, returned, raised, weaken, Post-either, Post-ok}
use cow_indexer.Scan.Checkpoint.{Indexed, nothing, IsSafe, unchanged, advanced, loop-Promises}

module _ (w : World) (c : ScanConfig) where
  module _ (update store_all : Bool) (from_block to_block : Option ℕ) (t : Trace) where
    -- A scan that returned: there was nothing to scan, or it has indexed every block.
    pub data Finished (total : ℕ) (t' : Trace) : Type 0 where
      empty :
          (head : BlockHeader)
          → w.safe_head t.calls c.finality_blocks ≡ ok head
          → last_block w to_block head.number < first_block w c from_block t.durable
          → total ≡ 0
          → t' ≡ record t { calls = t.calls + 1 }
          → Finished total t'
      all_indexed :
          (head : BlockHeader)
          → w.safe_head t.calls c.finality_blocks ≡ ok head
          → first_block w c from_block t.durable ≤ last_block w to_block head.number
          → Indexed w c update store_all
              (last_block w to_block head.number)
              t'
              (first_block w c from_block t.durable)
              (last_block w to_block head.number + 1)
              total
          → Finished total t'

    -- Any outcome: the checkpoint stayed, or it is one that the scan may leave.
    pub data Safe (t' : Trace) : Type 0 where
      stayed : t'.durable ≡ t.durable → Safe t'
      safe_until :
          (head : BlockHeader)
          → w.safe_head t.calls c.finality_blocks ≡ ok head
          → IsSafe w c update store_all
              (last_block w to_block head.number)
              (first_block w c from_block t.durable)
              t.durable
              t'
          → Safe t'

  module _ (sane : IsSane c) (update store_all : Bool) (from_block to_block : Option ℕ)
      (t : Trace) where
    scan_to_total :
        (start end : ℕ) (t' : Trace)
        → (scan_to w c update store_all start end t').0 ≢ err out_of_fuel
    unfolding scan_to
    scan_to_total start end t' = elim (Bool-cases (ltb end start)) [
      | inl e ↦ rw (e, scan_to) (λ q. cc q)
      | inr e ↦ rw (e, scan_to) (loop_total w c sane update store_all end start t')
    ]

    -- With a sane configuration a scan always ends: the rounds that it is given are enough, whatever
    -- the node and the database answer.
    pub scan_total : (scan w c update store_all from_block to_block t).0 ≢ err out_of_fuel
    unfolding scan ask_safe_head
    scan_total = elim (Result-cases (w.safe_head t.calls c.finality_blocks)) [
      | inl (head, e) ↦ rw (e, scan, ask_safe_head) (scan_to_total _ _ _)
      | inr (failure, e) ↦ rw (e, scan, ask_safe_head) (λ q. cc q)
    ]

    scan_to-Post :
        (head : BlockHeader)
        → w.safe_head t.calls c.finality_blocks ≡ ok head
        → Post
            (λ total t'.
              Finished update store_all from_block to_block t total t'
              × Safe update store_all from_block to_block t t')
            (Safe update store_all from_block to_block t)
            (scan_to w c update store_all
              (first_block w c from_block t.durable)
              (last_block w to_block head.number)
              (record t { calls = t.calls + 1 }))
    unfolding scan_to
    scan_to-Post head e =
        let start = first_block w c from_block t.durable in
        let end = last_block w to_block head.number in
        elim (Bool-cases (ltb end start)) [
          | inl less ↦
              rw (less, scan_to) (returned 0 _ (empty head e (ground arith) refl refl, stayed refl))
          | inr more ↦
              rw (more, scan_to)
                (weaken
                  (loop-Promises w c update store_all end sane start t.durable
                    (rounds w c start end) start c.initial_range 0 _ (ground arith)
                    sane.from_minimum (unchanged refl) nothing)
                  (λ t' safe. safe_until head e safe)
                  (λ total t' done.
                    (all_indexed head e (ground arith) done.1, safe_until head e done.0)))
        ]

    scan-Post :
        Post
          (λ total t'.
            Finished update store_all from_block to_block t total t'
            × Safe update store_all from_block to_block t t')
          (Safe update store_all from_block to_block t)
          (scan w c update store_all from_block to_block t)
    unfolding scan ask_safe_head
    scan-Post = elim (Result-cases (w.safe_head t.calls c.finality_blocks)) [
      | inl (head, e) ↦ rw (e, scan, ask_safe_head) (scan_to-Post head e)
      | inr (failure, e) ↦ rw (e, scan, ask_safe_head) (raised _ _ (stayed refl))
    ]

    -- With a sane configuration, a scan that returns either had nothing to scan, and returns 0, or every
    -- block from the first to the last one is in a range whose logs the node answered and which are all
    -- written, and what it returns is the number of those logs.
    pub scan-Finished :
        {total : ℕ} {t' : Trace}
        → scan w c update store_all from_block to_block t ≡ (ok total, t')
        → Finished update store_all from_block to_block t total t'
    scan-Finished e = (Post-ok scan-Post e).0

    -- With a sane configuration, whatever its outcome, an exception at any step included: a scan leaves
    -- the checkpoint as it found it, or has moved it forward to a block not past the last one, so that
    -- every block from the first one to it is in an answered range whose logs are all written.
    pub scan-Safe :
        Safe update store_all from_block to_block t
          (scan w c update store_all from_block to_block t).1
    scan-Safe =
        Post-either (Safe update store_all from_block to_block t) scan-Post (λ a t' q. q.1)
          (λ t' q. q)

  -- A scan that is not to update the checkpoint leaves it alone.
  Safe-durable :
      (store_all : Bool) (from_block to_block : Option ℕ) (t t' : Trace)
      → Safe false store_all from_block to_block t t'
      → t'.durable ≡ t.durable
  Safe-durable store_all from_block to_block t t' (stayed e) = e
  Safe-durable store_all from_block to_block t t' (safe_until head e (unchanged q)) = q
  Safe-durable store_all from_block to_block t t'
        (safe_until head e (advanced block total q asked behind h indexed)) =
      absurd (cc asked)

  -- With a sane configuration, a repair and a rescan of the finality window, whatever their outcome,
  -- leave the durable checkpoint as they found it.
  pub repair-durable :
      (sane : IsSane c) (from_block to_block : ℕ) (t : Trace)
      → ((repair_range w c from_block to_block t).1.durable ≡ t.durable)
        × ((rescan_finality_window w c t).1.durable ≡ t.durable)
  unfolding repair_range rescan_finality_window ask_safe_head
  repair-durable sane from_block to_block t = (
    Safe-durable true _ _ t _ (scan-Safe sane false true _ _ t),
    elim (Result-cases (w.safe_head t.calls c.finality_blocks)) [
      | inl (head, e) ↦
          rw (e, rescan_finality_window, ask_safe_head)
            (Safe-durable true _ _ _ _ (scan-Safe sane false true _ _ _))
      | inr (failure, e) ↦ rw (e, rescan_finality_window, ask_safe_head) refl
    ],
  )
