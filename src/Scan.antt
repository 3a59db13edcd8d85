-- ===== src/Scan.antt =====
-- The historical scan: `HistoricalIndexer` of src/cow_indexer/services/historical.py with
-- `process_many` of src/cow_indexer/loaders/events.py, and `repair_range` of
-- src/cow_indexer/services/repair.py. The node and the database are interfaces: every call of the
-- node takes the number of the call, and every write the number of writes before it, so that each
-- may answer differently each time.
pub mod Commits
pub mod Fuel
pub mod Outcomes
pub mod Checkpoint
use cow_indexer.Prelude.{
  ℕ, zero, suc, ◌+◌, ◌-◌, ◌*◌, ◌/◌, min, max, Bool, true, false, Option, none, some, List, [], ◌∷◌,
  ◌++◌, map, leb, ltb, ◌==◌, if◌then◌else◌, length, Result, ok, err, PyError, key_error,
}
use cow_indexer.Prelude
use cow_indexer.Exec.{Exec, returning, raising, attempt, go_on, ◌>>=◌, ◌>>◌}
use cow_indexer.Models.{RpcLog, BlockHeader, DecodedEvent}
use cow_indexer.Loader.{work_for_events}
use cow_indexer.WorkQueue.Enqueue.{WorkKey}

pub data RpcFailure : Type 0 where
  range_too_large rpc_error : RpcFailure

pub data ScanError : Type 0 where
  rpc : RpcFailure → ScanError
  python : PyError → ScanError
  store_refused : ScanError
  out_of_fuel : ScanError

pub data Write : Type 0 where
  blocks : List BlockHeader → Write
  raw_logs : List RpcLog → Write
  events : List DecodedEvent → Write
  work : List WorkKey → Write
  checkpoint : BlockHeader → Write
  indexed_range : ℕ → ℕ → ℕ → Write

-- The node as the scanner sees it, a decoder, and whether the database takes a write.
pub record World : Type 0 where
  pub safe_head : ℕ → ℕ → Result RpcFailure BlockHeader
  pub get_logs : ℕ → ℕ → ℕ → Result RpcFailure (List RpcLog)
  pub get_blocks : ℕ → List ℕ → Result RpcFailure (List BlockHeader)
  pub decode : RpcLog → Result PyError (Option DecodedEvent)
  pub accepts : ℕ → Write → Bool

pub record ScanConfig : Type 0 where
  pub initial_range : ℕ
  pub maximum_range : ℕ
  pub minimum_range : ℕ
  pub finality_blocks : ℕ
  pub start_block : ℕ

-- What the run has done: its calls of the node, its writes, newest first, and the durable checkpoint.
pub record Trace : Type 0 where
  pub calls : ℕ
  pub writes : List Write
  pub durable : Option ℕ

abbrev pub Scan : Type 0 → Type 0
Scan A = Exec Trace ScanError A

unfoldable pub lift : {A : Type 0} → Result PyError A → Scan A
lift (ok a) = returning a
lift (err e) = raising (python e)

-- `set.update`, the set kept as the sorted list that `get_blocks` makes of it.
unfoldable pub add_number : ℕ → List ℕ → List ℕ
add_number n [] = n ∷ []
add_number n (m ∷ ms) =
    let rest = add_number n ms in
    if n == m then m ∷ ms else if ltb n m then n ∷ m ∷ ms else m ∷ rest

unfoldable pub add_numbers : List RpcLog → List ℕ → List ℕ
add_numbers [] ns = ns
add_numbers (l ∷ ls) ns = add_numbers ls (add_number l.block_number ns)

-- `range(a, a + n)`.
unfoldable pub numbers_from : ℕ → ℕ → List ℕ
numbers_from a zero = []
numbers_from a (suc n) = a ∷ numbers_from (a + 1) n

unfoldable pub block_numbers : Bool → ℕ → ℕ → List RpcLog → List ℕ
unfolding add_numbers numbers_from
block_numbers store_all_blocks cursor upper logs =
    add_numbers logs
      (if store_all_blocks then numbers_from cursor (upper + 1 - cursor) else upper ∷ [])

-- `blocks[number]`, where a later header of the same number replaces an earlier one.
unfoldable pub find_block : ℕ → List BlockHeader → Option BlockHeader
find_block number [] = none
find_block number (h ∷ hs) = elim (find_block number hs) [
  | some later ↦ some later
  | none ↦ if h.number == number then some h else none
]

unfoldable pub block_at : ℕ → List BlockHeader → Result PyError BlockHeader
block_at number hs = elim (find_block number hs) [ none ↦ err key_error | some h ↦ ok h ]

unfoldable pub stamped :
    List BlockHeader → RpcLog → Option DecodedEvent → Result PyError (List DecodedEvent)
stamped hs log none = ok []
stamped hs log (some event) = elim (block_at log.block_number hs) [
  | err e ↦ err e
  | ok h ↦ ok (record event { block_timestamp = some h.timestamp } ∷ [])
]

abbrev joined :
    Result PyError (List DecodedEvent)
    → Result PyError (List DecodedEvent)
    → Result PyError (List DecodedEvent)
joined (err e) rest = err e
joined (ok own) (err e) = err e
joined (ok own) (ok others) = ok (own ++ others)

abbrev decoded_then :
    Result PyError (Option DecodedEvent)
    → (Option DecodedEvent → Result PyError (List DecodedEvent))
    → Result PyError (List DecodedEvent)
decoded_then (err e) f = err e
decoded_then (ok found) f = f found

module _ (w : World) where
  -- The loop that decodes the logs and stamps the events.
  unfoldable pub decode_logs : List BlockHeader → List RpcLog → Result PyError (List DecodedEvent)
  unfolding stamped
  decode_logs hs [] = ok []
  decode_logs hs (log ∷ logs) =
      joined (decoded_then (w.decode log) (stamped hs log)) (decode_logs hs logs)

  unfoldable pub write : Write → Scan (Unit {0})
  write entry t =
      if w.accepts (length t.writes) entry
      then (ok tt, record t { writes = entry ∷ t.writes })
      else (err store_refused, t)

  -- `_insert` returns at once when there are no rows.
  unfoldable pub store_blocks : List BlockHeader → Scan (Unit {0})
  store_blocks [] = returning tt
  store_blocks (h ∷ hs) = write (blocks (h ∷ hs))

  unfoldable pub store_raw_logs : List RpcLog → Scan (Unit {0})
  store_raw_logs [] = returning tt
  store_raw_logs (l ∷ ls) = write (raw_logs (l ∷ ls))

  unfoldable pub enqueue : List WorkKey → Scan (Unit {0})
  enqueue [] = returning tt
  enqueue (k ∷ ks) = write (work (k ∷ ks))

  -- `process_many`.
  unfoldable pub process_many : List DecodedEvent → Scan (Unit {0})
  process_many [] = returning tt
  process_many (e ∷ es) = do
    write (events (e ∷ es))
    keys ← lift (work_for_events (e ∷ es))
    enqueue keys

  -- Whether `ClickHouseStore.checkpoint` writes: never behind the durable checkpoint.
  unfoldable pub advances : Option ℕ → ℕ → Bool
  advances none number = true
  advances (some current) number = leb current number

  unfoldable pub set_durable : ℕ → Scan (Unit {0})
  set_durable number t = (ok tt, record t { durable = some number })

  unfoldable pub save_checkpoint : BlockHeader → Scan (Unit {0})
  unfolding set_durable
  save_checkpoint h t =
      if advances t.durable h.number
      then (do write (checkpoint h); set_durable h.number) t
      else (ok tt, t)

  -- The calls of the node, each numbered.
  unfoldable pub get_blocks : List ℕ → Scan (List BlockHeader)
  get_blocks numbers t =
      let t' = record t { calls = t.calls + 1 } in
      elim (w.get_blocks t.calls numbers) [ ok hs ↦ (ok hs, t') | err e ↦ (err (rpc e), t') ]

  unfoldable pub update_checkpoint : Bool → ℕ → List BlockHeader → Scan (Unit {0})
  update_checkpoint false upper hs = returning tt
  update_checkpoint true upper hs = do h ← lift (block_at upper hs); save_checkpoint h

  -- The body of the loop once the logs are there.
  unfoldable pub commit_range : Bool → Bool → ℕ → ℕ → List RpcLog → Scan (Unit {0})
  commit_range update store_all cursor upper logs = do
    hs ← get_blocks (block_numbers store_all cursor upper logs)
    store_blocks hs
    store_raw_logs logs
    decoded ← lift (decode_logs hs logs)
    process_many decoded
    update_checkpoint update upper hs
    write (indexed_range cursor upper (length logs))

  module _ (c : ScanConfig) (update store_all : Bool) (end : ℕ) where
    abbrev pub upper_of : ℕ → ℕ → ℕ
    upper_of cursor size = min (cursor + size - 1) end

    -- What follows the answer of `get_logs`; `again` is the rest of the loop.
    unfoldable pub next_round :
        (ℕ → ℕ → ℕ → Scan ℕ) → ℕ → ℕ → ℕ → Result RpcFailure (List RpcLog) → Scan ℕ
    next_round again cursor size total (ok logs) t =
        go_on (commit_range update store_all cursor (upper_of cursor size) logs t) (λ done.
          again (upper_of cursor size + 1) (min c.maximum_range (size * 2)) (total + length logs))
    next_round again cursor size total (err rpc_error) t = (err (rpc rpc_error), t)
    next_round again cursor size total (err range_too_large) t = elim (leb size c.minimum_range) [
      | true ↦ (err (rpc range_too_large), t)
      | false ↦ again cursor (max c.minimum_range (size / 2)) total t
    ]

    -- `while cursor <= end`, on fuel.
    unfoldable pub loop : ℕ → ℕ → ℕ → ℕ → Scan ℕ
    loop zero cursor size total t = (err out_of_fuel, t)
    loop (suc fuel) cursor size total t = elim (leb cursor end) [
      | true ↦
          next_round (loop fuel) cursor size total
            (w.get_logs t.calls cursor (upper_of cursor size)) (record t { calls = t.calls + 1 })
      | false ↦ (ok total, t)
    ]

  -- Enough rounds for every range to shrink to the minimum before each block.
  abbrev pub rounds : ScanConfig → ℕ → ℕ → ℕ
  rounds c start end = (end + 1 - start) * (c.maximum_range + 1) + c.initial_range + 1

  unfoldable pub first_block : ScanConfig → Option ℕ → Option ℕ → ℕ
  first_block c none none = c.start_block
  first_block c none (some current) = current + 1
  first_block c (some block) current = block

  unfoldable pub last_block : Option ℕ → ℕ → ℕ
  last_block none head = head
  last_block (some block) head = min block head

  unfoldable pub ask_safe_head : ScanConfig → Scan BlockHeader
  ask_safe_head c t =
      let t' = record t { calls = t.calls + 1 } in
      elim (w.safe_head t.calls c.finality_blocks) [ ok h ↦ (ok h, t') | err e ↦ (err (rpc e), t') ]

  unfoldable pub scan_to : ScanConfig → Bool → Bool → ℕ → ℕ → Scan ℕ
  scan_to c update store_all start end t =
      if ltb end start
      then (ok 0, t)
      else loop c update store_all end (rounds c start end) start c.initial_range 0 t

  -- `scan`: from the given block or behind the checkpoint, to the given block or the safe head.
  unfoldable pub scan : ScanConfig → Bool → Bool → Option ℕ → Option ℕ → Scan ℕ
  unfolding first_block last_block ask_safe_head scan_to
  scan c update store_all from_block to_block = do
    head ← ask_safe_head c
    λ t.
        scan_to c update store_all (first_block c from_block t.durable)
          (last_block to_block head.number) t

  unfoldable pub repair_range : ScanConfig → ℕ → ℕ → Scan ℕ
  repair_range c from_block to_block = scan c false true (some from_block) (some to_block)

  -- `max(0, head.number - finality_blocks + 1)` is the truncated difference.
  unfoldable pub rescan_finality_window : ScanConfig → Scan ℕ
  unfolding ask_safe_head
  rescan_finality_window c = do
    head ← ask_safe_head c
    scan c false true (some (head.number + 1 - c.finality_blocks)) (some head.number)
