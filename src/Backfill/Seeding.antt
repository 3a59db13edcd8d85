-- ===== src/Backfill/Seeding.antt =====
-- The seeding of the backfill: `seed_orders` and `seed_owners` of
-- src/cow_indexer/services/backfill_orderbook.py. The blocks of order UIDs that the database streams,
-- the owners and the total are parameters; the state is the inserts made, oldest first.
pub mod Items
pub mod Chunks
pub mod Returns
use cow_indexer.Prelude.{
  ℕ, zero, suc, ◌+◌, ◌-◌, leb, ◌&&◌, not, Bool, true, false, List, [], ◌∷◌, ◌++◌, if◌then◌else◌,
  length, take, drop, map, Option, none, some, Text, codes, Result, ok, err, String,
}
use cow_indexer.Exec.{Exec, go_on, raising, returning, attempt, ◌>>=◌, ◌>>◌}
use cow_indexer.Json.{Json, obj, field, end, int}
use cow_indexer.WorkQueue.{order_uids_batch, owner_orders_backfill}
use cow_indexer.WorkQueue.Enqueue.{WorkKey}
use cow_indexer.Batches.{batched}
use cow_indexer.Backfill.{BatchError, encode_uid_batch_key, uid_batch_size}

abbrev pub enqueue_chunk : ℕ
enqueue_chunk = 1000

pub data SeedError : Type 0 where
  bad_batch_size no_batches refused : SeedError
  bad_batch : BatchError → SeedError

abbrev pub Seeding : Type 0 → Type 0
Seeding A = Exec (List (List WorkKey)) SeedError A

-- The local variables of `seed_orders`.
pub record Seed : Type 0 where
  pub buffer : List Text
  pub items : List WorkKey
  pub seeded : ℕ
  pub batches : ℕ

pub record Seeded : Type 0 where
  pub seeded_uids : ℕ
  pub batches : ℕ
  pub skipped_existing : Option ℕ

abbrev pub batch_key : List Text → Text → WorkKey
batch_key batch key =
    (order_uids_batch, key, some (obj (field (codes "uids") (int (length batch)) end)))

abbrev pub as_item : List Text → Result BatchError Text → Result SeedError WorkKey
as_item batch (ok key) = ok (batch_key batch key)
as_item batch (err e) = err (bad_batch e)

unfoldable pub batch_item : List Text → Result SeedError WorkKey
batch_item batch = as_item batch (encode_uid_batch_key batch)

abbrev pub with_item : List Text → Seed → Result SeedError WorkKey → Result SeedError Seed
with_item batch s (err e) = err e
with_item batch s (ok item) = ok (record s {
  items = s.items ++ item ∷ [];
  seeded = s.seeded + length batch;
  batches = s.batches + 1;
})

unfoldable pub take_batch : List Text → Seed → Result SeedError Seed
unfolding batch_item
take_batch batch s = with_item batch s (batch_item batch)

abbrev pub new_seed : Seed
new_seed = record { buffer = []; items = []; seeded = 0; batches = 0 }

-- `total` is the answer of `count_distinct_traded_order_uids`, asked only without a limit and a window.
abbrev pub seeded_of : Option ℕ → Option ℕ → ℕ → Seed → Seeded
seeded_of none none total s = record {
  seeded_uids = s.seeded;
  batches = s.batches;
  skipped_existing = some (total - s.seeded);
}
seeded_of limit since_days total s = record {
  seeded_uids = s.seeded;
  batches = s.batches;
  skipped_existing = none;
}

-- Whether the store takes an insert, by the number of those before it.
module _ (takes : ℕ → List WorkKey → Bool) where
  unfoldable pub enqueue : List WorkKey → Seeding (Unit {0})
  enqueue items calls =
      if takes (length calls) items then (ok tt, calls ++ items ∷ []) else (err refused, calls)

  abbrev pub flush_these : List WorkKey → Seed → Seeding Seed
  flush_these [] s = returning s
  flush_these (item ∷ items) s = do enqueue (item ∷ items); returning (record s { items = [] })

  unfoldable pub flush_items : Seed → Seeding Seed
  unfolding enqueue
  flush_items s = flush_these s.items s

  module _ (batch_size : ℕ) where
    abbrev pub flush_full : Seed → Seeding Seed
    flush_full s = if leb enqueue_chunk (length s.items) then flush_items s else returning s

    -- A round of the inner loop; each takes from the buffer.
    unfoldable pub one_batch : Seed → Seeding Seed
    unfolding take_batch flush_items
    one_batch s = do
      taken ← attempt (take_batch (take batch_size s.buffer) s)
      flush_full (record taken { buffer = drop batch_size s.buffer })

    unfoldable pub take_batches : ℕ → Seed → Seeding Seed
    unfolding one_batch
    take_batches zero s = returning s
    take_batches (suc n) s = elim (leb batch_size (length s.buffer)) [
      | false ↦ returning s
      | true ↦ do taken ← one_batch s; take_batches n taken
    ]

    unfoldable pub each_block : List (List Text) → Seed → Seeding Seed
    unfolding take_batches
    each_block [] s = returning s
    each_block (block ∷ blocks) s = do
      let extended = record s { buffer = s.buffer ++ block }
      taken ← take_batches (length extended.buffer) extended
      each_block blocks taken

    abbrev pub take_rest : List Text → Seed → Seeding Seed
    take_rest [] s = returning s
    take_rest (uid ∷ uids) s = attempt (take_batch (uid ∷ uids) s)

    unfoldable pub last_batch : Seed → Seeding Seed
    unfolding take_batch
    last_batch s = take_rest s.buffer s

    -- The stream and what remains of it.
    unfoldable pub seed_stream : List (List Text) → Seeding Seed
    unfolding each_block last_batch flush_items
    seed_stream blocks = do s ← each_block blocks new_seed; whole ← last_batch s; flush_items whole

    unfoldable pub seed_orders : Option ℕ → Option ℕ → ℕ → List (List Text) → Seeding Seeded
    unfolding seed_stream
    seed_orders limit since_days total blocks =
        if leb 1 batch_size && leb batch_size uid_batch_size
        then (do s ← seed_stream blocks; returning (seeded_of limit since_days total s))
        else raising bad_batch_size

  abbrev pub owner_key : Text → WorkKey
  owner_key owner = (owner_orders_backfill, owner, none)

  unfoldable pub enqueue_owners : List (List Text) → Seeding (Unit {0})
  unfolding enqueue
  enqueue_owners [] = returning tt
  enqueue_owners (chunk ∷ chunks) = do enqueue (map owner_key chunk); enqueue_owners chunks

  unfoldable pub seed_owners : List Text → Seeding ℕ
  unfolding enqueue_owners
  seed_owners owners = elim (batched enqueue_chunk owners) [
    | err e ↦ raising no_batches
    | ok chunks ↦ do enqueue_owners chunks; returning (length owners)
  ]
