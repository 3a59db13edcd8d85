-- ===== src/Backfill/Seeding/Returns.antt =====
-- When `seed_orders` of src/cow_indexer/services/backfill_orderbook.py returns.

use cow_indexer.Prelude.{
  ℕ, zero, suc, arith, ◌≡◌, ◌≤◌, ◌<◌, refl, Bool, true, false, if◌then◌else◌, List, [], ◌∷◌, ◌++◌,
  All, All-append, length, take, drop, length-take, Text, leb, Result, ok, Option, Bool-cases, inl,
  inr, leb→le, ◌&&◌, length-drop,
}
use cow_indexer.Exec.{go_on, returning}
use cow_indexer.Hex.{normalize_order_uid}
use cow_indexer.WorkQueue.Enqueue.{WorkKey}
use cow_indexer.Backfill.{uid_batch_size}
use cow_indexer.Backfill.Keys.{encode-returns}
use cow_indexer.Backfill.Seeding.{
  SeedError, Seeding, Seed, Seeded, batch_item, take_batch, enqueue, flush_items, flush_these,
  flush_full, one_batch, take_batches, each_block, last_batch, take_rest, new_seed, seed_orders,
  seed_stream, seeded_of, enqueue_chunk,
}

-- A text that is an order UID, written in any case.
abbrev pub IsWritten : Text → Type 0
IsWritten uid = (n : Text) × (normalize_order_uid uid ≡ ok n)

All-take {ℓ κ} : {A : Type ℓ} (P : A → Type κ) (n : ℕ) (xs : List A) → All P xs → All P (take n xs)
All-take P zero xs h = tt
All-take P (suc n) [] h = tt
All-take P (suc n) (x ∷ xs) h = (h.0, All-take P n xs h.1)

All-drop {ℓ κ} : {A : Type ℓ} (P : A → Type κ) (n : ℕ) (xs : List A) → All P xs → All P (drop n xs)
All-drop P zero xs h = h
All-drop P (suc n) [] h = tt
All-drop P (suc n) (x ∷ xs) h = All-drop P n xs h.1

-- Code that returned, with what its local variables then are.
data Returned (Q : Seed → Type 0) : Result SeedError Seed × List (List WorkKey) → Type 0 where
  returned : (s : Seed) (calls : List (List WorkKey)) → Q s → Returned Q (ok s, calls)

go_on-Returned :
    {P Q : Seed → Type 0} {r : Result SeedError Seed × List (List WorkKey)}
    {rest : Seed → Seeding Seed}
    → Returned P r
    → ((s : Seed) (calls : List (List WorkKey)) → P s → Returned Q (rest s calls))
    → Returned Q (go_on r rest)
go_on-Returned (returned s calls h) k = k s calls h

returns :
    {P : Seed → Type 0} {r : Result SeedError Seed × List (List WorkKey)}
    → Returned P r
    → Returned (λ s. Unit) r
returns (returned s calls h) = returned s calls tt

-- The buffer is the given one.
abbrev Holds : List Text → Seed → Type 0
Holds buffer s = s.buffer ≡ buffer

batch_item-returns :
    (batch : List Text)
    → All IsWritten batch
    → 0 < length batch
    → length batch ≤ uid_batch_size
    → (item : WorkKey) × (batch_item batch ≡ ok item)
unfolding batch_item
batch_item-returns batch h pos fits =
    let (key, e) = encode-returns batch h pos fits in rw e (_, refl)

take_batch-Returned :
    (batch : List Text) (s : Seed) (calls : List (List WorkKey))
    → All IsWritten batch
    → 0 < length batch
    → length batch ≤ uid_batch_size
    → Returned (Holds s.buffer) (take_batch batch s, calls)
unfolding take_batch
take_batch-Returned batch s calls h pos fits =
    let (item, e) = batch_item-returns batch h pos fits in rw e (returned _ calls refl)

module _ (takes : ℕ → List WorkKey → Bool)
    (always : (n : ℕ) (items : List WorkKey) → takes n items ≡ true) where
  flush_these-Returned :
      (items : List WorkKey) (s : Seed) (calls : List (List WorkKey))
      → Returned (Holds s.buffer) (flush_these takes items s calls)
  unfolding enqueue
  flush_these-Returned [] s calls = returned s calls refl
  flush_these-Returned (item ∷ items) s calls =
      rw (always (length calls) (item ∷ items)) (returned _ _ refl)

  flush_full-Returned :
      (size : ℕ) (s : Seed) (calls : List (List WorkKey))
      → Returned (Holds s.buffer) (flush_full takes size s calls)
  unfolding flush_items
  flush_full-Returned size s calls = either (leb enqueue_chunk (length s.items))
    where
      either :
          (t : Bool)
          → Returned (Holds s.buffer) ((if t then flush_items takes s else returning s) calls)
      either true = flush_these-Returned s.items s calls
      either false = returned s calls refl

  module _ (size : ℕ) (pos : 1 ≤ size) (fits : size ≤ uid_batch_size) where
    one_batch-Returned :
        (s : Seed) (calls : List (List WorkKey))
        → size ≤ length s.buffer
        → All IsWritten s.buffer
        → Returned (Holds (drop size s.buffer)) (one_batch takes size s calls)
    unfolding one_batch
    one_batch-Returned s calls enough h =
        let batch = take size s.buffer in
        go_on-Returned
          (take_batch-Returned batch s calls (All-take IsWritten size s.buffer h)
            (omega (arith, length-take size s.buffer, enough, pos))
            (omega (arith, length-take size s.buffer, fits)))
          (λ taken middle k.
            flush_full-Returned size (record taken { buffer = drop size s.buffer }) middle)

    -- Less than a batch, all of it order UIDs.
    abbrev IsRest : Seed → Type 0
    IsRest s = All IsWritten s.buffer × (length s.buffer < size)

    take_batches-Returned :
        (n : ℕ) (s : Seed) (calls : List (List WorkKey))
        → length s.buffer ≤ n
        → All IsWritten s.buffer
        → Returned IsRest (take_batches takes size n s calls)
    unfolding take_batches
    take_batches-Returned zero s calls fuel h = returned s calls (h, omega (arith, fuel, pos))
    take_batches-Returned (suc n) s calls fuel h = elim (Bool-cases (leb size (length s.buffer))) [
      | inl e ↦
          rw (e, take_batches)
            (go_on-Returned (one_batch-Returned s calls (leb→le _ _ e) h) (λ taken middle k.
              take_batches-Returned n taken middle
                (rw k (omega (arith, length-drop size s.buffer, fuel, pos, leb→le _ _ e)))
                (rw k (All-drop IsWritten size s.buffer h))))
      | inr e ↦ rw (e, take_batches) (returned s calls (h, ground arith))
    ]

    each_block-Returned :
        (blocks : List (List Text)) (s : Seed) (calls : List (List WorkKey))
        → All (All IsWritten) blocks
        → IsRest s
        → Returned IsRest (each_block takes size blocks s calls)
    unfolding each_block
    each_block-Returned [] s calls h k = returned s calls k
    each_block-Returned (block ∷ blocks) s calls h k =
        let longer : Seed = record s { buffer = s.buffer ++ block } in
        go_on-Returned
          (take_batches-Returned (length longer.buffer) longer calls (omega arith)
            (All-append IsWritten s.buffer block k.0 h.0))
          (λ taken middle. each_block-Returned blocks taken middle h.1)

    take_rest-Returned :
        (rest : List Text) (s : Seed) (calls : List (List WorkKey))
        → All IsWritten rest
        → length rest < size
        → Returned (λ s'. Unit) (take_rest takes size rest s calls)
    take_rest-Returned [] s calls h less = returned s calls tt
    take_rest-Returned (uid ∷ uids) s calls h less =
        returns
          (take_batch-Returned (uid ∷ uids) s calls h (omega arith) (omega (arith, less, fits)))

    seed_stream-Returned :
        (blocks : List (List Text))
        → All (All IsWritten) blocks
        → Returned (λ s. Unit) (seed_stream takes size blocks [])
    unfolding seed_stream last_batch flush_items
    seed_stream-Returned blocks h =
        go_on-Returned (each_block-Returned blocks new_seed [] h (tt, omega (arith, pos)))
          (λ s calls k.
            go_on-Returned (take_rest-Returned s.buffer s calls k.0 k.1)
              (λ whole later l. returns (flush_these-Returned whole.items whole later)))

    -- `seed_orders` returns whenever the size is between 1 and 128, the stream has only order UIDs and
    -- the store takes every insert.
    pub seed_orders-returns :
        (limit since_days : Option ℕ) (total : ℕ) (blocks : List (List Text))
        → All (All IsWritten) blocks
        → (r : Seeded) × (calls : List (List WorkKey)) × (seed_orders takes size limit since_days
              total blocks []
            ≡ (ok r, calls))
    unfolding seed_orders
    seed_orders-returns limit since_days total blocks h =
        rw guards (reported _ (seed_stream-Returned blocks h))
      where
        guards : (leb 1 size && leb size uid_batch_size) ≡ true
        guards = ground arith

        reported :
            (x : Result SeedError Seed × List (List WorkKey))
            → Returned (λ s. Unit) x
            → (r : Seeded) × (calls : List (List WorkKey)) × (go_on x
                  (λ s. returning (seeded_of limit since_days total s))
                ≡ (ok r, calls))
        reported x (returned s calls k) = (seeded_of limit since_days total s, calls, refl)
