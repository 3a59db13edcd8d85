-- ===== src/Tests/Backfill.antt =====
-- Runs of the backfill of the order book.
use mathlib.Core.List.{Permᴰ}
use cow_indexer.Prelude.{
  ℕ, arith, ◌≡◌, ◌≤◌, refl, true, none, some, List, [], ◌∷◌, ◌++◌, All, ok, Text, replicate, Bool,
  starts_with,
}
use cow_indexer.Hex.{
  normalize_order_uid, normalize_hex, hex_prefix, prefixed, lower, is_hex_code, length_fits,
}
use cow_indexer.WorkQueue.Enqueue.{WorkKey}
use cow_indexer.Batches.{batched, batched_from, flush, concat}
use cow_indexer.Backfill.{
  encode_uid_batch_key, decode_uid_batch_key, sorted, insert, text_le, normal_uids, join, split,
}
use cow_indexer.Backfill.Keys.{decode-encode, encode-Permᴰ, IsBatchOf}
use cow_indexer.Backfill.Seeding.{
  seed_orders, seed_stream, each_block, take_batches, one_batch, take_batch, batch_item,
  flush_items, enqueue, last_batch, Seeded,
}
use cow_indexer.Backfill.Seeding.Chunks.{IsSeeded, seed_orders-IsSeeded}
use cow_indexer.Backfill.Seeding.Returns.{IsWritten, seed_orders-returns}

program : Unit {0}
unfolding starts_with normalize_order_uid normalize_hex prefixed lower is_hex_code length_fits
    encode_uid_batch_key decode_uid_batch_key sorted insert text_le normal_uids join split
    seed_orders seed_stream each_block take_batches one_batch take_batch batch_item flush_items
    enqueue last_batch batched batched_from flush concat
program = tt

abbrev uid_of : ℕ → Text
uid_of c = hex_prefix ++ replicate 112 c

abbrev key : Text
key = uid_of b'a' ++ (b',' ∷ uid_of b'b')

-- The key of two order UIDs has them in order, in lower case.
encoded : encode_uid_batch_key (uid_of b'B' ∷ uid_of b'a' ∷ []) ≡ ok key
unfolding program
encoded = refl

decode-encode_example :
    (batch : List Text) × (decode_uid_batch_key key ≡ ok batch)
    × IsBatchOf (uid_of b'B' ∷ uid_of b'a' ∷ []) batch
decode-encode_example = decode-encode (uid_of b'B' ∷ uid_of b'a' ∷ []) key encoded

encode-Permᴰ_example : encode_uid_batch_key (uid_of b'a' ∷ uid_of b'B' ∷ []) ≡ ok key
encode-Permᴰ_example =
    encode-Permᴰ (uid_of b'B' ∷ uid_of b'a' ∷ []) (uid_of b'a' ∷ uid_of b'B' ∷ []) key
      (Permᴰ.swap refl refl) encoded

abbrev always : ℕ → List WorkKey → Bool
always n items = true

abbrev stream : List (List Text)
stream = (uid_of b'c' ∷ []) ∷ (uid_of b'b' ∷ uid_of b'a' ∷ []) ∷ []

stream-IsWritten : All (All IsWritten) stream
unfolding program
stream-IsWritten =
    (((uid_of b'c', refl), tt), (((uid_of b'b', refl), ((uid_of b'a', refl), tt)), tt))

seed_orders-returns_example :
    (r : Seeded) × (calls : List (List WorkKey)) × (seed_orders always 2 none none 5 stream []
      ≡ (ok r, calls))
seed_orders-returns_example =
    seed_orders-returns always (λ n items. refl) 2 (omega arith) (omega arith) none none 5 stream
      stream-IsWritten

abbrev report : Seeded
report = record { seeded_uids = 3; batches = 2; skipped_existing = some 2 }

abbrev calls : List (List WorkKey)
calls = (seed_orders always 2 none none 5 stream []).1

seeded : seed_orders always 2 none none 5 stream [] ≡ (ok report, calls)
unfolding program
seeded = refl

seed_orders-IsSeeded_example : (1 ≤ 2) × (2 ≤ 128) × IsSeeded always 2 (concat stream) report calls
seed_orders-IsSeeded_example = seed_orders-IsSeeded always 2 none none 5 stream report calls seeded
