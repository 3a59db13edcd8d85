-- ===== src/Backfill.antt =====
-- The backfill of the order book: src/cow_indexer/services/backfill_orderbook.py. Here is the key of a
-- batch of order UIDs; the children have the seeding of the queue and its drain.
pub mod Sorting
pub mod Keys
pub mod Seeding
pub mod Drain
use cow_indexer.Prelude.{
  ℕ, ◌==◌, ltb, leb, not, ◌&&◌, ◌||◌, Bool, true, false, List, [], ◌∷◌, ◌++◌, if◌then◌else◌, length,
  keep, Text, Result, ok, err, ◌>>=◌, ◌>>◌, require,
}
use cow_indexer.Hex.{ValueError, normalize_order_uid}

abbrev pub uid_batch_size : ℕ
uid_batch_size = 128

-- The `ValueError`s of a batch, by what their messages say.
pub data BatchError : Type 0 where
  bad_uid : ValueError → BatchError
  empty_batch too_many_uids : BatchError

-- Python's order of texts: by code points, a prefix first.
unfoldable pub text_le : Text → Text → Bool
text_le [] t = true
text_le (c ∷ s) [] = false
text_le (c ∷ s) (d ∷ t) = ltb c d || (c == d && text_le s t)

unfoldable pub insert : Text → List Text → List Text
insert s [] = s ∷ []
insert s (t ∷ ts) = let later = t ∷ insert s ts in if text_le s t then s ∷ t ∷ ts else later

unfoldable pub sorted : List Text → List Text
unfolding insert
sorted [] = []
sorted (s ∷ ts) = insert s (sorted ts)

abbrev pub as_uid : Result ValueError Text → Result BatchError Text
as_uid (ok uid) = ok uid
as_uid (err e) = err (bad_uid e)

-- `[normalize_order_uid(uid) for uid in uids]`.
unfoldable pub normal_uids : List Text → Result BatchError (List Text)
normal_uids [] = ok []
normal_uids (uid ∷ uids) = do
  n ← as_uid (normalize_order_uid uid)
  ns ← normal_uids uids
  ok (n ∷ ns)

abbrev pub non_empty {ℓ} : {A : Type ℓ} → List A → Bool
non_empty [] = false
non_empty (x ∷ xs) = true

-- `",".join(texts)`.
unfoldable pub join : List Text → Text
join [] = []
join (s ∷ []) = s
join (s ∷ t ∷ ts) = s ++ (b',' ∷ join (t ∷ ts))

abbrev pub cons_first : ℕ → List Text → List Text
cons_first c [] = (c ∷ []) ∷ []
cons_first c (s ∷ ts) = (c ∷ s) ∷ ts

-- `text.split(",")`.
unfoldable pub split : Text → List Text
split [] = [] ∷ []
split (c ∷ s) = let rest = split s in if c == b',' then [] ∷ rest else cons_first c rest

unfoldable pub encode_uid_batch_key : List Text → Result BatchError Text
unfolding sorted normal_uids join
encode_uid_batch_key uids = do
  ns ← normal_uids uids
  let batch = sorted ns
  require (non_empty batch) empty_batch
  require (leb (length batch) uid_batch_size) too_many_uids
  ok (join batch)

unfoldable pub decode_uid_batch_key : Text → Result BatchError (List Text)
unfolding split normal_uids
decode_uid_batch_key key = normal_uids (keep non_empty (split key))
