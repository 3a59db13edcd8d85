-- ===== src/Backfill/Seeding/Items.antt =====
-- The batches that `seed_orders` of src/cow_indexer/services/backfill_orderbook.py takes, and what a
-- flush of their work items leaves.
use mathlib.Core.List.{append_assoc, append-nil}
use cow_indexer.Prelude.{
  ℕ, arith, ◌≡◌, ◌≤◌, ◌<◌, ◌+◌, refl, ◌∙◌, ap, sym, subst, Bool, true, false, if◌then◌else◌, List,
  [], ◌∷◌, ◌++◌, All, All-append, length, length-append, Text, Result, ok, err, bind-eq-ok, ◌>>=◌,
}
use cow_indexer.Exec.{go_on-eq-ok}
use cow_indexer.WorkQueue.Enqueue.{WorkKey}
use cow_indexer.Batches.{concat, concat-append, IsBatch}
use cow_indexer.Backfill.Seeding.{
  SeedError, Seed, batch_item, with_item, take_batch, enqueue, refused, flush_these, flush_items,
  enqueue_chunk,
}

-- The work items of batches: the specification, without a buffer.
unfoldable pub items_of : List (List Text) → Result SeedError (List WorkKey)
items_of [] = ok []
items_of (batch ∷ batches) = do item ← batch_item batch; items ← items_of batches; ok (item ∷ items)

items_of-append :
    (batches : List (List Text)) (items : List WorkKey) (batch : List Text) (item : WorkKey)
    → items_of batches ≡ ok items
    → batch_item batch ≡ ok item
    → items_of (batches ++ batch ∷ []) ≡ ok (items ++ item ∷ [])
unfolding items_of
items_of-append [] items batch item h e = rw e (ap (λ r. r >>= λ is. ok (is ++ item ∷ [])) h)
items_of-append (b ∷ bs) items batch item h e =
    let (i, after, first) = bind-eq-ok (batch_item b) _ h in
    let (is, last, others) = bind-eq-ok (items_of bs) _ after in
    rw (first, items_of-append bs is batch item others e)
      (ap (λ r. r >>= λ is. ok (is ++ item ∷ [])) last)

length-concat_one :
    (batches : List (List Text)) (batch : List Text)
    → length (concat (batches ++ batch ∷ [])) ≡ length (concat batches) + length batch
unfolding concat
length-concat_one batches batch =
    ap length (concat-append batches (batch ∷ []) ∙ ap (◌++◌ (concat batches)) (append-nil batch))
    ∙ length-append (concat batches) batch

concat-one :
    (calls : List (List WorkKey)) (items : List WorkKey)
    → concat (calls ++ items ∷ []) ++ [] ≡ concat calls ++ items
unfolding concat
concat-one calls items =
    append-nil (concat (calls ++ items ∷ []))
    ∙ concat-append calls (items ∷ [])
    ∙ ap (◌++◌ (concat calls)) (append-nil items)

-- What has been taken so far as batches, with the variables and the inserts made.
pub record IsTaken (batches : List (List Text)) (s : Seed) (calls : List (List WorkKey))
    : Type 0 where
  pub encoded : items_of batches ≡ ok (concat calls ++ s.items)
  pub counted : s.seeded ≡ length (concat batches)
  pub numbered : s.batches ≡ length batches
  pub chunked : All (IsBatch enqueue_chunk) calls
  pub room : length s.items ≤ enqueue_chunk

with_item-ok :
    (batch : List Text) (s s' : Seed) (r : Result SeedError WorkKey)
    → with_item batch s r ≡ ok s'
    → (item : WorkKey) × (r ≡ ok item)
      × (record s {
        items = s.items ++ item ∷ [];
        seeded = s.seeded + length batch;
        batches = s.batches + 1;
      }
          ≡ s')
with_item-ok batch s s' (ok item) e = (item, refl, ground arith)
with_item-ok batch s s' (err error) e = cc

pub take_batch-IsTaken :
    (batches : List (List Text)) (batch : List Text) (s s' : Seed) (calls : List (List WorkKey))
    → IsTaken batches s calls
    → length s.items < enqueue_chunk
    → take_batch batch s ≡ ok s'
    → IsTaken (batches ++ batch ∷ []) s' calls × (s'.buffer ≡ s.buffer)
unfolding take_batch concat
take_batch-IsTaken batches batch s s' calls h room e =
    let (item, encoded, same) = with_item-ok batch s s' (batch_item batch) e in
    subst (λ s'. IsTaken (batches ++ batch ∷ []) s' calls × (s'.buffer ≡ s.buffer)) same
      (
        record {
          encoded =
              items_of-append batches (concat calls ++ s.items) batch item h.encoded encoded
              ∙ ap ok (append_assoc (concat calls) s.items (item ∷ []));
          counted = omega (arith, h.counted, length-concat_one batches batch);
          numbered = omega (arith, h.numbered, length-append batches (batch ∷ []));
          chunked = h.chunked;
          room = omega (arith, room, length-append s.items (item ∷ []));
        },
        refl,
      )

pub IsTaken-append :
    (batches : List (List Text)) (s s' : Seed) (calls calls' : List (List WorkKey))
    → s ≡ s'
    → calls ≡ calls'
    → IsTaken batches s calls
    → IsTaken batches s' calls'
IsTaken-append batches s s' calls calls' e k h =
    subst (λ c. IsTaken batches s' c) k (subst (λ s. IsTaken batches s calls) e h)

module _ (takes : ℕ → List WorkKey → Bool) where
  enqueue-ok :
      (items : List WorkKey) (calls calls' : List (List WorkKey)) (u : Unit {0})
      → enqueue takes items calls ≡ (ok u, calls')
      → calls ++ items ∷ [] ≡ calls'
  unfolding enqueue
  enqueue-ok items calls calls' u e = taken (takes (length calls) items) e
    where
      taken :
          (t : Bool)
          → ◌≡◌ {A = Result SeedError (Unit {0}) × List (List WorkKey)}
              (if t then (ok tt, calls ++ items ∷ []) else (err refused, calls))
              (ok u, calls')
          → calls ++ items ∷ [] ≡ calls'
      taken true q = ap (λ r. r.1) q
      taken false q = absurd (cc (ap (λ r. r.0) q))

  pub returned :
      (s s' : Seed) (calls calls' : List (List WorkKey))
      → ◌≡◌ {A = Result SeedError Seed × List (List WorkKey)} (ok s, calls) (ok s', calls')
      → (s ≡ s') × (calls ≡ calls')
  returned s s' calls calls' e = (seed_injective (ap (λ r. r.0) e), ap (λ r. r.1) e)
    where
      seed_injective : ◌≡◌ {A = Result SeedError Seed} (ok s) (ok s') → s ≡ s'
      seed_injective q = ground arith

  -- What a flush leaves.
  abbrev pub Flushed : List (List Text) → Seed → Seed → List (List WorkKey) → Type 0
  Flushed batches s s' calls' = IsTaken batches s' calls' × (s'.items ≡ []) × (s'.buffer ≡ s.buffer)

  flush_these-Flushed :
      (items : List WorkKey) (batches : List (List Text)) (s s' : Seed)
      (calls calls' : List (List WorkKey))
      → s.items ≡ items
      → IsTaken batches s calls
      → flush_these takes items s calls ≡ (ok s', calls')
      → Flushed batches s s' calls'
  unfolding enqueue
  flush_these-Flushed [] batches s s' calls calls' same h e =
      let (p, q) = returned s s' calls calls' e in
      (
        IsTaken-append batches s s' calls calls' p q h,
        ap (λ s. s.items) (sym p) ∙ same,
        ap (λ s. s.buffer) (sym p),
      )
  flush_these-Flushed (item ∷ items) batches s s' calls calls' same h e =
      let (u, middle, after, wrote) =
        go_on-eq-ok (enqueue takes (item ∷ items) calls) _ s' calls' e in
      let (p, q) = returned (record s { items = [] }) s' middle calls' after in
      let calls_now = enqueue-ok (item ∷ items) calls middle u wrote ∙ q in
      (
        IsTaken-append batches (record s { items = [] }) s' (calls ++ (item ∷ items) ∷ []) calls' p
            calls_now
            (record {
              encoded =
                  h.encoded
                  ∙ ap ok (ap (◌++◌ (concat calls)) same ∙ sym (concat-one calls (item ∷ items)));
              counted = h.counted;
              numbered = h.numbered;
              chunked =
                  All-append (IsBatch enqueue_chunk) calls ((item ∷ items) ∷ []) h.chunked
                    ((omega arith, subst (λ is. length is ≤ enqueue_chunk) same h.room), tt);
              room = omega arith;
            }),
        ap (λ s. s.items) (sym p),
        ap (λ s. s.buffer) (sym p),
      )

  pub flush_items-Flushed :
      (batches : List (List Text)) (s s' : Seed) (calls calls' : List (List WorkKey))
      → IsTaken batches s calls
      → flush_items takes s calls ≡ (ok s', calls')
      → Flushed batches s s' calls'
  unfolding flush_items
  flush_items-Flushed batches s s' calls calls' h e =
      flush_these-Flushed s.items batches s s' calls calls' refl h e
