-- ===== src/Backfill/Seeding/Chunks.antt =====
-- What `seed_orders` of src/cow_indexer/services/backfill_orderbook.py has enqueued when it returns.
use mathlib.Core.List.{append-nil, append_assoc}
use cow_indexer.Prelude.{
  ℕ, zero, suc, arith, ◌≡◌, ◌≤◌, ◌<◌, refl, ◌∙◌, ap, sym, subst, Bool, true, false, if◌then◌else◌,
  List, [], ◌∷◌, ◌++◌, All, All-append, length, take, drop, take-append-drop, length-take,
  length-drop, Text, leb, leb→le, Result, ok, Option, some, none, ◌&&◌,
}
use cow_indexer.Exec.{go_on-eq-ok, guarded-eq-ok, returning, ◌>>=◌}
use cow_indexer.WorkQueue.Enqueue.{WorkKey}
use cow_indexer.Batches.{
  batched, batched_from, flush, concat, concat-append, batched_from-concat, concat-batched_from,
  IsBatch,
}
use cow_indexer.Backfill.{uid_batch_size}
use cow_indexer.Backfill.Seeding.{
  SeedError, bad_batch_size, seed_stream, Seeding, Seed, Seeded, take_batch, flush_items,
  flush_full, one_batch, take_batches, each_block, last_batch, take_rest, new_seed, seed_orders,
  seeded_of, enqueue_chunk,
}
use cow_indexer.Backfill.Seeding.Items.{
  items_of, IsTaken, take_batch-IsTaken, IsTaken-append, flush_items-Flushed, returned,
}

concat-taken :
    (batches : List (List Text)) (size : ℕ) (buffer rest : List Text)
    → rest ≡ drop size buffer
    → concat batches ++ buffer ≡ concat (batches ++ take size buffer ∷ []) ++ rest
unfolding concat
concat-taken batches size buffer rest e =
    ap (◌++◌ (concat batches))
      (sym (take-append-drop size buffer) ∙ ap (◌++◌ (take size buffer)) (sym e))
    ∙ sym (append_assoc (concat batches) (take size buffer) rest)
    ∙ ap (λ t. t ++ rest)
        (ap (◌++◌ (concat batches)) (sym (append-nil (take size buffer)))
          ∙ sym (concat-append batches (take size buffer ∷ [])))

module _ (takes : ℕ → List WorkKey → Bool) (size : ℕ) where
  -- The state of the loops, after some of the stream.
  record IsStreamed (stream : List Text) (s : Seed) (calls : List (List WorkKey)) : Type 0 where
    batches : List (List Text)
    taken : IsTaken batches s calls
    full : All (λ b. length b ≡ size) batches
    all : stream ≡ concat batches ++ s.buffer
    space : length s.items < enqueue_chunk

  flush_full-Room :
      (batches : List (List Text)) (s s' : Seed) (calls calls' : List (List WorkKey))
      → IsTaken batches s calls
      → flush_full takes size s calls ≡ (ok s', calls')
      → IsTaken batches s' calls' × (length s'.items < enqueue_chunk) × (s'.buffer ≡ s.buffer)
  flush_full-Room batches s s' calls calls' h e =
      full_or_not (leb enqueue_chunk (length s.items)) refl e
    where
      full_or_not :
          (t : Bool)
          → leb enqueue_chunk (length s.items) ≡ t
          → (if t then flush_items takes s else returning s) calls ≡ (ok s', calls')
          → IsTaken batches s' calls' × (length s'.items < enqueue_chunk) × (s'.buffer ≡ s.buffer)
      full_or_not true full q =
          let (k, none_left, same) = flush_items-Flushed takes batches s s' calls calls' h q in
          (k, rw none_left (omega arith), same)
      full_or_not false room q =
          let (k, l) = returned takes s s' calls calls' q in
          (
            IsTaken-append batches s s' calls calls' k l h,
            subst (λ s. length s.items < enqueue_chunk) k (ground arith),
            ap (λ s. s.buffer) (sym k),
          )

  one_batch-IsStreamed :
      (stream : List Text) (s s' : Seed) (calls calls' : List (List WorkKey))
      → IsStreamed stream s calls
      → size ≤ length s.buffer
      → one_batch takes size s calls ≡ (ok s', calls')
      → IsStreamed stream s' calls' × (s'.buffer ≡ drop size s.buffer)
  unfolding one_batch
  one_batch-IsStreamed stream s s' calls calls' h enough e =
      let batch = take size s.buffer in
      let (taken, middle, after, first) = go_on-eq-ok (take_batch batch s, calls) _ s' calls' e in
      let k =
        take_batch-IsTaken h.batches batch s taken calls h.taken h.space (ap (λ r. r.0) first) in
      let rest : Seed = record taken { buffer = drop size s.buffer } in
      let same : calls ≡ middle = ap (λ r. r.1) first in
      let shrunk =
        IsTaken-append (h.batches ++ batch ∷ []) rest rest calls middle refl same (record {
          encoded = k.0.encoded;
          counted = k.0.counted;
          numbered = k.0.numbered;
          chunked = k.0.chunked;
          room = k.0.room;
        }) in
      let (l, room, buffer) =
        flush_full-Room (h.batches ++ batch ∷ []) rest s' middle calls' shrunk after in
      (
        record {
          batches = h.batches ++ batch ∷ [];
          taken = l;
          full =
              All-append (λ b. length b ≡ size) h.batches (batch ∷ []) h.full
                (omega (arith, length-take size s.buffer, enough), tt);
          all = h.all ∙ concat-taken h.batches size s.buffer s'.buffer buffer;
          space = room;
        },
        buffer,
      )

  same-IsStreamed :
      (stream : List Text) (s s' : Seed) (calls calls' : List (List WorkKey))
      → IsStreamed stream s calls
      → ◌≡◌ {A = Result SeedError Seed × List (List WorkKey)} (ok s, calls) (ok s', calls')
      → IsStreamed stream s' calls' × (s ≡ s')
  same-IsStreamed stream s s' calls calls' h e =
      let (k, l) = returned takes s s' calls calls' e in
      (subst (λ c. IsStreamed stream s' c) l (subst (λ s. IsStreamed stream s calls) k h), k)

  -- A round of the inner loop, with the rest of them.
  take_batches-round :
      (t : Bool) (stream : List Text) (s s' : Seed) (calls calls' : List (List WorkKey))
      (rest : Seed → Seeding Seed)
      → leb size (length s.buffer) ≡ t
      → IsStreamed stream s calls
      → ((taken : Seed) (middle : List (List WorkKey))
          → IsStreamed stream taken middle
          → taken.buffer ≡ drop size s.buffer
          → rest taken middle ≡ (ok s', calls')
          → IsStreamed stream s' calls' × (length s'.buffer < size))
      → (elim t as (λ _. Seeding Seed) [
        | false ↦ returning s
        | true ↦ do taken ← one_batch takes size s; rest taken
      ])
          calls
        ≡ (ok s', calls')
      → IsStreamed stream s' calls' × (length s'.buffer < size)
  take_batches-round false stream s s' calls calls' rest short h k e =
      let (g, same) = same-IsStreamed stream s s' calls calls' h e in
      (g, subst (λ s. length s.buffer < size) same (ground arith))
  take_batches-round true stream s s' calls calls' rest enough h k e =
      let (taken, middle, after, first) =
        go_on-eq-ok (one_batch takes size s calls) _ s' calls' e in
      let (g, l) = one_batch-IsStreamed stream s taken calls middle h (leb→le _ _ enough) first in
      k taken middle g l after

  take_batches-IsStreamed :
      (n : ℕ) (stream : List Text) (s s' : Seed) (calls calls' : List (List WorkKey))
      → 0 < size
      → length s.buffer ≤ n
      → IsStreamed stream s calls
      → take_batches takes size n s calls ≡ (ok s', calls')
      → IsStreamed stream s' calls' × (length s'.buffer < size)
  unfolding take_batches
  take_batches-IsStreamed zero stream s s' calls calls' pos fuel h e =
      let (g, same) = same-IsStreamed stream s s' calls calls' h e in
      (g, subst (λ s. length s.buffer < size) same (omega (arith, pos, fuel)))
  take_batches-IsStreamed (suc n) stream s s' calls calls' pos fuel h e =
      take_batches-round (leb size (length s.buffer)) stream s s' calls calls'
        (take_batches takes size n) refl h
        (λ taken middle g l after.
          take_batches-IsStreamed n stream taken s' middle calls' pos
            (rw l (omega (arith, length-drop size s.buffer, fuel, pos))) g after)
        e

  each_block-IsStreamed :
      (blocks : List (List Text)) (stream : List Text) (s s' : Seed)
      (calls calls' : List (List WorkKey))
      → 0 < size
      → length s.buffer < size
      → IsStreamed stream s calls
      → each_block takes size blocks s calls ≡ (ok s', calls')
      → IsStreamed (stream ++ concat blocks) s' calls' × (length s'.buffer < size)
  unfolding each_block concat
  each_block-IsStreamed [] stream s s' calls calls' pos less h e =
      let (g, same) = same-IsStreamed stream s s' calls calls' h e in
      (
        subst (λ t. IsStreamed t s' calls') (sym (append-nil stream)) g,
        subst (λ s. length s.buffer < size) same less,
      )
  each_block-IsStreamed (block ∷ blocks) stream s s' calls calls' pos less h e =
      let longer : Seed = record s { buffer = s.buffer ++ block } in
      let (taken, middle, after, first) =
        go_on-eq-ok (take_batches takes size (length longer.buffer) longer calls) _ s' calls' e in
      let (g, l) =
        take_batches-IsStreamed (length longer.buffer) (stream ++ block) longer taken calls middle
          pos (omega arith)
          (record {
            batches = h.batches;
            taken = record {
              encoded = h.taken.encoded;
              counted = h.taken.counted;
              numbered = h.taken.numbered;
              chunked = h.taken.chunked;
              room = h.taken.room;
            };
            full = h.full;
            all = ap (λ t. t ++ block) h.all ∙ append_assoc (concat h.batches) s.buffer block;
            space = h.space;
          })
          first in
      let (k, m) =
        each_block-IsStreamed blocks (stream ++ block) taken s' middle calls' pos l g after in
      (subst (λ t. IsStreamed t s' calls') (append_assoc stream block (concat blocks)) k, m)

  -- What is enqueued for a stream of order UIDs, and what is reported.
  pub record IsSeeded (stream : List Text) (r : Seeded) (calls : List (List WorkKey)) : Type 0 where
    pub batches : List (List Text)
    pub batched_stream : batched size stream ≡ ok batches
    pub encoded : items_of batches ≡ ok (concat calls)
    pub chunked : All (IsBatch enqueue_chunk) calls
    pub all_uids : r.seeded_uids ≡ length stream
    pub all_batches : r.batches ≡ length batches

  -- The batches, after the rest of the buffer is one.
  record IsWhole (stream : List Text) (s : Seed) (calls : List (List WorkKey)) : Type 0 where
    batches : List (List Text)
    batched_stream : batched_from size [] stream ≡ batches
    taken : IsTaken batches s calls

  whole_stream :
      (stream rest : List Text) (batches : List (List Text))
      → All (λ b. length b ≡ size) batches
      → length rest < size
      → stream ≡ concat batches ++ rest
      → batched_from size [] stream ≡ batches ++ flush rest
  whole_stream stream rest batches full less e =
      ap (batched_from size []) e ∙ batched_from-concat size batches rest full less

  take_rest-IsWhole :
      (rest stream : List Text) (s s' : Seed) (calls calls' : List (List WorkKey))
      → s.buffer ≡ rest
      → length s.buffer < size
      → IsStreamed stream s calls
      → take_rest takes size rest s calls ≡ (ok s', calls')
      → IsWhole stream s' calls'
  unfolding flush
  take_rest-IsWhole [] stream s s' calls calls' same less h e =
      let (k, l) = returned takes s s' calls calls' e in
      record {
        batches = h.batches;
        batched_stream =
            whole_stream stream s.buffer h.batches h.full less h.all
            ∙ ap (λ r. h.batches ++ flush r) same
            ∙ append-nil h.batches;
        taken = IsTaken-append h.batches s s' calls calls' k l h.taken;
      }
  take_rest-IsWhole (uid ∷ uids) stream s s' calls calls' same less h e =
      let (k, l) =
        take_batch-IsTaken h.batches (uid ∷ uids) s s' calls h.taken h.space (ap (λ r. r.0) e) in
      record {
        batches = h.batches ++ (uid ∷ uids) ∷ [];
        batched_stream =
            whole_stream stream s.buffer h.batches h.full less h.all
            ∙ ap (λ r. h.batches ++ flush r) same;
        taken =
            IsTaken-append (h.batches ++ (uid ∷ uids) ∷ []) s' s' calls calls' refl
              (ap (λ r. r.1) e) k;
      }

seeded_of-counts :
    (limit since_days : Option ℕ) (total : ℕ) (s : Seed)
    → ((seeded_of limit since_days total s).seeded_uids ≡ s.seeded)
      × ((seeded_of limit since_days total s).batches ≡ s.batches)
seeded_of-counts none none total s = (refl, refl)
seeded_of-counts none (some days) total s = (refl, refl)
seeded_of-counts (some n) since_days total s = (refl, refl)

module _ (takes : ℕ → List WorkKey → Bool) (size : ℕ) where
  new_seed-IsStreamed : IsStreamed takes size [] new_seed []
  unfolding items_of concat
  new_seed-IsStreamed = record {
    batches = [];
    taken = record {
      encoded = refl;
      counted = refl;
      numbered = refl;
      chunked = tt;
      room = omega arith;
    };
    full = tt;
    all = refl;
    space = omega arith;
  }

  batched-from :
      (stream : List Text) → 0 < size → batched size stream ≡ ok (batched_from size [] stream)
  unfolding batched
  batched-from stream pos = ground arith

  seed_stream-IsWhole :
      (blocks : List (List Text)) (s : Seed) (calls : List (List WorkKey))
      → 0 < size
      → seed_stream takes size blocks [] ≡ (ok s, calls)
      → IsWhole takes size (concat blocks) s calls × (s.items ≡ [])
  unfolding seed_stream
  seed_stream-IsWhole blocks s calls pos e =
      let (streamed, middle, after, first) =
        go_on-eq-ok (each_block takes size blocks new_seed []) _ s calls e in
      let (whole, later, flushing, rest) =
        go_on-eq-ok (last_batch takes size streamed middle) _ s calls after in
      let (h, less) =
        each_block-IsStreamed takes size blocks [] new_seed streamed [] middle pos
          (omega (arith, pos)) new_seed-IsStreamed first in
      let w =
        take_rest-IsWhole takes size streamed.buffer (concat blocks) streamed whole middle later
          refl less h rest in
      let (taken, none_left, _) =
        flush_items-Flushed takes w.batches whole s later calls w.taken flushing in
      (record { batches = w.batches; batched_stream = w.batched_stream; taken = taken }, none_left)

  seeded_injective : (a b : Seeded) → ◌≡◌ {A = Result SeedError Seeded} (ok a) (ok b) → a ≡ b
  seeded_injective a b e = ground arith

  -- When `seed_orders` returns, starting from no insert, the inserts that it has made hold, in their
  -- order, one work item for each batch of the stream cut into batches of the given size, as if the
  -- stream had been one list; no insert is empty or above 1000 items; and the numbers reported are those
  -- of the order UIDs of the stream and of the batches. It returns only for a size between 1 and 128.
  pub seed_orders-IsSeeded :
      (limit since_days : Option ℕ) (total : ℕ) (blocks : List (List Text)) (r : Seeded)
      (calls : List (List WorkKey))
      → seed_orders takes size limit since_days total blocks [] ≡ (ok r, calls)
      → (1 ≤ size) × (size ≤ 128) × IsSeeded takes size (concat blocks) r calls
  unfolding seed_orders
  seed_orders-IsSeeded limit since_days total blocks r calls e =
      let (body, guards) =
        guarded-eq-ok (leb 1 size && leb size uid_batch_size) _ bad_batch_size [] r calls e in
      let (s, middle, after, first) =
        go_on-eq-ok (seed_stream takes size blocks []) _ r calls body in
      let pos : 1 ≤ size = ground arith in
      let (w, none_left) = seed_stream-IsWhole blocks s middle pos first in
      let result : seeded_of limit since_days total s ≡ r =
        seeded_injective _ _ (ap (λ q. q.0) after) in
      let inserts : middle ≡ calls = ap (λ q. q.1) after in
      let (uids, numbers) = seeded_of-counts limit since_days total s in
      (
        pos,
        ground arith,
        subst (λ r. IsSeeded takes size (concat blocks) r calls) result
            (subst (λ c. IsSeeded takes size (concat blocks) (seeded_of limit since_days total s) c)
              inserts
              (record {
                batches = w.batches;
                batched_stream = batched-from (concat blocks) pos ∙ ap ok w.batched_stream;
                encoded =
                    w.taken.encoded
                    ∙ ap ok (ap (◌++◌ (concat middle)) none_left ∙ append-nil (concat middle));
                chunked = w.taken.chunked;
                all_uids =
                    uids
                    ∙ w.taken.counted
                    ∙ ap length (
                        ap concat (sym w.batched_stream)
                        ∙ concat-batched_from size [] (concat blocks));
                all_batches = numbers ∙ w.taken.numbered;
              })),
      )
