-- ===== src/WorkQueue/Enqueue/Lost.antt =====
-- An insert that raises and the retry after it: `enqueue_work_many` of
-- src/cow_indexer/storage/clickhouse.py.
use cow_indexer.Prelude.{
  ℕ, ◌+◌, ◌<◌, ◌≡◌, refl, sym, ap, subst, Bool, true, false, Option, none, some, [], ◌∷◌, ◌++◌,
  arith, lt→ltb, Text, text_eq_refl, Result, ok, err,
}
use cow_indexer.Json.{Json, Codec}
use cow_indexer.Hex.{lower}
use cow_indexer.RecentEnqueues.{
  RecentEnqueues, Seen, enabled, lookup, without, put_last, is_live, take_each, evict, take_new,
}
use cow_indexer.WorkQueue.{Kind, Chain, WorkRow, InsertError, insert_refused}
use cow_indexer.WorkQueue.Enqueue.{work_identity, pending_row, Store, enqueue_work_many, write_rows}

lookup-last :
    (k : Text) (v : ℕ) (l : Seen) → lookup k l ≡ none → lookup k (l ++ (k, v) ∷ []) ≡ some v
unfolding lookup
lookup-last k v [] h = rw (text_eq_refl k)
lookup-last k v ((j, w) ∷ l) h = ground (arith, lookup-last k v l)

lookup-without : (k : Text) (l : Seen) → lookup k (without k l) ≡ none
unfolding lookup without
lookup-without k [] = refl
lookup-without k ((j, w) ∷ l) = ground (arith, lookup-without k l)

-- The newest entry is not evicted.
lookup-evict :
    (bound : ℕ) (k : Text) (v : ℕ) (l : Seen)
    → 0 < bound
    → lookup k l ≡ none
    → lookup k (evict bound (l ++ (k, v) ∷ [])) ≡ some v
unfolding lookup evict
lookup-evict bound k v [] positive h = ground (arith, text_eq_refl k)
lookup-evict bound k v ((j, w) ∷ l) positive h =
    ground (arith, lookup-evict bound k v l, lookup-last k v l)

module _ (r : RecentEnqueues) (k : Text) (now : ℕ) (on : enabled r ≡ true) where
  remembered : Seen
  remembered = evict r.max_entries (put_last k (now + r.ttl) r.seen)

  take_new-stale :
      is_live (lookup k r.seen) now ≡ false
      → take_new r (k ∷ []) now ≡ (k ∷ [], record r { seen = remembered })
  unfolding take_new take_each remembered
  take_new-stale stale = rw (on, stale)

  take_new-live : is_live (lookup k r.seen) now ≡ true → (take_new r (k ∷ []) now).0 ≡ []
  unfolding take_new take_each
  take_new-live live = rw (on, live)

  lookup-remembered : lookup k remembered ≡ some (now + r.ttl)
  unfolding remembered put_last enabled
  lookup-remembered =
      lookup-evict r.max_entries k (now + r.ttl) (without k r.seen) (ground arith)
        (lookup-without k r.seen)

module _ (r : WorkRow) (s : Store) (monotonic : ℕ) (on : enabled s.recent ≡ true) where
  refused_store : Store
  refused_store = record s {
    recent = record s.recent { seen = remembered s.recent r.work_id monotonic on };
  }

  write_rows-refused :
      is_live (lookup r.work_id s.recent.seen) monotonic ≡ false
      → write_rows monotonic false (r ∷ []) s ≡ (refused_store, err insert_refused)
  unfolding write_rows refused_store
  write_rows-refused stale =
      rw (take_new-stale s.recent r.work_id monotonic on stale, text_eq_refl r.work_id)

  write_rows-suppressed :
      (accepted : Bool)
      → is_live (lookup r.work_id s.recent.seen) monotonic ≡ true
      → ((write_rows monotonic accepted (r ∷ []) s).1 ≡ ok tt)
        × ((write_rows monotonic accepted (r ∷ []) s).0.queue ≡ s.queue)
  unfolding write_rows
  write_rows-suppressed accepted live =
      rw (take_new-live s.recent r.work_id monotonic on live) (refl, refl)

module _ (codec : Codec) (chain : Chain) (now later : ℕ) (kind : Kind) (key : Text)
    (payload : Option Json) (monotonic monotonic' : ℕ) (s : Store) where
  abbrev pub first_try : Store × Result InsertError (Unit {0})
  first_try = enqueue_work_many codec chain now monotonic false ((kind, key, payload) ∷ []) s

  abbrev pub second_try : Store × Result InsertError (Unit {0})
  second_try =
      enqueue_work_many codec chain later monotonic' true ((kind, key, payload) ∷ []) first_try.0

  -- A refused insert loses the work for a while. If the suppression is on and the item was not
  -- written recently, an enqueue whose insert raises writes nothing and passes the error on; the same
  -- enqueue tried again before `ttl` has passed returns normally, and writes nothing either, although
  -- the database would now accept the row.
  pub enqueue_work_many-lost :
      enabled s.recent ≡ true
      → is_live (lookup (work_identity codec chain kind (lower key)) s.recent.seen) monotonic
        ≡ false
      → monotonic' < monotonic + s.recent.ttl
      → (first_try.1 ≡ err insert_refused)
        × (first_try.0.queue ≡ s.queue)
        × (second_try.1 ≡ ok tt)
        × (second_try.0.queue ≡ s.queue)
  unfolding enqueue_work_many refused_store enabled
  enqueue_work_many-lost on stale soon = (
    ap (λ (x : Store × Result InsertError (Unit {0})). x.1) first,
    ap (λ (x : Store × Result InsertError (Unit {0})). x.0.queue) first,
    subst (λ (x : Store × Result InsertError (Unit {0})). (again x).1 ≡ ok tt) (sym first) second.0,
    subst (λ (x : Store × Result InsertError (Unit {0})). (again x).0.queue ≡ s.queue) (sym first)
        second.1,
  )
    where
      again : Store × Result InsertError (Unit {0}) → Store × Result InsertError (Unit {0})
      again x = enqueue_work_many codec chain later monotonic' true ((kind, key, payload) ∷ []) x.0

      row : ℕ → WorkRow
      row t = pending_row codec chain t (kind, key, payload)

      first : first_try ≡ (refused_store (row now) s monotonic on, err insert_refused)
      first = write_rows-refused (row now) s monotonic on (unfold pending_row in stale)

      live :
          is_live
            (lookup (row later).work_id (refused_store (row now) s monotonic on).recent.seen)
            monotonic'
          ≡ true
      live =
          unfold pending_row refused_store is_live in
          rw (lookup-remembered s.recent (row now).work_id monotonic on) (lt→ltb _ _ soon)

      second :
          ((write_rows monotonic' true (row later ∷ []) (refused_store (row now) s monotonic on)).1
            ≡ ok tt)
          × ((write_rows monotonic' true
                (row later ∷ [])
                (refused_store (row now) s monotonic on)).0.queue
              ≡ s.queue)
      second =
          write_rows-suppressed (row later) (refused_store (row now) s monotonic on) monotonic' on
            true live
