-- ===== src/WorkQueue/Enqueue/Rows.antt =====
-- The rows that `enqueue_work_many` of src/cow_indexer/storage/clickhouse.py adds.
use cow_indexer.Prelude.{
  ℕ, ◌≡◌, sym, subst, ◌⊎◌, inl, inr, Bool, true, false, List, [], ◌∷◌, ◌++◌, Bool-cases, Text,
  text_eq, In, In-append, In-append_left,
}
use cow_indexer.Json.{Codec}
use cow_indexer.RecentEnqueues.{RecentEnqueues}
use cow_indexer.WorkQueue.{Chain, WorkRow, Queue}
use cow_indexer.WorkQueue.Enqueue.{
  WorkKey, pending_row, put_row, collect, row_of, rows_of, Store, stored, insert_rows, write_rows,
  enqueue_work_many,
}

put_row-In :
    (row r : WorkRow) (rows : List WorkRow) → In r (put_row row rows) → (r ≡ row) ⊎ In r rows
unfolding put_row
put_row-In row r [] (inl e) = inl e
put_row-In row r [] (inr m) = elim m [ ]
put_row-In row r (x ∷ rows) h = elim (Bool-cases (text_eq x.work_id row.work_id)) [
  | inl e ↦ replaced (rw e at h)
  | inr e ↦ kept (rw e at h) (put_row-In row r rows)
]
  where
    replaced : (r ≡ row) ⊎ In r rows → (r ≡ row) ⊎ ((r ≡ x) ⊎ In r rows)
    replaced (inl q) = inl q
    replaced (inr m) = inr (inr m)

    kept :
        (r ≡ x) ⊎ In r (put_row row rows)
        → (In r (put_row row rows) → (r ≡ row) ⊎ In r rows)
        → (r ≡ row) ⊎ ((r ≡ x) ⊎ In r rows)
    kept (inl q) f = inr (inl q)
    kept (inr m) f = elim (f m) [ inl q ↦ inl q | inr n ↦ inr (inr n) ]

module _ (P : WorkRow → Type 0) (codec : Codec) (chain : Chain) (now : ℕ) where
  collect-all :
      (items : List WorkKey) (rows : List WorkRow)
      → ((item : WorkKey) → P (pending_row codec chain now item))
      → ((r : WorkRow) → In r rows → P r)
      → (r : WorkRow) → In r (collect codec chain now items rows)
      → P r
  unfolding collect
  collect-all [] rows f g r m = g r m
  collect-all (item ∷ items) rows f g r m =
      collect-all items (put_row (pending_row codec chain now item) rows) f
        (λ x n. elim (put_row-In (pending_row codec chain now item) x rows n) [
          | inl e ↦ subst P (sym e) (f item)
          | inr k ↦ g x k
        ])
        r m

row_of-In : (k : Text) (r : WorkRow) (rows : List WorkRow) → In r (row_of k rows) → In r rows
unfolding row_of
row_of-In k r [] m = elim m [ ]
row_of-In k r (x ∷ rows) m = elim (Bool-cases (text_eq x.work_id k)) [
  | inl e ↦ first (rw e at m)
  | inr e ↦ inr (row_of-In k r rows (rw e at m))
]
  where
    first : In r (x ∷ []) → (r ≡ x) ⊎ In r rows
    first (inl q) = inl q
    first (inr n) = elim n [ ]

rows_of-In :
    (fresh : List Text) (r : WorkRow) (rows : List WorkRow) → In r (rows_of fresh rows) → In r rows
unfolding rows_of
rows_of-In [] r rows m = elim m [ ]
rows_of-In (k ∷ fresh) r rows m = elim (In-append r (row_of k rows) (rows_of fresh rows) m) [
  | inl n ↦ row_of-In k r rows n
  | inr n ↦ rows_of-In fresh r rows n
]

-- What a set of rows becomes: nothing is lost, and each new row has the property `P`.
pub record Grows (P : WorkRow → Type 0) (t t' : List WorkRow) : Type 0 where
  pub keeps : (r : WorkRow) → In r t → In r t'
  pub adds : (r : WorkRow) → In r t' → In r t ⊎ P r

pub Grows-append :
    (P : WorkRow → Type 0) (t more : List WorkRow)
    → ((r : WorkRow) → In r more → P r)
    → Grows P t (t ++ more)
Grows-append P t more f = record {
  keeps = λ r m. In-append_left r t more m;
  adds = λ r m. elim (In-append r t more m) [ inl n ↦ inl n | inr n ↦ inr (f r n) ];
}

Grows-refl : (P : WorkRow → Type 0) (t : List WorkRow) → Grows P t t
Grows-refl P t = record { keeps = λ r m. m; adds = λ r m. inl m }

module _ (P : WorkRow → Type 0) where
  stored-Grows :
      (recent : RecentEnqueues) (q : Queue) (accepted : Bool) (rows : List WorkRow)
      → ((r : WorkRow) → In r rows → P r)
      → Grows P q.work_items (stored recent q (insert_rows accepted rows q)).0.queue.work_items
  unfolding insert_rows
  stored-Grows recent q accepted [] f = Grows-refl P q.work_items
  stored-Grows recent q true (r ∷ rows) f = Grows-append P q.work_items (r ∷ rows) f
  stored-Grows recent q false (r ∷ rows) f = Grows-refl P q.work_items

  write_rows-Grows :
      (monotonic : ℕ) (accepted : Bool) (rows : List WorkRow) (s : Store)
      → ((r : WorkRow) → In r rows → P r)
      → Grows P s.queue.work_items (write_rows monotonic accepted rows s).0.queue.work_items
  unfolding write_rows
  write_rows-Grows monotonic accepted [] s f = Grows-refl P s.queue.work_items
  write_rows-Grows monotonic accepted (x ∷ rows) s f =
      stored-Grows _ s.queue accepted _ (λ r m. f r (rows_of-In _ r (x ∷ rows) m))

  pub enqueue_work_many-Grows :
      (codec : Codec) (chain : Chain) (now monotonic : ℕ) (accepted : Bool) (items : List WorkKey)
      (s : Store)
      → ((item : WorkKey) → P (pending_row codec chain now item))
      → Grows P s.queue.work_items
          (enqueue_work_many codec chain now monotonic accepted items s).0.queue.work_items
  unfolding enqueue_work_many
  enqueue_work_many-Grows codec chain now monotonic accepted items s f =
      write_rows-Grows monotonic accepted _ s
        (collect-all P codec chain now items [] f (λ r m. elim m [ ]))
