-- ===== src/WorkQueue/Wins.antt =====
-- Which row FINAL shows after an insert: the latest write of a worker over its own lease, in
-- `finish_work` of src/cow_indexer/storage/clickhouse.py.
use cow_indexer.Prelude.{
  Bool, true, ◌&&◌, Bool-cases, subst, ℕ, ◌+◌, ◌*◌, ◌≤◌, ◌<◌, ◌≡◌, refl, sym, ap, ◌∙◌, ◌⊎◌, inl,
  inr, List, [], ◌∷◌, ◌++◌, arith, In, In-append, In-append_right, if◌then◌else◌,
}
use cow_indexer.Json.{Codec}
use cow_indexer.WorkQueue.{
  Status, WorkRow, WorkItem, Identity, identity, item_identity, Outcome, finished_status,
  finished_row, Engine, Queue, DeadLetter, dead_letter, is_dead, finish_work, insert_finished,
  insert_letter,
}

-- Every row of one identity has a revision below a bound.
abbrev pub Below : ℕ → Identity → List WorkRow → Type 0
Below bound key t = (s : WorkRow) → In s t → identity s ≡ key → s.revision < bound

-- A row inserted above all others of its identity is the one that FINAL shows.
pub appended_wins :
    (engine : Engine) (t : List WorkRow) (n s : WorkRow)
    → Below n.revision (identity n) t
    → In s (engine.final (t ++ n ∷ []))
    → identity s ≡ identity n
    → s ≡ n
appended_wins engine t n s below shown same = cases (In-append s t _ (engine.final-In _ s shown))
  where
    highest : n.revision ≤ s.revision
    highest =
        engine.final_highest (t ++ n ∷ []) s n shown (In-append_right n t (n ∷ []) (inl refl))
          (sym same)

    cases : In s t ⊎ In s (n ∷ []) → s ≡ n
    cases (inl m) = absurd (omega (arith, below s m same, highest))
    cases (inr (inl e)) = e
    cases (inr (inr no_more)) = elim no_more [ ]

-- The row that `finish_work` writes is beyond the lease of its attempt on every branch.
finished_beyond :
    (codec : Codec) (now : ℕ) (item : WorkItem) (o : Outcome)
    → item.attempts < 65_536
    → item.attempts * 10 + 1 < (finished_row codec now item o).revision
unfolding finished_row finished_status
finished_beyond codec now item o h = ground arith

module _ (codec : Codec) (engine : Engine) (now : ℕ) (item : WorkItem) (o : Outcome)
    (letter_accepted : Bool) (q : Queue) where
  letters : Bool → List DeadLetter
  letters added =
      if added then q.dead_letters ++ dead_letter codec now item o ∷ [] else q.dead_letters

  finish_work-writes :
      ((finish_work codec now item o true (λ x. x) letter_accepted q).1.work_items
        ≡ q.work_items ++ finished_row codec now item o ∷ [])
      × ((finish_work codec now item o true (λ x. x) letter_accepted q).1.dead_letters
          ≡ letters (is_dead (finished_status item o).0 && letter_accepted))
  unfolding finish_work insert_finished insert_letter letters
  finish_work-writes = elim (Bool-cases (is_dead (finished_status item o).0)) [
    | inr e ↦ (rw e refl, rw e refl)
    | inl e ↦ elim (Bool-cases letter_accepted) [
      | inl f ↦ (rw (e, f) refl, rw (e, f) refl)
      | inr f ↦ (rw (e, f) refl, rw (e, f) refl)
    ]
  ]

  -- A worker that finishes the item it leased last decides what is seen of it: whatever the
  -- outcome, if no row of the item is beyond that lease, the attempts fit their column and the store
  -- takes the row, then, before any other write, FINAL shows the finished row alone, with the status
  -- of the outcome, and a dead letter is added exactly for a dead row, if the store takes that as well.
  pub finish_work-wins :
      (s : WorkRow)
      → item.attempts < 65_536
      → Below (item.attempts * 10 + 2) (item_identity item) q.work_items
      → In s
          (engine.final (finish_work codec now item o true (λ x. x) letter_accepted q).1.work_items)
      → identity s ≡ item_identity item
      → (s ≡ finished_row codec now item o)
        × (s.status ≡ (finished_status item o).0)
        × ((finish_work codec now item o true (λ x. x) letter_accepted q).1.dead_letters ≡ (
            if is_dead s.status && letter_accepted
            then q.dead_letters ++ dead_letter codec now item o ∷ []
            else q.dead_letters))
  unfolding letters
  finish_work-wins s fits below shown same = (
    e,
    status,
    finish_work-writes.1 ∙ ap (λ (x : Status). letters (is_dead x && letter_accepted)) (sym status),
  )
    where
      n : WorkRow
      n = finished_row codec now item o

      same_key : identity n ≡ item_identity item
      same_key = unfold finished_row in refl

      e : s ≡ n
      e =
          appended_wins engine q.work_items n s
            (λ x m k.
              omega (arith, below x m (k ∙ same_key), finished_beyond codec now item o fits))
            (subst (λ t. In s (engine.final t)) finish_work-writes.0 shown) (same ∙ sym same_key)

      status : s.status ≡ (finished_status item o).0
      status = ap (λ (r : WorkRow). r.status) e ∙ (unfold finished_row in refl)
