-- ===== src/Backfill/Drain/Finished.antt =====
-- Every item of a lease is finished: `_process_and_finish` and the gathering of the items in `drain`,
-- src/cow_indexer/services/backfill_orderbook.py.
use cow_indexer.Prelude.{
  ℕ, arith, ◌+◌, ◌*◌, ◌≡◌, ◌≤◌, ◌<◌, refl, ap, subst, leb, leb→le, Bool, true, false, List, [], ◌∷◌,
  length, Option, none, some, Text, Result, ok, err, inl, In, All, if◌then◌else◌,
}
use cow_indexer.Exec.{go_on-eq-ok}
use cow_indexer.WorkQueue.{WorkItem, Outcome, finished_status, done, dead, pending}
use cow_indexer.Enrichment.{
  Failure, Journal, Services, StoreCall, store, finish_work, outcome_of, delay,
}
use cow_indexer.Backfill.Drain.{
  process, failed, failure_text, finished_or, processed_or, process_and_finish,
}
use cow_indexer.Backfill.Drain.Rounds.{World, Draining, guarded, gather}
use cow_indexer.Enrichment.Journals.{Keeps, Keeping, store-Keeping}
use cow_indexer.Backfill.Drain.Journals.{Same, process_kind-Keeping, process_kind-Same}

module _ (s : Services) where
  -- A call of the store that finishes an item, after how its run went: done, dead only after as many
  -- attempts as are configured, or pending again with fewer attempts, to be retried within an hour.
  pub data Finishes (max_attempts now : ℕ) (item : WorkItem) : StoreCall → Type 0 where
    succeeded :
        (changed : WorkItem) (o : Outcome)
        → Same s item changed
        → (finished_status changed o).0 ≡ done
        → Finishes max_attempts now item (finish_work changed o)
    given_up :
        (changed : WorkItem) (o : Outcome)
        → Same s item changed
        → max_attempts ≤ item.attempts
        → (finished_status changed o).0 ≡ dead
        → Finishes max_attempts now item (finish_work changed o)
    retried :
        (changed : WorkItem) (o : Outcome) (at : ℕ)
        → Same s item changed
        → item.attempts < max_attempts
        → o.retry_at ≡ some at
        → at ≤ now + 3_600_000
        → (finished_status changed o).0 ≡ pending
        → Finishes max_attempts now item (finish_work changed o)

  -- The journal has a call that finishes the item.
  abbrev pub Has : ℕ → ℕ → WorkItem → Journal → Type 0
  Has max_attempts now item j =
      (call : StoreCall) × In call j.done × Finishes max_attempts now item call

  stored :
      (call : StoreCall) (u : Unit {0}) (j j' : Journal)
      → store s call j ≡ (ok u, j')
      → In call j'.done
  unfolding store
  stored call u j j' e = taken (s.refuses (length j.done) call) e
    where
      taken :
          (refused : Option Failure)
          → ◌≡◌ {A = Result Failure (Unit {0}) × Journal}
              (elim refused [
                | some failure ↦ (err failure, j)
                | none ↦ (ok tt, record j { done = call ∷ j.done })
              ])
              (ok u, j')
          → In call j'.done
      taken none q = subst (λ j. In call j.done) (ap (λ r. r.1) q) (inl refl)
      taken (some failure) q = absurd (cc (ap (λ r. r.0) q))

  module _ (max_attempts now : ℕ) where
    delay-le : (item : WorkItem) → delay item * 1000 ≤ 3_600_000
    unfolding delay
    delay-le item = omega arith

    failed-Has :
        (item changed : WorkItem) (failure : Failure) (u : Unit {0}) (j j' : Journal)
        → Same s item changed
        → failed s max_attempts now changed failure j ≡ (ok u, j')
        → Has max_attempts now item j'
    unfolding failed finished_status
    failed-Has item changed failure u j j' same e =
        either (leb max_attempts changed.attempts) refl e
      where
        given : Outcome
        given = outcome_of s false (some (failure_text s failure)) none

        later : Outcome
        later =
            outcome_of s false (some (failure_text s failure)) (some (now + delay changed * 1000))

        attempts : item.attempts ≡ changed.attempts
        attempts = ap (λ i. i.attempts) same.1

        either :
            (t : Bool)
            → leb max_attempts changed.attempts ≡ t
            → (if t
                  then store s (finish_work changed given)
                  else store s (finish_work changed later))
                j
              ≡ (ok u, j')
            → Has max_attempts now item j'
        either true spent q = (
          finish_work changed given,
          stored _ u j j' q,
          given_up changed given same (omega (arith, attempts, leb→le _ _ spent)) refl,
        )
        either false left q = (
          finish_work changed later,
          stored _ u j j' q,
          retried changed later (now + delay changed * 1000) same (ground arith) refl
              (omega (arith, delay-le changed)) refl,
        )

    finished_or-Has :
        (item changed : WorkItem) (r : Result Failure (Unit {0}) × Journal) (u : Unit {0})
        (j' : Journal)
        → Same s item changed
        → ((u : Unit {0}) (j' : Journal) → r ≡ (ok u, j') → Has max_attempts now item j')
        → finished_or s max_attempts now changed r ≡ (ok u, j')
        → Has max_attempts now item j'
    finished_or-Has item changed (ok v, j) u j' same h e = h u j' e
    finished_or-Has item changed (err failure, j) u j' same h e =
        failed-Has item changed failure u j j' same e

    processed_or-Has :
        (item : WorkItem) (r : Result Failure WorkItem × Journal) (u : Unit {0}) (j' : Journal)
        → ((changed : WorkItem) (j : Journal) → r ≡ (ok changed, j) → Same s item changed)
        → processed_or s max_attempts now item r ≡ (ok u, j')
        → Has max_attempts now item j'
    unfolding finished_status
    processed_or-Has item (ok changed, j) u j' same e =
        finished_or-Has item changed (store s (finish_work changed (outcome_of s true none none)) j)
          u j' (same changed j refl)
          (λ u j'' q. (
            finish_work changed (outcome_of s true none none),
            stored _ u j j'' q,
            succeeded changed _ (same changed j refl) refl,
          ))
          e
    processed_or-Has item (err failure, j) u j' same e =
        failed-Has item item failure u j j' (item.payload, refl) e

    -- When `_process_and_finish` returns, the store has taken a call that finishes the item.
    pub process_and_finish-Has :
        (max_pages : ℕ) (item : WorkItem) (u : Unit {0}) (j j' : Journal)
        → process_and_finish s max_pages max_attempts now item j ≡ (ok u, j')
        → Has max_attempts now item j'
    unfolding process_and_finish process
    process_and_finish-Has max_pages item u j j' e =
        processed_or-Has item (process s max_pages item j) u j'
          (λ changed middle q. process_kind-Same s max_pages item.kind item changed j middle q) e

    failed-Keeping :
        (item : WorkItem) (failure : Failure) → Keeping (failed s max_attempts now item failure)
    unfolding failed
    failed-Keeping item failure = either (leb max_attempts item.attempts)
      where
        either :
            (t : Bool)
            → Keeping (
                if t
                then store s
                    (finish_work item (outcome_of s false (some (failure_text s failure)) none))
                else store s (
                    finish_work item (
                      outcome_of s false
                        (some (failure_text s failure))
                        (some (now + delay item * 1000)))))
        either true = store-Keeping s _
        either false = store-Keeping s _

    finished_or-Keeps :
        (item : WorkItem) (r : Result Failure (Unit {0}) × Journal)
        → Keeps r.1 (finished_or s max_attempts now item r).1
    finished_or-Keeps item (ok u, j) call i = i
    finished_or-Keeps item (err failure, j) call i = failed-Keeping item failure j call i

    processed_or-Keeps :
        (item : WorkItem) (r : Result Failure WorkItem × Journal)
        → Keeps r.1 (processed_or s max_attempts now item r).1
    processed_or-Keeps item (ok changed, j) call i =
        let finish = finish_work changed (outcome_of s true none none) in
        finished_or-Keeps changed (store s finish j) call (store-Keeping s finish j call i)
    processed_or-Keeps item (err failure, j) call i = failed-Keeping item failure j call i

    process_and_finish-Keeping :
        (max_pages : ℕ) (item : WorkItem)
        → Keeping (process_and_finish s max_pages max_attempts now item)
    unfolding process_and_finish process
    process_and_finish-Keeping max_pages item j call i =
        processed_or-Keeps item (process s max_pages item j) call
          (process_kind-Keeping s max_pages item.kind item j call i)

module _ (w : World) (max_pages max_attempts : ℕ) (key : Text) where
  -- Some call of the journal finishes the item, at a time that the system's clock showed.
  abbrev pub IsFinished : Draining → WorkItem → Type 0
  IsFinished d item = (n : ℕ) × Has (w.services key) max_attempts (w.now n) item d.journal

  guarded-run :
      (item : WorkItem) (u : Unit {0}) (d d' : Draining)
      → guarded w max_pages max_attempts key item d ≡ (ok u, d')
      → process_and_finish
          (w.services key)
          max_pages
          max_attempts
          (w.now (length d.journal.done))
          item
          d.journal
        ≡ (ok u, d'.journal)
  unfolding guarded
  guarded-run item u d d' e = ap (λ r. (r.0, r.1.journal)) e

  guarded-Keeps :
      (item : WorkItem) (u : Unit {0}) (d d' : Draining)
      → guarded w max_pages max_attempts key item d ≡ (ok u, d')
      → Keeps d.journal d'.journal
  guarded-Keeps item u d d' e =
      subst (λ j. Keeps d.journal j) (ap (λ r. r.1) (guarded-run item u d d' e))
        (process_and_finish-Keeping (w.services key) max_attempts (w.now (length d.journal.done))
          max_pages item d.journal)

  gather-Keeps :
      (items : List WorkItem) (u : Unit {0}) (d d' : Draining)
      → gather w max_pages max_attempts key items d ≡ (ok u, d')
      → Keeps d.journal d'.journal
  unfolding gather
  gather-Keeps [] u d d' e call i = subst (λ d. In call d.journal.done) (ap (λ r. r.1) e) i
  gather-Keeps (item ∷ items) u d d' e call i =
      let (v, middle, after, first) =
        go_on-eq-ok (guarded w max_pages max_attempts key item d) _ u d' e in
      gather-Keeps items u middle d' after call (guarded-Keeps item v d middle first call i)

  -- When all the items of a lease have been run and no failure got out, each of them was finished: the
  -- store has taken a call that finishes it as done, as dead after as many attempts as are configured,
  -- or as pending with fewer attempts, to be retried within an hour. A call names the item as it was
  -- leased, but for its payload.
  pub gather-IsFinished :
      (items : List WorkItem) (d d' : Draining)
      → gather w max_pages max_attempts key items d ≡ (ok tt, d')
      → All (IsFinished d') items
  unfolding gather
  gather-IsFinished [] d d' e = tt
  gather-IsFinished (item ∷ items) d d' e =
      let (v, middle, after, first) =
        go_on-eq-ok (guarded w max_pages max_attempts key item d) _ tt d' e in
      let n = length d.journal.done in
      let (call, there, finishes) =
        process_and_finish-Has (w.services key) max_attempts (w.now n) max_pages item v d.journal
          middle.journal (guarded-run item v d middle first) in
      (
        (n, (call, gather-Keeps items tt middle d' after call there, finishes)),
        gather-IsFinished items middle d' after,
      )
