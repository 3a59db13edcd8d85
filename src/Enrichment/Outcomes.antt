-- ===== src/Enrichment/Outcomes.antt =====
-- How a leased item may end: `_process_and_finish` of src/cow_indexer/services/enrichment.py with the
-- statuses of `finish_work` of src/cow_indexer/storage/clickhouse.py.
use cow_indexer.Prelude.{
  ℕ, arith, ◌+◌, ◌*◌, ◌≤◌, ◌<◌, ◌≡◌, ◌≢◌, refl, ◌∙◌, ap, sym, true, false, none, some, List, ◌∷◌,
  Bool-cases, Option-cases, ◌⊎◌, inl, inr, leb, leb→le, length, Text, Result, ok, err,
}
use cow_indexer.Exec.{go_on}
use cow_indexer.WorkQueue.{
  WorkItem, Outcome, finished_status, done, dead, pending, unavailable_from_public_api,
}
use cow_indexer.Enrichment.Journals.{store-done}
use cow_indexer.Enrichment.{
  Failure, competition_unavailable, exception, StoreCall, finish_work, Services, Journal,
  Prefetched, store, delay, process, handled, process_and_finish, outcome_of,
}

-- The store raises no `CompetitionUnavailable`.
abbrev pub RefusesPlainly : Services → Type 0
RefusesPlainly s =
    (n : ℕ) (call : StoreCall) (key : Text) → s.refuses n call ≢ some (competition_unavailable key)

module _ (s : Services) (max_attempts now : ℕ) (item : WorkItem) where
  -- The exception that the handlers see: the processing raised it, or the processing returned and the
  -- store raised it when the item was to be finished as done.
  abbrev pub Raised : Result Failure (Unit {0}) × Journal → Text → Type 0
  Raised processed text =
      (processed.0 ≡ err (exception text))
      ⊎ ((processed.0 ≡ ok tt)
          × (s.refuses (length processed.1.done) (finish_work item (outcome_of s true none none))
              ≡ some (exception text)))

  -- The outcome that an item is finished with, after how its processing ended.
  pub data IsDecided (processed : Result Failure (Unit {0}) × Journal) (o : Outcome) : Type 0 where
    succeeded : processed.0 ≡ ok tt → (finished_status item o).0 ≡ done → IsDecided processed o
    unavailable :
        (key : Text)
        → processed.0 ≡ err (competition_unavailable key)
        → (finished_status item o).0 ≡ unavailable_from_public_api
        → IsDecided processed o
    given_up :
        (text : Text)
        → Raised processed text
        → max_attempts ≤ item.attempts
        → o.error ≡ some text
        → (finished_status item o).0 ≡ dead
        → IsDecided processed o
    retried :
        (text : Text) (at : ℕ)
        → Raised processed text
        → item.attempts < max_attempts
        → o.error ≡ some text
        → o.retry_at ≡ some at
        → at ≤ now + 3_600_000
        → (finished_status item o).0 ≡ pending
        → IsDecided processed o

  -- What a run that returned has last given to the store.
  pub record IsFinished (processed : Result Failure (Unit {0}) × Journal) (j : Journal)
      : Type 0 where
    pub outcome : Outcome
    pub before : List StoreCall
    pub last : j.done ≡ finish_work item outcome ∷ before
    pub decided : IsDecided processed outcome

  store-IsFinished :
      (processed : Result Failure (Unit {0}) × Journal) (o : Outcome) (j j' : Journal)
      → IsDecided processed o
      → store s (finish_work item o) j ≡ (ok tt, j')
      → IsFinished processed j'
  store-IsFinished processed o j j' decided e = record {
    outcome = o;
    before = j.done;
    last = store-done s (finish_work item o) j j' e;
    decided = decided;
  }

  handled-dead :
      (text : Text) (j : Journal)
      → leb max_attempts item.attempts ≡ true
      → handled s max_attempts now item (err (exception text), j)
        ≡ store s (finish_work item (outcome_of s false (some text) none)) j
  unfolding handled
  handled-dead text j h = rw (h, handled) refl

  handled-retried :
      (text : Text) (j : Journal)
      → leb max_attempts item.attempts ≡ false
      → handled s max_attempts now item (err (exception text), j)
        ≡ store s
            (finish_work item (outcome_of s false (some text) (some (now + delay item * 1000))))
            j
  unfolding handled
  handled-retried text j h = rw (h, handled) refl

  delay-le : delay item * 1000 ≤ 3_600_000
  unfolding delay
  delay-le = omega arith

  -- The handlers, from a failure.
  handled-IsFinished :
      (processed : Result Failure (Unit {0}) × Journal) (failure : Failure) (j j' : Journal)
      → ((key : Text)
          → failure ≡ competition_unavailable key
          → processed.0 ≡ err (competition_unavailable key))
      → ((text : Text) → failure ≡ exception text → Raised processed text)
      → handled s max_attempts now item (err failure, j) ≡ (ok tt, j')
      → IsFinished processed j'
  unfolding handled finished_status
  handled-IsFinished processed (competition_unavailable key) j j' k raised e =
      store-IsFinished processed _ j j' (unavailable key (k key refl) refl) e
  handled-IsFinished processed (exception text) j j' k raised e =
      elim (Bool-cases (leb max_attempts item.attempts)) [
        | inl h ↦
            store-IsFinished processed (outcome_of s false (some text) none) j j'
              (given_up text (raised text refl) (leb→le _ _ h) refl refl)
              (sym (handled-dead text j h) ∙ e)
        | inr h ↦
            store-IsFinished processed
              (outcome_of s false (some text) (some (now + delay item * 1000))) j j'
              (retried text (now + delay item * 1000) (raised text refl) (ground arith) refl refl
                (omega (arith, delay-le)) refl)
              (sym (handled-retried text j h) ∙ e)
      ]

  store-cases :
      (call : StoreCall) (j : Journal)
      → (store s call j ≡ (ok tt, record j { done = call ∷ j.done }))
        ⊎ ((failure : Failure) × (s.refuses (length j.done) call ≡ some failure)
            × (store s call j ≡ (err failure, j)))
  unfolding store
  store-cases call j = elim (Option-cases (s.refuses (length j.done) call)) [
    | inl none_ ↦ inl (rw (none_, store) refl)
    | inr (failure, e) ↦ inr (failure, e, rw (e, store) refl)
  ]

  finish-IsFinished :
      (plain : RefusesPlainly s) (outcome : Result Failure (Unit {0}) × Journal) (j' : Journal)
      → handled s max_attempts now item
          (go_on outcome (λ _. store s (finish_work item (outcome_of s true none none))))
        ≡ (ok tt, j')
      → IsFinished outcome j'
  unfolding handled finished_status
  finish-IsFinished plain (err failure, j) j' e =
      handled-IsFinished (err failure, j) failure j j' (λ key q. ap err q)
        (λ text q. inl (ap err q)) e
  finish-IsFinished plain (ok ended, j) j' e =
      let final = finish_work item (outcome_of s true none none) in
      elim (store-cases final j) [
        | inl wrote ↦
            store-IsFinished (ok ended, j) (outcome_of s true none none) j j' (succeeded refl refl)
              (wrote ∙ sym (ap (handled s max_attempts now item) wrote) ∙ e)
        | inr (failure, refused, raised) ↦
            handled-IsFinished (ok ended, j) failure j j'
              (λ key q. absurd (plain (length j.done) final key (refused ∙ ap some q)))
              (λ text q. inr (refl, refused ∙ ap some q))
              (sym (ap (handled s max_attempts now item) raised) ∙ e)
      ]

  -- If the store never raises `CompetitionUnavailable`, and a leased item is processed and finished
  -- without an exception getting out: the last call of the store finishes the item. It is finished as
  -- done when its processing returned and the store took that, and as unavailable when the processing
  -- raised `CompetitionUnavailable`. When the processing raised another exception, or it returned and the
  -- store raised one for the finishing as done, the item is finished with the text of that exception:
  -- as dead after as many attempts as are configured, and as pending with fewer attempts, to be retried
  -- within an hour.
  pub process_and_finish-IsFinished :
      (plain : RefusesPlainly s) (prefetched : Prefetched s) (j j' : Journal)
      → process_and_finish s max_attempts now item prefetched j ≡ (ok tt, j')
      → IsFinished (process s item prefetched j) j'
  unfolding process_and_finish
  process_and_finish-IsFinished plain prefetched j j' e =
      finish-IsFinished plain (process s item prefetched j) j' e
