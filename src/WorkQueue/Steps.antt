-- ===== src/WorkQueue/Steps.antt =====
-- The writes to the work queue as steps, in any order: src/cow_indexer/storage/clickhouse.py. A step is
-- one INSERT, so the steps of several clients may fall between the SELECT and the INSERT of a lease and
-- between the two INSERTs of a finish.
-- Retention is not among them, since it deletes rows.
use cow_indexer.Prelude.{
  Bool-cases, refl, false, ℕ, ◌+◌, ◌<◌, ◌≡◌, sym, subst, inl, inr, Bool, true, Option, none, some,
  List, Text, map-In, All, All-In,
}
use cow_indexer.Json.{Codec}
use cow_indexer.WorkQueue.{
  Kind, Status, unavailable_from_public_api, Chain, WorkRow, WorkItem, Outcome, finished_row,
  leased_row, released_row, Engine, Queue, lease_query, insert_leases, lease_work, insert_finished,
  insert_letter, release_work, finish_work, is_taken, is_dead, finished_status,
}
use cow_indexer.WorkQueue.Enqueue.{WorkKey, pending_row, enqueue_work_many}
use cow_indexer.WorkQueue.Enqueue.Rows.{Grows, Grows-append, enqueue_work_many-Grows}
use cow_indexer.RecentEnqueues.{RecentEnqueues}

-- The column `attempts` is a UInt16.
abbrev pub attempts_limit : ℕ
attempts_limit = 65_536

-- The one status that the callers of `finish_work` pass as `terminal`.
abbrev pub NamesTerminal : Option Status → Type 0
NamesTerminal none = Unit
NamesTerminal (some status) = status ≡ unavailable_from_public_api

module _ (codec : Codec) (engine : Engine) where
  -- `Step false` is a step that is no release.
  pub data Step (releases : Bool) (q : Queue) : Queue → Type 0 where
    enqueued :
        (chain : Chain) (now monotonic : ℕ) (accepted : Bool) (items : List WorkKey)
        (recent : RecentEnqueues) {q' : Queue}
        → q'
          ≡ (enqueue_work_many codec chain now monotonic accepted items
              (record { recent = recent; queue = q })).0.queue
        → Step releases q q'
    -- The INSERT of a lease, of the rows that its SELECT gave from the table as it then was.
    leased :
        (chain : Chain) (worker_id : Text) (kinds : Option (Kind → Bool)) (limit server_now now : ℕ)
        (before : List WorkRow) {q' : Queue}
        → All
            (λ (r : WorkRow). r.attempts + 1 < attempts_limit)
            (lease_query engine chain kinds server_now limit before)
        → q'
          ≡ insert_leases chain worker_id now
              (lease_query engine chain kinds server_now limit before)
              q
        → Step releases q q'
    finished :
        (now : ℕ) (item : WorkItem) (o : Outcome) {q' : Queue}
        → item.attempts < attempts_limit
        → NamesTerminal o.terminal
        → q' ≡ insert_finished codec now item o q
        → Step releases q q'
    buried :
        (now : ℕ) (item : WorkItem) (o : Outcome) {q' : Queue}
        → q' ≡ insert_letter codec now item o q
        → Step releases q q'
    released :
        (now : ℕ) (items : List WorkItem) {q' : Queue}
        → releases ≡ true
        → All (λ (i : WorkItem). i.attempts < attempts_limit) items
        → q' ≡ release_work codec now items q
        → Step releases q q'

  pub data Reach (releases : Bool) (q : Queue) : Queue → Type 0 where
    here : Reach releases q q
    next : {q₁ q₂ : Queue} → Reach releases q q₁ → Step releases q₁ q₂ → Reach releases q q₂

module _ (codec : Codec) (engine : Engine) {releases : Bool} where
  Reach-trans :
      {q q₁ q₂ : Queue}
      → Reach codec engine releases q q₁
      → Reach codec engine releases q₁ q₂
      → Reach codec engine releases q q₂
  Reach-trans steps here = steps
  Reach-trans steps (next more step) = next (Reach-trans steps more) step

  -- A call of `lease_work` is such steps, if those that fall between its SELECT and its INSERT are.
  pub lease_work-Reach :
      (chain : Chain) (worker_id : Text) (kinds : Option (Kind → Bool)) (limit server_now now : ℕ)
      (between : Queue → Queue) (accepted : Bool) (q : Queue)
      → All
          (λ (r : WorkRow). r.attempts + 1 < attempts_limit)
          (lease_query engine chain kinds server_now limit q.work_items)
      → Reach codec engine releases q (between q)
      → Reach codec engine releases q
          (lease_work codec engine chain worker_id kinds limit server_now now between accepted q).1
  unfolding lease_work
  lease_work-Reach chain worker_id kinds limit server_now now between accepted q fits others =
      elim (Bool-cases (is_taken accepted rows)) [
        | inl e ↦
            rw e (
              next others
                (leased chain worker_id kinds limit server_now now q.work_items fits refl))
        | inr e ↦ rw e others
      ]
    where
      rows : List WorkRow
      rows = lease_query engine chain kinds server_now limit q.work_items

  -- So is a call of `finish_work`.
  pub finish_work-Reach :
      (now : ℕ) (item : WorkItem) (o : Outcome) (row_accepted : Bool) (between : Queue → Queue)
      (letter_accepted : Bool) (q : Queue)
      → item.attempts < attempts_limit
      → NamesTerminal o.terminal
      → ((p : Queue) → Reach codec engine releases p (between p))
      → Reach codec engine releases q
          (finish_work codec now item o row_accepted between letter_accepted q).1
  unfolding finish_work
  finish_work-Reach now item o false between letter_accepted q fits named others = here
  finish_work-Reach now item o true between letter_accepted q fits named others =
      elim (Bool-cases (is_dead (finished_status item o).0)) [
        | inr e ↦ rw e row
        | inl e ↦ elim (Bool-cases letter_accepted) [
          | inl f ↦ rw (e, f) (next with_others (buried now item o refl))
          | inr f ↦ rw (e, f) with_others
        ]
      ]
    where
      row : Reach codec engine releases q (insert_finished codec now item o q)
      row = next here (finished now item o fits named refl)

      with_others : Reach codec engine releases q (between (insert_finished codec now item o q))
      with_others = Reach-trans row (others (insert_finished codec now item o q))

-- A property of rows that every operation gives to the rows it writes.
pub record Written (codec : Codec) (releases : Bool) (P : WorkRow → Type 0) : Type 0 where
  pub of_pending : (chain : Chain) (now : ℕ) (item : WorkKey) → P (pending_row codec chain now item)
  pub of_leased :
      (chain : Chain) (worker_id : Text) (now : ℕ) (r : WorkRow)
      → r.attempts + 1 < attempts_limit
      → P (leased_row chain worker_id now r)
  pub of_finished :
      (now : ℕ) (item : WorkItem) (o : Outcome)
      → item.attempts < attempts_limit
      → NamesTerminal o.terminal
      → P (finished_row codec now item o)
  pub of_released :
      (now : ℕ) (item : WorkItem)
      → releases ≡ true
      → item.attempts < attempts_limit
      → P (released_row codec now item)

module _ (codec : Codec) (engine : Engine) (releases : Bool) (P : WorkRow → Type 0)
    (written : Written codec releases P) where
  Step-Grows : {q q' : Queue} → Step codec engine releases q q' → Grows P q.work_items q'.work_items
  unfolding insert_leases insert_finished insert_letter release_work
  Step-Grows {q} (enqueued chain now monotonic accepted items recent e) = rw e (
      enqueue_work_many-Grows P codec chain now monotonic accepted items
        (record { recent = recent; queue = q }) (written.of_pending chain now))
  Step-Grows {q} (buried now item o e) = rw e (record { keeps = λ r m. m; adds = λ r m. inl m })
  Step-Grows {q} (leased chain worker_id kinds limit server_now now before fits e) = rw e (
      Grows-append P q.work_items _ (λ r m.
        let (x, mx, same) = map-In (leased_row chain worker_id now) r _ m in
        subst P (sym same) (
          written.of_leased chain worker_id now x
            (All-In (λ (y : WorkRow). y.attempts + 1 < attempts_limit) x _ fits mx))))
  Step-Grows {q} (finished now item o fits named e) = rw e (
      Grows-append P q.work_items _ (λ r m. elim m [
        | inl same ↦ subst P (sym same) (written.of_finished now item o fits named)
        | inr no_more ↦ elim no_more [ ]
      ]))
  Step-Grows {q} (released now items allowed fits e) = rw e (
      Grows-append P q.work_items _ (λ r m.
        let (x, mx, same) = map-In (released_row codec now) r items m in
        subst P (sym same) (
          written.of_released now x allowed
            (All-In (λ (i : WorkItem). i.attempts < attempts_limit) x items fits mx))))

  pub Reach-Grows :
      {q q' : Queue} → Reach codec engine releases q q' → Grows P q.work_items q'.work_items
  Reach-Grows here = record { keeps = λ r m. m; adds = λ r m. inl m }
  Reach-Grows {q} {q'} (next {q₁} {q₂} steps step) =
      let before = Reach-Grows steps in
      let after = Step-Grows step in
      record {
        keeps = λ r m. after.keeps r (before.keeps r m);
        adds = λ r m. elim (after.adds r m) [ inl n ↦ before.adds r n | inr p ↦ inr p ];
      }
