-- ===== src/Scan/Commits.antt =====
-- What the body of the scan's loop leaves behind, whether it returns or raises: `scan` of
-- src/cow_indexer/services/historical.py.
use cow_indexer.Prelude.{
  ℕ, ◌==◌, key_error, arith, ◌≤◌, leb→le, ◌≡◌, refl, ap, ◌∙◌, sym, subst, ◌+◌, Bool, true, false,
  Option, none, some, List, In, In-append_left, In-append_right, [], ◌∷◌, ◌++◌, Bool-cases, ◌⊎◌,
  inl, inr, if◌then◌else◌, length, Result, ok, err, PyError, Result-cases,
}
use cow_indexer.Exec.{go_on, ◌>>=◌, ◌>>◌}
use cow_indexer.Models.{RpcLog, BlockHeader, DecodedEvent}
use cow_indexer.WorkQueue.Enqueue.{WorkKey}
use cow_indexer.Loader.{work_for_events}
use cow_indexer.Scan.{
  Scan, ScanError, World, Trace, commit_range, Write, blocks, raw_logs, events, work, checkpoint,
  indexed_range, write, lift, store_blocks, store_raw_logs, enqueue, process_many, get_blocks,
  save_checkpoint, advances, update_checkpoint, block_at, find_block, decode_logs, block_numbers,
}

-- What holds of the value and the trace when the code returns, and of the trace when it raises.
pub data Post {A : Type 0} (Q : A → Trace → Type 0) (E : Trace → Type 0)
    : Result ScanError A × Trace → Type 0 where
  returned : (a : A) (t : Trace) → Q a t → Post Q E (ok a, t)
  raised : (e : ScanError) (t : Trace) → E t → Post Q E (err e, t)

pub go_on-Post :
    {A B : Type 0} {Q : A → Trace → Type 0} {Q' : B → Trace → Type 0} {E E' : Trace → Type 0}
    {r : Result ScanError A × Trace} {rest : A → Scan B}
    → Post Q E r
    → ((t : Trace) → E t → E' t)
    → ((a : A) (t : Trace) → Q a t → Post Q' E' (rest a t))
    → Post Q' E' (go_on r rest)
go_on-Post (returned a t q) stop k = k a t q
go_on-Post (raised e t q) stop k = raised e t (stop t q)

pub weaken :
    {A : Type 0} {Q Q' : A → Trace → Type 0} {E E' : Trace → Type 0}
    {r : Result ScanError A × Trace}
    → Post Q E r
    → ((t : Trace) → E t → E' t)
    → ((a : A) (t : Trace) → Q a t → Q' a t)
    → Post Q' E' r
weaken (returned a t q) stop k = returned a t (k a t q)
weaken (raised e t q) stop k = raised e t (stop t q)

-- What the outcome says of the trace either way, and of a value that was returned.
pub Post-either :
    {A : Type 0} {Q : A → Trace → Type 0} {E : Trace → Type 0} {r : Result ScanError A × Trace}
    (S : Trace → Type 0)
    → Post Q E r
    → ((a : A) (t : Trace) → Q a t → S t)
    → ((t : Trace) → E t → S t)
    → S r.1
Post-either S (returned a t q) k stop = k a t q
Post-either S (raised e t q) k stop = stop t q

pub Post-ok :
    {A : Type 0} {Q : A → Trace → Type 0} {E : Trace → Type 0} {r : Result ScanError A × Trace}
    {a : A} {t : Trace}
    → Post Q E r
    → r ≡ (ok a, t)
    → Q a t
Post-ok {Q = Q} {a = a} {t = t} (returned a' t' q) e =
    let same : a' ≡ a = cc (ap (λ r. r.0) e) in
    subst (λ t. Q a t) (ap (λ r. r.1) e) (subst (λ a. Q a t') same q)
Post-ok (raised failure t q) e = absurd (cc (ap (λ r. r.0) e))

-- The writes of each table, none for no rows.
unfoldable pub blocks_of : List BlockHeader → List Write
blocks_of [] = []
blocks_of (h ∷ hs) = blocks (h ∷ hs) ∷ []

unfoldable pub logs_of : List RpcLog → List Write
logs_of [] = []
logs_of (l ∷ ls) = raw_logs (l ∷ ls) ∷ []

unfoldable pub events_of : List DecodedEvent → List Write
events_of [] = []
events_of (e ∷ es) = events (e ∷ es) ∷ []

unfoldable pub work_of : List WorkKey → List Write
work_of [] = []
work_of (k ∷ ks) = work (k ∷ ks) ∷ []

-- The trace after more writes, newest first.
abbrev pub wrote : List Write → Trace → Trace
wrote entries t = record t { writes = entries ++ t.writes }

-- Nothing that was written is lost.
abbrev pub Keeps : Trace → Trace → Type 0
Keeps t t' = (entry : Write) → In entry t.writes → In entry t'.writes

-- The logs of a range have been written.
abbrev pub Recorded : List RpcLog → Trace → Type 0
Recorded logs t = (entry : Write) → In entry (logs_of logs) → In entry t.writes

-- The checkpoint, when there is one, is not past the block.
abbrev pub IsBehind : Option ℕ → ℕ → Type 0
IsBehind durable number = (current : ℕ) → durable ≡ some current → current ≤ number

-- No more than checkpoints at the block, and those only where they are asked for.
abbrev pub Checkpoints : Bool → ℕ → List Write → Type 0
Checkpoints update upper saved =
    (entry : Write)
    → In entry saved
    → (update ≡ true) × (h : BlockHeader) × (entry ≡ checkpoint h) × (h.number ≡ upper)

-- The durable checkpoint stayed, or moved to the end of a range whose logs are written.
abbrev pub Moved : Bool → ℕ → List RpcLog → Trace → Trace → Type 0
Moved update upper logs t t' =
    (t'.durable ≡ t.durable)
    ⊎ ((t'.durable ≡ some upper) × (update ≡ true) × IsBehind t.durable upper × Recorded logs t')

-- A step that writes the entries, or raises and leaves the trace alone.
abbrev pub Writes : {A : Type 0} → List Write → Trace → Result ScanError A × Trace → Type 0
Writes entries t = Post (λ a t'. t' ≡ wrote entries t) (λ t'. t' ≡ t)

module _ (w : World) where
  write-Writes : (entry : Write) (t : Trace) → Writes (entry ∷ []) t (write w entry t)
  unfolding write
  write-Writes entry t = elim (Bool-cases (w.accepts (length t.writes) entry)) [
    | inl e ↦ rw e (returned tt _ refl)
    | inr e ↦ rw e (raised _ _ refl)
  ]

  store_blocks-Writes :
      (hs : List BlockHeader) (t : Trace) → Writes (blocks_of hs) t (store_blocks w hs t)
  unfolding store_blocks blocks_of
  store_blocks-Writes [] t = returned tt _ refl
  store_blocks-Writes (h ∷ hs) t = write-Writes (blocks (h ∷ hs)) t

  store_raw_logs-Writes :
      (ls : List RpcLog) (t : Trace) → Writes (logs_of ls) t (store_raw_logs w ls t)
  unfolding store_raw_logs logs_of
  store_raw_logs-Writes [] t = returned tt _ refl
  store_raw_logs-Writes (l ∷ ls) t = write-Writes (raw_logs (l ∷ ls)) t

  enqueue-Writes : (ks : List WorkKey) (t : Trace) → Writes (work_of ks) t (enqueue w ks t)
  unfolding enqueue work_of
  enqueue-Writes [] t = returned tt _ refl
  enqueue-Writes (k ∷ ks) t = write-Writes (work (k ∷ ks)) t

  -- What one committed range did, between two traces.
  pub record IsCommitted (update store_all : Bool) (cursor upper : ℕ) (logs : List RpcLog)
      (t t' : Trace) : Type 0 where
    pub call : ℕ
    pub headers : List BlockHeader
    pub decoded : List DecodedEvent
    pub keys : List WorkKey
    pub answered : w.get_blocks call (block_numbers store_all cursor upper logs) ≡ ok headers
    pub read : decode_logs w headers logs ≡ ok decoded
    pub derived : work_for_events decoded ≡ ok keys
    pub saved : List Write
    pub saved-Checkpoint : Checkpoints update upper saved
    pub written :
        t'.writes
        ≡ indexed_range cursor upper (length logs)
          ∷ (saved
              ++ (work_of keys
                  ++ (events_of decoded ++ (logs_of logs ++ (blocks_of headers ++ t.writes)))))

  -- An answer is what the trace before it says, or nothing was done.
  lift-Same :
      {A : Type 0} (r : Result PyError A) (t : Trace)
      → Post (λ a t'. (r ≡ ok a) × (t' ≡ t)) (λ t'. t' ≡ t) (lift r t)
  unfolding lift
  lift-Same (ok a) t = returned a _ (refl, refl)
  lift-Same (err e) t = raised _ _ refl

  abbrev Processed : List DecodedEvent → Trace → Unit {0} → Trace → Type 0
  Processed es t a t' =
      (keys : List WorkKey) × (work_for_events es ≡ ok keys)
      × (t' ≡ wrote (work_of keys) (wrote (events_of es) t))

  abbrev Partial : Trace → Trace → Type 0
  Partial t t' = (entries : List Write) × (t' ≡ wrote entries t)

  process_many-Post :
      (es : List DecodedEvent) (t : Trace) → Post (Processed es t) (Partial t) (process_many w es t)
  unfolding process_many events_of work_of
  process_many-Post [] t = returned tt _ ([], unfold work_for_events in refl, refl)
  process_many-Post (e ∷ es) t =
      go_on-Post (write-Writes (events (e ∷ es)) t) (λ t' q. ([], q))
        (λ a t₁ q₁.
          go_on-Post (lift-Same (work_for_events (e ∷ es)) t₁)
            (λ t' q. (events (e ∷ es) ∷ [], q ∙ q₁))
            (λ keys t₂ q₂.
              weaken (enqueue-Writes keys t₂) (λ t' q. (events (e ∷ es) ∷ [], q ∙ q₂.1 ∙ q₁))
                (λ a t' q. (keys, q₂.0, q ∙ ap (wrote (work_of keys)) (q₂.1 ∙ q₁)))))

  abbrev Answered : List ℕ → Trace → List BlockHeader → Trace → Type 0
  Answered ns t hs t' = (w.get_blocks t.calls ns ≡ ok hs) × (t' ≡ record t { calls = t.calls + 1 })

  get_blocks-Post :
      (ns : List ℕ) (t : Trace)
      → Post (Answered ns t) (λ t'. t' ≡ record t { calls = t.calls + 1 }) (get_blocks w ns t)
  unfolding get_blocks
  get_blocks-Post ns t = elim (Result-cases (w.get_blocks t.calls ns)) [
    | inl (hs, e) ↦ rw (e, get_blocks) (returned hs _ (e, refl))
    | inr (failure, e) ↦ rw (e, get_blocks) (raised _ _ refl)
  ]

  Numbered : ℕ → Option BlockHeader → Type 0
  Numbered number none = Unit {0}
  Numbered number (some h) = h.number ≡ number

  find_block-Numbered :
      (number : ℕ) (hs : List BlockHeader) → Numbered number (find_block number hs)
  unfolding find_block Numbered
  find_block-Numbered number [] = tt
  find_block-Numbered number (h ∷ hs) =
      last_or (find_block number hs) (find_block-Numbered number hs)
    where
      last_or :
          (later : Option BlockHeader)
          → Numbered number later
          → Numbered number (elim later [
            | some found ↦ some found
            | none ↦ if h.number == number then some h else none
          ])
      last_or (some found) e = e
      last_or none e = elim (Bool-cases (h.number == number)) [
        | inl same ↦ rw same (grind arith)
        | inr other ↦ rw other tt
      ]

  block_at-number :
      (number : ℕ) (hs : List BlockHeader) (h : BlockHeader)
      → block_at number hs ≡ ok h
      → h.number ≡ number
  unfolding block_at Numbered
  block_at-number number hs h = by_found (find_block number hs) (find_block-Numbered number hs)
    where
      by_found :
          (found : Option BlockHeader)
          → Numbered number found
          → ◌≡◌ {A = Result PyError BlockHeader}
              (elim found [ none ↦ err key_error | some h' ↦ ok h' ])
              (ok h)
          → h.number ≡ number
      by_found none q e = absurd (cc e)
      by_found (some h') q e = cc

  abbrev Saved : ℕ → Trace → Unit {0} → Trace → Type 0
  Saved upper t a t' =
      (saved : List Write) × Checkpoints true upper saved
      × (t'.writes ≡ saved ++ t.writes)
      × ((t'.durable ≡ t.durable) ⊎ ((t'.durable ≡ some upper) × IsBehind t.durable upper))

  advances-IsBehind :
      (durable : Option ℕ) (number : ℕ) → advances w durable number ≡ true → IsBehind durable number
  unfolding advances
  advances-IsBehind none number ahead = λ current e. absurd (cc e)
  advances-IsBehind (some c) number ahead = λ current e. le_of (cc e) (leb→le _ _ ahead)
    where
      le_of : {current : ℕ} → c ≡ current → c ≤ number → current ≤ number
      le_of e h = omega arith

  only_checkpoint : (h : BlockHeader) → Checkpoints true h.number (checkpoint h ∷ [])
  only_checkpoint h entry (inl e) = (refl, h, e, refl)
  only_checkpoint h entry (inr n) = elim n [ ]

  save_checkpoint-Post :
      (h : BlockHeader) (t : Trace) → Post (Saved h.number t) (λ t'. t' ≡ t) (save_checkpoint w h t)
  unfolding save_checkpoint
  save_checkpoint-Post h t = elim (Bool-cases (advances w t.durable h.number)) [
    | inl e ↦ rw e (
        go_on-Post (write-Writes (checkpoint h) t) (λ t' q. q)
          (λ a t₁ q. returned tt _ (
            checkpoint h ∷ [],
            only_checkpoint h,
            ap (λ t₂. t₂.writes) q,
            inr (refl, advances-IsBehind t.durable h.number e),
          )))
    | inr e ↦ rw e (returned tt _ ([], (λ entry none_. elim none_ [ ]), refl, inl refl))
  ]

  -- Data was written at most, and the checkpoint stayed.
  record Unmoved (t t' : Trace) : Type 0 where
    kept : Keeps t t'
    same : t'.durable ≡ t.durable

  wrote-Unmoved : {t t' : Trace} (entries : List Write) → t' ≡ wrote entries t → Unmoved t t'
  wrote-Unmoved {t = t} entries e = record {
    kept = λ entry h.
        subst (In entry) (sym (ap (λ t. t.writes) e)) (In-append_right entry entries t.writes h);
    same = ap (λ t. t.durable) e;
  }

  Unmoved-trans : {t t' t'' : Trace} → Unmoved t t' → Unmoved t' t'' → Unmoved t t''
  Unmoved-trans u v = record {
    kept = λ entry h. v.kept entry (u.kept entry h);
    same = v.same ∙ u.same;
  }

  called-Unmoved : {t t' : Trace} → t' ≡ record t { calls = t.calls + 1 } → Unmoved t t'
  called-Unmoved e = record {
    kept = λ entry h. subst (In entry) (sym (ap (λ t. t.writes) e)) h;
    same = ap (λ t. t.durable) e;
  }

  Partial-Unmoved : (t t' : Trace) → Partial t t' → Unmoved t t'
  Partial-Unmoved t t' (entries, e) = wrote-Unmoved entries e

  module _ (update store_all : Bool) (cursor upper : ℕ) (logs : List RpcLog) where
    -- A commit that raised, or that returned.
    pub record Halted (t t' : Trace) : Type 0 where
      pub keeps : Keeps t t'
      pub moved : Moved update upper logs t t'

    abbrev Ended : Trace → Unit {0} → Trace → Type 0
    Ended t a t' =
        (saved : List Write) × Checkpoints update upper saved
        × (t'.writes ≡ saved ++ t.writes)
        × ((t'.durable ≡ t.durable)
            ⊎ ((t'.durable ≡ some upper) × (update ≡ true) × IsBehind t.durable upper))

    update_checkpoint-Post :
        (hs : List BlockHeader) (t : Trace)
        → Post (Ended t) (λ t'. t' ≡ t) (update_checkpoint w update upper hs t)
    unfolding update_checkpoint
    update_checkpoint-Post hs t = asked update refl
      where
        asked :
            (wanted : Bool)
            → update ≡ wanted
            → Post (Ended t) (λ t'. t' ≡ t) (update_checkpoint w wanted upper hs t)
        asked false e = returned tt _ ([], (λ entry h. elim h [ ]), refl, inl refl)
        asked true e =
            go_on-Post (lift-Same (block_at upper hs) t) (λ t' q. q)
              (λ h t₁ (found, e₁).
                let number = block_at-number upper hs h found in
                weaken (save_checkpoint-Post h t₁) (λ t' q. q ∙ e₁)
                  (λ a t' (saved, only, e₂, moved). (
                    saved,
                    (λ entry k.
                        let (asked_for, h', shape, at) = only entry k in
                        (e, h', shape, at ∙ number)),
                    e₂ ∙ ap (λ t. saved ++ t.writes) e₁,
                    elim moved [
                      | inl stayed ↦ inl (stayed ∙ ap (λ t. t.durable) e₁)
                      | inr (went, behind) ↦ inr (
                        went ∙ ap some number,
                        e,
                        λ current k.
                            subst (λ n. current ≤ n) number
                              (behind current (ap (λ t. t.durable) e₁ ∙ k)),
                      )
                    ],
                  )))

    Unmoved-Halted : {t t' : Trace} → Unmoved t t' → Halted t t'
    Unmoved-Halted u = record { keeps = u.kept; moved = inl u.same }

    same-Halted : {t t₁ t' : Trace} → Unmoved t t₁ → t' ≡ t₁ → Halted t t'
    same-Halted u e = Unmoved-Halted (Unmoved-trans u (wrote-Unmoved [] e))

    Ended-Halted :
        (t t₅ t₆ : Trace) (a : Unit {0})
        → Unmoved t t₅
        → Recorded logs t₅
        → Ended t₅ a t₆
        → Halted t t₆
    Ended-Halted t t₅ t₆ a u recorded (saved, only, e, moved) =
        let keeps : Keeps t₅ t₆ =
          λ entry h. subst (In entry) (sym e) (In-append_right entry saved t₅.writes h) in
        record {
          keeps = λ entry h. keeps entry (u.kept entry h);
          moved = elim moved [
            | inl stayed ↦ inl (stayed ∙ u.same)
            | inr (went, asked, behind) ↦ inr (
              went,
              asked,
              (λ current e'. behind current (u.same ∙ e')),
              (λ entry h. keeps entry (recorded entry h)),
            )
          ];
        }

    Halted-then : (t t₁ t' : Trace) → Halted t t₁ → Unmoved t₁ t' → Halted t t'
    Halted-then t t₁ t' h u = record {
      keeps = λ entry k. u.kept entry (h.keeps entry k);
      moved = elim h.moved [
        | inl stayed ↦ inl (u.same ∙ stayed)
        | inr (went, asked, behind, recorded) ↦
            inr (u.same ∙ went, asked, behind, (λ entry k. u.kept entry (recorded entry k)))
      ];
    }

    -- What the first writes of the body left.
    record Stored (t : Trace) (hs : List BlockHeader) (t' : Trace) : Type 0 where
      answered : w.get_blocks t.calls (block_numbers store_all cursor upper logs) ≡ ok hs
      stored : t'.writes ≡ logs_of logs ++ (blocks_of hs ++ t.writes)
      unmoved : Unmoved t t'

    abbrev Committed : Trace → Unit {0} → Trace → Type 0
    Committed t a t' = IsCommitted update store_all cursor upper logs t t' × Halted t t'

    Stored-Recorded :
        (t : Trace) (hs : List BlockHeader) (t' : Trace) → Stored t hs t' → Recorded logs t'
    Stored-Recorded t hs t' s entry h =
        subst (In entry) (sym s.stored) (In-append_left entry (logs_of logs) _ h)

    after_all :
        (t t₃ t₄ t₅ t₆ t' : Trace) (saved : List Write) (keys : List WorkKey)
        (es : List DecodedEvent) (hs : List BlockHeader)
        → t₃.writes ≡ logs_of logs ++ (blocks_of hs ++ t.writes)
        → t₄.writes ≡ t₃.writes
        → t₅.writes ≡ work_of keys ++ (events_of es ++ t₄.writes)
        → t₆.writes ≡ saved ++ t₅.writes
        → t'.writes ≡ indexed_range cursor upper (length logs) ∷ t₆.writes
        → t'.writes
          ≡ indexed_range cursor upper (length logs)
            ∷ (saved
                ++ (work_of keys ++ (events_of es ++ (logs_of logs ++ (blocks_of hs ++ t.writes)))))
    after_all t t₃ t₄ t₅ t₆ t' saved keys es hs e₃ e₄ e₅ e₆ e₇ = cc

    Stored-Post :
        (t : Trace) (hs : List BlockHeader) (t₃ : Trace)
        → Stored t hs t₃
        → Post (Committed t) (Halted t) (
            (do
              es ← lift (decode_logs w hs logs)
              process_many w es
              update_checkpoint w update upper hs
              write w (indexed_range cursor upper (length logs)))
              t₃)
    Stored-Post t hs t₃ s =
        go_on-Post (lift-Same (decode_logs w hs logs) t₃) (λ t'. same-Halted s.unmoved)
          (λ es t₄ (read, e₄).
            let v₄ : Unmoved t₃ t₄ = wrote-Unmoved [] e₄ in
            go_on-Post (process_many-Post es t₄)
              (λ t' q.
                Unmoved-Halted (Unmoved-trans s.unmoved (Unmoved-trans v₄ (Partial-Unmoved _ _ q))))
              (λ d t₅ (keys, derived, e₅).
                let v₅ : Unmoved t₃ t₅ = Unmoved-trans v₄ (
                  Unmoved-trans (wrote-Unmoved (events_of es) refl)
                    (wrote-Unmoved (work_of keys) e₅)) in
                let u₅ : Unmoved t t₅ = Unmoved-trans s.unmoved v₅ in
                go_on-Post (update_checkpoint-Post hs t₅) (λ t'. same-Halted u₅)
                  (λ a t₆ ended.
                    let halted =
                      Ended-Halted t t₅ t₆ a u₅
                        (λ entry k. v₅.kept entry (Stored-Recorded t hs t₃ s entry k)) ended in
                    let u₇ : (entries : List Write) (t' : Trace)
                        → t' ≡ wrote entries t₆
                        → Unmoved t₆ t' =
                      λ entries t' q. wrote-Unmoved entries q in
                    weaken (write-Writes (indexed_range cursor upper (length logs)) t₆)
                      (λ t' q. Halted-then t t₆ t' halted (u₇ [] t' q))
                      (λ b t' q. (
                        record {
                          call = t.calls;
                          headers = hs;
                          decoded = es;
                          keys = keys;
                          answered = s.answered;
                          read = read;
                          derived = derived;
                          saved = ended.0;
                          saved-Checkpoint = ended.1;
                          written =
                              after_all t t₃ t₄ t₅ t₆ t' ended.0 keys es hs s.stored
                                (ap (λ t. t.writes) e₄) (ap (λ t. t.writes) e₅) ended.2
                                (ap (λ t. t.writes) q);
                        },
                        Halted-then t t₆ t' halted
                            (u₇ (indexed_range cursor upper (length logs) ∷ []) t' q),
                      )))))

    pub commit_range-Post :
        (t : Trace)
        → Post
            (λ a t'. IsCommitted update store_all cursor upper logs t t' × Halted t t')
            (Halted t)
            (commit_range w update store_all cursor upper logs t)
    unfolding commit_range
    commit_range-Post t =
        go_on-Post (get_blocks-Post _ t) (λ t' q. Unmoved-Halted (called-Unmoved q))
          (λ hs t₁ q₁.
            let u₁ : Unmoved t t₁ = called-Unmoved q₁.1 in
            go_on-Post (store_blocks-Writes hs t₁) (λ t'. same-Halted u₁)
              (λ a t₂ q₂.
                let u₂ = Unmoved-trans u₁ (wrote-Unmoved (blocks_of hs) q₂) in
                go_on-Post (store_raw_logs-Writes logs t₂) (λ t'. same-Halted u₂)
                  (λ b t₃ q₃. Stored-Post t hs t₃ (record {
                    answered = q₁.0;
                    stored =
                        (let a₁ = ap (λ t. t.writes) q₁.1 in
                          let a₂ = ap (λ t. t.writes) q₂ in let a₃ = ap (λ t. t.writes) q₃ in cc);
                    unmoved = Unmoved-trans u₂ (wrote-Unmoved (logs_of logs) q₃);
                  }))))

    -- A committed range has written its logs.
    pub IsCommitted-Recorded :
        (t t' : Trace) → IsCommitted update store_all cursor upper logs t t' → Recorded logs t'
    IsCommitted-Recorded t t' r entry h = subst (In entry) (sym r.written) (
        inr (
          In-append_right entry r.saved _ (
            In-append_right entry (work_of r.keys) _ (
              In-append_right entry (events_of r.decoded) _
                (In-append_left entry (logs_of logs) _ h)))))
