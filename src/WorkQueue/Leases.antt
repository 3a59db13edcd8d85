-- ===== src/WorkQueue/Leases.antt =====
-- A lease is exclusive while no item was released and no other write crosses it: `lease_work` of
-- src/cow_indexer/storage/clickhouse.py.
use cow_indexer.Prelude.{
  ◌≢◌, refl, subst, [], ◌∷◌, ℕ, ◌+◌, ◌*◌, ◌≤◌, ◌<◌, ◌≡◌, sym, ap, ◌∙◌, ◌⊎◌, inl, inr, Bool, true,
  false, Option, List, ◌++◌, map, arith, Text, text_eq_iff, In, In-append, In-append_right, In-take,
  In-keep, In-map, map-In, All, All-In,
}
use cow_indexer.Json.{Codec}
use cow_indexer.WorkQueue.{
  Kind, Status, is_terminal, Chain, WorkRow, identity, lease_milliseconds, is_due, is_leasable,
  leased_row, Engine, Queue, lease_query, lease_work, insert_leases, is_taken,
}

-- A row that is still open carries a revision of its own attempt.
abbrev pub IsPaced : WorkRow → Type 0
IsPaced r = is_terminal r.status ≡ false → r.revision ≤ r.attempts * 10 + 2

pub due_status :
    (now : ℕ) (r : WorkRow) (s : Status) → is_due now r s ≡ true → is_terminal s ≡ false
unfolding is_due is_terminal
due_status now r s h = ground arith

pub leasable_parts :
    (chain : Chain) (kinds : Option (Kind → Bool)) (now : ℕ) (r : WorkRow)
    → is_leasable chain kinds now r ≡ true
    → (r.environment ≡ chain.environment)
      × (r.chain_id ≡ chain.chain_id)
      × (is_due now r r.status ≡ true)
unfolding is_leasable
leasable_parts chain kinds now r h = ground (arith, text_eq_iff r.environment chain.environment)

module _ (engine : Engine) (chain : Chain) (kinds : Option (Kind → Bool)) (now limit : ℕ) where
  -- What the query returns is shown by FINAL and is leasable.
  pub lease_query-In :
      (t : List WorkRow) (r : WorkRow)
      → In r (lease_query engine chain kinds now limit t)
      → In r (engine.final t) × (is_leasable chain kinds now r ≡ true)
  unfolding lease_query
  lease_query-In t r h =
      In-keep (is_leasable chain kinds now) r (engine.final t)
        (engine.order_by-In _ _ r (In-take r limit _ h))

pub leased_identity :
    (chain : Chain) (kinds : Option (Kind → Bool)) (worker_id : Text) (server_now now : ℕ)
    (r : WorkRow)
    → is_leasable chain kinds server_now r ≡ true
    → identity (leased_row chain worker_id now r) ≡ identity r
unfolding leased_row
leased_identity chain kinds worker_id server_now now r h =
    let (e, c, _) = leasable_parts chain kinds server_now r h in cc

running_not_leasable :
    (chain : Chain) (kinds : Option (Kind → Bool)) (chain' : Chain) (worker_id : Text)
    (now later : ℕ) (r : WorkRow)
    → later ≤ now + lease_milliseconds
    → is_leasable chain kinds later (leased_row chain' worker_id now r) ≡ false
unfolding is_leasable is_due leased_row
running_not_leasable chain kinds chain' worker_id now later r h = ground arith

is_taken-true : (rows : List WorkRow) → is_taken true rows ≡ true
unfolding is_taken
is_taken-true [] = refl
is_taken-true (r ∷ rows) = refl

module _ (codec : Codec) (engine : Engine) (chain : Chain) (worker_id : Text)
    (kinds : Option (Kind → Bool)) (limit server_now now : ℕ) (between : Queue → Queue)
    (q : Queue) where
  -- What a lease whose INSERT is taken leaves in the table.
  pub lease_work-writes :
      (lease_work codec engine chain worker_id kinds limit server_now now between true
        q).1.work_items
      ≡ (between q).work_items
        ++ map
            (leased_row chain worker_id now)
            (lease_query engine chain kinds server_now limit q.work_items)
  unfolding lease_work insert_leases
  lease_work-writes =
      rw (is_taken-true (lease_query engine chain kinds server_now limit q.work_items)) refl

  module _ (more : List WorkRow) (r s : WorkRow)
      (written : (between q).work_items ≡ q.work_items ++ more)
      (of_others : (x : WorkRow) → In x more → identity x ≢ identity r)
      (asked : In r (lease_query engine chain kinds server_now limit q.work_items))
      (shown : In s (
        engine.final
          (lease_work codec engine chain worker_id kinds limit server_now now between true
            q).1.work_items))
      (same : identity s ≡ identity r) where
    leased_alone : All IsPaced q.work_items → s ≡ leased_row chain worker_id now r
    leased_alone paced = cases (In-append s (t ++ more) _ (engine.final-In t' s shown'))
      where
        t : List WorkRow
        t = q.work_items

        rows : List WorkRow
        rows = lease_query engine chain kinds server_now limit t

        t' : List WorkRow
        t' = (t ++ more) ++ map (leased_row chain worker_id now) rows

        shown' : In s (engine.final t')
        shown' =
            subst (λ x. In s (engine.final x))
              (lease_work-writes ∙ ap (λ x. x ++ map (leased_row chain worker_id now) rows) written)
              shown

        shown_before : In r (engine.final t) × (is_leasable chain kinds server_now r ≡ true)
        shown_before = lease_query-In engine chain kinds server_now limit t r asked

        same_key :
            (x : WorkRow) → In x rows → identity (leased_row chain worker_id now x) ≡ identity x
        same_key x m =
            leased_identity chain kinds worker_id server_now now x
              (lease_query-In engine chain kinds server_now limit t x m).1

        -- The row of this lease is beyond every older one.
        beyond : In s t → s.revision < (r.attempts + 1) * 10 + 1
        beyond m =
            let open_row : is_terminal r.status ≡ false =
              due_status server_now r r.status
                (leasable_parts chain kinds server_now r shown_before.1).2 in
            let bound : r.revision ≤ r.attempts * 10 + 2 =
              All-In IsPaced r t paced (engine.final-In t r shown_before.0) open_row in
            let highest : s.revision ≤ r.revision =
              engine.final_highest t r s shown_before.0 m same in
            omega arith

        highest' : (r.attempts + 1) * 10 + 1 ≤ s.revision
        highest' =
            unfold leased_row in
            engine.final_highest t' s (leased_row chain worker_id now r) shown'
              (In-append_right _ (t ++ more) _
                (In-map (leased_row chain worker_id now) r rows asked))
              (same_key r asked ∙ sym same)

        old : In s t ⊎ In s more → s ≡ leased_row chain worker_id now r
        old (inl m) = absurd (omega (arith, beyond m, highest'))
        old (inr m) = absurd (of_others s m same)

        cases :
            In s (t ++ more) ⊎ In s (map (leased_row chain worker_id now) rows)
            → s ≡ leased_row chain worker_id now r
        cases (inl m) = old (In-append s t more m)
        cases (inr m) =
            let (x, mx, e) = map-In (leased_row chain worker_id now) s rows m in
            let same_x : identity x ≡ identity r =
              sym (same_key x mx) ∙ ap identity (sym e) ∙ same in
            let is_r : x ≡ r =
              engine.final_unique t r x shown_before.0
                (lease_query-In engine chain kinds server_now limit t x mx).0 same_x in
            e ∙ ap (leased_row chain worker_id now) is_r

    -- A lease is exclusive as long as every open row's revision is that of its own attempt, and no row
    -- of the item is written between its SELECT and its INSERT: after `lease_work`, the only row that
    -- FINAL shows for an item it handed out is the running row of this worker, and for five minutes no
    -- query, of any chain or kinds, finds that row leasable.
    pub lease_work-IsExclusive :
        All IsPaced q.work_items
        → (s ≡ leased_row chain worker_id now r)
          × ((chain' : Chain) (kinds' : Option (Kind → Bool)) (later : ℕ)
              → later ≤ now + lease_milliseconds
              → is_leasable chain' kinds' later s ≡ false)
    lease_work-IsExclusive paced =
        let e = leased_alone paced in
        (
          e,
          λ chain' kinds' later h.
              ap (is_leasable chain' kinds' later) e
              ∙ running_not_leasable chain' kinds' chain worker_id now later r h,
        )
