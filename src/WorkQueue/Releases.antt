-- ===== src/WorkQueue/Releases.antt =====
-- What a release leaves behind: `release_work` and the next `lease_work` of
-- src/cow_indexer/storage/clickhouse.py.
use cow_indexer.Prelude.{
  true, subst, ℕ, ◌+◌, ◌-◌, ◌*◌, ◌≤◌, ◌<◌, ◌≡◌, refl, sym, ap, ◌∙◌, ◌⊎◌, inl, inr, Bool, true,
  Option, List, [], ◌∷◌, ◌++◌, map, arith, In, In-append, In-append_left, In-append_right, map-In,
  Text,
}
use cow_indexer.Json.{Codec}
use cow_indexer.WorkQueue.{
  Kind, pending, Chain, WorkRow, WorkItem, identity, item_identity, is_due, is_leasable,
  leased_item, leased_row, released_row, Engine, Queue, lease_query, lease_work, release_work,
}
use cow_indexer.WorkQueue.Wins.{Below, appended_wins}
use cow_indexer.WorkQueue.Leases.{lease_work-writes, leased_identity, lease_query-In}

pending_stays :
    (chain : Chain) (kinds : Option (Kind → Bool)) (now later : ℕ) (r : WorkRow)
    → r.status ≡ pending
    → now ≤ later
    → is_leasable chain kinds now r ≡ true
    → is_leasable chain kinds later r ≡ true
unfolding is_leasable is_due
pending_stays chain kinds now later r p h = ground arith

module _ (codec : Codec) (engine : Engine) (chain : Chain) (worker_id : Text)
    (kinds : Option (Kind → Bool)) (limit released_at server_now now : ℕ) (item : WorkItem)
    (q : Queue) where
  abbrev pub after_release : Queue
  after_release = release_work codec released_at (item ∷ []) q

  abbrev pub after_lease : Queue
  after_lease =
      (lease_work codec engine chain worker_id kinds limit server_now now (λ x. x) true
        after_release).1

  released :
      (s : WorkRow)
      → Below (item.attempts * 10 + 2) (item_identity item) q.work_items
      → In s (engine.final after_release.work_items)
      → identity s ≡ item_identity item
      → s ≡ released_row codec released_at item
  unfolding release_work released_row
  released s below shown same =
      appended_wins engine q.work_items (released_row codec released_at item) s below shown same

  lease_lost :
      (r s : WorkRow)
      → 0 < item.attempts
      → Below (item.attempts * 10 + 2) (item_identity item) q.work_items
      → In r (lease_query engine chain kinds server_now limit after_release.work_items)
      → identity r ≡ item_identity item
      → In s (engine.final after_lease.work_items)
      → identity s ≡ item_identity item
      → s ≡ released_row codec released_at item
  unfolding release_work
  lease_lost r s positive below asked same_r shown same_s =
      cases (In-append s t₁ _ (engine.final-In t₂ s shown'))
    where
      n : WorkRow
      n = released_row codec released_at item

      t₁ : List WorkRow
      t₁ = q.work_items ++ n ∷ []

      rows : List WorkRow
      rows = lease_query engine chain kinds server_now limit t₁

      t₂ : List WorkRow
      t₂ = t₁ ++ map (leased_row chain worker_id now) rows

      shown' : In s (engine.final t₂)
      shown' =
          subst (λ t. In s (engine.final t))
            (lease_work-writes codec engine chain worker_id kinds limit server_now now (λ x. x)
              after_release)
            shown

      same_n : identity n ≡ item_identity item
      same_n = unfold released_row in refl

      highest : item.attempts * 10 + 2 ≤ s.revision
      highest =
          unfold released_row in
          engine.final_highest t₂ s n shown'
            (In-append_left n t₁ _ (In-append_right n q.work_items (n ∷ []) (inl refl)))
            (same_n ∙ sym same_s)

      old : In s q.work_items ⊎ In s (n ∷ []) → s ≡ n
      old (inl m) = absurd (omega (arith, below s m same_s, highest))
      old (inr (inl e)) = e
      old (inr (inr no_more)) = elim no_more [ ]

      -- A row of this lease carries the revision of the attempt that was given back.
      too_low : (x : WorkRow) → In x rows → s ≡ leased_row chain worker_id now x → ⊥
      too_low x mx e =
          let (before, due) = lease_query-In engine chain kinds server_now limit t₁ x mx in
          let same_x : identity x ≡ item_identity item =
            sym (leased_identity chain kinds worker_id server_now now x due)
            ∙ ap identity (sym e)
            ∙ same_s in
          let first : x ≡ n = released x below before same_x in
          let revision : s.revision ≡ (x.attempts + 1) * 10 + 1 =
            ap (λ (y : WorkRow). y.revision) e ∙ (unfold leased_row in refl) in
          let attempts : x.attempts ≡ item.attempts - 1 =
            ap (λ (y : WorkRow). y.attempts) first ∙ (unfold released_row in refl) in
          omega (arith, highest, revision, attempts)

      cases : In s t₁ ⊎ In s (map (leased_row chain worker_id now) rows) → s ≡ n
      cases (inl m) = old (In-append s q.work_items (n ∷ []) m)
      cases (inr m) =
          let (x, mx, e) = map-In (leased_row chain worker_id now) s rows m in
          absurd (too_low x mx e)

  -- A release does not charge the attempt, but it hides the next lease. Once an item was released
  -- and no other row of it reaches the released one, the next `lease_work` that hands the item out,
  -- with no other write in between, gives it the same attempt again, and afterwards FINAL still shows the released row, pending and
  -- leasable at every later time, so that a second worker may be handed the same item.
  pub lease_work-released :
      (r s : WorkRow)
      → 0 < item.attempts
      → Below (item.attempts * 10 + 2) (item_identity item) q.work_items
      → In r (lease_query engine chain kinds server_now limit after_release.work_items)
      → identity r ≡ item_identity item
      → In s (engine.final after_lease.work_items)
      → identity s ≡ item_identity item
      → ((leased_item codec chain r).attempts ≡ item.attempts)
        × (s ≡ released_row codec released_at item)
        × ((later : ℕ) → server_now ≤ later → is_leasable chain kinds later s ≡ true)
  lease_work-released r s positive below asked same_r shown same_s =
      let lost = lease_lost r s positive below asked same_r shown same_s in
      let (before, due) =
        lease_query-In engine chain kinds server_now limit after_release.work_items r asked in
      let first = released r below before same_r in
      let same : s ≡ r = lost ∙ sym first in
      (
        (unfold leased_item released_row in rw first (omega arith)),
        lost,
        λ later h.
            pending_stays chain kinds server_now later s
              (ap (λ (x : WorkRow). x.status) lost ∙ (unfold released_row in refl)) h
              (ap (is_leasable chain kinds server_now) same ∙ due),
      )
