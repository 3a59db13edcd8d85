-- ===== src/Backfill/Drain/Journals.antt =====
-- What the processing of an item leaves of the journal and of the item:
-- src/cow_indexer/services/backfill_orderbook.py.
use cow_indexer.Prelude.{
  ℕ, arith, ◌+◌, ◌≡◌, ap, leb, Bool, true, false, List, [], ◌∷◌, length, Option, none, some, Result,
  ok, err, value_error,
}
use cow_indexer.Exec.{go_on-eq-ok}
use cow_indexer.Json.{Json}
use cow_indexer.WorkQueue.{WorkItem, Kind, order_uids_batch, owner_orders_backfill}
use cow_indexer.Enrichment.{Failure, Journal, Services, Work, store, ask, lift, store_orders}
use cow_indexer.Backfill.{BatchError, decode_uid_batch_key}
use cow_indexer.Backfill.Drain.{
  Swept, break_or, keep_orders, lift_batch, uid_batch, sweep, owner_orders, process_kind,
  as_mapping, returned_uids,
}
use cow_indexer.Enrichment.Journals.{Keeping, >>=-Keeping, store-Keeping, lift-Keeping}

ok_item : (a b : WorkItem) → ◌≡◌ {A = Result Failure WorkItem} (ok a) (ok b) → a ≡ b
ok_item a b e = ground arith

module _ (s : Services) where
  lift_batch-Keeping : {A : Type 0} (r : Result BatchError A) → Keeping (lift_batch s r)
  lift_batch-Keeping (ok a) j call i = i
  lift_batch-Keeping (err e) j call i = i

  break_or-Keeping :
      (swept : Swept) (rest : Work Swept) (full : Bool)
      → Keeping rest
      → Keeping (break_or s swept rest full)
  break_or-Keeping swept rest true h = λ j call i. i
  break_or-Keeping swept rest false h = h

  sweep-Keeping :
      (max_pages : ℕ) (swept : Swept) (pages : List (List Json)) (failure : Option Failure)
      → Keeping (sweep s max_pages swept pages failure)
  unfolding sweep
  sweep-Keeping max_pages swept [] none = λ j call i. i
  sweep-Keeping max_pages swept [] (some failure) = λ j call i. i
  sweep-Keeping max_pages swept (page ∷ pages) failure =
      >>=-Keeping (store s (store_orders page)) _ (store-Keeping s (store_orders page)) (λ u.
        let more : Swept = record swept {
          orders = swept.orders + length page;
          pages = swept.pages + 1;
        } in
        break_or-Keeping more (sweep s max_pages more pages failure) (leb max_pages more.pages)
          (sweep-Keeping max_pages more pages failure))

  keep_orders-Keeping : (orders : List Json) → Keeping (keep_orders s orders)
  keep_orders-Keeping [] = λ j call i. i
  keep_orders-Keeping (order ∷ orders) = store-Keeping s (store_orders (order ∷ orders))

  uid_batch-Keeping : (item : WorkItem) → Keeping (uid_batch s item)
  unfolding uid_batch ask
  uid_batch-Keeping item =
      >>=-Keeping (lift_batch s (decode_uid_batch_key item.key)) _
        (lift_batch-Keeping (decode_uid_batch_key item.key))
        (λ uids.
          >>=-Keeping (ask s (λ n. s.get_orders_by_uids n uids)) _ (λ j call i. i)
            (λ orders. >>=-Keeping (keep_orders s orders) _ (keep_orders-Keeping orders) (λ u.
              >>=-Keeping (lift s (returned_uids orders)) _ (lift-Keeping s (returned_uids orders))
                (λ found.
                  >>=-Keeping (lift s (as_mapping item.payload)) _
                    (lift-Keeping s (as_mapping item.payload)) (λ fields j call i. i)))))

  owner_orders-Keeping : (max_pages : ℕ) (item : WorkItem) → Keeping (owner_orders s max_pages item)
  unfolding owner_orders
  owner_orders-Keeping max_pages item j =
      >>=-Keeping
        (sweep s max_pages _ (s.account_orders j.asked item.key).0
          (s.account_orders j.asked item.key).1)
        _ (sweep-Keeping max_pages _ _ _)
        (λ swept.
          >>=-Keeping (lift s (as_mapping item.payload)) _
            (lift-Keeping s (as_mapping item.payload)) (λ fields j call i. i))
        (record j { asked = j.asked + 1 })

  pub process_kind-Keeping :
      (max_pages : ℕ) (kind : Kind) (item : WorkItem) → Keeping (process_kind s max_pages kind item)
  unfolding process_kind
  process_kind-Keeping max_pages order_uids_batch item = uid_batch-Keeping item
  process_kind-Keeping max_pages owner_orders_backfill item = owner_orders-Keeping max_pages item
  process_kind-Keeping max_pages _ item = lift-Keeping s {A = WorkItem} (err value_error)

  -- The item with another payload.
  abbrev pub Same : WorkItem → WorkItem → Type 0
  Same item changed = (payload : Json) × (record item { payload = payload } ≡ changed)

  uid_batch-Same :
      (item changed : WorkItem) (j j' : Journal)
      → uid_batch s item j ≡ (ok changed, j')
      → Same item changed
  unfolding uid_batch
  uid_batch-Same item changed j j' e =
      let (uids, j₁, e₁, _) =
        go_on-eq-ok (lift_batch s (decode_uid_batch_key item.key) j) _ changed j' e in
      let (orders, j₂, e₂, _) =
        go_on-eq-ok (ask s (λ n. s.get_orders_by_uids n uids) j₁) _ changed j' e₁ in
      let (u, j₃, e₃, _) = go_on-eq-ok (keep_orders s orders j₂) _ changed j' e₂ in
      let (found, j₄, e₄, _) = go_on-eq-ok (lift s (returned_uids orders) j₃) _ changed j' e₃ in
      let (fields, j₅, e₅, _) = go_on-eq-ok (lift s (as_mapping item.payload) j₄) _ changed j' e₄ in
      (_, ok_item _ changed (ap (λ r. r.0) e₅))

  owner_orders-Same :
      (max_pages : ℕ) (item changed : WorkItem) (j j' : Journal)
      → owner_orders s max_pages item j ≡ (ok changed, j')
      → Same item changed
  unfolding owner_orders
  owner_orders-Same max_pages item changed j j' e =
      let (swept, j₁, e₁, _) =
        go_on-eq-ok
          (sweep s max_pages _ (s.account_orders j.asked item.key).0
            (s.account_orders j.asked item.key).1 (record j { asked = j.asked + 1 }))
          _ changed j' e in
      let (fields, j₂, e₂, _) = go_on-eq-ok (lift s (as_mapping item.payload) j₁) _ changed j' e₁ in
      (_, ok_item _ changed (ap (λ r. r.0) e₂))

  pub process_kind-Same :
      (max_pages : ℕ) (kind : Kind) (item changed : WorkItem) (j j' : Journal)
      → process_kind s max_pages kind item j ≡ (ok changed, j')
      → Same item changed
  unfolding process_kind lift
  process_kind-Same max_pages order_uids_batch item changed j j' e =
      uid_batch-Same item changed j j' e
  process_kind-Same max_pages owner_orders_backfill item changed j j' e =
      owner_orders-Same max_pages item changed j j' e
  process_kind-Same max_pages _ item changed j j' e = absurd (cc (ap (λ r. r.0) e))
