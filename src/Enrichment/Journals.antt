-- ===== src/Enrichment/Journals.antt =====
-- The calls that the store took stay in the journal, whatever the enrichment of an item does:
-- src/cow_indexer/services/enrichment.py.
use cow_indexer.Prelude.{
  ℕ, ◌≡◌, sym, ap, ◌∷◌, [], List, Bool, true, false, Option, none, some, Text, PyError, Result, ok,
  err, In, inl, inr, Option-cases, length, if◌then◌else◌, codes, leb, value_error, ◌+◌, ◌*◌,
}
use cow_indexer.Exec.{go_on, returning, ◌>>=◌}
use cow_indexer.Json.{Json, is_truthy}
use cow_indexer.Hex.{ValueError, normalize_order_uid}
use cow_indexer.WorkQueue.{
  WorkItem, Kind, order_uid, owner, tx_hash, tx_competition, app_data, token, order_uids_batch,
  owner_orders_backfill,
}
use cow_indexer.WorkQueue.Enqueue.{WorkKey}
use cow_indexer.Enrichment.{
  Failure, competition_unavailable, exception, StoreCall, Journal, Services, Work, Pages,
  Prefetched, store, ask, lift, each_page, over_pages, enqueue, fanout_order, fanout_orders,
  keep_order, keep_trades, keep_account_orders, fanout_competition, resolved, resolve_order,
  process_kind, process, handled, process_and_finish, store_orders, store_api_trades,
  store_app_data, store_native_price, store_native_price_miss, enqueue_work_many, finish_work,
  as_dict, order_keys, auction_orders, auction_keys, value_of, delay, outcome_of,
}

abbrev pub Keeps : Journal → Journal → Type 0
Keeps j j' = (call : StoreCall) → In call j.done → In call j'.done

module _ {A : Type 0} where
  abbrev pub Keeping : Work A → Type 0
  Keeping m = (j : Journal) → Keeps j (m j).1

module _ {A B : Type 0} where
  pub >>=-Keeping :
      (m : Work A) (k : A → Work B) → Keeping m → ((a : A) → Keeping (k a)) → Keeping (m >>= k)
  >>=-Keeping m k h l j call i = rest (m j) (h j call i)
    where
      rest : (r : Result Failure A × Journal) → In call r.1.done → In call (go_on r k).1.done
      rest (ok a, j') i = l a j' call i
      rest (err e, j') i = i

module _ (s : Services) where
  pub store-Keeping : (call : StoreCall) → Keeping (store s call)
  unfolding store
  store-Keeping call j other i = elim (Option-cases (s.refuses (length j.done) call)) [
    | inl taken ↦ rw (taken, store) (inr i)
    | inr (failure, refused) ↦ rw (refused, store) i
  ]

  pub store-done :
      (call : StoreCall) (j j' : Journal) → store s call j ≡ (ok tt, j') → j'.done ≡ call ∷ j.done
  unfolding store
  store-done call j j' e = taken (s.refuses (length j.done) call) e
    where
      taken :
          (refused : Option Failure)
          → ◌≡◌ {A = Result Failure (Unit {0}) × Journal}
              (elim refused [
                | some failure ↦ (err failure, j)
                | none ↦ (ok tt, record j { done = call ∷ j.done })
              ])
              (ok tt, j')
          → j'.done ≡ call ∷ j.done
      taken none q = sym (ap (λ r. r.1.done) q)
      taken (some failure) q = absurd (cc (ap (λ r. r.0) q))

  pub lift-Keeping : {A : Type 0} (r : Result PyError A) → Keeping (lift s r)
  unfolding lift
  lift-Keeping (ok a) j call i = i
  lift-Keeping (err e) j call i = i

  -- Either of two pieces of code.
  if-Keeping :
      {A : Type 0} (t : Bool) (m k : Work A) → Keeping m → Keeping k → Keeping (if t then m else k)
  if-Keeping true m k h l = h
  if-Keeping false m k h l = l

  enqueue-Keeping : (keys : List WorkKey) → Keeping (enqueue s keys)
  unfolding enqueue
  enqueue-Keeping [] = λ j call i. i
  enqueue-Keeping (key ∷ keys) = store-Keeping (enqueue_work_many (key ∷ keys))

  each_page-Keeping :
      (body : List Json → Work (Unit {0})) (pages : List (List Json)) (failure : Option Failure)
      → ((page : List Json) → Keeping (body page))
      → Keeping (each_page s body pages failure)
  unfolding each_page
  each_page-Keeping body [] none h = λ j call i. i
  each_page-Keeping body [] (some failure) h = λ j call i. i
  each_page-Keeping body (page ∷ pages) failure h =
      >>=-Keeping (body page) _ (h page) (λ u. each_page-Keeping body pages failure h)

  over_pages-Keeping :
      (question : ℕ → Pages) (body : List Json → Work (Unit {0}))
      → ((page : List Json) → Keeping (body page))
      → Keeping (over_pages s question body)
  unfolding over_pages
  over_pages-Keeping question body h j =
      each_page-Keeping body (question j.asked).0 (question j.asked).1 h
        (record j { asked = j.asked + 1 })

  fanout_order-Keeping :
      (include_owner : Bool) (order : Json) → Keeping (fanout_order s include_owner order)
  unfolding fanout_order
  fanout_order-Keeping include_owner order =
      >>=-Keeping (lift s (as_dict order)) _ (lift-Keeping (as_dict order)) (λ fields.
        >>=-Keeping (lift s (order_keys include_owner fields)) _
          (lift-Keeping (order_keys include_owner fields)) (λ keys. enqueue-Keeping keys))

  fanout_orders-Keeping :
      (include_owner : Bool) (orders : List Json) → Keeping (fanout_orders s include_owner orders)
  unfolding fanout_orders
  fanout_orders-Keeping include_owner [] = λ j call i. i
  fanout_orders-Keeping include_owner (order ∷ orders) =
      >>=-Keeping (fanout_order s include_owner order) _ (fanout_order-Keeping include_owner order)
        (λ u. fanout_orders-Keeping include_owner orders)

  keep_order-Keeping : (order : Json) → Keeping (keep_order s order)
  unfolding keep_order
  keep_order-Keeping order =
      if-Keeping (is_truthy order) _ _
        (>>=-Keeping (store s (store_orders (order ∷ []))) _
          (store-Keeping (store_orders (order ∷ []))) (λ u. fanout_order-Keeping true order))
        (λ j call i. i)

  keep_trades-Keeping :
      (endpoint key : Text) (trades : List Json) → Keeping (keep_trades s endpoint key trades)
  unfolding keep_trades
  keep_trades-Keeping endpoint key trades =
      >>=-Keeping (store s _) _ (store-Keeping _) (λ u. store-Keeping (store_api_trades trades))

  keep_account_orders-Keeping :
      (key : Text) (orders : List Json) → Keeping (keep_account_orders s key orders)
  unfolding keep_account_orders
  keep_account_orders-Keeping key orders = >>=-Keeping (store s _) _ (store-Keeping _) (λ u.
      >>=-Keeping (store s (store_orders orders)) _ (store-Keeping (store_orders orders))
        (λ v. fanout_orders-Keeping false orders))

  fanout_competition-Keeping : (payload : Json) → Keeping (fanout_competition s payload)
  unfolding fanout_competition
  fanout_competition-Keeping payload =
      >>=-Keeping (lift s (as_dict payload)) _ (lift-Keeping (as_dict payload)) (λ fields.
        >>=-Keeping (lift s (auction_orders (value_of (codes "auction") fields))) _
          (lift-Keeping (auction_orders (value_of (codes "auction") fields)))
          (λ orders. enqueue-Keeping (auction_keys orders)))

  ask-Keeping : {A : Type 0} (question : ℕ → Result Failure A) → Keeping (ask s question)
  unfolding ask
  ask-Keeping question j call i = i

  resolve_order-Keeping :
      (key : Text) (prefetched : Prefetched s) → Keeping (resolve_order s key prefetched)
  unfolding resolve_order ask
  resolve_order-Keeping key none = λ j call i. i
  resolve_order-Keeping key (some orders) = resolved-Keeping (normalize_order_uid key)
    where
      resolved-Keeping : (r : Result ValueError Text) → Keeping (resolved s orders r)
      resolved-Keeping (ok uid) = λ j call i. i
      resolved-Keeping (err e) = λ j call i. i

  process_kind-Keeping :
      (kind : Kind) (key : Text) (prefetched : Prefetched s)
      → Keeping (process_kind s kind key prefetched)
  unfolding process_kind
  process_kind-Keeping order_uid key prefetched =
      >>=-Keeping (resolve_order s key prefetched) _ (resolve_order-Keeping key prefetched)
        (λ order. >>=-Keeping (store s _) _ (store-Keeping _) (λ a.
          >>=-Keeping (keep_order s order) _ (keep_order-Keeping order) (λ b.
            >>=-Keeping
              (over_pages s (λ n. s.order_trades n key) (keep_trades s (codes "trades:order") key))
              _
              (over_pages-Keeping (λ n. s.order_trades n key)
                (keep_trades s (codes "trades:order") key)
                (keep_trades-Keeping (codes "trades:order") key))
              (λ c.
                >>=-Keeping (ask s (λ n. s.get_order_status n key)) _
                  (ask-Keeping (λ n. s.get_order_status n key)) (λ status. store-Keeping _)))))
  process_kind-Keeping owner key prefetched =
      >>=-Keeping (over_pages s (λ n. s.account_orders n key) (keep_account_orders s key)) _
        (over_pages-Keeping (λ n. s.account_orders n key) (keep_account_orders s key)
          (keep_account_orders-Keeping key))
        (λ a.
          over_pages-Keeping (λ n. s.owner_trades n key) (keep_trades s (codes "trades:owner") key)
            (keep_trades-Keeping (codes "trades:owner") key))
  process_kind-Keeping tx_hash key prefetched =
      >>=-Keeping (ask s (λ n. s.get_orders_by_transaction n key)) _
        (ask-Keeping (λ n. s.get_orders_by_transaction n key))
        (λ orders. >>=-Keeping (store s _) _ (store-Keeping _) (λ a.
          >>=-Keeping (store s (store_orders orders)) _ (store-Keeping (store_orders orders))
            (λ b. fanout_orders-Keeping true orders)))
  process_kind-Keeping tx_competition key prefetched =
      >>=-Keeping (ask s (λ n. s.competition_by_transaction n key)) _
        (ask-Keeping (λ n. s.competition_by_transaction n key))
        (λ competition. >>=-Keeping (store s _) _ (store-Keeping _) (λ a.
          >>=-Keeping (store s _) _ (store-Keeping _)
            (λ b. fanout_competition-Keeping competition)))
  process_kind-Keeping app_data key prefetched =
      >>=-Keeping (ask s (λ n. s.get_app_data n key)) _ (ask-Keeping (λ n. s.get_app_data n key))
        (λ payload. >>=-Keeping (store s _) _ (store-Keeping _) (λ a.
          if-Keeping (is_truthy payload) (store s (store_app_data key payload)) (returning tt)
            (store-Keeping (store_app_data key payload)) (λ j call i. i)))
  process_kind-Keeping token key prefetched =
      >>=-Keeping (ask s (λ n. s.native_price n key)) _ (ask-Keeping (λ n. s.native_price n key))
        (λ payload. >>=-Keeping (store s _) _ (store-Keeping _) (λ a.
          if-Keeping (is_truthy payload) (store s (store_native_price key payload))
            (store s (store_native_price_miss key)) (store-Keeping (store_native_price key payload))
            (store-Keeping (store_native_price_miss key))))
  process_kind-Keeping order_uids_batch key prefetched =
      lift-Keeping {A = Unit {0}} (err value_error)
  process_kind-Keeping owner_orders_backfill key prefetched =
      lift-Keeping {A = Unit {0}} (err value_error)

  handled-Keeps :
      (max_attempts now : ℕ) (item : WorkItem) (r : Result Failure (Unit {0}) × Journal)
      → Keeps r.1 (handled s max_attempts now item r).1
  unfolding handled
  handled-Keeps max_attempts now item (ok u, j) call i = i
  handled-Keeps max_attempts now item (err (competition_unavailable key), j) call i =
      store-Keeping _ j call i
  handled-Keeps max_attempts now item (err (exception text), j) call i =
      either (leb max_attempts item.attempts)
    where
      either :
          (t : Bool)
          → In call
              (if◌then◌else◌ {A = Result Failure (Unit {0}) × Journal} t
                (store s (finish_work item (outcome_of s false (some text) none)) j)
                (store s
                  (finish_work item
                    (outcome_of s false (some text) (some (now + delay item * 1000))))
                  j)).1.done
      either true = store-Keeping _ j call i
      either false = store-Keeping _ j call i

  pub process_and_finish-Keeping :
      (max_attempts now : ℕ) (item : WorkItem) (prefetched : Prefetched s)
      → Keeping (process_and_finish s max_attempts now item prefetched)
  unfolding process_and_finish process
  process_and_finish-Keeping max_attempts now item prefetched j call i =
      handled-Keeps max_attempts now item _ call (
        >>=-Keeping (process_kind s item.kind item.key prefetched) _
          (process_kind-Keeping item.kind item.key prefetched) (λ u. store-Keeping _) j call i)
