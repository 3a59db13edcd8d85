-- ===== src/WorkQueue/Purge/Deletes.antt =====
-- What the retention deletes: `purge_finished_work` of src/cow_indexer/storage/clickhouse.py.
use cow_indexer.Prelude.{
  ℕ, zero, suc, arith, ◌+◌, ◌≡◌, ◌≤◌, refl, ◌∙◌, ap, ap₂, sym, ◌&&◌, ◌||◌, not, Bool, true, false,
  List, [], ◌∷◌, ◌++◌, Text, Result, ok, err, length, take, drop, keep, take-append-drop,
  length-drop, if◌then◌else◌,
}
use cow_indexer.Exec.{go_on-eq-ok}
use cow_indexer.WorkQueue.{Chain, WorkRow}
use cow_indexer.WorkQueue.Purge.{
  purge_delete_chunk, Refused, refused, Purging, is_listed, selected_ids, is_deleted, without,
  delete, delete_chunks, purge_finished_work,
}

is_listed-append :
    (id : Text) (xs ys : List Text) → is_listed id (xs ++ ys) ≡ (is_listed id xs || is_listed id ys)
unfolding is_listed
is_listed-append id [] ys = refl
is_listed-append id (x ∷ xs) ys = ground (arith, is_listed-append id xs ys)

keep-keep :
    (p q : WorkRow → Bool) (rows : List WorkRow)
    → keep q (keep p rows) ≡ keep (λ r. p r && q r) rows
keep-keep p q [] = refl
keep-keep p q (r ∷ rows) = by_tests (p r) (q r) refl (keep-keep p q rows)
  where
    by_tests :
        (a b : Bool)
        → q r ≡ b
        → keep q (keep p rows) ≡ keep (λ r. p r && q r) rows
        → keep q (if a then r ∷ keep p rows else keep p rows)
          ≡ (if a && b then r ∷ keep (λ r. p r && q r) rows else keep (λ r. p r && q r) rows)
    by_tests true true e ih = rw e (ap (◌∷◌ r) ih)
    by_tests true false e ih = rw e ih
    by_tests false b e ih = ih

keep_cong :
    (p q : WorkRow → Bool) (rows : List WorkRow)
    → ((r : WorkRow) → p r ≡ q r)
    → keep p rows ≡ keep q rows
keep_cong p q [] h = refl
keep_cong p q (r ∷ rows) h =
    ap₂ (λ t rest. if t then r ∷ rest else rest) (h r) (keep_cong p q rows h)

module _ (chain : Chain) where
  is_deleted-append :
      (xs ys : List Text) (r : WorkRow)
      → is_deleted chain (xs ++ ys) r ≡ (is_deleted chain xs r || is_deleted chain ys r)
  unfolding is_deleted
  is_deleted-append xs ys r = ground (arith, is_listed-append r.work_id xs ys)

  without-append :
      (xs ys : List Text) (rows : List WorkRow)
      → without chain ys (without chain xs rows) ≡ without chain (xs ++ ys) rows
  without-append xs ys rows =
      keep-keep (λ r. not (is_deleted chain xs r)) (λ r. not (is_deleted chain ys r)) rows
      ∙ keep_cong _ _ rows both
    where
      both :
          (r : WorkRow)
          → (not (is_deleted chain xs r) && not (is_deleted chain ys r))
            ≡ not (is_deleted chain (xs ++ ys) r)
      both r = ground (arith, is_deleted-append xs ys r)

  module _ (takes : ℕ → Bool) where
    delete-ok :
        (ids : List Text) (u : Unit {0}) (p p' : Purging)
        → delete chain takes ids p ≡ (ok u, p')
        → without chain ids p.rows ≡ p'.rows
    unfolding delete
    delete-ok ids u p p' e = by_answer (takes p.statements) e
      where
        by_answer :
            (t : Bool)
            → ◌≡◌ {A = Result Refused (Unit {0}) × Purging}
                (if t
                  then (
                    ok tt,
                    record { rows = without chain ids p.rows; statements = p.statements + 1 },
                  )
                  else (err refused, record p { statements = p.statements + 1 }))
                (ok u, p')
            → without chain ids p.rows ≡ p'.rows
        by_answer true q = ap (λ r. r.1.rows) q
        by_answer false q = absurd (cc (ap (λ r. r.0) q))

    deletes_none : (r : WorkRow) → is_deleted chain [] r ≡ false
    unfolding is_deleted is_listed
    deletes_none r = ground arith

    without_none : (rows : List WorkRow) → without chain [] rows ≡ rows
    without_none [] = refl
    without_none (r ∷ rows) =
        ap (λ t. if not t then r ∷ without chain [] rows else without chain [] rows)
          (deletes_none r)
        ∙ ap (◌∷◌ r) (without_none rows)

    delete_chunks-without :
        (n : ℕ) (ids : List Text) (u : Unit {0}) (p p' : Purging)
        → length ids ≤ n
        → delete_chunks chain takes n ids p ≡ (ok u, p')
        → p'.rows ≡ without chain ids p.rows
    unfolding delete_chunks
    delete_chunks-without zero [] u p p' fuel e =
        ap (λ r. r.1.rows) (sym e) ∙ sym (without_none p.rows)
    delete_chunks-without zero (id ∷ ids) u p p' fuel e = absurd (omega (arith, fuel))
    delete_chunks-without (suc n) [] u p p' fuel e =
        ap (λ r. r.1.rows) (sym e) ∙ sym (without_none p.rows)
    delete_chunks-without (suc n) (id ∷ ids) u p p' fuel e =
        let all = id ∷ ids in
        let (v, middle, after, first) =
          go_on-eq-ok (delete chain takes (take purge_delete_chunk all) p) _ u p' e in
        delete_chunks-without n (drop purge_delete_chunk all) u middle p'
          (omega (arith, length-drop purge_delete_chunk all, fuel)) after
        ∙ ap (without chain (drop purge_delete_chunk all))
            (sym (delete-ok (take purge_delete_chunk all) v p middle first))
        ∙ without-append (take purge_delete_chunk all) (drop purge_delete_chunk all) p.rows
        ∙ ap (λ ids. without chain ids p.rows) (take-append-drop purge_delete_chunk all)

    module _ (distinct : List Text → List Text) (cutoff batch : ℕ) where
      -- A purge that returns has deleted the selected items as one statement would have, however many
      -- chunks it took: the rows left are those of `work_items` that are not of the chain or not of a
      -- selected item, in their order; and it returns how many items were selected.
      pub purge_finished_work-without :
          (p p' : Purging) (n : ℕ)
          → purge_finished_work chain takes distinct cutoff batch p ≡ (ok n, p')
          → (p'.rows ≡ without chain (selected_ids chain distinct cutoff batch p.rows) p.rows)
            × (n ≡ length (selected_ids chain distinct cutoff batch p.rows))
      unfolding purge_finished_work
      purge_finished_work-without p p' n e =
          let ids = selected_ids chain distinct cutoff batch p.rows in
          let (u, middle, after, first) =
            go_on-eq-ok (delete_chunks chain takes (length ids) ids p) _ n p' e in
          (
            ap (λ r. r.1.rows) (sym after)
                ∙ delete_chunks-without (length ids) ids u p middle (omega arith) first,
            number _ n (ap (λ r. r.0) (sym after)),
          )
        where
          number : (m n : ℕ) → ◌≡◌ {A = Result Refused ℕ} (ok n) (ok m) → n ≡ m
          number m n q = ground arith
