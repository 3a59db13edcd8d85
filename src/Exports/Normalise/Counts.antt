-- ===== src/Exports/Normalise/Counts.antt =====
-- What becomes of the rows of an export: `normalize_export_rows` of
-- src/cow_indexer/sources/exports/adapters.py.
use cow_indexer.Prelude.{
  ℕ, arith, ◌≡◌, ◌≢◌, refl, ◌∙◌, ap, sym, subst, ◌+◌, ◌∷◌, [], Bool, List, Option, PyError, Result,
  Text, attribute_error, err, false, none, ok, some, text_eq, true, length, length-append, In, inl,
  inr, codes, bind-eq-ok, ◌>>=◌,
}
use cow_indexer.Json.{as_text, Codec, Fields, Json, null}
use cow_indexer.WorkQueue.{Chain}
use cow_indexer.Exports.{
  Dataset, orders, supported_datasets, named, RowOutcome, accepted, duplicate, conflict, order, one,
}
use cow_indexer.Exports.Normalise.{
  Imported, nothing, with_outcome, with_rejected, is_rejection, caught, with_row, order_outcome,
  outcome_of_row, each_row, imported_rows, normalize_export_rows,
}

-- The numbers of the result agree with its lists, and account for so many rows.
pub record IsCounted (rows : ℕ) (i : Imported) : Type 0 where
  pub all_rows : i.stats.accepted + i.stats.duplicates + i.stats.rejected + i.stats.conflicts ≡ rows
  pub all_output : length i.output ≡ i.stats.accepted
  pub all_conflicts : length i.conflicts ≡ i.stats.conflicts

with_outcome-IsCounted :
    (n : ℕ) (o : RowOutcome) (i : Imported) → IsCounted n i → IsCounted (n + 1) (with_outcome o i)
with_outcome-IsCounted n (accepted row) i h = record {
  all_rows = omega (arith, h.all_rows);
  all_output = omega (arith, length-append i.output (row ∷ []), h.all_output);
  all_conflicts = h.all_conflicts;
}
with_outcome-IsCounted n duplicate i h = record {
  all_rows = omega (arith, h.all_rows);
  all_output = h.all_output;
  all_conflicts = h.all_conflicts;
}
with_outcome-IsCounted n (conflict row) i h = record {
  all_rows = omega (arith, h.all_rows);
  all_output = h.all_output;
  all_conflicts = omega (arith, length-append i.conflicts (row ∷ []), h.all_conflicts);
}

with_rejected-IsCounted :
    (n : ℕ) (i : Imported) → IsCounted n i → IsCounted (n + 1) (with_rejected i)
with_rejected-IsCounted n i h = record {
  all_rows = omega (arith, h.all_rows);
  all_output = h.all_output;
  all_conflicts = h.all_conflicts;
}

ok_injective : (a b : Imported) → ◌≡◌ {A = Result PyError Imported} (ok a) (ok b) → a ≡ b
ok_injective a b e = ground arith

module _ (codec : Codec) (parse : Text → Option ℕ) (shown : Json → Text) (chain : Chain)
    (snapshot_at now : ℕ) (bundle_id : Text) (existing : Text → Option Text) where
  with_row-IsCounted :
      (n : ℕ) (r : Result PyError RowOutcome) (i more : Imported)
      → IsCounted n i
      → with_row codec parse shown chain snapshot_at now bundle_id existing r i ≡ ok more
      → IsCounted (n + 1) more
  with_row-IsCounted n (ok o) i more h e =
      subst (IsCounted (n + 1)) (ok_injective _ more e) (with_outcome-IsCounted n o i h)
  with_row-IsCounted n (err error) i more h e = by_kind (is_rejection error) e
    where
      by_kind :
          (t : Bool)
          → caught codec parse shown chain snapshot_at now bundle_id existing error t i ≡ ok more
          → IsCounted (n + 1) more
      by_kind true q =
          subst (IsCounted (n + 1)) (ok_injective _ more q) (with_rejected-IsCounted n i h)
      by_kind false q = cc

  each_row-IsCounted :
      (dataset : Dataset) (rows : List Fields) (n : ℕ) (i final : Imported)
      → IsCounted n i
      → each_row codec parse shown chain snapshot_at now bundle_id existing dataset rows i
        ≡ ok final
      → IsCounted (n + length rows) final
  unfolding each_row
  each_row-IsCounted dataset [] n i final h e =
      subst (λ n. IsCounted n final) (omega arith) (subst (IsCounted n) (ok_injective i final e) h)
  each_row-IsCounted dataset (row ∷ rows) n i final h e =
      let (more, after, first) =
        bind-eq-ok
          (with_row codec parse shown chain snapshot_at now bundle_id existing
            (outcome_of_row codec parse shown chain snapshot_at now bundle_id existing dataset row)
            i)
          _ e in
      subst (λ n. IsCounted n final) (omega arith)
        (each_row-IsCounted dataset rows (n + 1) more final (with_row-IsCounted n _ i more h first)
          after)

  imported_rows-IsCounted :
      (dataset : Option Dataset) (rows : List Fields) (final : Imported)
      → imported_rows codec parse shown chain snapshot_at now bundle_id existing dataset rows
        ≡ ok final
      → IsCounted (length rows) final
  imported_rows-IsCounted none rows final e = cc
  imported_rows-IsCounted (some dataset) rows final e =
      subst (λ n. IsCounted n final) (omega arith)
        (each_row-IsCounted dataset rows 0 nothing final
          (record { all_rows = omega arith; all_output = refl; all_conflicts = refl }) e)

  -- When `normalize_export_rows` returns, every row of the input was accepted, a duplicate, rejected
  -- or a conflict, each counted once; there is one row to insert for each accepted row, and one conflict
  -- for each row counted as one.
  pub normalize_export_rows-IsCounted :
      (name : Text) (rows : List Fields) (final : Imported)
      → normalize_export_rows codec parse shown chain snapshot_at now bundle_id existing name rows
        ≡ ok final
      → IsCounted (length rows) final
  unfolding normalize_export_rows
  normalize_export_rows-IsCounted name rows final e =
      imported_rows-IsCounted (named name supported_datasets) rows final e

  -- The owner of a row: none where the column is missing or null.
  order-ownerless :
      (row : Fields)
      → one "owner" row ≡ null
      → order codec parse shown chain snapshot_at now row ≡ err attribute_error
  unfolding order as_text
  order-ownerless row h = rw h refl

  each_row-ownerless :
      (row : Fields) (rows : List Fields) (i final : Imported)
      → one "owner" row ≡ null
      → In row rows
      → each_row codec parse shown chain snapshot_at now bundle_id existing orders rows i ≢ ok final
  unfolding each_row outcome_of_row
  each_row-ownerless row [] i final h m = elim m [ ]
  each_row-ownerless row (other ∷ rows) i final h (inl same) = λ e.
      let raised : order codec parse shown chain snapshot_at now other ≡ err attribute_error =
        order-ownerless other (sym (ap (one "owner") same) ∙ h) in
      cc (
        sym (
          ap
            (λ o.
              with_row codec parse shown chain snapshot_at now bundle_id existing
                (order_outcome codec parse shown chain snapshot_at now bundle_id existing other o) i
              >>= λ more.
                  each_row codec parse shown chain snapshot_at now bundle_id existing orders rows
                    more)
            raised)
        ∙ e)
  each_row-ownerless row (other ∷ rows) i final h (inr m) = λ e.
      let (more, after, first) =
        bind-eq-ok
          (with_row codec parse shown chain snapshot_at now bundle_id existing
            (outcome_of_row codec parse shown chain snapshot_at now bundle_id existing orders other)
            i)
          _ e in
      each_row-ownerless row rows more final h m after

  -- One order without an owner makes the whole call raise: an export of orders with such a row, wherever
  -- it stands, has no result, so that the row is not counted as rejected.
  pub normalize_export_rows-ownerless :
      (row : Fields) (rows : List Fields) (final : Imported)
      → one "owner" row ≡ null
      → In row rows
      → normalize_export_rows codec parse shown chain snapshot_at now bundle_id existing
          (codes "orders")
          rows
        ≢ ok final
  unfolding normalize_export_rows named text_eq
  normalize_export_rows-ownerless row rows final h m = each_row-ownerless row rows nothing final h m
