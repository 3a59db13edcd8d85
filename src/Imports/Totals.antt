-- ===== src/Imports/Totals.antt =====
-- The statistics of an import through its calls: src/cow_indexer/services/export_import.py.
use cow_indexer.Prelude.{
  ◌≡◌, refl, ◌∙◌, ap, sym, subst, ◌∷◌, [], ◌⊎◌, inl, inr, Bool, List, Option, Result, Text, err,
  false, if◌then◌else◌, length, none, ok, some, true, In, Option-cases, ◌&&◌, text_eq, codes,
}
use cow_indexer.Exec.{go_on, raising, returning, attempt, ◌>>=◌, ◌>>◌}
use cow_indexer.Json.{Fields, Json, is_truthy}
use cow_indexer.Models.{ImportStats, add}
use cow_indexer.Exports.Normalise.{no_stats}
use cow_indexer.Imports.{
  ExportFile, Status, complete, failed, ImportCall, record_import_run, record_import_file,
  import_rows, enqueue_work, Importing, Import, Source, call, record_run, record_file, with_batch,
  import_batch, uid_of, enqueue_uid, enqueue_orders, enrich, import_batches, or_failed, import_file,
  if_valid, check_file, unless_done, import_files,
}

-- The statistics of the batches that the calls imported, together.
unfoldable pub total : List ImportCall → ImportStats
total [] = no_stats
total (import_rows file rows batch ∷ calls) = add (total calls) batch
total (_ ∷ calls) = total calls

-- The statistics are those of the batches imported so far.
unfoldable pub IsTotal : Importing → Type 0
IsTotal i = i.stats ≡ total i.calls

-- A later state: its statistics are still right, and it has all the calls.
pub record IsLater (i i' : Importing) : Type 0 where
  pub totals : IsTotal i → IsTotal i'
  pub calls : (c : ImportCall) → In c i.calls → In c i'.calls

pub same : (i : Importing) → IsLater i i
same i = record { totals = λ h. h; calls = λ c h. h }

pub after : {i i' i'' : Importing} → IsLater i i' → IsLater i' i'' → IsLater i i''
after h k = record { totals = λ t. k.totals (h.totals t); calls = λ c m. k.calls c (h.calls c m) }

module _ {A : Type 0} where
  abbrev pub Advancing : Import A → Type 0
  Advancing m = (i : Importing) → IsLater i (m i).1

module _ {A B : Type 0} where
  pub >>=-Advancing :
      (m : Import A) (k : A → Import B)
      → Advancing m
      → ((a : A) → Advancing (k a))
      → Advancing (m >>= k)
  >>=-Advancing m k h l i = rest (m i) (h i)
    where
      rest : (r : Result Text A × Importing) → IsLater i r.1 → IsLater i (go_on r k).1
      rest (ok a, j) q = after q (l a j)
      rest (err e, j) q = q

module _ (s : Source) (verify enrichment : Bool) where
  pub call-cases :
      (c : ImportCall) (i : Importing)
      → (call s verify enrichment c i ≡ (ok tt, record i { calls = c ∷ i.calls }))
        ⊎ ((text : Text) × (call s verify enrichment c i ≡ (err text, i)))
  unfolding call
  call-cases c i = elim (Option-cases (s.refuses (length i.calls) c)) [
    | inl taken ↦ inl (rw (taken, call) refl)
    | inr (text, refused) ↦ inr (text, rw (refused, call) refl)
  ]

  -- A call that is no batch.
  abbrev IsPlain : ImportCall → Type 0
  IsPlain c = (calls : List ImportCall) → total (c ∷ calls) ≡ total calls

  call-Advancing : (c : ImportCall) → IsPlain c → Advancing (call s verify enrichment c)
  unfolding IsTotal
  call-Advancing c plain i = elim (call-cases c i) [
    | inl taken ↦
        subst (λ r. IsLater i r.1) (sym taken)
          (record { totals = λ h. h ∙ sym (plain i.calls); calls = λ c h. inr h })
    | inr (text, refused) ↦ subst (λ r. IsLater i r.1) (sym refused) (same i)
  ]

  pub record_run-Advancing :
      (status : Status) (error : Text) → Advancing (record_run s verify enrichment status error)
  unfolding record_run total
  record_run-Advancing status error i =
      call-Advancing (record_import_run status i.stats error) (λ calls. refl) i

  record_file-Advancing :
      (file : ExportFile) (status : Status) (error : Text)
      → Advancing (record_file s verify enrichment file status error)
  unfolding record_file total
  record_file-Advancing file status error i =
      call-Advancing (record_import_file file i.imported_rows status error) (λ calls. refl) i

  with_batch-IsLater :
      (file : ExportFile) (rows : List Fields) (r : Result Text ImportStats)
      → Advancing (with_batch s verify enrichment file rows r)
  unfolding IsTotal total
  with_batch-IsLater file rows (err text) = same
  with_batch-IsLater file rows (ok batch) =
      λ i. record { totals = λ h. ap (λ t. add t batch) h; calls = λ c h. inr h }

  enqueue_uid-Advancing : (uid : Json) → Advancing (enqueue_uid s verify enrichment uid)
  unfolding total
  enqueue_uid-Advancing uid = either (is_truthy uid)
    where
      either :
          (t : Bool)
          → Advancing (if t then call s verify enrichment (enqueue_work uid) else returning tt)
      either true = call-Advancing (enqueue_work uid) (λ calls. refl)
      either false = same

  enqueue_orders-Advancing :
      (rows : List Fields) → Advancing (enqueue_orders s verify enrichment rows)
  unfolding enqueue_orders
  enqueue_orders-Advancing [] = same
  enqueue_orders-Advancing (row ∷ rows) =
      >>=-Advancing (enqueue_uid s verify enrichment (uid_of s verify enrichment row)) _
        (enqueue_uid-Advancing (uid_of s verify enrichment row))
        (λ u. enqueue_orders-Advancing rows)

  enrich-Advancing :
      (file : ExportFile) (rows : List Fields) → Advancing (enrich s verify enrichment file rows)
  enrich-Advancing file rows = either (enrichment && text_eq file.dataset (codes "orders"))
    where
      either :
          (t : Bool)
          → Advancing (if t then enqueue_orders s verify enrichment rows else returning tt)
      either true = enqueue_orders-Advancing rows
      either false = same

  import_batches-Advancing :
      (file : ExportFile) (batches : List (List Fields)) (failure : Option Text)
      → Advancing (import_batches s verify enrichment file batches failure)
  unfolding import_batches import_batch
  import_batches-Advancing file [] none = same
  import_batches-Advancing file [] (some text) = same
  import_batches-Advancing file (rows ∷ later) failure =
      >>=-Advancing (import_batch s verify enrichment file rows) _
        (λ i. with_batch-IsLater file rows (s.outcome (length i.calls) file rows) i)
        (λ u.
          >>=-Advancing (enrich s verify enrichment file rows) _ (enrich-Advancing file rows)
            (λ v. import_batches-Advancing file later failure))

  pub or_failed-IsLater :
      (handler : Text → Import (Unit {0})) (r : Result Text (Unit {0}) × Importing) (i : Importing)
      → ((text : Text) → Advancing (handler text))
      → IsLater i r.1
      → IsLater i (or_failed s verify enrichment handler r).1
  or_failed-IsLater handler (ok u, j) i h q = q
  or_failed-IsLater handler (err text, j) i h q =
      after q (>>=-Advancing (handler text) (λ u. raising text) (h text) (λ u. same) j)

  -- The inner `try`, from its start.
  abbrev pub file_body : ExportFile → Import (Unit {0})
  file_body file = do
    import_batches s verify enrichment file (s.batches file).0 (s.batches file).1
    record_file s verify enrichment file complete []

  file_body-Advancing : (file : ExportFile) → Advancing (file_body file)
  file_body-Advancing file =
      >>=-Advancing (import_batches s verify enrichment file (s.batches file).0 (s.batches file).1)
        _ (import_batches-Advancing file (s.batches file).0 (s.batches file).1)
        (λ u. record_file-Advancing file complete [])

  restarted : (i : Importing) → IsLater i (record i { imported_rows = 0 })
  unfolding IsTotal
  restarted i = record { totals = λ h. h; calls = λ c h. h }

  import_file-Advancing : (file : ExportFile) → Advancing (import_file s verify enrichment file)
  unfolding import_file
  import_file-Advancing file i =
      or_failed-IsLater (record_file s verify enrichment file failed)
        (file_body file (record i { imported_rows = 0 })) i (record_file-Advancing file failed)
        (after (restarted i) (file_body-Advancing file (record i { imported_rows = 0 })))

  check_file-Advancing :
      (file : ExportFile) (wanted : Bool) → Advancing (check_file s verify enrichment file wanted)
  check_file-Advancing file false = same
  check_file-Advancing file true =
      >>=-Advancing (attempt (s.is_valid file)) (if_valid s verify enrichment) (λ i. same i)
        valid_or_not
    where
      valid_or_not : (valid : Bool) → Advancing (if_valid s verify enrichment valid)
      valid_or_not true = same
      valid_or_not false = same

  unless_done-Advancing :
      (file : ExportFile) (is_done : Bool)
      → Advancing (unless_done s verify enrichment file is_done)
  unless_done-Advancing file true = same
  unless_done-Advancing file false =
      >>=-Advancing (check_file s verify enrichment file verify) _
        (check_file-Advancing file verify) (λ u. import_file-Advancing file)

  pub import_files-Advancing :
      (files : List ExportFile) → Advancing (import_files s verify enrichment files)
  unfolding import_files
  import_files-Advancing [] = same
  import_files-Advancing (file ∷ files) =
      >>=-Advancing (attempt (s.file_done file)) _ (λ i. same i)
        (λ is_done.
          >>=-Advancing (unless_done s verify enrichment file is_done) _
            (unless_done-Advancing file is_done) (λ u. import_files-Advancing files))
