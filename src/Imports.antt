-- ===== src/Imports.antt =====
-- The import of an export bundle: `run` of src/cow_indexer/services/export_import.py. What the store
-- answers, the inspection of a file and the rows read from it are parameters; the state has the calls
-- that the store took, newest first, and the local variables that the handlers read.
pub mod Totals
pub mod Runs
use cow_indexer.Prelude.{
  ℕ, ◌+◌, ◌==◌, ◌∷◌, [], ◌&&◌, not, Bool, List, Option, PyError, Result, Text, codes, err, false,
  if◌then◌else◌, length, none, ok, some, text_eq, true,
}
use cow_indexer.Exec.{Exec, go_on, raising, returning, attempt, ◌>>=◌, ◌>>◌}
use cow_indexer.Json.{Fields, Json, get, is_truthy, or_none}
use cow_indexer.Models.{ImportStats, add}
use cow_indexer.WorkQueue.{Chain}
use cow_indexer.Exports.Normalise.{no_stats}

pub record ExportFile : Type 0 where
  pub dataset : Text
  pub path : Text
  pub sha256 : Text

pub record Manifest : Type 0 where
  pub bundle_id : Text
  pub environment : Text
  pub chain_id : ℕ
  pub files : List ExportFile

pub data Status : Type 0 where
  running complete failed : Status

pub data ImportCall : Type 0 where
  record_import_run : Status → ImportStats → Text → ImportCall
  record_import_file : ExportFile → ℕ → Status → Text → ImportCall
  import_rows : ExportFile → List Fields → ImportStats → ImportCall
  enqueue_work : Json → ImportCall

pub record Importing : Type 0 where
  pub calls : List ImportCall
  pub stats : ImportStats
  pub imported_rows : ℕ

-- An exception is its text.
abbrev pub Import : Type 0 → Type 0
Import A = Exec Importing Text A

-- The store's answers, by the number of the calls that it took before; the inspection of a file; and
-- its rows in batches, with the exception that ends the reading, if one does.
pub record Source : Type 0 where
  pub file_done : ExportFile → Result Text Bool
  pub is_valid : ExportFile → Result Text Bool
  pub batches : ExportFile → List (List Fields) × Option Text
  pub outcome : ℕ → ExportFile → List Fields → Result Text ImportStats
  pub refuses : ℕ → ImportCall → Option Text

abbrev pub wrong_target : Text
wrong_target = codes "ValueError: bundle targets another chain"

abbrev pub invalid_file : Text
invalid_file = codes "ValueError: invalid export file"

abbrev pub new_import : Importing
new_import = record { calls = []; stats = no_stats; imported_rows = 0 }

module _ (s : Source) (verify_checksums enqueue_enrichment : Bool) where
  unfoldable pub call : ImportCall → Import (Unit {0})
  call c i = elim (s.refuses (length i.calls) c) [
    | some text ↦ (err text, i)
    | none ↦ (ok tt, record i { calls = c ∷ i.calls })
  ]

  unfoldable pub record_run : Status → Text → Import (Unit {0})
  unfolding call
  record_run status error i = call (record_import_run status i.stats error) i

  unfoldable pub record_file : ExportFile → Status → Text → Import (Unit {0})
  unfolding call
  record_file file status error i = call (record_import_file file i.imported_rows status error) i

  -- `stats.add(await self.store.import_rows(…))`, and the count of the rows.
  abbrev pub with_batch : ExportFile → List Fields → Result Text ImportStats → Import (Unit {0})
  with_batch file rows (err text) i = (err text, i)
  with_batch file rows (ok batch) i = (
    ok tt,
    record {
      calls = import_rows file rows batch ∷ i.calls;
      stats = add i.stats batch;
      imported_rows = i.imported_rows + length rows;
    },
  )

  unfoldable pub import_batch : ExportFile → List Fields → Import (Unit {0})
  unfolding add
  import_batch file rows i = with_batch file rows (s.outcome (length i.calls) file rows) i

  -- `row.get("order_uid") or row.get("uid")`.
  abbrev pub uid_of : Fields → Json
  uid_of row =
      if is_truthy (or_none (get (codes "order_uid") row))
      then or_none (get (codes "order_uid") row)
      else or_none (get (codes "uid") row)

  abbrev pub enqueue_uid : Json → Import (Unit {0})
  enqueue_uid uid = if is_truthy uid then call (enqueue_work uid) else returning tt

  unfoldable pub enqueue_orders : List Fields → Import (Unit {0})
  unfolding call
  enqueue_orders [] = returning tt
  enqueue_orders (row ∷ rows) = do enqueue_uid (uid_of row); enqueue_orders rows

  abbrev pub enrich : ExportFile → List Fields → Import (Unit {0})
  enrich file rows =
      if enqueue_enrichment && text_eq file.dataset (codes "orders")
      then enqueue_orders rows
      else returning tt

  unfoldable pub import_batches : ExportFile → List (List Fields) → Option Text → Import (Unit {0})
  unfolding import_batch enqueue_orders
  import_batches file [] none = returning tt
  import_batches file [] (some text) = raising text
  import_batches file (rows ∷ later) failure = do
    import_batch file rows
    enrich file rows
    import_batches file later failure

  -- `except Exception as exc: …; raise`: the exception of the handler, if it raises itself.
  abbrev pub or_failed :
      (Text → Import (Unit {0}))
      → Result Text (Unit {0}) × Importing
      → Result Text (Unit {0}) × Importing
  or_failed handler (ok done, i) = (ok done, i)
  or_failed handler (err text, i) = go_on (handler text i) (λ _. raising text)

  -- The inner `try`.
  unfoldable pub import_file : ExportFile → Import (Unit {0})
  unfolding import_batches record_file
  import_file file i =
      or_failed (λ text. record_file file failed text)
        ((do
          import_batches file (s.batches file).0 (s.batches file).1
          record_file file complete [])
          (record i { imported_rows = 0 }))

  abbrev pub if_valid : Bool → Import (Unit {0})
  if_valid true = returning tt
  if_valid false = raising invalid_file

  abbrev pub check_file : ExportFile → Bool → Import (Unit {0})
  check_file file false = returning tt
  check_file file true = do valid ← attempt (s.is_valid file); if_valid valid

  -- A turn of the loop over the files.
  abbrev pub unless_done : ExportFile → Bool → Import (Unit {0})
  unless_done file true = returning tt
  unless_done file false = do check_file file verify_checksums; import_file file

  unfoldable pub import_files : List ExportFile → Import (Unit {0})
  unfolding import_file
  import_files [] = returning tt
  import_files (file ∷ files) = do
    is_done ← attempt (s.file_done file)
    unless_done file is_done
    import_files files

  unfoldable pub run_manifest : Manifest → Import (Unit {0})
  unfolding record_run import_files
  run_manifest manifest = do
    record_run running []
    λ i.
        or_failed (λ text. record_run failed text)
          ((do import_files manifest.files; record_run complete []) i)

  -- `run`, whose result is the statistics of the state.
  unfoldable pub run : Chain → Manifest → Result Text (Unit {0}) × Importing
  unfolding run_manifest
  run chain manifest =
      if manifest.chain_id == chain.chain_id && text_eq manifest.environment chain.environment
      then run_manifest manifest new_import
      else (err wrong_target, new_import)
