-- ===== src/Tests/Imports.antt =====
-- Imports of a bundle of two files.
use cow_indexer.Prelude.{
  ◌≡◌, refl, none, some, [], ◌∷◌, Text, Option, codes, ok, err, text_eq, true, false, if◌then◌else◌,
}
use cow_indexer.Json.{Fields, field, str, end, is_truthy, get}
use cow_indexer.Models.{ImportStats, add}
use cow_indexer.Imports.{
  ExportFile, Manifest, running, complete, record_import_run, record_import_file, import_rows,
  enqueue_work, Source, call, record_run, record_file, import_batch, enqueue_orders, import_batches,
  import_file, import_files, run_manifest, run,
}
use cow_indexer.Imports.Totals.{total}
use cow_indexer.Imports.Runs.{IsRecorded, run-IsRecorded}
use cow_indexer.Tests.Values.{chain}

program : Unit {0}
unfolding call record_run record_file import_batch enqueue_orders import_batches import_file
    import_files run_manifest run add text_eq is_truthy get
program = tt

abbrev orders_file : ExportFile
orders_file = record { dataset = codes "orders"; path = codes "a"; sha256 = codes "1" }

abbrev trades_file : ExportFile
trades_file = record { dataset = codes "trades"; path = codes "b"; sha256 = codes "2" }

abbrev manifest : Manifest
manifest = record {
  bundle_id = codes "b1";
  environment = codes "prod";
  chain_id = 1;
  files = orders_file ∷ trades_file ∷ [];
}

abbrev row : Fields
row = field (codes "uid") (str (codes "0xaa")) end

abbrev batch : ImportStats
batch = record { accepted = 1; duplicates = 0; rejected = 0; conflicts = 0 }

-- The reading of the second file may end with an exception.
abbrev source : Option Text → Source
source ends = record {
  file_done = λ file. ok false;
  is_valid = λ file. ok true;
  batches = λ file. ((row ∷ []) ∷ [], if text_eq file.path (codes "b") then ends else none);
  outcome = λ n file rows. ok batch;
  refuses = λ n c. none;
}

-- The order of the first file is enqueued, and both batches are counted.
both_files :
    (run (source none) true true chain manifest).1.calls
    ≡ record_import_run complete
        (record { accepted = 2; duplicates = 0; rejected = 0; conflicts = 0 })
        []
      ∷ record_import_file trades_file 1 complete []
      ∷ import_rows trades_file (row ∷ []) batch
      ∷ record_import_file orders_file 1 complete []
      ∷ enqueue_work (str (codes "0xaa"))
      ∷ import_rows orders_file (row ∷ []) batch
      ∷ record_import_run running
          (record { accepted = 0; duplicates = 0; rejected = 0; conflicts = 0 })
          []
      ∷ []
unfolding program
both_files = refl

stopped_early : (run (source (some (codes "lost"))) true true chain manifest).0 ≡ err (codes "lost")
unfolding program
stopped_early = refl

run-IsRecorded_example :
    IsRecorded
      (source (some (codes "lost")))
      true
      true
      manifest.files
      (run (source (some (codes "lost"))) true true chain manifest).1
      (run (source (some (codes "lost"))) true true chain manifest).0
    × ((run (source (some (codes "lost"))) true true chain manifest).1.stats
        ≡ total (run (source (some (codes "lost"))) true true chain manifest).1.calls)
unfolding text_eq
run-IsRecorded_example =
    run-IsRecorded (source (some (codes "lost"))) true true (λ n status stats text. refl) chain
      manifest refl
