-- ===== src/Imports/Runs.antt =====
-- What a run of the import leaves: src/cow_indexer/services/export_import.py.
use cow_indexer.Prelude.{
  ℕ, ◌≡◌, refl, ◌∙◌, ap, sym, subst, ◌∷◌, [], ◌⊎◌, inl, inr, Bool, List, Result, Text, err, false,
  length, none, ok, true, All, In, In-All, All-In, ◌&&◌, ◌==◌, text_eq,
}
use cow_indexer.Exec.{go_on, go_on-eq-ok, raising, attempt}
use cow_indexer.Models.{ImportStats}
use cow_indexer.WorkQueue.{Chain}
use cow_indexer.Exports.Normalise.{no_stats}
use cow_indexer.Imports.{
  ExportFile, Manifest, Status, running, complete, failed, ImportCall, record_import_run,
  record_import_file, Importing, Import, Source, call, record_run, record_file, import_batches,
  or_failed, import_file, check_file, unless_done, import_files, new_import, run_manifest, run,
}
use cow_indexer.Imports.Totals.{
  total, IsTotal, IsLater, Advancing, >>=-Advancing, or_failed-IsLater, call-cases,
  record_run-Advancing, file_body, import_files-Advancing,
}

module _ (s : Source) (verify enrichment : Bool) where
  -- The call that ends the calls, if the code that makes it returned.
  call-last :
      (c : ImportCall) (i i' : Importing) (u : Unit {0})
      → call s verify enrichment c i ≡ (ok u, i')
      → c ∷ i.calls ≡ i'.calls
  call-last c i i' u e = elim (call-cases s verify enrichment c i) [
    | inl taken ↦ ap (λ r. r.1.calls) (sym taken ∙ e)
    | inr (text, refused) ↦ absurd (cc (ap (λ r. r.0) (sym refused ∙ e)))
  ]

  -- The file was imported before, or is recorded as complete.
  abbrev pub IsCovered : Importing → ExportFile → Type 0
  IsCovered i file =
      (s.file_done file ≡ ok true) ⊎ ((n : ℕ) × In (record_import_file file n complete []) i.calls)

  file_body-complete :
      (file : ExportFile) (i i' : Importing) (u : Unit {0})
      → file_body s verify enrichment file i ≡ (ok u, i')
      → (n : ℕ) × In (record_import_file file n complete []) i'.calls
  unfolding record_file
  file_body-complete file i i' u e =
      let (v, middle, wrote, _) =
        go_on-eq-ok
          (import_batches s verify enrichment file (s.batches file).0 (s.batches file).1 i) _ u i'
          e in
      (
        middle.imported_rows,
        subst (In (record_import_file file middle.imported_rows complete []))
            (call-last (record_import_file file middle.imported_rows complete []) middle i' u wrote)
            (inl refl),
      )

  or_failed-eq-ok :
      (handler : Text → Import (Unit {0})) (r : Result Text (Unit {0}) × Importing) (i' : Importing)
      (u : Unit {0})
      → or_failed s verify enrichment handler r ≡ (ok u, i')
      → r ≡ (ok u, i')
  or_failed-eq-ok handler (ok v, j) i' u e = e
  or_failed-eq-ok handler (err text, j) i' u e =
      let (v, middle, raises, _) = go_on-eq-ok (handler text j) (λ v. raising text) u i' e in
      absurd (cc (ap (λ r. r.0) raises))

  unless_done-IsCovered :
      (file : ExportFile) (is_done : Bool) (i i' : Importing) (u : Unit {0})
      → s.file_done file ≡ ok is_done
      → unless_done s verify enrichment file is_done i ≡ (ok u, i')
      → IsCovered i' file
  unfolding import_file
  unless_done-IsCovered file true i i' u known e = inl known
  unless_done-IsCovered file false i i' u known e =
      let (v, middle, imported, _) =
        go_on-eq-ok (check_file s verify enrichment file verify i) _ u i' e in
      inr (
        file_body-complete file (record middle { imported_rows = 0 }) i' u
          (or_failed-eq-ok (record_file s verify enrichment file failed)
            (file_body s verify enrichment file (record middle { imported_rows = 0 })) i' u
            imported))

  IsCovered-later :
      {i i' : Importing} (file : ExportFile) → IsLater i i' → IsCovered i file → IsCovered i' file
  IsCovered-later file h (inl known) = inl known
  IsCovered-later file h (inr (n, there)) = inr (n, h.calls _ there)

  import_files-IsCovered :
      (files : List ExportFile) (i i' : Importing) (u : Unit {0})
      → import_files s verify enrichment files i ≡ (ok u, i')
      → All (IsCovered i') files
  unfolding import_files
  import_files-IsCovered [] i i' u e = tt
  import_files-IsCovered (file ∷ files) i i' u e =
      let (is_done, j, rest, known) = go_on-eq-ok (attempt (s.file_done file) i) _ u i' e in
      let (v, middle, later, first) =
        go_on-eq-ok (unless_done s verify enrichment file is_done j) _ u i' rest in
      let kept =
        subst (λ r. IsLater middle r.1) later
          (import_files-Advancing s verify enrichment files middle) in
      (
        IsCovered-later file kept
            (unless_done-IsCovered file is_done j middle v (ap (λ r. r.0) known) first),
        import_files-IsCovered files middle i' u later,
      )

  -- How a run of the import ended, by its result: with all its files covered and the run recorded as
  -- complete, or with the run recorded as failed with the exception.
  pub data IsRecorded (files : List ExportFile) (i : Importing)
      : Result Text (Unit {0}) → Type 0 where
    completed :
        (before : List ImportCall)
        → i.calls ≡ record_import_run complete i.stats [] ∷ before
        → All (IsCovered i) files
        → IsRecorded files i (ok tt)
    stopped :
        (text : Text) (before : List ImportCall)
        → i.calls ≡ record_import_run failed i.stats text ∷ before
        → IsRecorded files i (err text)

  module _
      (always : (n : ℕ) (status : Status) (stats : ImportStats) (text : Text)
        → s.refuses n (record_import_run status stats text) ≡ none) where
    record_run-taken :
        (status : Status) (text : Text) (i : Importing)
        → record_run s verify enrichment status text i
          ≡ (ok tt, record i { calls = record_import_run status i.stats text ∷ i.calls })
    unfolding record_run call
    record_run-taken status text i = rw (always (length i.calls) status i.stats text, call) refl

    -- The outer `try`, after the files.
    ended-IsRecorded :
        (files : List ExportFile) (r : Result Text (Unit {0}) × Importing)
        → ((u : Unit {0}) (i : Importing) → r ≡ (ok u, i) → All (IsCovered i) files)
        → IsRecorded files
            (or_failed s verify enrichment
              (λ text. record_run s verify enrichment failed text)
              (go_on r (λ u. record_run s verify enrichment complete []))).1
            (or_failed s verify enrichment
              (λ text. record_run s verify enrichment failed text)
              (go_on r (λ u. record_run s verify enrichment complete []))).0
    ended-IsRecorded files (ok u, i) covered =
        let final : Importing = record i {
          calls = record_import_run complete i.stats [] ∷ i.calls;
        } in
        let all_covered = In-All (IsCovered final) files (λ file m.
          appended i (record_import_run complete i.stats []) file
            (All-In (IsCovered i) file files (covered u i refl) m)) in
        subst
          (λ r.
            IsRecorded files
              (or_failed s verify enrichment (λ text. record_run s verify enrichment failed text)
                r).1
              (or_failed s verify enrichment (λ text. record_run s verify enrichment failed text)
                r).0)
          (sym (record_run-taken complete [] i)) (completed i.calls refl all_covered)
      where
        appended :
            (i : Importing) (c : ImportCall)
            → (file : ExportFile) → IsCovered i file
            → IsCovered (record i { calls = c ∷ i.calls }) file
        appended i c file (inl known) = inl known
        appended i c file (inr (n, there)) = inr (n, inr there)
    ended-IsRecorded files (err text, i) covered =
        subst
          (λ r.
            IsRecorded files (go_on {B = Unit {0}} r (λ u. raising text)).1
              (go_on {B = Unit {0}} r (λ u. raising text)).0)
          (sym (record_run-taken failed text i)) (stopped text i.calls refl)

    -- What follows the record of the start.
    ending : List ExportFile → Import (Unit {0})
    ending files i =
        or_failed s verify enrichment (λ text. record_run s verify enrichment failed text)
          (go_on (import_files s verify enrichment files i)
            (λ u. record_run s verify enrichment complete []))

    started : Importing
    started = record new_import { calls = record_import_run running no_stats [] ∷ [] }

    started-IsTotal : IsTotal started
    unfolding IsTotal total started
    started-IsTotal = refl

    ending-Advancing : (files : List ExportFile) → Advancing (ending files)
    unfolding ending
    ending-Advancing files i =
        or_failed-IsLater s verify enrichment (λ text. record_run s verify enrichment failed text)
          (go_on (import_files s verify enrichment files i)
            (λ u. record_run s verify enrichment complete []))
          i (λ text. record_run-Advancing s verify enrichment failed text)
          (>>=-Advancing (import_files s verify enrichment files) _
            (import_files-Advancing s verify enrichment files)
            (λ u. record_run-Advancing s verify enrichment complete []) i)

    run_manifest-ending :
        (manifest : Manifest)
        → run_manifest s verify enrichment manifest new_import ≡ ending manifest.files started
    unfolding run_manifest ending started
    run_manifest-ending manifest =
        ap (λ r. go_on r (λ u. ending manifest.files)) (record_run-taken running [] new_import)

    ending-IsRecorded :
        (files : List ExportFile)
        → IsRecorded files (ending files started).1 (ending files started).0
    unfolding ending
    ending-IsRecorded files =
        ended-IsRecorded files (import_files s verify enrichment files started)
          (λ u i e. import_files-IsCovered files started i u e)

    -- If the store takes every record of a run, and the bundle is for the chain: a run that returns has
    -- recorded itself as complete, and each of its files was imported before or is recorded as complete; a
    -- run that raises has recorded itself as failed, with its exception. Either way the record, which is
    -- the last call, has the statistics of all the batches that were imported.
    pub run-IsRecorded :
        (chain : Chain) (manifest : Manifest)
        → (manifest.chain_id == chain.chain_id && text_eq manifest.environment chain.environment)
          ≡ true
        → IsRecorded manifest.files
            (run s verify enrichment chain manifest).1
            (run s verify enrichment chain manifest).0
          × ((run s verify enrichment chain manifest).1.stats
              ≡ total (run s verify enrichment chain manifest).1.calls)
    unfolding run IsTotal
    run-IsRecorded chain manifest target =
        rw (target, run_manifest-ending manifest)
          (
            ending-IsRecorded manifest.files,
            (ending-Advancing manifest.files started).totals started-IsTotal,
          )
