-- ===== src/Tests/Purge.antt =====
-- A purge of one finished item.
use cow_indexer.Prelude.{
  ℕ, ◌≡◌, refl, List, [], ◌∷◌, Text, codes, ok, text_eq, true, Bool, not, keep, length,
}
use cow_indexer.WorkQueue.{WorkRow, done, pending, is_terminal}
use cow_indexer.WorkQueue.Purge.{
  Purging, is_listed, on_chain, selected_ids, is_aged, is_deleted, without, delete, delete_chunks,
  purge_finished_work,
}
use cow_indexer.WorkQueue.Purge.Deletes.{purge_finished_work-without}
use cow_indexer.Tests.Values.{chain, row}

program : Unit {0}
unfolding selected_ids is_listed on_chain is_aged is_deleted delete delete_chunks
    purge_finished_work text_eq is_terminal
program = tt

abbrev always : ℕ → Bool
always n = true

abbrev distinct : List Text → List Text
distinct [] = []
distinct (id ∷ ids) = id ∷ keep (λ other. not (text_eq id other)) (distinct ids)

-- One item is open, and two rows are of an item that is done.
abbrev open_row : WorkRow
open_row = record (row 0 0 pending) { work_id = codes "w2" }

abbrev table : Purging
table = record { rows = row 0 0 pending ∷ open_row ∷ row 1 12 done ∷ []; statements = 0 }

abbrev purged : Purging
purged = record { rows = open_row ∷ []; statements = 1 }

one_purged : purge_finished_work chain always distinct 50 10 table ≡ (ok 1, purged)
unfolding program
one_purged = refl

purge_finished_work-without_example :
    (purged.rows ≡ without chain (selected_ids chain distinct 50 10 table.rows) table.rows)
    × (1 ≡ length (selected_ids chain distinct 50 10 table.rows))
purge_finished_work-without_example =
    purge_finished_work-without chain always distinct 50 10 table purged 1 one_purged
