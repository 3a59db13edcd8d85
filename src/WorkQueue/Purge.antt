-- ===== src/WorkQueue/Purge.antt =====
-- The retention of the work queue: `purge_finished_work` of ClickHouseStore in
-- src/cow_indexer/storage/clickhouse.py. DISTINCT and the settings that bound a statement are the
-- database's; whether it takes a statement is a parameter.
pub mod Deletes
use cow_indexer.Prelude.{
  map, ℕ, zero, suc, arith, ◌+◌, ◌-◌, ◌≡◌, ◌≤◌, ◌<◌, refl, ◌∙◌, ap, sym, subst, ◌==◌, ltb, leb,
  ◌&&◌, ◌||◌, not, Bool, true, false, List, [], ◌∷◌, ◌++◌, Option, none, some, Text, text_eq,
  text_eq_iff, Result, ok, err, length, take, drop, keep, In, All, if◌then◌else◌, Bool-cases, inl,
  inr, keep-In, In-keep, take-append-drop, length-drop, ◌⊎◌,
}
use cow_indexer.Exec.{Exec, go_on, go_on-eq-ok, returning, raising, ◌>>=◌, ◌>>◌}
use cow_indexer.WorkQueue.{Chain, WorkRow, is_terminal}

-- PURGE_DELETE_CHUNK.
abbrev pub purge_delete_chunk : ℕ
purge_delete_chunk = 3000

pub data Refused : Type 0 where
  refused : Refused

-- The rows of `work_items`, and the statements sent so far.
pub record Purging : Type 0 where
  pub rows : List WorkRow
  pub statements : ℕ

-- `work_id IN (…)`.
unfoldable pub is_listed : Text → List Text → Bool
is_listed id [] = false
is_listed id (x ∷ xs) = text_eq id x || is_listed id xs

module _ (chain : Chain) where
  unfoldable pub on_chain : WorkRow → Bool
  on_chain r = text_eq r.environment chain.environment && r.chain_id == chain.chain_id

  -- The WHERE clause of the selection.
  unfoldable pub is_aged : ℕ → WorkRow → Bool
  unfolding on_chain
  is_aged cutoff r = on_chain r && is_terminal r.status && ltb r.observed_at cutoff

  -- `SELECT DISTINCT work_id … LIMIT`, of the ids of all rows, not only of the latest of an item.
  unfoldable pub selected_ids : (List Text → List Text) → ℕ → ℕ → List WorkRow → List Text
  unfolding is_aged
  selected_ids distinct cutoff batch rows =
      take batch (distinct (map (λ (r : WorkRow). r.work_id) (keep (is_aged cutoff) rows)))

  -- The WHERE clause of a DELETE.
  unfoldable pub is_deleted : List Text → WorkRow → Bool
  unfolding on_chain is_listed
  is_deleted ids r = on_chain r && is_listed r.work_id ids

  abbrev pub without : List Text → List WorkRow → List WorkRow
  without ids rows = keep (λ r. not (is_deleted ids r)) rows

  module _ (takes : ℕ → Bool) where
    unfoldable pub delete : List Text → Exec Purging Refused (Unit {0})
    unfolding is_deleted
    delete ids p =
        if takes p.statements
        then (ok tt, record { rows = without ids p.rows; statements = p.statements + 1 })
        else (err refused, record p { statements = p.statements + 1 })

    -- The loop over the chunks, each of which shortens the list.
    unfoldable pub delete_chunks : ℕ → List Text → Exec Purging Refused (Unit {0})
    unfolding delete
    delete_chunks zero ids = returning tt
    delete_chunks (suc n) [] = returning tt
    delete_chunks (suc n) (id ∷ ids) = do
      delete (take purge_delete_chunk (id ∷ ids))
      delete_chunks n (drop purge_delete_chunk (id ∷ ids))

    -- The items selected are those of the table as it is, and the cutoff and the limit are given.
    unfoldable pub purge_finished_work : (List Text → List Text) → ℕ → ℕ → Exec Purging Refused ℕ
    unfolding delete_chunks selected_ids
    purge_finished_work distinct cutoff batch p =
        go_on
          (delete_chunks (length (selected_ids distinct cutoff batch p.rows))
            (selected_ids distinct cutoff batch p.rows) p)
          (λ u. returning (length (selected_ids distinct cutoff batch p.rows)))
