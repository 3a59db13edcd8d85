-- ===== src/Exports/Normalise.antt =====
-- `normalize_export_rows` of src/cow_indexer/sources/exports/adapters.py: the loop over the rows of a
-- dataset, with what the store holds of an order as a parameter.
pub mod Counts
pub mod Conflicts
use cow_indexer.Prelude.{
  ℕ, ◌+◌, ◌∷◌, ◌++◌, [], Bool, List, Option, PyError, Result, String, Text, attribute_error,
  index_error, assertion_error, key_error, type_error, value_error, codes, err, false, none, ok,
  some, text_eq, true, ◌>>=◌,
}
use cow_indexer.Json.{Codec, Fields, Json, canonical_json, end, field, int, obj, str}
use cow_indexer.Models.{ImportStats}
use cow_indexer.WorkQueue.{Chain}
use cow_indexer.Rows.{Row, cell}
use cow_indexer.Exports.{
  Dataset, orders, order_events, auctions, auction_orders, solver_competitions, trades, app_data,
  quotes, supported_datasets, named, RowOutcome, accepted, duplicate, conflict, Order, order,
}
use cow_indexer.Exports.Datasets.{
  order_event, auction, auction_order, solver_competition, trade, document, quote,
}

-- The result: the statistics, the rows for the dataset's table, and the conflicts.
pub record Imported : Type 0 where
  pub stats : ImportStats
  pub output : List Row
  pub conflicts : List Row

abbrev pub no_stats : ImportStats
no_stats = record { accepted = 0; duplicates = 0; rejected = 0; conflicts = 0 }

abbrev pub nothing : Imported
nothing = record { stats = no_stats; output = []; conflicts = [] }

-- What a row adds to the result.
abbrev pub with_outcome : RowOutcome → Imported → Imported
with_outcome (accepted row) i = record i {
  stats = record i.stats { accepted = i.stats.accepted + 1 };
  output = i.output ++ row ∷ [];
}
with_outcome duplicate i = record i {
  stats = record i.stats { duplicates = i.stats.duplicates + 1 };
}
with_outcome (conflict row) i = record i {
  stats = record i.stats { conflicts = i.stats.conflicts + 1 };
  conflicts = i.conflicts ++ row ∷ [];
}

abbrev pub with_rejected : Imported → Imported
with_rejected i = record i { stats = record i.stats { rejected = i.stats.rejected + 1 } }

-- `except (KeyError, TypeError, ValueError)`.
abbrev pub is_rejection : PyError → Bool
is_rejection key_error = true
is_rejection type_error = true
is_rejection value_error = true
is_rejection _ = false

abbrev pub as_accepted : Result PyError Row → Result PyError RowOutcome
as_accepted (ok row) = ok (accepted row)
as_accepted (err e) = err e

module _ (codec : Codec) (parse : Text → Option ℕ) (shown : Json → Text) (chain : Chain)
    (snapshot_at now : ℕ) (bundle_id : Text) (existing : Text → Option Text) where
  unfoldable pub conflict_row : Order → Text → Fields → Row
  conflict_row o hash row =
      cell "bundle_id" (str bundle_id)
      ∷ cell "environment" (str chain.environment)
      ∷ cell "chain_id" (int chain.chain_id)
      ∷ cell "dataset" (str (codes "orders"))
      ∷ cell "record_key" (str o.uid)
      ∷ cell "conflict_type" (str (codes "immutable_order_mismatch"))
      ∷ cell "existing_payload"
          (str (canonical_json codec (obj (field (codes "immutable_hash") (str hash) end))))
      ∷ cell "incoming_payload" (str (canonical_json codec (obj row)))
      ∷ cell "detected_at" (int now)
      ∷ []

  abbrev pub known_or_not : Order → Fields → Text → Bool → RowOutcome
  known_or_not o row hash true = duplicate
  known_or_not o row hash false = conflict (conflict_row o hash row)

  -- What becomes of an order, after the hash that the store has of it.
  abbrev pub compared : Order → Fields → Option Text → RowOutcome
  compared o row none = accepted o.row
  compared o row (some hash) = known_or_not o row hash (text_eq hash o.immutable_hash)

  abbrev pub order_outcome : Fields → Result PyError Order → Result PyError RowOutcome
  order_outcome row (err e) = err e
  order_outcome row (ok o) = ok (compared o row (existing o.uid))

  -- The body of the `try`.
  unfoldable pub outcome_of_row : Dataset → Fields → Result PyError RowOutcome
  unfolding order conflict_row order_event auction auction_order solver_competition trade document
      quote
  outcome_of_row orders row = order_outcome row (order codec parse shown chain snapshot_at now row)
  outcome_of_row order_events row =
      as_accepted (order_event codec parse shown chain snapshot_at now row)
  outcome_of_row auctions row = as_accepted (auction codec parse shown chain snapshot_at now row)
  outcome_of_row auction_orders row =
      as_accepted (auction_order codec parse shown chain snapshot_at now row)
  outcome_of_row solver_competitions row =
      as_accepted (solver_competition codec parse shown chain snapshot_at now row)
  outcome_of_row trades row = as_accepted (trade codec parse shown chain snapshot_at now row)
  outcome_of_row app_data row = as_accepted (document codec parse shown chain snapshot_at now row)
  outcome_of_row quotes row = as_accepted (quote codec parse shown chain snapshot_at now row)

  abbrev pub caught : PyError → Bool → Imported → Result PyError Imported
  caught e true i = ok (with_rejected i)
  caught e false i = err e

  -- One turn of the loop.
  abbrev pub with_row : Result PyError RowOutcome → Imported → Result PyError Imported
  with_row (ok outcome) i = ok (with_outcome outcome i)
  with_row (err e) i = caught e (is_rejection e) i

  unfoldable pub each_row : Dataset → List Fields → Imported → Result PyError Imported
  unfolding outcome_of_row
  each_row dataset [] i = ok i
  each_row dataset (row ∷ rows) i = do
    more ← with_row (outcome_of_row dataset row) i
    each_row dataset rows more

  abbrev pub imported_rows : Option Dataset → List Fields → Result PyError Imported
  imported_rows none rows = err value_error
  imported_rows (some dataset) rows = each_row dataset rows nothing

  unfoldable pub normalize_export_rows : Text → List Fields → Result PyError Imported
  unfolding each_row named
  normalize_export_rows name rows = imported_rows (named name supported_datasets) rows
