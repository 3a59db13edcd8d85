-- ===== src/WorkQueue/Enqueue.antt =====
-- `enqueue_work_many` of src/cow_indexer/storage/clickhouse.py: one pending row of revision 0 for
-- each identity of a batch that this process did not write recently. Whether the insert is accepted
-- is the parameter `accepted`; a refused insert raises and writes nothing.
pub mod Lost
pub mod Rows
use cow_indexer.Prelude.{
  ℕ, Bool, true, false, Option, none, some, List, [], ◌∷◌, ◌++◌, map, if◌then◌else◌, Text, codes,
  text_eq, Result, ok, err,
}
use cow_indexer.Json.{Json, str, int, arr, obj, cons, nil, end, Codec, canonical_json, sha256_json}
use cow_indexer.Hex.{lower}
use cow_indexer.RecentEnqueues.{RecentEnqueues, take_new}
use cow_indexer.WorkQueue.{
  Kind, order_uid, owner, tx_hash, tx_competition, app_data, token, order_uids_batch,
  owner_orders_backfill, pending, Chain, WorkRow, Queue, or_else, InsertError, insert_refused,
}

-- The kind's name, as the work identity and the table spell it.
unfoldable pub kind_text : Kind → Text
kind_text order_uid = codes "order_uid"
kind_text owner = codes "owner"
kind_text tx_hash = codes "tx_hash"
kind_text tx_competition = codes "tx_competition"
kind_text app_data = codes "app_data"
kind_text token = codes "token"
kind_text order_uids_batch = codes "order_uids_batch"
kind_text owner_orders_backfill = codes "owner_orders_backfill"

abbrev pub WorkKey : Type 0
WorkKey = Kind × Text × Option Json

unfoldable pub work_identity : Codec → Chain → Kind → Text → Text
work_identity codec chain kind key = sha256_json codec (
    arr (
      cons (str chain.environment)
        (cons (int chain.chain_id) (cons (str (kind_text kind)) (cons (str key) nil)))))

unfoldable pub pending_row : Codec → Chain → ℕ → WorkKey → WorkRow
unfolding work_identity canonical_json
pending_row codec chain now (kind, key, payload) = record {
  work_id = work_identity codec chain kind (lower key);
  environment = chain.environment;
  chain_id = chain.chain_id;
  kind = kind;
  key = lower key;
  payload = canonical_json codec (or_else payload (obj end));
  status = pending;
  attempts = 0;
  lease_owner = [];
  lease_until = none;
  next_attempt_at = now;
  error = [];
  revision = 0;
  observed_at = now;
}

-- `rows[work_id] = row`: a key that is there keeps its place and takes the new row.
unfoldable pub put_row : WorkRow → List WorkRow → List WorkRow
put_row row [] = row ∷ []
put_row row (r ∷ rows) = if text_eq r.work_id row.work_id then row ∷ rows else r ∷ put_row row rows

unfoldable pub collect : Codec → Chain → ℕ → List WorkKey → List WorkRow → List WorkRow
unfolding put_row
collect codec chain now [] rows = rows
collect codec chain now (item ∷ items) rows =
    collect codec chain now items (put_row (pending_row codec chain now item) rows)

-- `[rows[work_id] for work_id in fresh]`, in which every key is there.
unfoldable pub row_of : Text → List WorkRow → List WorkRow
row_of work_id [] = []
row_of work_id (r ∷ rows) = if text_eq r.work_id work_id then r ∷ [] else row_of work_id rows

unfoldable pub rows_of : List Text → List WorkRow → List WorkRow
unfolding row_of
rows_of [] rows = []
rows_of (work_id ∷ rest) rows = row_of work_id rows ++ rows_of rest rows

pub record Store : Type 0 where
  pub recent : RecentEnqueues
  pub queue : Queue

-- `_insert` on the work queue: nothing for no rows.
unfoldable pub insert_rows : Bool → List WorkRow → Queue → Result InsertError Queue
insert_rows accepted [] q = ok q
insert_rows true (r ∷ rows) q = ok (record q { work_items = q.work_items ++ (r ∷ rows) })
insert_rows false (r ∷ rows) q = err insert_refused

abbrev pub stored :
    RecentEnqueues → Queue → Result InsertError Queue → Store × Result InsertError (Unit {0})
stored recent q (ok q') = (record { recent = recent; queue = q' }, ok tt)
stored recent q (err e) = (record { recent = recent; queue = q }, err e)

abbrev ids : List WorkRow → List Text
ids rows = map (λ r. r.work_id) rows

-- The rest of `enqueue_work_many` once its rows are collected. The remembered identities are
-- updated before the insert, and stay so if it raises.
unfoldable pub write_rows : ℕ → Bool → List WorkRow → Store → Store × Result InsertError (Unit {0})
unfolding rows_of insert_rows
write_rows monotonic accepted [] s = (s, ok tt)
write_rows monotonic accepted (r ∷ rows) s =
    let (fresh, recent) = take_new s.recent (ids (r ∷ rows)) monotonic in
    stored recent s.queue (insert_rows accepted (rows_of fresh (r ∷ rows)) s.queue)

-- `now` is the wall clock's time and `monotonic` the other clock's.
unfoldable pub enqueue_work_many :
    Codec → Chain → ℕ → ℕ → Bool → List WorkKey → Store → Store × Result InsertError (Unit {0})
unfolding collect write_rows
enqueue_work_many codec chain now monotonic accepted items s =
    write_rows monotonic accepted (collect codec chain now items []) s
