-- ===== src/WorkQueue.antt =====
-- The durable work queue: the table `work_items` of migrations/001_indexing_state.sql and the
-- methods of `ClickHouseStore` in src/cow_indexer/storage/clickhouse.py that write it. The table is
-- the list of its inserted rows, oldest first; times are whole milliseconds.
pub mod Enqueue
pub mod Steps
pub mod Wins
pub mod Leases
pub mod Terminal
pub mod Releases
pub mod Purge
use cow_indexer.Prelude.{
  Result, ok, err, ℕ, ◌+◌, ◌-◌, ◌*◌, ◌^◌, max, Bool, true, false, not, ◌&&◌, ◌||◌, Option, none,
  some, List, [], ◌∷◌, ◌++◌, map, leb, ltb, ◌==◌, if◌then◌else◌, take, keep, Text, text_eq, In, ◌≤◌,
  ◌≡◌,
}
use cow_indexer.Json.{Json, str, int, arr, cons, nil, Codec, canonical_json, sha256_json}

pub data Kind : Type 0 where
  order_uid owner tx_hash tx_competition app_data token order_uids_batch owner_orders_backfill :
      Kind

pub data Status : Type 0 where
  pending running done dead unavailable_from_public_api : Status

-- BACKFILL_WORK_KINDS: `lease_work` leaves these out unless it is asked for them.
unfoldable pub is_backfill_kind : Kind → Bool
is_backfill_kind order_uids_batch = true
is_backfill_kind owner_orders_backfill = true
is_backfill_kind _ = false

-- TERMINAL_WORK_STATUSES.
unfoldable pub is_terminal : Status → Bool
is_terminal pending = false
is_terminal running = false
is_terminal _ = true

abbrev pub max_revision : ℕ
max_revision = 2 ^ 64 - 1

abbrev pub unavailable_revision : ℕ
unavailable_revision = max_revision - 2

-- The five minutes of a lease.
abbrev pub lease_milliseconds : ℕ
lease_milliseconds = 300_000

pub record Chain : Type 0 where
  pub environment : Text
  pub chain_id : ℕ

pub record WorkRow : Type 0 where
  pub work_id : Text
  pub environment : Text
  pub chain_id : ℕ
  pub kind : Kind
  pub key : Text
  pub payload : Text
  pub status : Status
  pub attempts : ℕ
  pub lease_owner : Text
  pub lease_until : Option ℕ
  pub next_attempt_at : ℕ
  pub error : Text
  pub revision : ℕ
  pub observed_at : ℕ

pub record WorkItem : Type 0 where
  pub work_id : Text
  pub environment : Text
  pub chain_id : ℕ
  pub kind : Kind
  pub key : Text
  pub payload : Json
  pub attempts : ℕ

-- The table's sorting key.
abbrev pub Identity : Type 0
Identity = Text × ℕ × Text

abbrev pub identity : WorkRow → Identity
identity r = (r.environment, r.chain_id, r.work_id)

abbrev pub item_identity : WorkItem → Identity
item_identity i = (i.environment, i.chain_id, i.work_id)

-- The WHERE clause of `lease_work`; without `kinds` every kind but the backfill kinds.
unfoldable pub wants_kind : Option (Kind → Bool) → Kind → Bool
wants_kind none k = not (is_backfill_kind k)
wants_kind (some among) k = among k

lapsed : Option ℕ → ℕ → Bool
lapsed none now = false
lapsed (some until) now = ltb until now

unfoldable pub is_due : ℕ → WorkRow → Status → Bool
unfolding lapsed
is_due now r pending = leb r.next_attempt_at now
is_due now r running = lapsed r.lease_until now
is_due now r _ = false

unfoldable pub is_leasable : Chain → Option (Kind → Bool) → ℕ → WorkRow → Bool
is_leasable chain kinds now r =
    text_eq r.environment chain.environment
    && r.chain_id == chain.chain_id
    && wants_kind kinds r.kind
    && is_due now r r.status

-- Both the item that a lease hands out and the row that it writes.
unfoldable pub leased_item : Codec → Chain → WorkRow → WorkItem
leased_item codec chain r = record {
  work_id = r.work_id;
  environment = chain.environment;
  chain_id = chain.chain_id;
  kind = r.kind;
  key = r.key;
  payload = codec.loads r.payload;
  attempts = r.attempts + 1;
}

unfoldable pub leased_row : Chain → Text → ℕ → WorkRow → WorkRow
leased_row chain worker_id now r = record {
  work_id = r.work_id;
  environment = chain.environment;
  chain_id = chain.chain_id;
  kind = r.kind;
  key = r.key;
  payload = r.payload;
  status = running;
  attempts = r.attempts + 1;
  lease_owner = worker_id;
  lease_until = some (now + lease_milliseconds);
  next_attempt_at = now;
  error = [];
  revision = (r.attempts + 1) * 10 + 1;
  observed_at = now;
}

unfoldable pub released_row : Codec → ℕ → WorkItem → WorkRow
unfolding canonical_json
released_row codec now item = record {
  work_id = item.work_id;
  environment = item.environment;
  chain_id = item.chain_id;
  kind = item.kind;
  key = item.key;
  payload = canonical_json codec item.payload;
  status = pending;
  attempts = item.attempts - 1;
  lease_owner = [];
  lease_until = none;
  next_attempt_at = now;
  error = [];
  revision = item.attempts * 10 + 2;
  observed_at = now;
}

-- How a piece of work ended, as the arguments of `finish_work` say it.
pub record Outcome : Type 0 where
  pub success : Bool
  pub error : Option Text
  pub retry_at : Option ℕ
  pub terminal : Option Status

-- The if/elif ladder of `finish_work`: the new status and its revision.
unfoldable pub finished_status : WorkItem → Outcome → Status × ℕ
finished_status item o = elim o.terminal [
  | some status ↦ (status, unavailable_revision)
  | none ↦ if o.success then (done, max_revision) else (elim o.retry_at [
    | some _ ↦ (pending, item.attempts * 10 + 2)
    | none ↦ (dead, max_revision - 1)
  ])
]

abbrev pub or_else {ℓ} : {A : Type ℓ} → Option A → A → A
or_else none d = d
or_else (some a) d = a

unfoldable pub finished_row : Codec → ℕ → WorkItem → Outcome → WorkRow
unfolding canonical_json
finished_row codec now item o = record {
  work_id = item.work_id;
  environment = item.environment;
  chain_id = item.chain_id;
  kind = item.kind;
  key = item.key;
  payload = canonical_json codec item.payload;
  status = (finished_status item o).0;
  attempts = item.attempts;
  lease_owner = [];
  lease_until = none;
  next_attempt_at = or_else o.retry_at now;
  error = or_else o.error [];
  revision = (finished_status item o).1;
  observed_at = now;
}

pub data Direction : Type 0 where
  ascending descending : Direction

-- What the queue takes from ClickHouse: `FINAL` over a ReplacingMergeTree(revision) shows, of the
-- rows of one sorting key, one of the highest revision and nothing else; ORDER BY gives back its
-- rows, and no others, in order.
pub record Engine : Type 0 where
  pub final : List WorkRow → List WorkRow
  pub final-In : (t : List WorkRow) (r : WorkRow) → In r (final t) → In r t
  pub final_highest :
      (t : List WorkRow) (r s : WorkRow)
      → In r (final t)
      → In s t
      → identity s ≡ identity r
      → s.revision ≤ r.revision
  pub final_total :
      (t : List WorkRow) (s : WorkRow)
      → In s t
      → (r : WorkRow) × In r (final t) × (identity r ≡ identity s)
  pub final_unique :
      (t : List WorkRow) (r s : WorkRow)
      → In r (final t)
      → In s (final t)
      → identity s ≡ identity r
      → s ≡ r
  pub order_by : Direction → List WorkRow → List WorkRow
  pub order_by-In : (d : Direction) (t : List WorkRow) (r : WorkRow) → In r (order_by d t) → In r t

pub record DeadLetter : Type 0 where
  pub work_id : Text
  pub environment : Text
  pub chain_id : ℕ
  pub kind : Kind
  pub key : Text
  pub payload : Text
  pub attempts : ℕ
  pub error : Text
  pub failed_at : ℕ

-- The tables `work_items` and `dead_letters`.
pub record Queue : Type 0 where
  pub work_items : List WorkRow
  pub dead_letters : List DeadLetter

-- Newest first for the live loop, oldest first for a drain that names its kinds.
lease_direction : Option (Kind → Bool) → Direction
lease_direction none = descending
lease_direction (some _) = ascending

-- The SELECT of `lease_work`, at the server's time.
unfoldable pub lease_query :
    Engine → Chain → Option (Kind → Bool) → ℕ → ℕ → List WorkRow → List WorkRow
unfolding lease_direction
lease_query engine chain kinds now limit t =
    take limit (
      engine.order_by (lease_direction kinds) (keep (is_leasable chain kinds now) (engine.final t)))

-- An insert that the store does not take raises and writes nothing.
pub data InsertError : Type 0 where
  insert_refused : InsertError

-- `_insert` sends nothing for no rows.
unfoldable pub is_taken : Bool → List WorkRow → Bool
is_taken accepted [] = true
is_taken accepted (r ∷ rows) = accepted

-- The INSERT of `lease_work`, of the rows that its SELECT gave.
unfoldable pub insert_leases : Chain → Text → ℕ → List WorkRow → Queue → Queue
insert_leases chain worker_id now rows q = record q {
  work_items = q.work_items ++ map (leased_row chain worker_id now) rows;
}

-- `lease_work`: the SELECT at the server's time `server_now`, what others write (`between`) until the
-- INSERT, and the INSERT, of rows stamped `now`.
unfoldable pub lease_work :
    Codec
    → Engine
    → Chain
    → Text
    → Option (Kind → Bool)
    → ℕ
    → ℕ
    → ℕ
    → (Queue → Queue)
    → Bool
    → Queue
    → Result InsertError (List WorkItem) × Queue
unfolding is_taken insert_leases
lease_work codec engine chain worker_id kinds limit server_now now between accepted q =
    let rows = lease_query engine chain kinds server_now limit q.work_items in
    if is_taken accepted rows
    then (
      ok (map (leased_item codec chain) rows),
      insert_leases chain worker_id now rows (between q),
    )
    else (err insert_refused, between q)

unfoldable pub release_work : Codec → ℕ → List WorkItem → Queue → Queue
release_work codec now items q = record q {
  work_items = q.work_items ++ map (released_row codec now) items;
}

unfoldable pub dead_letter : Codec → ℕ → WorkItem → Outcome → DeadLetter
unfolding canonical_json
dead_letter codec now item o = record {
  work_id = item.work_id;
  environment = item.environment;
  chain_id = item.chain_id;
  kind = item.kind;
  key = item.key;
  payload = canonical_json codec item.payload;
  attempts = item.attempts;
  error = or_else o.error [];
  failed_at = now;
}

unfoldable pub is_dead : Status → Bool
is_dead dead = true
is_dead _ = false

-- The two INSERTs of `finish_work`.
unfoldable pub insert_finished : Codec → ℕ → WorkItem → Outcome → Queue → Queue
insert_finished codec now item o q = record q {
  work_items = q.work_items ++ finished_row codec now item o ∷ [];
}

unfoldable pub insert_letter : Codec → ℕ → WorkItem → Outcome → Queue → Queue
unfolding dead_letter
insert_letter codec now item o q = record q {
  dead_letters = q.dead_letters ++ dead_letter codec now item o ∷ [];
}

-- `finish_work`: the row, and for a dead one, after what others write (`between`), the dead letter.
-- The store may refuse each of the two.
unfoldable pub finish_work :
    Codec
    → ℕ
    → WorkItem
    → Outcome
    → Bool
    → (Queue → Queue)
    → Bool
    → Queue
    → Result InsertError (Unit {0}) × Queue
unfolding insert_finished insert_letter
finish_work codec now item o row_accepted between letter_accepted q =
    if not row_accepted
    then (err insert_refused, q)
    else if not (is_dead (finished_status item o).0)
    then (ok tt, insert_finished codec now item o q)
    else if not letter_accepted
    then (err insert_refused, between (insert_finished codec now item o q))
    else (ok tt, insert_letter codec now item o (between (insert_finished codec now item o q)))
