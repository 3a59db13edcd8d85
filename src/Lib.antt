-- ===== src/Lib.antt =====
-- The CoW Protocol indexer (cow_indexer): verification of its core.
--
-- The program reads contract events from an EVM node, decodes them, stores them in ClickHouse and
-- derives from them a durable queue of work, which workers drain through the CoW API. The scanner
-- (src/cow_indexer/services/historical.py) asks the node for the logs of one range of blocks after
-- another, stores the blocks and logs, hands the decoded events to the loader
-- (src/cow_indexer/loaders/events.py), which stores them and enqueues work, and then moves the
-- checkpoint. The store (src/cow_indexer/storage/clickhouse.py) keeps the queue as rows of a table
-- that keeps, for each identity, a row of the highest revision; the client of the API
-- (src/cow_indexer/sources/cow_api.py) paces and retries its requests.
--
-- Files, with the code that each is about:
--
--   Prelude, Exec     Boolean tests, lists, membership, text as lists of code points, results that
--                     may be exceptions, and state that survives an exception.
--   Json              JSON values; encoding and SHA-256 are the interface Codec. canonical_json and
--                     sha256_json of src/cow_indexer/utils.py.
--   Hex               normalize_hex, normalize_address, normalize_hash, normalize_order_uid and
--                     validate_order_uid of src/cow_indexer/utils.py; decode_valid_to of
--                     src/cow_indexer/services/backfill_orderbook.py.
--   Batches           batched of src/cow_indexer/utils.py.
--   Models            the records of src/cow_indexer/models.py.
--   RecentEnqueues    _RecentEnqueues of src/cow_indexer/storage/clickhouse.py: take_new.
--   WorkQueue         enqueue_work_many, lease_work, release_work and finish_work of
--                     ClickHouseStore. A table is the list of the rows inserted; the FINAL view, the
--                     order of a query and its limit are the interface Engine. WorkQueue/Steps has
--                     the runs of their inserts by any number of workers, in which other inserts may
--                     come between the SELECT and the INSERT of a lease; WorkQueue/Purge
--                     has purge_finished_work.
--   Loader            _work_for_event of src/cow_indexer/loaders/events.py.
--   Scan              scan and rescan_finality_window of HistoricalIndexer, process_many of
--                     EventProcessor, checkpoint of ClickHouseStore and repair_range of
--                     src/cow_indexer/services/repair.py. The node, the decoder and whether the
--                     database takes a write are the interface World, whose answers may differ from
--                     call to call; a Trace has the writes made so far and the durable checkpoint.
--   RateLimiter       AsyncRateLimiter of src/cow_indexer/sources/cow_api.py.
--   CowApi            _request and the loops over pages of CowApiClient, the same file.
--   Enrichment        run_once (Enrichment/Batch), process, _process_and_finish, _fanout_order,
--                     _fanout_competition, _prefetch_orders and _resolve_order of
--                     src/cow_indexer/services/enrichment.py, with the API and the store as the
--                     interface Services; a Journal has the calls that the store took.
--                     normalize_auction_order of src/cow_indexer/utils.py.
--   Rpc               RpcClient of src/cow_indexer/sources/rpc.py: the errors of a response (Rpc),
--                     the readers of answers (Rpc/Read) and the calls (Rpc/Client).
--   Rows              the rows that ClickHouseStore builds: of decoded events (Rows/Events), of
--                     orders, payloads, prices and ranges (Rows/Orders), and of trades and their fees
--                     (Rows/Trades); src/cow_indexer/storage/clickhouse.py.
--   Migrations        split_sql and quote_database of src/cow_indexer/storage/migrations.py, and migrate
--                     of ClickHouseStore: a lexer for the statements of a file (Migrations/Statements),
--                     the database name in them (Migrations/Names) and the run of the files
--                     (Migrations/Applied).
--   Backfill          src/cow_indexer/services/backfill_orderbook.py: the keys of batches of order UIDs
--                     (Backfill, Backfill/Keys, Backfill/Sorting), seed_orders and seed_owners
--                     (Backfill/Seeding), process and _process_and_finish (Backfill/Drain) and the loop
--                     of drain (Backfill/Drain/Rounds).
--   Exports           src/cow_indexer/sources/exports/adapters.py: an order of an export (Exports), the
--                     rows of the other datasets (Exports/Datasets) and the loop over the rows
--                     (Exports/Normalise). What the store has of an order is a parameter.
--   Inserts           _insert of ClickHouseStore: the columns and values of an insert, and its attempts.
--   Imports           run of src/cow_indexer/services/export_import.py, with record_import_run and
--                     record_import_file of ClickHouseStore; the store, the inspection and the reading of
--                     files are the interface Source.
--   Decoder           src/cow_indexer/decoders/events.py: types, signatures and values (Decoder) and the
--                     decoding of a log (Decoder/Logs), with Keccak and the decoding of the ABI as
--                     parameters. The components of one tuple have different names.
--   Tests             concrete runs.
--
-- Bounds and fuel. Times are natural numbers: milliseconds in the queue, ticks in the rate limiter.
-- Revisions are below 2 ^ 64 where the code says so. The loop of the scan runs on fuel, the number of
-- blocks times one more than the largest range, plus the initial range: between two blocks the range
-- can only shrink, down to the smallest one. The loop over pages takes the number of rows and one more.
-- The inner loop of the seeding takes the length of the buffer, since each turn shortens it; the drain
-- takes one turn for each reading of the clock up to the deadline, and without a deadline it may go on
-- as long as an item is open.
--
-- Not modelled: the transport (which may answer or raise), the encoding of JSON, SHA-256, the
-- decoding of the ABI and the engine of the database are parameters. JSON is without floats and
-- negative numbers, so `int` of a text refuses a negative one, and characters beyond ASCII are no
-- digits. The events of a range are one write, although the store has one insert for each table,
-- and the metrics, the log lines and the random part of a pause are left out. The items of a lease
-- are drained one after the other, and the listing of the migration files is left out.
-- continuous.py, preflight.py and validation.py of src/cow_indexer/services, the checks of
-- manifest.py and reader.py of src/cow_indexer/sources/exports, probe and status of
-- backfill_orderbook.py, the rows of solver competitions, src/cow_indexer/config.py and the command
-- line are not modelled.
mod Prelude
pub mod Exec
pub mod Json
pub mod Hex
pub mod Models
pub mod RecentEnqueues
pub mod WorkQueue
pub mod Loader
pub mod Scan
pub mod RateLimiter
pub mod Batches
pub mod CowApi
pub mod Enrichment
pub mod Rpc
pub mod Rows
pub mod Migrations
pub mod Backfill
pub mod Exports
pub mod Inserts
pub mod Imports
pub mod Decoder
mod Tests
