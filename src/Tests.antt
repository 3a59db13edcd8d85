-- ===== src/Tests.antt =====
-- Concrete inputs: a database engine, and one module of runs and instances for each component.
mod Engine
mod Values
mod Hex
mod Queue
mod Scan
mod Api
mod Enrichment
mod Rpc
mod Rows
mod Migrations
mod Backfill
mod Drain
mod Exports
mod Inserts
mod Decoder
mod Purge
mod Imports
