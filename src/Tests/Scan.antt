-- ===== src/Tests/Scan.antt =====
-- Runs of the scan against a small node that answers for two blocks at a time.
use cow_indexer.Prelude.{
  ℕ, ◌+◌, ◌-◌, ◌≡◌, ◌≢◌, refl, arith, true, false, none, some, List, [], ◌∷◌, ltb, ok, err,
  if◌then◌else◌, map, codes, Result,
}
use cow_indexer.Models.{RpcLog, BlockHeader}
use cow_indexer.Scan.{
  World, ScanConfig, Trace, RpcFailure, range_too_large, out_of_fuel, ScanError, scan, repair_range,
  rescan_finality_window, loop, next_round, commit_range, Write, raw_logs,
}
use cow_indexer.Scan
use cow_indexer.Scan.Fuel.{IsSane}
use cow_indexer.Scan.Outcomes.{Finished, Safe, scan_total, scan-Finished, scan-Safe, repair-durable}

header : ℕ → BlockHeader
header n = record {
  number = n;
  block_hash = codes "0xb";
  parent_hash = codes "0xa";
  timestamp = 100 + n;
}

log_at : ℕ → RpcLog
log_at n = record {
  address = codes "0xc";
  topics = [];
  payload = codes "0x";
  block_number = n;
  block_hash = codes "0xb";
  transaction_hash = codes "0xt";
  transaction_index = 0;
  log_index = 0;
  removed = false;
}

logs_between : ℕ → ℕ → Result RpcFailure (List RpcLog)
unfolding log_at
logs_between low high = if ltb (high - low) 2 then ok (log_at low ∷ []) else err range_too_large

abbrev node : World
node = record {
  safe_head = λ call finality. ok (header 7);
  get_logs = λ call low high. logs_between low high;
  get_blocks = λ call numbers. ok (map header numbers);
  decode = λ log. ok none;
  accepts = λ count entry. true;
}

abbrev config : ScanConfig
config = record {
  initial_range = 4;
  maximum_range = 8;
  minimum_range = 1;
  finality_blocks = 3;
  start_block = 2;
}

config-IsSane : IsSane config
config-IsSane = record {
  positive = omega arith;
  from_minimum = omega arith;
  to_maximum = omega arith;
}

abbrev blank : Trace
blank = record { calls = 0; writes = []; durable = some 4 }

program : Unit {0}
unfolding scan loop next_round commit_range logs_between header log_at repair_range
    rescan_finality_window Scan.first_block Scan.last_block Scan.ask_safe_head Scan.scan_to
    Scan.block_numbers Scan.get_blocks Scan.store_blocks Scan.store_raw_logs Scan.decode_logs
    Scan.process_many Scan.update_checkpoint Scan.save_checkpoint Scan.write Scan.block_at
    Scan.find_block Scan.lift Scan.advances Scan.set_durable Scan.add_numbers Scan.add_number
    Scan.numbers_from Scan.enqueue Scan.stamped
program = tt

-- From behind the checkpoint to the safe head: the ranges 5 to 6 and 7.
scanned : (scan node config true false none none blank).0 ≡ ok 2
unfolding program
scanned = refl

checkpoint_after : (scan node config true false none none blank).1.durable ≡ some 7
unfolding program
checkpoint_after = refl

after : Trace
after = (scan node config true false none none blank).1

scan-Finished_example : Finished node config true false none none blank 2 after
unfolding program after
scan-Finished_example =
    scan-Finished node config config-IsSane true false none none blank {total = 2} {t' = after} refl

scan-Safe_example : Safe node config true false none none blank after
unfolding after
scan-Safe_example = scan-Safe node config config-IsSane true false none none blank

scan_total_example : (scan node config true false none none blank).0 ≢ err out_of_fuel
scan_total_example = scan_total node config config-IsSane true false none none blank

repair-durable_example :
    ((repair_range node config 3 5 blank).1.durable ≡ some 4)
    × ((rescan_finality_window node config blank).1.durable ≡ some 4)
repair-durable_example = repair-durable node config config-IsSane 3 5 blank

-- The repair of 3 to 5 did read two ranges.
repaired : (repair_range node config 3 5 blank).0 ≡ ok 2
unfolding program
repaired = refl
