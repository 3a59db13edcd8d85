-- ===== src/Models.antt =====
-- The records of src/cow_indexer/models.py that pass between the parts of the indexer.
use cow_indexer.Prelude.{ℕ, ◌+◌, Bool, Option, List, Text}
use cow_indexer.Json.{Fields}

pub record RpcLog : Type 0 where
  pub address : Text
  pub topics : List Text
  pub payload : Text
  pub block_number : ℕ
  pub block_hash : Text
  pub transaction_hash : Text
  pub transaction_index : ℕ
  pub log_index : ℕ
  pub removed : Bool

pub record BlockHeader : Type 0 where
  pub number : ℕ
  pub block_hash : Text
  pub parent_hash : Text
  pub timestamp : ℕ

pub record DecodedEvent : Type 0 where
  pub environment : Text
  pub chain_id : ℕ
  pub contract_name : Text
  pub contract_address : Text
  pub event_name : Text
  pub args : Fields
  pub block_number : ℕ
  pub block_hash : Text
  pub transaction_hash : Text
  pub transaction_index : ℕ
  pub log_index : ℕ
  pub removed : Bool
  pub block_timestamp : Option ℕ

pub record ImportStats : Type 0 where
  pub accepted : ℕ
  pub duplicates : ℕ
  pub rejected : ℕ
  pub conflicts : ℕ

unfoldable pub add : ImportStats → ImportStats → ImportStats
add a b = record {
  accepted = a.accepted + b.accepted;
  duplicates = a.duplicates + b.duplicates;
  rejected = a.rejected + b.rejected;
  conflicts = a.conflicts + b.conflicts;
}
