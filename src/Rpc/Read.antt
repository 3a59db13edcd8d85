-- ===== src/Rpc/Read.antt =====
-- The readers of the node's answers: `from_rpc` of src/cow_indexer/models.py and the list of logs of
-- src/cow_indexer/sources/rpc.py.
use cow_indexer.Prelude.{
  ℕ, ◌∷◌, [], Bool, List, Option, PyError, Result, String, Text, codes, drop, err, every, false,
  if◌then◌else◌, length, ltb, none, ok, some, starts_with, type_error, value_error, ◌&&◌,
}
use cow_indexer.Json.{Fields, Items, Json, arr, as_fields, bool, cons, get, nil, str, subscript}
use cow_indexer.Hex.{
  ValueError, from_hex_digits, is_hex_code, lower, normalize_address, normalize_hash,
}
use cow_indexer.Models.{BlockHeader, RpcLog}

-- A reader of an answer.
abbrev pub Read : Type 0 → Type 0
Read A = Json → Result PyError A

abbrev pub and_then : {A B : Type 0} → Result PyError A → (A → Result PyError B) → Result PyError B
and_then (ok a) f = f a
and_then (err e) f = err e

abbrev pub checked : Result ValueError Text → Result PyError Text
checked (ok s) = ok s
checked (err e) = err value_error

-- A field that must be a text.
unfoldable pub as_str : Read Text
as_str (str s) = ok s
as_str _ = err value_error

-- `int(value, 16)` of a quantity of the node.
unfoldable pub quantity : Read ℕ
quantity (str s) =
    let digits = (if starts_with (codes "0x") (lower s) then drop 2 (lower s) else lower s) in
    if every is_hex_code digits && ltb 0 (length digits)
    then ok (from_hex_digits 0 digits)
    else err value_error
quantity _ = err type_error

unfoldable pub texts : Items → Result PyError (List Text)
unfolding as_str
texts nil = ok []
texts (cons item items) =
    and_then (as_str item) (λ s. and_then (texts items) (λ rest. ok (s ∷ rest)))

unfoldable pub text_list : Read (List Text)
unfolding texts
text_list (arr items) = texts items
text_list _ = err value_error

unfoldable pub removed_flag : Option Json → Result PyError Bool
removed_flag none = ok false
removed_flag (some (bool b)) = ok b
removed_flag (some _) = err value_error

abbrev pub from_field : {A : Type 0} → String → Read A → Fields → Result PyError A
from_field name read fields = and_then (subscript (codes name) fields) read

-- `RpcLog.from_rpc`, with its validators.
unfoldable pub read_log : Read RpcLog
unfolding as_str quantity text_list removed_flag
read_log payload = and_then (as_fields payload) (λ f.
    and_then (from_field "address" as_str f) (λ address.
      and_then (from_field "topics" text_list f) (λ topics.
        and_then (from_field "data" as_str f) (λ data_.
          and_then (from_field "blockNumber" quantity f) (λ block_number.
            and_then (from_field "blockHash" as_str f) (λ block_hash.
              and_then (from_field "transactionHash" as_str f) (λ transaction_hash.
                and_then (from_field "transactionIndex" quantity f) (λ transaction_index.
                  and_then (from_field "logIndex" quantity f) (λ log_index.
                    and_then (removed_flag (get (codes "removed") f)) (λ removed.
                      and_then (checked (normalize_address address)) (λ normal_address.
                        and_then (checked (normalize_hash block_hash)) (λ normal_block.
                          and_then (checked (normalize_hash transaction_hash))
                            (λ normal_transaction. ok (record {
                              address = normal_address;
                              topics = topics;
                              payload = data_;
                              block_number = block_number;
                              block_hash = normal_block;
                              transaction_hash = normal_transaction;
                              transaction_index = transaction_index;
                              log_index = log_index;
                              removed = removed;
                            }))))))))))))))

-- `BlockHeader.from_rpc`.
unfoldable pub read_header : Read BlockHeader
unfolding as_str quantity
read_header payload = and_then (as_fields payload) (λ f.
    and_then (from_field "number" quantity f) (λ number.
      and_then (from_field "hash" as_str f) (λ hash.
        and_then (from_field "parentHash" as_str f) (λ parent.
          and_then (from_field "timestamp" quantity f) (λ timestamp. ok (record {
            number = number;
            block_hash = hash;
            parent_hash = parent;
            timestamp = timestamp;
          }))))))

unfoldable pub read_items : Items → Result PyError (List RpcLog)
unfolding read_log
read_items nil = ok []
read_items (cons item items) =
    and_then (read_log item) (λ log. and_then (read_items items) (λ rest. ok (log ∷ rest)))

unfoldable pub read_logs : Read (List RpcLog)
unfolding read_items
read_logs (arr items) = read_items items
read_logs _ = err type_error
