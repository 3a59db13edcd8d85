-- ===== src/Tests/Rpc.antt =====
-- Runs of the node's client.
use cow_indexer.Prelude.{
  ◌+◌, ◌≡◌, refl, arith, true, false, some, List, [], ◌∷◌, Text, codes, ok, err, starts_with,
}
use cow_indexer.Hex.{lower}
use cow_indexer.Json.{null}
use cow_indexer.Models.{RpcLog}
use cow_indexer.Rpc.{
  RpcResponse, object, rpc_error, rpc_range_too_large, classify, error_of, is_range_error, is_minus,
  contains_any, contains, negsuc,
}
use cow_indexer.Rpc.Client.{Calls, get_logs_by}
use cow_indexer.Rpc.Fallback.{logs_of_all, get_logs_by-logs_of_all}

program : Unit {0}
unfolding classify error_of is_range_error is_minus contains_any contains lower starts_with
program = tt

-- A limit on the results, reported as invalid parameters with a status of 400.
limited : RpcResponse
limited = record {
  status = 400;
  text = [];
  content =
      object
        (some (record {
          code = some (negsuc 32_601);
          message = some (codes "invalid params");
          detail = some (codes "Query returned more than 50000 results");
        }))
        null;
}

too_large :
    classify true limited ≡ err (rpc_range_too_large (negsuc 32_601) (codes "invalid params"))
unfolding program limited
too_large = refl

refused : classify false limited ≡ err (rpc_error (negsuc 32_601) (codes "invalid params"))
unfolding program limited
refused = refl

log_of : Text → List RpcLog
log_of address =
    record {
      address = address;
      topics = [];
      payload = codes "0x";
      block_number = 5;
      block_hash = codes "0xb";
      transaction_hash = codes "0xt";
      transaction_index = 0;
      log_index = 0;
      removed = false;
    }
    ∷ []

strict_node : List Text → Calls (List RpcLog)
strict_node [] n = (ok [], n + 1)
strict_node (a ∷ []) n = (ok (log_of a), n + 1)
strict_node (a ∷ b ∷ rest) n = (err (rpc_error (negsuc 32_601) (codes "invalid params")), n + 1)

get_logs_by-logs_of_all_example :
    (get_logs_by strict_node 1 9 (codes "0xa" ∷ codes "0xb" ∷ []) 0).0
    ≡ ok (logs_of_all log_of (codes "0xa" ∷ codes "0xb" ∷ []))
unfolding strict_node
get_logs_by-logs_of_all_example =
    get_logs_by-logs_of_all strict_node (codes "invalid params") log_of (λ a n. refl)
      (λ a b rest n. refl) 1 9 (codes "0xa") (codes "0xb" ∷ []) 0 (omega arith)
