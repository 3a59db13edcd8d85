-- ===== src/Rpc/Fallback.antt =====
-- The fallback of `get_logs` of src/cow_indexer/sources/rpc.py for nodes that refuse several addresses.
use cow_indexer.Prelude.{
  ℕ, arith, ◌+◌, ◌≤◌, ◌≡◌, ap, sym, true, false, List, [], ◌∷◌, ◌++◌, length, ltb, Text, ok, err,
}
use cow_indexer.Batches.{append_nil}
use cow_indexer.Models.{RpcLog}
use cow_indexer.Rpc.{rpc_error, is_minus, negsuc}
use cow_indexer.Rpc.Client.{Calls, each_address, fallback, get_logs_by}

-- The logs of several addresses, one after the other.
unfoldable pub logs_of_all : (Text → List RpcLog) → List Text → List RpcLog
logs_of_all logs_of [] = []
logs_of_all logs_of (a ∷ rest) = logs_of a ++ logs_of_all logs_of rest

module _ (once : List Text → Calls (List RpcLog)) (message : Text) (logs_of : Text → List RpcLog)
    (single : (a : Text) (n : ℕ) → once (a ∷ []) n ≡ (ok (logs_of a), n + 1))
    (several : (a b : Text) (rest : List Text) (n : ℕ)
      → once (a ∷ b ∷ rest) n ≡ (err (rpc_error (negsuc 32_601) message), n + 1)) where
  each_address-logs_of_all :
      (addresses : List Text) (n : ℕ)
      → each_address once addresses n ≡ (ok (logs_of_all logs_of addresses), n + length addresses)
  unfolding each_address logs_of_all
  each_address-logs_of_all [] n = ap (λ k. (ok [], k)) (omega arith)
  each_address-logs_of_all (a ∷ rest) n =
      rw (single a n, each_address, each_address-logs_of_all rest (n + 1))
        (ap (λ k. (ok (logs_of a ++ logs_of_all logs_of rest), k)) (omega arith))

  -- Against a node that answers for one address and refuses several with the code -32602, and for a
  -- range that is not empty, `get_logs` of one address or more returns the logs of all of them, one
  -- after the other.
  pub get_logs_by-logs_of_all :
      (from_block to_block : ℕ) (a : Text) (rest : List Text) (n : ℕ)
      → from_block ≤ to_block
      → (get_logs_by once from_block to_block (a ∷ rest) n).0 ≡ ok (logs_of_all logs_of (a ∷ rest))
  unfolding get_logs_by fallback logs_of_all is_minus
  get_logs_by-logs_of_all from_block to_block a [] n h =
      let fits : ltb to_block from_block ≡ false = ground arith in
      rw (fits, get_logs_by, single a n) (ap ok (sym (append_nil (logs_of a))))
  get_logs_by-logs_of_all from_block to_block a (b ∷ rest) n h =
      let fits : ltb to_block from_block ≡ false = ground arith in
      let two : ltb 1 (length (a ∷ b ∷ rest)) ≡ true = ground arith in
      rw (fits, get_logs_by, several a b rest n)
        (rw (two, fallback) (ap (λ r. r.0) (each_address-logs_of_all (a ∷ b ∷ rest) (n + 1))))
