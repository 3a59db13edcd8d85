-- ===== src/Rpc/Client.antt =====
-- The calls of `RpcClient`, src/cow_indexer/sources/rpc.py. The transport, which may raise or time out,
-- takes the number of the call; requests that the client sends at the same time are sent in order;
-- ABI decoding is the interface Abi.
use cow_indexer.Prelude.{
  Bool, ℕ, ◌+◌, ◌-◌, ◌==◌, ◌∷◌, ◌++◌, [], List, Option, PyError, Result, Text, codes, drop, err,
  false, if◌then◌else◌, length, ltb, none, ok, some, starts_with, value_error, ◌&&◌,
}
use cow_indexer.Exec.{Exec, raising, returning, ◌>>=◌}
use cow_indexer.Json.{Json, null, str}
use cow_indexer.Hex.{from_hex}
use cow_indexer.Models.{BlockHeader, RpcLog}
use cow_indexer.Rpc.{
  Failure, transport_error, python, rpc_error, rpc_range_too_large, Request, RpcResponse, Tag, at,
  safe, classify, eth_block_number, eth_call, eth_get_block_by_number, eth_get_logs, is_get_logs,
  is_minus, negsuc,
}
use cow_indexer.Rpc.Read.{quantity, read_header, read_logs}

abbrev pub Calls : Type 0 → Type 0
Calls A = Exec ℕ Failure A

unfoldable pub lift : {A : Type 0} → Result PyError A → Calls A
lift (ok a) = returning a
lift (err e) = raising (python e)

-- The body of `get_logs`, with `_get_logs_once` as a parameter.
module _ (once : List Text → Calls (List RpcLog)) where
  unfoldable pub each_address : List Text → Calls (List RpcLog)
  each_address [] = returning []
  each_address (address ∷ addresses) = do
    own ← once (address ∷ [])
    others ← each_address addresses
    returning (own ++ others)

  unfoldable pub fallback :
      List Text → Result Failure (List RpcLog) × ℕ → Result Failure (List RpcLog) × ℕ
  unfolding each_address
  fallback addresses (ok logs, n) = (ok logs, n)
  fallback addresses (err (rpc_range_too_large code message), n) =
      (err (rpc_range_too_large code message), n)
  fallback addresses (err (python e), n) = (err (python e), n)
  fallback addresses (err (transport_error e), n) = (err (transport_error e), n)
  fallback addresses (err (rpc_error code message), n) =
      if is_minus 32602 code && ltb 1 (length addresses)
      then each_address addresses n
      else (err (rpc_error code message), n)

  unfoldable pub get_logs_by : ℕ → ℕ → List Text → Calls (List RpcLog)
  unfolding fallback
  get_logs_by from_block to_block addresses n =
      if ltb to_block from_block then (ok [], n) else fallback addresses (once addresses n)

-- The ABI decoder of texts and numbers; `none` where it raises.
pub record Abi : Type 0 where
  pub string_of : List ℕ → Option Text
  pub bytes32_text : List ℕ → Option Text
  pub uint256 : List ℕ → Option ℕ

pub record TokenMetadata : Type 0 where
  pub symbol : Text
  pub name : Text
  pub decimals : ℕ

abbrev pub non_empty : Option Text → Option Text
non_empty none = none
non_empty (some []) = none
non_empty (some (c ∷ cs)) = some (c ∷ cs)

unfoldable pub raw_bytes : Text → Result PyError (List ℕ)
raw_bytes data_ =
    if starts_with (codes "0x") data_
    then (elim (from_hex (drop 2 data_)) [ ok bytes ↦ ok bytes | err e ↦ err value_error ])
    else ok []

unfoldable pub string_of_bytes : Abi → List ℕ → Option Text
string_of_bytes abi [] = none
string_of_bytes abi (b ∷ bs) =
    elim (if length (b ∷ bs) == 32 then none else non_empty (abi.string_of (b ∷ bs))) [
      | some value ↦ some value
      | none ↦ non_empty (abi.bytes32_text (b ∷ bs))
    ]

unfoldable pub uint_of_bytes : Abi → List ℕ → Option ℕ
uint_of_bytes abi [] = none
uint_of_bytes abi (b ∷ bs) = abi.uint256 (b ∷ bs)

-- `_decode_erc20_string` and `_decode_erc20_uint` of an answer that may be missing.
unfoldable pub decoded :
    {A : Type 0} → (List ℕ → Option A) → Option Text → Result PyError (Option A)
unfolding raw_bytes
decoded read none = ok none
decoded read (some data_) = elim (raw_bytes data_) [ ok bytes ↦ ok (read bytes) | err e ↦ err e ]

unfoldable pub metadata : Option Text → Option Text → Option ℕ → Option TokenMetadata
metadata none none none = none
metadata symbol name decimals =
    some (record { symbol = or_empty symbol; name = or_empty name; decimals = or_zero decimals })
  where
    or_empty : Option Text → Text
    or_empty none = []
    or_empty (some s) = s

    or_zero : Option ℕ → ℕ
    or_zero none = 0
    or_zero (some n) = n

unfoldable pub text_or_prefix : Json → Text
text_or_prefix (str s) = s
text_or_prefix _ = codes "0x"

-- A response, or what the transport raised or the timeout around it.
unfoldable pub received : Bool → Result Text RpcResponse → Result Failure Json
received for_logs (err raised) = err (transport_error raised)
received for_logs (ok response) = classify for_logs response

-- `except RpcError` of `_call_getter`.
unfoldable pub getter_answer : Result Failure Json → Result Failure (Option Text)
unfolding text_or_prefix
getter_answer (ok result) = ok (some (text_or_prefix result))
getter_answer (err (rpc_error code message)) = ok none
getter_answer (err (rpc_range_too_large code message)) = ok none
getter_answer (err (python e)) = err (python e)
getter_answer (err (transport_error e)) = err (transport_error e)

module _ (transport : ℕ → Request → Result Text RpcResponse) where
  unfoldable pub call : Request → Calls Json
  unfolding received
  call request n = (received (is_get_logs request) (transport n request), n + 1)

  unfoldable pub get_block_number : Calls ℕ
  get_block_number = do result ← call eth_block_number; lift (quantity result)

  unfoldable pub block_of : Json → Calls BlockHeader
  block_of null = raising (rpc_error (negsuc 0) (codes "block not found"))
  block_of payload = lift (read_header payload)

  unfoldable pub get_block : Tag → Calls BlockHeader
  unfolding block_of
  get_block tag = do payload ← call (eth_get_block_by_number tag); block_of payload

  unfoldable pub recovered : ℕ → Result Failure BlockHeader × ℕ → Result Failure BlockHeader × ℕ
  recovered finality_blocks (ok header, n) = (ok header, n)
  recovered finality_blocks (err (python e), n) = (err (python e), n)
  recovered finality_blocks (err (transport_error e), n) = (err (transport_error e), n)
  recovered finality_blocks (err failure, n) =
      (do latest ← get_block_number; get_block (at (latest - finality_blocks))) n

  -- `max(0, latest - finality_blocks)` is the truncated difference.
  unfoldable pub safe_head : ℕ → Calls BlockHeader
  unfolding recovered
  safe_head finality_blocks n = recovered finality_blocks (get_block safe n)

  unfoldable pub get_logs_once : ℕ → ℕ → List Text → Calls (List RpcLog)
  get_logs_once from_block to_block addresses = do
    result ← call (eth_get_logs from_block to_block addresses)
    lift (read_logs result)

  unfoldable pub get_logs : ℕ → ℕ → List Text → Calls (List RpcLog)
  get_logs from_block to_block addresses =
      get_logs_by (get_logs_once from_block to_block) from_block to_block addresses

  unfoldable pub get_blocks : List ℕ → Calls (List BlockHeader)
  get_blocks [] = returning []
  get_blocks (number ∷ numbers) = do
    header ← get_block (at number)
    headers ← get_blocks numbers
    returning (header ∷ headers)

  unfoldable pub call_getter : Text → Text → Calls (Option Text)
  unfolding received getter_answer
  call_getter token selector n =
      (getter_answer (received false (transport n (eth_call token selector))), n + 1)

  unfoldable pub fetch_token_metadata : Abi → Text → Calls (Option TokenMetadata)
  unfolding call_getter
  fetch_token_metadata abi token = do
    symbol_data ← call_getter token (codes "0x95d89b41")
    name_data ← call_getter token (codes "0x06fdde03")
    decimals_data ← call_getter token (codes "0x313ce567")
    symbol ← lift (decoded (string_of_bytes abi) symbol_data)
    name ← lift (decoded (string_of_bytes abi) name_data)
    decimals ← lift (decoded (uint_of_bytes abi) decimals_data)
    returning (metadata symbol name decimals)
