-- ===== src/Rpc.antt =====
-- The client of the node: src/cow_indexer/sources/rpc.py: the errors of
-- a response. Rpc/Read reads the answers, and Rpc/Client has the calls.
pub mod Read
pub mod Client
pub mod Fallback
use cow_indexer.Prelude.{
  ℕ, ◌+◌, ◌-◌, ◌==◌, ◌∷◌, ◌++◌, [], Bool, List, Option, PyError, Result, Text, attribute_error,
  codes, drop, err, every, false, if◌then◌else◌, length, ltb, map, none, ok, some, starts_with,
  take, true, type_error, value_error, ◌&&◌, ◌||◌, text_eq,
}
use cow_indexer.Exec.{Exec, attempt, go_on, raising, returning, ◌>>=◌}
use cow_indexer.Json.{
  Fields, Items, Json, arr, as_fields, bool, cons, get, nil, null, or_none, str, subscript,
}
use cow_indexer.Hex.{
  ValueError, from_hex, from_hex_digits, is_hex_code, lower, normalize_address, normalize_hash,
}
use cow_indexer.Models.{BlockHeader, RpcLog}

-- The codes of errors.
pub data ℤ : Type 0 where
  pos : ℕ → ℤ
  negsuc : ℕ → ℤ

unfoldable pub is_minus : ℕ → ℤ → Bool
is_minus n (pos m) = false
is_minus n (negsuc m) = m + 1 == n

pub record ErrorBody : Type 0 where
  pub code : Option ℤ
  pub message : Option Text
  pub detail : Option Text

pub data Content : Type 0 where
  no_object : Content
  object : Option ErrorBody → Json → Content

pub record RpcResponse : Type 0 where
  pub status : ℕ
  pub text : Text
  pub content : Content

pub data Failure : Type 0 where
  rpc_range_too_large : ℤ → Text → Failure
  rpc_error : ℤ → Text → Failure
  python : PyError → Failure
  transport_error : Text → Failure

pub data Tag : Type 0 where
  safe : Tag
  at : ℕ → Tag

pub data Request : Type 0 where
  eth_block_number : Request
  eth_get_block_by_number : Tag → Request
  eth_get_logs : ℕ → ℕ → List Text → Request
  eth_call : Text → Text → Request

-- `part in whole`.
unfoldable pub contains : Text → Text → Bool
contains part [] = starts_with part []
contains part (c ∷ cs) = starts_with part (c ∷ cs) || contains part cs

unfoldable pub contains_any : List Text → Text → Bool
unfolding contains
contains_any [] whole = false
contains_any (part ∷ parts) whole = contains part whole || contains_any parts whole

abbrev pub markers : List Text
markers =
    codes "query returned more than"
    ∷ codes "response size exceeded"
    ∷ codes "block range"
    ∷ codes "too many results"
    ∷ codes "too many logs"
    ∷ codes "max logs per response"
    ∷ codes "limit exceeded"
    ∷ codes "please limit"
    ∷ codes "request timed out"
    ∷ []

abbrev pub lowered : Text → Option Text → Text
lowered message none = lower message
lowered message (some detail) = lower (message ++ codes " " ++ detail)

unfoldable pub is_range_error : ℤ → Text → Option Text → Bool
unfolding is_minus contains_any
is_range_error code message detail =
    is_minus 32005 code || is_minus 32016 code || contains_any markers (lowered message detail)

abbrev pub or_default {ℓ} : {A : Type ℓ} → Option A → A → A
or_default none d = d
or_default (some a) d = a

unfoldable pub error_of : Bool → ErrorBody → Failure
unfolding is_range_error
error_of for_logs e =
    let code = or_default e.code (negsuc 0) in
    let message = or_default e.message (codes "unknown error") in
    if for_logs && is_range_error code message e.detail
    then rpc_range_too_large code message
    else rpc_error code message

-- What `call` makes of a response: the error of the body comes before the status.
unfoldable pub classify : Bool → RpcResponse → Result Failure Json
unfolding error_of
classify for_logs r = elim r.content [
  | no_object ↦
      if r.status == 200
      then err (rpc_error (negsuc 0) (codes "invalid JSON-RPC response"))
      else err (rpc_error (pos r.status) (take 500 r.text))
  | object error result ↦ elim error [
    | some e ↦ err (error_of for_logs e)
    | none ↦ if r.status == 200 then ok result else err (rpc_error (pos r.status) (take 500 r.text))
  ]
]

unfoldable pub is_get_logs : Request → Bool
is_get_logs (eth_get_logs low high addresses) = true
is_get_logs _ = false
