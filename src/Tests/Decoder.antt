-- ===== src/Tests/Decoder.antt =====
-- The log of a transfer.
use cow_indexer.Prelude.{
  ℕ, ◌≡◌, refl, none, some, [], ◌∷◌, ◌++◌, List, Text, Result, PyError, err, ok, codes, replicate,
  text_eq, true, false, starts_with, value_error,
}
use cow_indexer.Json.{Json, Fields, field, end, int, str, null, set_field}
use cow_indexer.Hex.{
  lower, from_hex, is_hex_code, normalize_address, normalize_hex, prefixed, length_fits,
}
use cow_indexer.Models.{RpcLog, DecodedEvent}
use cow_indexer.Decoder.{
  Inputs, input, no_inputs, more, Value, text_value, other, Event, canonical_type, event_signature,
  event_topic, to_hex, ends_with_brackets, normalize_value, row_dicts,
}
use cow_indexer.Decoder.Logs.{
  selected, types_of, without_prefix, is_hashed, indexed_values, payload_values, values_of,
  event_at, decode, contract_at, decode_log, event_of,
}
use cow_indexer.Decoder.Names.{IsDecoded, decode_log-IsDecoded}

program : Unit {0}
unfolding text_eq starts_with set_field lower from_hex is_hex_code normalize_address normalize_hex
    prefixed length_fits canonical_type event_signature event_topic to_hex ends_with_brackets
    normalize_value row_dicts selected types_of without_prefix is_hashed indexed_values
    payload_values values_of event_at decode contract_at decode_log
program = tt

abbrev order : Inputs
order =
    more (input (codes "address") (codes "owner") false no_inputs)
      (more (input (codes "uint256[]") (codes "ids") false no_inputs) no_inputs)

-- A tuple's type is written with its components.
signature :
    event_signature (record {
      name = codes "Placed";
      inputs =
          more
            (input (codes "tuple[]") (codes "orders") false order)
            (more (input (codes "bytes") (codes "data") false no_inputs) no_inputs);
    })
    ≡ codes "Placed((address,uint256[])[],bytes)"
unfolding program
signature = refl

abbrev transfer : Event
transfer = record {
  name = codes "Transfer";
  inputs =
      more (input (codes "uint256") (codes "value") false no_inputs)
        (more (input (codes "address") (codes "to") true no_inputs) no_inputs);
}

abbrev keccak : Text → List ℕ
keccak s = 171 ∷ []

abbrev abi_decode : List Text → List ℕ → Result PyError (List Value)
abi_decode [] payload = ok []
abi_decode (type ∷ types) (b ∷ payload) = ok (other (int b) ∷ [])
abi_decode (type ∷ types) [] = ok (text_value (replicate 40 b'a') ∷ [])

abbrev passed_on : Value → Json
passed_on (other value) = value
passed_on _ = null

abbrev log : RpcLog
log = record {
  address = codes "0xc";
  topics = codes "0xAB" ∷ codes "0x" ∷ [];
  payload = codes "0x07";
  block_number = 9;
  block_hash = codes "0xb";
  transaction_hash = codes "0xt";
  transaction_index = 0;
  log_index = 3;
  removed = false;
}

abbrev contracts : List (Text × Text × List Event)
contracts = (codes "0xc", codes "Token", transfer ∷ []) ∷ []

abbrev args : Fields
args =
    field (codes "to") (str (codes "0x" ++ replicate 40 b'a')) (field (codes "value") (int 7) end)

abbrev event : DecodedEvent
event =
    event_of keccak abi_decode passed_on (codes "prod") 1 (codes "Token") log (codes "Transfer")
      args

decoded : decode_log keccak abi_decode passed_on (codes "prod") 1 contracts log ≡ ok (some event)
unfolding program
decoded = refl

-- A topic too few is an error, and another event is none.
too_few :
    decode_log keccak abi_decode passed_on
      (codes "prod")
      1
      contracts
      (record log { topics = codes "0xAB" ∷ [] })
    ≡ err value_error
unfolding program
too_few = refl

other_event :
    decode_log keccak abi_decode passed_on
      (codes "prod")
      1
      contracts
      (record log { topics = codes "0xAC" ∷ [] })
    ≡ ok none
unfolding program
other_event = refl

decode_log-IsDecoded_example :
    IsDecoded keccak abi_decode passed_on (codes "prod") 1 contracts log event
decode_log-IsDecoded_example =
    decode_log-IsDecoded keccak abi_decode passed_on (codes "prod") 1 contracts log event decoded
