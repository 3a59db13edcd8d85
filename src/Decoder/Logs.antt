-- ===== src/Decoder/Logs.antt =====
-- `decode` of EventDecoder and of MultiContractDecoder in src/cow_indexer/decoders/events.py.
use cow_indexer.Prelude.{
  ℕ, ◌==◌, ◌∷◌, [], ◌||◌, Bool, List, Option, PyError, Result, Text, codes, err, false,
  if◌then◌else◌, length, none, ok, some, text_eq, true, ◌>>=◌, value_error, drop, starts_with,
  every, index_error,
}
use cow_indexer.Json.{Fields, Json, end, set_field, str}
use cow_indexer.Hex.{ValueError, from_hex, is_hex_code, lower}
use cow_indexer.Models.{DecodedEvent, RpcLog}
use cow_indexer.Decoder.{
  Input, Inputs, no_inputs, more, Value, Event, name_of, is_indexed, canonical_type,
  ends_with_brackets, event_topic, normalize_value,
}

unfoldable pub selected : Bool → Inputs → List Input
selected wanted no_inputs = []
selected wanted (more i is) =
    let rest = selected wanted is in
    if is_indexed i
    then (if wanted then i ∷ rest else rest)
    else (if wanted then rest else i ∷ rest)

unfoldable pub types_of : List Input → List Text
unfolding canonical_type
types_of [] = []
types_of (i ∷ is) = canonical_type i ∷ types_of is

-- `text.removeprefix("0x")`.
unfoldable pub without_prefix : Text → Text
unfolding starts_with
without_prefix s = if starts_with (codes "0x") s then drop 2 s else s

abbrev as_bytes : Result ValueError (List ℕ) → Result PyError (List ℕ)
as_bytes (ok bs) = ok bs
as_bytes (err e) = err value_error

-- `bytes.fromhex(…)`, where anything but hexadecimal digits is an error.
abbrev pub bytes_of : Text → Result PyError (List ℕ)
bytes_of s =
    if every is_hex_code (lower (without_prefix s))
    then as_bytes (from_hex (lower (without_prefix s)))
    else err value_error

-- A type of which a topic has only the hash.
unfoldable pub is_hashed : Text → Bool
unfolding ends_with_brackets text_eq
is_hashed type =
    text_eq type (codes "bytes") || text_eq type (codes "string") || ends_with_brackets type

abbrev only_one : Result PyError (List Value) → Result PyError Value
only_one (err e) = err e
only_one (ok []) = err index_error
only_one (ok (value ∷ values)) = ok value

module _ (keccak : Text → List ℕ) (abi_decode : List Text → List ℕ → Result PyError (List Value))
    (passed_on : Value → Json) where
  abbrev pub hashed_or : Bool → Input → Text → Result PyError Json
  hashed_or true i topic = ok (str (lower topic))
  hashed_or false i topic = do
    payload ← bytes_of topic
    value ← only_one (abi_decode (canonical_type i ∷ []) payload)
    normalize_value passed_on i value

  -- The loop over the indexed inputs.
  unfoldable pub indexed_values : List Input → List Text → Fields → Result PyError Fields
  unfolding is_hashed normalize_value without_prefix set_field canonical_type
  indexed_values [] [] values = ok values
  indexed_values (i ∷ is) (topic ∷ topics) values = do
    value ← hashed_or (is_hashed (canonical_type i)) i topic
    indexed_values is topics (set_field (name_of i) value values)
  indexed_values _ _ values = err value_error

  -- The loop over the others.
  unfoldable pub payload_values : List Input → List Value → Fields → Result PyError Fields
  unfolding normalize_value set_field
  payload_values [] [] values = ok values
  payload_values (i ∷ is) (v ∷ vs) values = do
    value ← normalize_value passed_on i v
    payload_values is vs (set_field (name_of i) value values)
  payload_values _ _ values = err value_error

  abbrev pub with_payload : List Input → Text → Fields → Result PyError Fields
  with_payload [] payload values = ok values
  with_payload (i ∷ is) payload values = do
    bytes ← bytes_of payload
    decoded ← abi_decode (types_of (i ∷ is)) bytes
    payload_values (i ∷ is) decoded values

  abbrev pub values_if : Bool → Event → List Text → Text → Result PyError Fields
  values_if false event topics payload = err value_error
  values_if true event topics payload = do
    values ← indexed_values (selected true event.inputs) topics end
    with_payload (selected false event.inputs) payload values

  -- The values of an event, where the number of the topics after the first is that of its indexed inputs.
  unfoldable pub values_of : Event → List Text → Text → Result PyError Fields
  unfolding selected types_of indexed_values payload_values
  values_of event topics payload =
      values_if (length topics == length (selected true event.inputs)) event topics payload

  -- `self.events.get(topic)`: of events with one topic, the last.
  unfoldable pub event_at : Text → List Event → Option Event
  unfolding event_topic text_eq
  event_at topic [] = none
  event_at topic (e ∷ es) = elim (event_at topic es) [
    | some later ↦ some later
    | none ↦ if text_eq (event_topic keccak e) topic then some e else none
  ]

  abbrev pub named_values : Event → Result PyError Fields → Result PyError (Option (Text × Fields))
  named_values event (ok values) = ok (some (event.name, values))
  named_values event (err e) = err e

  abbrev pub decode_as : Option Event → List Text → Text → Result PyError (Option (Text × Fields))
  decode_as none topics payload = ok none
  decode_as (some event) topics payload = named_values event (values_of event topics payload)

  abbrev pub decode_topics : List Event → Text → List Text → Result PyError (Option (Text × Fields))
  decode_topics events payload [] = ok none
  decode_topics events payload (topic ∷ topics) =
      decode_as (event_at (lower topic) events) topics payload

  -- `EventDecoder.decode`, with the events of the contract's ABI.
  unfoldable pub decode : List Event → RpcLog → Result PyError (Option (Text × Fields))
  unfolding event_at values_of
  decode events log = decode_topics events log.payload log.topics

  -- A registered contract: its address, its name and its events.
  abbrev pub Contracts : Type 0
  Contracts = List (Text × Text × List Event)

  unfoldable pub contract_at : Text → Contracts → Option (Text × List Event)
  unfolding text_eq
  contract_at address [] = none
  contract_at address ((a, name, events) ∷ contracts) = elim (contract_at address contracts) [
    | some later ↦ some later
    | none ↦ if text_eq a address then some (name, events) else none
  ]

  abbrev pub event_of : Text → ℕ → Text → RpcLog → Text → Fields → DecodedEvent
  event_of environment chain_id contract_name log event_name args = record {
    environment = environment;
    chain_id = chain_id;
    contract_name = contract_name;
    contract_address = log.address;
    event_name = event_name;
    args = args;
    block_number = log.block_number;
    block_hash = log.block_hash;
    transaction_hash = log.transaction_hash;
    transaction_index = log.transaction_index;
    log_index = log.log_index;
    removed = log.removed;
    block_timestamp = none;
  }

  abbrev pub decoded_log :
      Text
      → ℕ
      → Text
      → RpcLog
      → Result PyError (Option (Text × Fields))
      → Result PyError (Option DecodedEvent)
  decoded_log environment chain_id contract_name log (err e) = err e
  decoded_log environment chain_id contract_name log (ok none) = ok none
  decoded_log environment chain_id contract_name log (ok (some (event_name, args))) =
      ok (some (event_of environment chain_id contract_name log event_name args))

  abbrev pub decode_by :
      Text → ℕ → Option (Text × List Event) → RpcLog → Result PyError (Option DecodedEvent)
  decode_by environment chain_id none log = ok none
  decode_by environment chain_id (some (contract_name, events)) log =
      decoded_log environment chain_id contract_name log (decode events log)

  -- `MultiContractDecoder.decode`.
  unfoldable pub decode_log : Text → ℕ → Contracts → RpcLog → Result PyError (Option DecodedEvent)
  unfolding decode contract_at
  decode_log environment chain_id contracts log =
      decode_by environment chain_id (contract_at log.address contracts) log
