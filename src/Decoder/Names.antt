-- ===== src/Decoder/Names.antt =====
-- What a decoded event says of its log: src/cow_indexer/decoders/events.py.
use cow_indexer.Prelude.{
  ℕ, arith, ◌≡◌, refl, ◌∙◌, ap, sym, subst, ◌==◌, ==_iff, ◌∷◌, [], ◌↔◌, inl, inr, Bool, List,
  Option, PyError, Result, Text, err, false, if◌then◌else◌, length, none, ok, some, text_eq,
  text_eq_iff, true, In, bind-eq-ok,
}
use cow_indexer.Json.{Fields, Json, end}
use cow_indexer.Hex.{lower}
use cow_indexer.Models.{DecodedEvent, RpcLog}
use cow_indexer.Decoder.{Value, Event, event_topic}
use cow_indexer.Decoder.Logs.{
  selected, indexed_values, values_if, decode_topics, values_of, event_at, named_values, decode_as,
  decode, Contracts, contract_at, event_of, decoded_log, decode_by, decode_log,
}
use cow_indexer.Decoder.Keys.{
  keys, input_names, selected-names, indexed_values-HasKeys, with_payload-HasKeys,
}

module _ (keccak : Text → List ℕ) (abi_decode : List Text → List ℕ → Result PyError (List Value))
    (passed_on : Value → Json) where
  -- What the values of an event say.
  record IsRead (event : Event) (topics : List Text) (values : Fields) : Type 0 where
    counted : length topics ≡ length (selected true event.inputs)
    has_names : (n : Text) → In n (keys values) ↔ In n (input_names event.inputs)

  values_of-IsRead :
      (event : Event) (topics : List Text) (payload : Text) (values : Fields)
      → values_of keccak abi_decode passed_on event topics payload ≡ ok values
      → IsRead event topics values
  unfolding values_of
  values_of-IsRead event topics payload values e =
      by_count (length topics == length (selected true event.inputs)) refl e
    where
      by_count :
          (t : Bool)
          → (length topics == length (selected true event.inputs)) ≡ t
          → values_if keccak abi_decode passed_on t event topics payload ≡ ok values
          → IsRead event topics values
      by_count false c q = cc
      by_count true c q =
          let (before, rest, first) =
            bind-eq-ok
              (indexed_values keccak abi_decode passed_on (selected true event.inputs) topics end) _
              q in
          let h =
            indexed_values-HasKeys keccak abi_decode passed_on (selected true event.inputs) topics
              end before first in
          let k =
            with_payload-HasKeys keccak abi_decode passed_on (selected false event.inputs) payload
              before values rest in
          record {
            counted = (==_iff (length topics) (length (selected true event.inputs))).0 c;
            has_names = λ n. (
              (λ m. elim ((k n).0 m) [
                | inl b ↦ (selected-names n event.inputs).1 (inr b)
                | inr a ↦ elim ((h n).0 a) [
                  | inl c ↦ (selected-names n event.inputs).1 (inl c)
                  | inr z ↦ elim z [ ]
                ]
              ]),
              (λ m. elim ((selected-names n event.inputs).0 m) [
                | inl a ↦ (k n).1 (inr ((h n).1 (inl a)))
                | inr b ↦ (k n).1 (inl b)
              ]),
            );
          }

  some_event : (a b : Event) → ◌≡◌ {A = Option Event} (some a) (some b) → a ≡ b
  some_event a b e = ground arith

  event_at-topic :
      (topic : Text) (events : List Event) (event : Event)
      → event_at keccak abi_decode passed_on topic events ≡ some event
      → In event events × (event_topic keccak event ≡ topic)
  unfolding event_at
  event_at-topic topic [] event e = cc
  event_at-topic topic (first ∷ events) event e =
      by_later (event_at keccak abi_decode passed_on topic events) (event_at-topic topic events)
        refl e
    where
      by_test :
          (t : Bool)
          → text_eq (event_topic keccak first) topic ≡ t
          → (if t then some first else none) ≡ some event
          → In event (first ∷ events) × (event_topic keccak event ≡ topic)
      by_test true q r =
          let same = some_event first event r in
          (
            inl (sym same),
            ap (event_topic keccak) (sym same) ∙ (text_eq_iff (event_topic keccak first) topic).0 q,
          )
      by_test false q r = cc

      by_later :
          (o : Option Event)
          → ((event : Event)
              → event_at keccak abi_decode passed_on topic events ≡ some event
              → In event events × (event_topic keccak event ≡ topic))
          → event_at keccak abi_decode passed_on topic events ≡ o
          → (elim o as (λ _. Option Event) [
            | some later ↦ some later
            | none ↦ if text_eq (event_topic keccak first) topic then some first else none
          ])
            ≡ some event
          → In event (first ∷ events) × (event_topic keccak event ≡ topic)
      by_later none ih q r = by_test (text_eq (event_topic keccak first) topic) refl r
      by_later (some later) ih q r =
          let (there, is_topic) = ih event (q ∙ r) in (inr there, is_topic)

  -- What a decoded event says of its log and of the contracts: the contract is the one registered at
  -- the address of the log, the event is one of that contract's events, whose topic is the log's first
  -- one, with as many further topics as it has indexed inputs; the arguments have the names of its inputs
  -- and no others; and the event stands where the log stands.
  pub record IsDecoded (environment : Text) (chain_id : ℕ)
      (contracts : Contracts keccak abi_decode passed_on) (log : RpcLog) (e : DecodedEvent)
      : Type 0 where
    pub events : List Event
    pub registered :
        contract_at keccak abi_decode passed_on log.address contracts
        ≡ some (e.contract_name, events)
    pub event : Event
    pub is_event : In event events
    pub topic : Text
    pub topics : List Text
    pub all_topics : log.topics ≡ topic ∷ topics
    pub is_topic : event_topic keccak event ≡ lower topic
    pub indexed : length topics ≡ length (selected true event.inputs)
    pub all_names : (n : Text) → In n (keys e.args) ↔ In n (input_names event.inputs)
    pub stands_there :
        e
        ≡ event_of keccak abi_decode passed_on environment chain_id e.contract_name log event.name
            e.args

  module _ (environment : Text) (chain_id : ℕ) (contracts : Contracts keccak abi_decode passed_on)
      (log : RpcLog) where
    -- Of one registered contract and an event of its.
    named-IsDecoded :
        (name : Text) (events : List Event) (topic : Text) (topics : List Text)
        (found : Option Event) (e : DecodedEvent)
        → contract_at keccak abi_decode passed_on log.address contracts ≡ some (name, events)
        → log.topics ≡ topic ∷ topics
        → event_at keccak abi_decode passed_on (lower topic) events ≡ found
        → decoded_log keccak abi_decode passed_on environment chain_id name log
            (decode_as keccak abi_decode passed_on found topics log.payload)
          ≡ ok (some e)
        → IsDecoded environment chain_id contracts log e
    named-IsDecoded name events topic topics none e registered all_topics at q = cc
    named-IsDecoded name events topic topics (some event) e registered all_topics at q =
        by_values (values_of keccak abi_decode passed_on event topics log.payload) refl q
      where
        decoded_event : Fields → DecodedEvent
        decoded_event values =
            event_of keccak abi_decode passed_on environment chain_id name log event.name values

        same_event :
            (a b : DecodedEvent)
            → ◌≡◌ {A = Result PyError (Option DecodedEvent)} (ok (some a)) (ok (some b))
            → a ≡ b
        same_event a b r = ground arith

        by_values :
            (r : Result PyError Fields)
            → values_of keccak abi_decode passed_on event topics log.payload ≡ r
            → decoded_log keccak abi_decode passed_on environment chain_id name log
                (named_values keccak abi_decode passed_on event r)
              ≡ ok (some e)
            → IsDecoded environment chain_id contracts log e
        by_values (err error) v k = cc
        by_values (ok values) v k =
            let read = values_of-IsRead event topics log.payload values v in
            let (there, is_topic) = event_at-topic (lower topic) events event at in
            subst (IsDecoded environment chain_id contracts log)
              (same_event (decoded_event values) e k)
              (record {
                events = events;
                registered = registered;
                event = event;
                is_event = there;
                topic = topic;
                topics = topics;
                all_topics = all_topics;
                is_topic = is_topic;
                indexed = read.counted;
                all_names = read.has_names;
                stands_there = refl;
              })

    contract-IsDecoded :
        (contract : Option (Text × List Event)) (topics : List Text) (e : DecodedEvent)
        → contract_at keccak abi_decode passed_on log.address contracts ≡ contract
        → log.topics ≡ topics
        → decode_by keccak abi_decode passed_on environment chain_id contract log ≡ ok (some e)
        → IsDecoded environment chain_id contracts log e
    unfolding decode
    contract-IsDecoded none topics e registered all_topics q = cc
    contract-IsDecoded (some (name, events)) [] e registered all_topics q = absurd (
        cc (
          sym (
            ap
              (λ ts.
                decoded_log keccak abi_decode passed_on environment chain_id name log
                  (decode_topics keccak abi_decode passed_on events log.payload ts))
              all_topics)
          ∙ q))
    contract-IsDecoded (some (name, events)) (topic ∷ topics) e registered all_topics q =
        named-IsDecoded name events topic topics
          (event_at keccak abi_decode passed_on (lower topic) events) e registered all_topics refl
          (sym (
              ap
                (λ ts.
                  decoded_log keccak abi_decode passed_on environment chain_id name log
                    (decode_topics keccak abi_decode passed_on events log.payload ts))
                all_topics)
            ∙ q)

    -- A log that is decoded to an event is decoded to what it says: the event, its contract and its place
    -- are those of the log, and its arguments are named exactly as the inputs of the event.
    pub decode_log-IsDecoded :
        (e : DecodedEvent)
        → decode_log keccak abi_decode passed_on environment chain_id contracts log ≡ ok (some e)
        → IsDecoded environment chain_id contracts log e
    unfolding decode_log
    decode_log-IsDecoded e q =
        contract-IsDecoded (contract_at keccak abi_decode passed_on log.address contracts)
          log.topics e refl refl q
