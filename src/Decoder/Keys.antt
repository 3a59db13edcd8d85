-- ===== src/Decoder/Keys.antt =====
-- The names of the arguments of a decoded event: src/cow_indexer/decoders/events.py.
use cow_indexer.Prelude.{
  ℕ, arith, ◌≡◌, refl, ◌∙◌, sym, subst, ◌∷◌, [], ◌⊎◌, ◌↔◌, inl, inr, Bool, List, PyError, Result,
  Text, false, if◌then◌else◌, ok, text_eq, text_eq_iff, true, In, map, bind-eq-ok,
}
use cow_indexer.Json.{Fields, Json, end, field, set_field}
use cow_indexer.Decoder.{
  Input, Inputs, no_inputs, more, Value, name_of, is_indexed, canonical_type, normalize_value,
}
use cow_indexer.Decoder.Logs.{
  selected, is_hashed, hashed_or, indexed_values, payload_values, with_payload, bytes_of, types_of,
}

abbrev pub keys : Fields → List Text
keys end = []
keys (field name value rest) = name ∷ keys rest

abbrev pub names : List Input → List Text
names is = map name_of is

abbrev pub input_names : Inputs → List Text
input_names no_inputs = []
input_names (more i is) = name_of i ∷ input_names is

-- The keys after one more value.
keys-set_field :
    (n name : Text) (value : Json) (fields : Fields)
    → In n (keys (set_field name value fields)) ↔ ((n ≡ name) ⊎ In n (keys fields))
unfolding set_field
keys-set_field n name value end = (λ h. h, λ h. h)
keys-set_field n name value (field k v rest) =
    by_test (text_eq k name) refl (keys-set_field n name value rest)
  where
    by_test :
        (t : Bool)
        → text_eq k name ≡ t
        → (In n (keys (set_field name value rest)) ↔ ((n ≡ name) ⊎ In n (keys rest)))
        → In n (keys (if t then field k value rest else field k v (set_field name value rest)))
          ↔ ((n ≡ name) ⊎ In n (k ∷ keys rest))
    by_test true e ih = (inr, forget)
      where
        forget : (n ≡ name) ⊎ ((n ≡ k) ⊎ In n (keys rest)) → (n ≡ k) ⊎ In n (keys rest)
        forget (inl q) = inl (q ∙ sym ((text_eq_iff k name).0 e))
        forget (inr h) = h
    by_test false e ih = (forth, back)
      where
        forth :
            (n ≡ k) ⊎ In n (keys (set_field name value rest))
            → (n ≡ name) ⊎ ((n ≡ k) ⊎ In n (keys rest))
        forth (inl q) = inr (inl q)
        forth (inr h) = elim (ih.0 h) [ inl q ↦ inl q | inr m ↦ inr (inr m) ]

        back :
            (n ≡ name) ⊎ ((n ≡ k) ⊎ In n (keys rest))
            → (n ≡ k) ⊎ In n (keys (set_field name value rest))
        back (inl q) = inr (ih.1 (inl q))
        back (inr (inl q)) = inl q
        back (inr (inr m)) = inr (ih.1 (inr m))

-- The names of the inputs are those of the indexed ones and of the others.
pub selected-names :
    (n : Text) (is : Inputs)
    → In n (input_names is) ↔ (In n (names (selected true is)) ⊎ In n (names (selected false is)))
unfolding selected
selected-names n no_inputs = (λ h. inl h, λ h. elim h [ inl m ↦ m | inr m ↦ m ])
selected-names n (more i is) = by_side (is_indexed i) (selected-names n is)
  where
    by_side :
        (t : Bool)
        → (In n (input_names is)
            ↔ (In n (names (selected true is)) ⊎ In n (names (selected false is))))
        → ((n ≡ name_of i) ⊎ In n (input_names is)) ↔ (
            In n (names (if t then i ∷ selected true is else selected true is))
            ⊎ In n (names (if t then selected false is else i ∷ selected false is)))
    by_side true (forth, back) = (
      (λ h. elim h [
        | inl q ↦ inl (inl q)
        | inr m ↦ elim (forth m) [ inl a ↦ inl (inr a) | inr b ↦ inr b ]
      ]),
      (λ h. elim h [
        | inl k ↦ elim k [ inl q ↦ inl q | inr a ↦ inr (back (inl a)) ]
        | inr b ↦ inr (back (inr b))
      ]),
    )
    by_side false (forth, back) = (
      (λ h. elim h [
        | inl q ↦ inr (inl q)
        | inr m ↦ elim (forth m) [ inl a ↦ inl a | inr b ↦ inr (inr b) ]
      ]),
      (λ h. elim h [
        | inl a ↦ inr (back (inl a))
        | inr k ↦ elim k [ inl q ↦ inl q | inr b ↦ inr (back (inr b)) ]
      ]),
    )

module _ (keccak : Text → List ℕ) (abi_decode : List Text → List ℕ → Result PyError (List Value))
    (passed_on : Value → Json) where
  abbrev pub HasKeys : List Input → Fields → Fields → Type 0
  HasKeys is before values =
      (n : Text) → In n (keys values) ↔ (In n (names is) ⊎ In n (keys before))

  HasKeys-none : (before : Fields) → HasKeys [] before before
  HasKeys-none before n = (inr, λ h. elim h [ inl m ↦ elim m [ ] | inr m ↦ m ])

  HasKeys-more :
      (i : Input) (is : List Input) (value : Json) (before values : Fields)
      → HasKeys is (set_field (name_of i) value before) values
      → HasKeys (i ∷ is) before values
  HasKeys-more i is value before values h n = (
    (λ m. elim ((h n).0 m) [
      | inl a ↦ inl (inr a)
      | inr k ↦ elim ((keys-set_field n (name_of i) value before).0 k) [
        | inl q ↦ inl (inl q)
        | inr b ↦ inr b
      ]
    ]),
    (λ m. elim m [
      | inl a ↦ elim a [
        | inl q ↦ (h n).1 (inr ((keys-set_field n (name_of i) value before).1 (inl q)))
        | inr r ↦ (h n).1 (inl r)
      ]
      | inr b ↦ (h n).1 (inr ((keys-set_field n (name_of i) value before).1 (inr b)))
    ]),
  )

  fields_injective : (a b : Fields) → ◌≡◌ {A = Result PyError Fields} (ok a) (ok b) → a ≡ b
  fields_injective a b e = ground arith

  pub indexed_values-HasKeys :
      (is : List Input) (topics : List Text) (before values : Fields)
      → indexed_values keccak abi_decode passed_on is topics before ≡ ok values
      → HasKeys is before values
  unfolding indexed_values
  indexed_values-HasKeys [] [] before values e =
      subst (HasKeys [] before) (fields_injective before values e) (HasKeys-none before)
  indexed_values-HasKeys [] (topic ∷ topics) before values e = cc
  indexed_values-HasKeys (i ∷ is) [] before values e = cc
  indexed_values-HasKeys (i ∷ is) (topic ∷ topics) before values e =
      let (value, rest, _) =
        bind-eq-ok (hashed_or keccak abi_decode passed_on (is_hashed (canonical_type i)) i topic) _
          e in
      HasKeys-more i is value before values
        (indexed_values-HasKeys is topics (set_field (name_of i) value before) values rest)

  payload_values-HasKeys :
      (is : List Input) (vs : List Value) (before values : Fields)
      → payload_values keccak abi_decode passed_on is vs before ≡ ok values
      → HasKeys is before values
  unfolding payload_values
  payload_values-HasKeys [] [] before values e =
      subst (HasKeys [] before) (fields_injective before values e) (HasKeys-none before)
  payload_values-HasKeys [] (v ∷ vs) before values e = cc
  payload_values-HasKeys (i ∷ is) [] before values e = cc
  payload_values-HasKeys (i ∷ is) (v ∷ vs) before values e =
      let (value, rest, _) = bind-eq-ok (normalize_value passed_on i v) _ e in
      HasKeys-more i is value before values
        (payload_values-HasKeys is vs (set_field (name_of i) value before) values rest)

  pub with_payload-HasKeys :
      (is : List Input) (payload : Text) (before values : Fields)
      → with_payload keccak abi_decode passed_on is payload before ≡ ok values
      → HasKeys is before values
  with_payload-HasKeys [] payload before values e =
      subst (HasKeys [] before) (fields_injective before values e) (HasKeys-none before)
  with_payload-HasKeys (i ∷ is) payload before values e =
      let (bytes, rest, _) = bind-eq-ok (bytes_of payload) _ e in
      let (decoded, last, _) = bind-eq-ok (abi_decode (types_of (i ∷ is)) bytes) _ rest in
      payload_values-HasKeys (i ∷ is) decoded before values last
