-- ===== src/Batches.antt =====
-- Lists in batches of a size: `batched` of src/cow_indexer/utils.py.
use cow_indexer.Prelude.{
  ℕ, arith, ◌==◌, ◌≤◌, ◌<◌, ◌≡◌, refl, ap, sym, true, false, ◌+◌, ◌∙◌, List, [], ◌∷◌, ◌++◌, All,
  length, length-append, if◌then◌else◌, Bool-cases, inl, inr, Result, ok, err, PyError, value_error,
}

module _ {A : Type 0} where
  unfoldable pub flush : List A → List (List A)
  flush [] = []
  flush (x ∷ xs) = (x ∷ xs) ∷ []

  -- The loop, with the batch so far.
  unfoldable pub batched_from : ℕ → List A → List A → List (List A)
  unfolding flush
  batched_from size batch [] = flush batch
  batched_from size batch (v ∷ vs) =
      let full = batched_from size [] vs in
      let filling = batched_from size (batch ++ (v ∷ [])) vs in
      if length (batch ++ (v ∷ [])) == size then (batch ++ (v ∷ [])) ∷ full else filling

  unfoldable pub batched : ℕ → List A → Result PyError (List (List A))
  unfolding batched_from
  batched size values = if size == 0 then err value_error else ok (batched_from size [] values)

  unfoldable pub concat : List (List A) → List A
  concat [] = []
  concat (b ∷ bs) = b ++ concat bs

  pub append_assoc : (xs ys zs : List A) → (xs ++ ys) ++ zs ≡ xs ++ (ys ++ zs)
  append_assoc [] ys zs = refl
  append_assoc (x ∷ xs) ys zs = ap (◌∷◌ x) (append_assoc xs ys zs)

  pub append_nil : (xs : List A) → xs ++ [] ≡ xs
  append_nil [] = refl
  append_nil (x ∷ xs) = ap (◌∷◌ x) (append_nil xs)

  abbrev pub IsBatch : ℕ → List A → Type 0
  IsBatch size batch = (0 < length batch) × (length batch ≤ size)

  -- The batches of values in a row: each one is full but the last, which holds at least one value
  -- and at most as many as a full one.
  unfoldable pub AreBatches : ℕ → List (List A) → Type 0
  AreBatches size [] = Unit
  AreBatches size (b ∷ []) = IsBatch size b
  AreBatches size (b ∷ c ∷ bs) = (length b ≡ size) × AreBatches size (c ∷ bs)

  AreBatches-full :
      (size : ℕ) (b : List A) (bs : List (List A))
      → 0 < size
      → length b ≡ size
      → AreBatches size bs
      → AreBatches size (b ∷ bs)
  unfolding AreBatches
  AreBatches-full size b [] h e k = (omega (arith, h, e), omega (arith, e))
  AreBatches-full size b (c ∷ bs) h e k = (e, k)

  pub concat-batched_from :
      (size : ℕ) (batch vs : List A) → concat (batched_from size batch vs) ≡ batch ++ vs
  unfolding concat batched_from flush
  concat-batched_from size [] [] = refl
  concat-batched_from size (b ∷ bs) [] = refl
  concat-batched_from size batch (v ∷ vs) = elim (Bool-cases (length (batch ++ (v ∷ [])) == size)) [
    | inl e ↦
        rw (e, batched_from)
          (ap (◌++◌ (batch ++ (v ∷ []))) (concat-batched_from size [] vs)
            ∙ append_assoc batch (v ∷ []) vs)
    | inr e ↦
        rw (e, batched_from)
          (concat-batched_from size (batch ++ (v ∷ [])) vs ∙ append_assoc batch (v ∷ []) vs)
  ]

  batched_from-AreBatches :
      (size : ℕ) (batch vs : List A)
      → length batch < size
      → AreBatches size (batched_from size batch vs)
  unfolding batched_from flush AreBatches
  batched_from-AreBatches size [] [] h = tt
  batched_from-AreBatches size (b ∷ bs) [] h = (omega arith, omega arith)
  batched_from-AreBatches size batch (v ∷ vs) h =
      let longer = length-append batch (v ∷ []) in
      elim (Bool-cases (length (batch ++ (v ∷ [])) == size)) [
        | inl e ↦
            rw (e, batched_from)
              (AreBatches-full size (batch ++ (v ∷ [])) (batched_from size [] vs) (omega (arith, h))
                (grind arith) (batched_from-AreBatches size [] vs (omega (arith, h))))
        | inr e ↦
            rw (e, batched_from)
              (batched_from-AreBatches size (batch ++ (v ∷ [])) vs (grind (arith, longer)))
      ]

  -- With a positive size, `batched` returns batches that are all of just that size but for the last,
  -- which is not empty and not above the size, and together, in their order, they are the values.
  pub batched-AreBatches :
      (size : ℕ) (values : List A)
      → 0 < size
      → (batches : List (List A)) × (batched size values ≡ ok batches)
        × AreBatches size batches
        × (concat batches ≡ values)
  unfolding batched
  batched-AreBatches size values h = (
    batched_from size [] values,
    ground arith,
    batched_from-AreBatches size [] values h,
    concat-batched_from size [] values,
  )

module _ {A : Type 0} (size : ℕ) where
  more-full :
      (batch : List A) (v : A) (vs : List A)
      → length batch + length (v ∷ vs) ≡ size
      → 0 < length vs
      → (length (batch ++ (v ∷ [])) == size) ≡ false
  more-full batch v vs e k = grind (arith, length-append batch (v ∷ []))

  -- A batch is completed by as many values as it wants.
  pub batched_from-full :
      (batch more vs : List A)
      → 0 < length more
      → length batch + length more ≡ size
      → batched_from size batch (more ++ vs) ≡ (batch ++ more) ∷ batched_from size [] vs
  unfolding batched_from
  batched_from-full batch [] vs k e = absurd (omega arith)
  batched_from-full batch (v ∷ []) vs k e =
      let full : (length (batch ++ (v ∷ [])) == size) ≡ true =
        grind (arith, length-append batch (v ∷ [])) in
      rw (full, batched_from) refl
  batched_from-full batch (v ∷ w ∷ more) vs k e =
      let part = more-full batch v (w ∷ more) e (omega arith) in
      rw (part, batched_from)
        (batched_from-full (batch ++ (v ∷ [])) (w ∷ more) vs (omega arith)
            (grind (arith, length-append batch (v ∷ [])))
          ∙ ap (λ b. b ∷ batched_from size [] vs) (append_assoc batch (v ∷ []) (w ∷ more)))

  -- Fewer values stay one batch.
  pub batched_from-short :
      (batch more : List A)
      → length batch + length more < size
      → batched_from size batch more ≡ flush (batch ++ more)
  unfolding batched_from
  batched_from-short batch [] e = ap flush (sym (append_nil batch))
  batched_from-short batch (v ∷ more) e =
      let part : (length (batch ++ (v ∷ [])) == size) ≡ false =
        grind (arith, length-append batch (v ∷ [])) in
      rw (part, batched_from)
        (batched_from-short (batch ++ (v ∷ [])) more (grind (arith, length-append batch (v ∷ [])))
          ∙ ap flush (append_assoc batch (v ∷ []) more))

  -- Full batches and a rest that is none are the batches of all of it.
  pub batched_from-concat :
      (batches : List (List A)) (rest : List A)
      → All (λ b. length b ≡ size) batches
      → length rest < size
      → batched_from size [] (concat batches ++ rest) ≡ batches ++ flush rest
  unfolding concat
  batched_from-concat [] rest h k = batched_from-short [] rest (omega (arith, k))
  batched_from-concat (b ∷ bs) rest h k =
      ap (batched_from size []) (append_assoc b (concat bs) rest)
      ∙ batched_from-full [] b (concat bs ++ rest) (omega (arith, h.0, k)) (omega (arith, h.0))
      ∙ ap (◌∷◌ b) (batched_from-concat bs rest h.1 k)

module _ {A : Type 0} where
  pub concat-append : (bs cs : List (List A)) → concat (bs ++ cs) ≡ concat bs ++ concat cs
  unfolding concat
  concat-append [] cs = refl
  concat-append (b ∷ bs) cs =
      ap (◌++◌ b) (concat-append bs cs) ∙ sym (append_assoc b (concat bs) (concat cs))
