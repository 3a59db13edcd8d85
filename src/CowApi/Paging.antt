-- ===== src/CowApi/Paging.antt =====
-- The loops over pages of `iter_account_orders` and `iter_trades`, src/cow_indexer/sources/cow_api.py,
-- with the request of a page, by its offset, as a parameter.
use cow_indexer.Prelude.{
  ℕ, zero, suc, arith, ◌+◌, ◌-◌, ◌≤◌, ◌<◌, ◌≡◌, refl, ◌∙◌, ap, sym, ltb, Bool-cases, inl, inr,
  if◌then◌else◌, List, [], ◌∷◌, ◌++◌, length, take, drop, length-take, length-drop,
  take-append-drop, Result, ok, err,
}
use cow_indexer.Batches.{concat, append_nil}

pub data PagesEnd (E : Type 0) : Type 0 where
  finished : PagesEnd E
  failed : E → PagesEnd E
  out_of_fuel : PagesEnd E

module _ {A E : Type 0} (fetch : ℕ → Result E (List A)) (limit : ℕ) where
  -- `if rows: yield rows`.
  unfoldable pub yielded : List A → List (List A) → List (List A)
  yielded [] later = later
  yielded (row ∷ rows) later = (row ∷ rows) ∷ later

  unfoldable pub next_page :
      (ℕ → List (List A) × PagesEnd E) → ℕ → Result E (List A) → List (List A) × PagesEnd E
  unfolding yielded
  next_page again offset (err e) = ([], failed e)
  next_page again offset (ok rows) =
      if ltb (length rows) limit
      then (yielded rows [], finished)
      else (let later = again (offset + length rows) in (yielded rows later.0, later.1))

  unfoldable pub pages : ℕ → ℕ → List (List A) × PagesEnd E
  unfolding next_page
  pages zero offset = ([], out_of_fuel)
  pages (suc fuel) offset = next_page (pages fuel) offset (fetch offset)

  concat-yielded :
      (rows : List A) (later : List (List A)) → concat (yielded rows later) ≡ rows ++ concat later
  unfolding yielded concat
  concat-yielded [] later = refl
  concat-yielded (row ∷ rows) later = refl

drop-nil : {A : Type 0} (n : ℕ) → drop {A = A} n [] ≡ []
drop-nil zero = refl
drop-nil (suc n) = refl

drop-drop : {A : Type 0} (n m : ℕ) (xs : List A) → drop m (drop n xs) ≡ drop (n + m) xs
drop-drop zero m xs = ap (λ k. drop k xs) (omega arith)
drop-drop (suc n) m [] = drop-nil m ∙ sym (drop-nil (suc n + m))
drop-drop (suc n) m (x ∷ xs) = drop-drop n m xs ∙ ap (λ k. drop k (x ∷ xs)) (next n m)
  where
    next : (n m : ℕ) → suc (n + m) ≡ suc n + m
    next n m = omega arith

take-all : {A : Type 0} (n : ℕ) (xs : List A) → length xs ≤ n → take n xs ≡ xs
take-all zero [] h = refl
take-all zero (x ∷ xs) h = absurd (omega arith)
take-all (suc n) [] h = refl
take-all (suc n) (x ∷ xs) h = ap (◌∷◌ x) (take-all n xs (omega arith))

-- A server that holds a list and answers with a slice of it.
abbrev pub Serves : {A E : Type 0} → (ℕ → Result E (List A)) → ℕ → List A → Type 0
Serves fetch limit all = (offset : ℕ) → fetch offset ≡ ok (take limit (drop offset all))

module _ {A E : Type 0} (fetch : ℕ → Result E (List A)) (limit : ℕ) (all : List A)
    (positive : 0 < limit) (serves : Serves fetch limit all) where
  pages_from :
      (fuel offset : ℕ)
      → length all - offset < fuel
      → ((pages fetch limit fuel offset).1 ≡ finished)
        × (concat (pages fetch limit fuel offset).0 ≡ drop offset all)
  unfolding pages next_page concat
  pages_from zero offset h = absurd (omega arith)
  pages_from (suc fuel) offset h =
      let rows = take limit (drop offset all) in
      let left = length-drop offset all in
      let count = length-take limit (drop offset all) in
      let parts = take-append-drop limit (drop offset all) in
      elim (Bool-cases (ltb (length rows) limit)) [
        | inl short ↦ (
          rw (serves offset, next_page, short) refl,
          rw (serves offset, next_page, short)
              (concat-yielded fetch limit rows []
                ∙ append_nil rows
                ∙ take-all limit (drop offset all) (grind (arith, count))),
        )
        | inr full ↦
            (let size : length rows ≡ limit = grind (arith, count) in
              let next = pages_from fuel (offset + length rows) (grind (arith, left, count)) in
              (
                rw (serves offset, next_page, full) next.0,
                rw (serves offset, next_page, full)
                    (concat-yielded fetch limit rows _
                      ∙ ap (λ later. rows ++ later)
                          (next.1
                            ∙ ap (λ k. drop (offset + k) all) size
                            ∙ sym (drop-drop offset limit all))
                      ∙ parts),
              ))
      ]

  -- Against a server that answers with slices of a fixed list, for a positive limit and as many
  -- rounds as the list has rows and one more, the loop over pages finishes and yields all the rows,
  -- each once and in order.
  pub concat-pages :
      ((pages fetch limit (length all + 1) 0).1 ≡ finished)
      × (concat (pages fetch limit (length all + 1) 0).0 ≡ all)
  concat-pages = pages_from (length all + 1) 0 (omega arith)
