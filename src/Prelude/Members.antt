-- ===== src/Prelude/Members.antt =====
-- Membership in a list by recursion, which the tactics take apart.
use Prim.Native.Nat.{ℕ, zero, suc}
use mathlib.Core.Path.{◌≡◌, refl, sym, ap, subst, ◌∙◌}
use mathlib.Core.Logic.{◌⊎◌, inl, inr}
use mathlib.Core.Bool.{Bool, true}
use mathlib.Core.List.{List, [], ◌∷◌, ◌++◌, map}
use cow_indexer.Prelude.Tests.{Bool-cases}
use cow_indexer.Prelude.Lists.{take, keep, All}

module _ {A : Type 0} where
  abbrev pub In : A → List A → Type 0
  In a [] = ⊥
  In a (x ∷ xs) = (a ≡ x) ⊎ In a xs

module _ {A : Type 0} where
  pub In-append_left : (a : A) (xs ys : List A) → In a xs → In a (xs ++ ys)
  In-append_left a [] ys h = elim h [ ]
  In-append_left a (x ∷ xs) ys (inl e) = inl e
  In-append_left a (x ∷ xs) ys (inr h) = inr (In-append_left a xs ys h)

  pub In-append_right : (a : A) (xs ys : List A) → In a ys → In a (xs ++ ys)
  In-append_right a [] ys h = h
  In-append_right a (x ∷ xs) ys h = inr (In-append_right a xs ys h)

  pub In-append : (a : A) (xs ys : List A) → In a (xs ++ ys) → In a xs ⊎ In a ys
  In-append a [] ys h = inr h
  In-append a (x ∷ xs) ys (inl e) = inl (inl e)
  In-append a (x ∷ xs) ys (inr h) = elim (In-append a xs ys h) [
    | inl k ↦ inl (inr k)
    | inr k ↦ inr k
  ]

  pub In-take : (a : A) (n : ℕ) (xs : List A) → In a (take n xs) → In a xs
  In-take a zero xs h = elim h [ ]
  In-take a (suc n) [] h = elim h [ ]
  In-take a (suc n) (x ∷ xs) (inl e) = inl e
  In-take a (suc n) (x ∷ xs) (inr h) = inr (In-take a n xs h)

  pub In-keep : (p : A → Bool) (a : A) (xs : List A) → In a (keep p xs) → In a xs × (p a ≡ true)
  In-keep p a [] h = elim h [ ]
  In-keep p a (x ∷ xs) h = elim (Bool-cases (p x)) [
    | inl e ↦ kept (rw e at h) e (In-keep p a xs)
    | inr e ↦ let (k, t) = In-keep p a xs (rw e at h) in (inr k, t)
  ]
    where
      kept :
          (a ≡ x) ⊎ In a (keep p xs)
          → p x ≡ true
          → (In a (keep p xs) → In a xs × (p a ≡ true))
          → ((a ≡ x) ⊎ In a xs) × (p a ≡ true)
      kept (inl q) e rest = (inl q, ap p q ∙ e)
      kept (inr k) e rest = let (m, t) = rest k in (inr m, t)

  pub keep-In : (p : A → Bool) (a : A) (xs : List A) → In a xs → p a ≡ true → In a (keep p xs)
  keep-In p a [] h e = elim h [ ]
  keep-In p a (x ∷ xs) (inl q) e = rw (sym (ap p q) ∙ e) (inl q)
  keep-In p a (x ∷ xs) (inr h) e = elim (Bool-cases (p x)) [
    | inl t ↦ rw t (inr (keep-In p a xs h e))
    | inr t ↦ rw t (keep-In p a xs h e)
  ]

module _ {κ} {A : Type 0} where
  pub All-In : (P : A → Type κ) (a : A) (xs : List A) → All P xs → In a xs → P a
  All-In P a [] h m = elim m [ ]
  All-In P a (x ∷ xs) h (inl e) = subst P (sym e) h.0
  All-In P a (x ∷ xs) h (inr m) = All-In P a xs h.1 m

  pub In-All : (P : A → Type κ) (xs : List A) → ((a : A) → In a xs → P a) → All P xs
  In-All P [] h = tt
  In-All P (x ∷ xs) h = (h x (inl refl), In-All P xs (λ a m. h a (inr m)))

module _ {A B : Type 0} where
  pub In-map : (f : A → B) (a : A) (xs : List A) → In a xs → In (f a) (map f xs)
  In-map f a [] h = elim h [ ]
  In-map f a (x ∷ xs) (inl e) = inl (ap f e)
  In-map f a (x ∷ xs) (inr h) = inr (In-map f a xs h)

  pub map-In : (f : A → B) (b : B) (xs : List A) → In b (map f xs) → (a : A) × In a xs × (b ≡ f a)
  map-In f b [] h = elim h [ ]
  map-In f b (x ∷ xs) (inl e) = (x, inl refl, e)
  map-In f b (x ∷ xs) (inr h) = let (a, m, e) = map-In f b xs h in (a, inr m, e)
