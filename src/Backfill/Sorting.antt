-- ===== src/Backfill/Sorting.antt =====
-- Sorting of texts, as the key of a batch of order UIDs sorts them.
use mathlib.Core.List.{Permᴰ}
use mathlib.Core.List.Permᴰ
use cow_indexer.Prelude.{
  arith, ◌≡◌, refl, ◌∙◌, ap, sym, true, false, List, [], ◌∷◌, Text, Bool-cases, inl, inr, All,
  length, suc, ap₂, subst,
}
use cow_indexer.Backfill.{text_le, insert, sorted}

-- Each text is below all the later ones.
abbrev pub IsAscending : List Text → Type 0
IsAscending [] = Unit
IsAscending (s ∷ ts) = All (λ t. text_le s t ≡ true) ts × IsAscending ts

text_le_total : (s t : Text) → text_le s t ≡ false → text_le t s ≡ true
unfolding text_le
text_le_total [] t h = cc
text_le_total (c ∷ s) [] h = refl
text_le_total (c ∷ s) (d ∷ t) h = ground (arith, text_le_total s t)

text_le_antisymm : (s t : Text) → text_le s t ≡ true → text_le t s ≡ true → s ≡ t
unfolding text_le
text_le_antisymm [] [] h k = refl
text_le_antisymm [] (d ∷ t) h k = cc
text_le_antisymm (c ∷ s) [] h k = cc
text_le_antisymm (c ∷ s) (d ∷ t) h k = ground (arith, text_le_antisymm s t)

text_le_trans : (s t u : Text) → text_le s t ≡ true → text_le t u ≡ true → text_le s u ≡ true
unfolding text_le
text_le_trans [] t u h k = refl
text_le_trans (c ∷ s) [] u h k = cc
text_le_trans (c ∷ s) (d ∷ t) [] h k = cc
text_le_trans (c ∷ s) (d ∷ t) (e ∷ u) h k = ground (arith, text_le_trans s t u)

insert-first : (s t : Text) (ts : List Text) → text_le s t ≡ true → insert s (t ∷ ts) ≡ s ∷ t ∷ ts
unfolding insert
insert-first s t ts h = rw (h, insert) refl

insert-later :
    (s t : Text) (ts : List Text) → text_le s t ≡ false → insert s (t ∷ ts) ≡ t ∷ insert s ts
unfolding insert
insert-later s t ts h = rw (h, insert) refl

-- Of two texts that each go first, the order of insertion does not matter.
insert_comm_first :
    (s t : Text) (us : List Text)
    → insert s us ≡ s ∷ us
    → insert t us ≡ t ∷ us
    → insert s (t ∷ us) ≡ insert t (s ∷ us)
insert_comm_first s t us h k = elim (Bool-cases (text_le s t)) [
  | inl a ↦ elim (Bool-cases (text_le t s)) [
    | inl b ↦
        let e = text_le_antisymm s t a b in
        insert-first s t us a
        ∙ ap (λ u. u ∷ t ∷ us) e
        ∙ ap (λ u. t ∷ u ∷ us) (sym e)
        ∙ sym (insert-first t s us b)
    | inr b ↦ insert-first s t us a ∙ sym (insert-later t s us b ∙ ap (◌∷◌ s) k)
  ]
  | inr a ↦ elim (Bool-cases (text_le t s)) [
    | inl b ↦ insert-later s t us a ∙ ap (◌∷◌ t) h ∙ sym (insert-first t s us b)
    | inr b ↦ absurd (cc (text_le_total s t a, b))
  ]
]

module _ (s t u : Text) (us : List Text) where
  -- The first goes before the head, the second after it.
  insert_comm_around :
      text_le s u ≡ true
      → text_le t u ≡ false
      → insert s (insert t (u ∷ us)) ≡ insert t (insert s (u ∷ us))
  insert_comm_around h k =
      ap (insert s) (insert-later t u us k)
      ∙ insert-first s u (insert t us) h
      ∙ ap (◌∷◌ s) (sym (insert-later t u us k))
      ∙ sym (insert-later t s (u ∷ us) above)
      ∙ ap (insert t) (sym (insert-first s u us h))
    where
      above : text_le t s ≡ false
      above = elim (Bool-cases (text_le t s)) [
        | inl e ↦ absurd (cc (text_le_trans t s u e h, k))
        | inr e ↦ e
      ]

insert_comm : (s t : Text) (us : List Text) → insert s (insert t us) ≡ insert t (insert s us)
unfolding insert
insert_comm s t [] = insert_comm_first s t [] refl refl
insert_comm s t (u ∷ us) = elim (Bool-cases (text_le s u)) [
  | inl h ↦ elim (Bool-cases (text_le t u)) [
    | inl k ↦
        ap (insert s) (insert-first t u us k)
        ∙ insert_comm_first s t (u ∷ us) (insert-first s u us h) (insert-first t u us k)
        ∙ ap (insert t) (sym (insert-first s u us h))
    | inr k ↦ insert_comm_around s t u us h k
  ]
  | inr h ↦ elim (Bool-cases (text_le t u)) [
    | inl k ↦ sym (insert_comm_around t s u us k h)
    | inr k ↦
        ap (insert s) (insert-later t u us k)
        ∙ insert-later s u (insert t us) h
        ∙ ap (◌∷◌ u) (insert_comm s t us)
        ∙ sym (insert-later t u (insert s us) k)
        ∙ ap (insert t) (sym (insert-later s u us h))
  ]
]

-- What is sorted forgets the order.
pub sorted-Permᴰ : (ss ts : List Text) → Permᴰ ss ts → sorted ss ≡ sorted ts
unfolding sorted
sorted-Permᴰ ss ts Permᴰ.nil = refl
sorted-Permᴰ (s ∷ ss) (t ∷ ts) (Permᴰ.cons e p) = ap₂ insert e (sorted-Permᴰ ss ts p)
sorted-Permᴰ (s ∷ t ∷ us) (t' ∷ s' ∷ us') (Permᴰ.swap e k) =
    insert_comm s t (sorted us) ∙ ap₂ (λ a b. insert a (insert b (sorted us))) k e
sorted-Permᴰ ss ts (Permᴰ.trans {l₂ = us} p q) = sorted-Permᴰ ss us p ∙ sorted-Permᴰ us ts q

insert-Permᴰ : (s : Text) (ts : List Text) → Permᴰ (insert s ts) (s ∷ ts)
unfolding insert
insert-Permᴰ s [] = Permᴰ.refl (s ∷ [])
insert-Permᴰ s (t ∷ ts) = elim (Bool-cases (text_le s t)) [
  | inl h ↦
      subst (λ us. Permᴰ us (s ∷ t ∷ ts)) (sym (insert-first s t ts h)) (Permᴰ.refl (s ∷ t ∷ ts))
  | inr h ↦
      subst (λ us. Permᴰ us (s ∷ t ∷ ts)) (sym (insert-later s t ts h))
        (Permᴰ.trans (Permᴰ.cons refl (insert-Permᴰ s ts)) (Permᴰ.swap refl refl))
]

pub sorted-is_Permᴰ : (ts : List Text) → Permᴰ (sorted ts) ts
unfolding sorted
sorted-is_Permᴰ [] = Permᴰ.nil
sorted-is_Permᴰ (t ∷ ts) =
    Permᴰ.trans (insert-Permᴰ t (sorted ts)) (Permᴰ.cons refl (sorted-is_Permᴰ ts))

-- A property of all the texts is one of the sorted texts.
pub All-Permᴰ : (P : Text → Type 0) (ss ts : List Text) → Permᴰ ss ts → All P ss → All P ts
All-Permᴰ P ss ts Permᴰ.nil h = tt
All-Permᴰ P (s ∷ ss) (t ∷ ts) (Permᴰ.cons e p) h = (subst P e h.0, All-Permᴰ P ss ts p h.1)
All-Permᴰ P (s ∷ t ∷ us) (t' ∷ s' ∷ us') (Permᴰ.swap e k) h =
    (subst P k h.1.0, (subst P e h.0, h.1.1))
All-Permᴰ P ss ts (Permᴰ.trans {l₂ = us} p q) h = All-Permᴰ P us ts q (All-Permᴰ P ss us p h)

pub length-Permᴰ : (ss ts : List Text) → Permᴰ ss ts → length ss ≡ length ts
length-Permᴰ ss ts Permᴰ.nil = refl
length-Permᴰ (s ∷ ss) (t ∷ ts) (Permᴰ.cons e p) = ap suc (length-Permᴰ ss ts p)
length-Permᴰ (s ∷ t ∷ us) (t' ∷ s' ∷ us') (Permᴰ.swap e k) = refl
length-Permᴰ ss ts (Permᴰ.trans {l₂ = us} p q) = length-Permᴰ ss us p ∙ length-Permᴰ us ts q

below_each :
    (s t : Text) (us : List Text)
    → text_le s t ≡ true
    → All (λ u. text_le t u ≡ true) us
    → All (λ u. text_le s u ≡ true) us
below_each s t [] h k = tt
below_each s t (u ∷ us) h k = (text_le_trans s t u h k.0, below_each s t us h k.1)

insert-IsAscending : (s : Text) (ts : List Text) → IsAscending ts → IsAscending (insert s ts)
unfolding insert
insert-IsAscending s [] h = (tt, tt)
insert-IsAscending s (t ∷ ts) h = elim (Bool-cases (text_le s t)) [
  | inl e ↦ subst IsAscending (sym (insert-first s t ts e)) ((e, below_each s t ts e h.0), h)
  | inr e ↦ subst IsAscending (sym (insert-later s t ts e)) (
    All-Permᴰ (λ u. text_le t u ≡ true) (s ∷ ts) (insert s ts) (Permᴰ.symm (insert-Permᴰ s ts))
        (text_le_total s t e, h.0),
    insert-IsAscending s ts h.1,
  )
]

pub sorted-IsAscending : (ts : List Text) → IsAscending (sorted ts)
unfolding sorted
sorted-IsAscending [] = tt
sorted-IsAscending (t ∷ ts) = insert-IsAscending t (sorted ts) (sorted-IsAscending ts)
