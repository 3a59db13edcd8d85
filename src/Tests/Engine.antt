-- ===== src/Tests/Engine.antt =====
-- A database engine that meets what the queue expects of ClickHouse: of each identity it keeps the
-- row of the highest revision, the later one of two equals, and it leaves the order alone.
use mathlib.Core.Bool.{false≢true}
use cow_indexer.Prelude.{
  ◌≤◌, ◌<◌, ◌≡◌, refl, sym, ap, ◌∙◌, ◌↔◌, ◌⊎◌, inl, inr, Bool, true, false, not, ◌&&◌, ◌||◌, List,
  [], ◌∷◌, arith, leb, ◌==◌, Bool-cases, if◌then◌else◌, keep, text_eq, text_eq_iff, In, In-keep,
  keep-In,
}
use cow_indexer.WorkQueue.{WorkRow, identity, Engine}

unfoldable pub same_identity : WorkRow → WorkRow → Bool
same_identity r s =
    text_eq r.environment s.environment && (r.chain_id == s.chain_id && text_eq r.work_id s.work_id)

same_identity_iff : (r s : WorkRow) → (same_identity r s ≡ true) ↔ (identity r ≡ identity s)
unfolding same_identity
same_identity_iff r s = (forth, back)
  where
    forth :
        text_eq r.environment s.environment
            && (r.chain_id == s.chain_id && text_eq r.work_id s.work_id)
          ≡ true
        → identity r ≡ identity s
    forth h =
        ground (arith, text_eq_iff r.environment s.environment, text_eq_iff r.work_id s.work_id)

    back :
        identity r ≡ identity s
        → text_eq r.environment s.environment
            && (r.chain_id == s.chain_id && text_eq r.work_id s.work_id)
          ≡ true
    back h =
        ground (arith, text_eq_iff r.environment s.environment, text_eq_iff r.work_id s.work_id)

unfoldable pub beaten : WorkRow → List WorkRow → Bool
beaten r [] = false
beaten r (s ∷ l) = (same_identity r s && leb r.revision s.revision) || beaten r l

beaten_sound :
    (r : WorkRow) (l : List WorkRow)
    → beaten r l ≡ true
    → (s : WorkRow) × In s l × (identity s ≡ identity r) × (r.revision ≤ s.revision)
unfolding beaten
beaten_sound r [] h = cc
beaten_sound r (s ∷ l) h = elim (Bool-cases (same_identity r s && leb r.revision s.revision)) [
  | inl e ↦ (s, inl refl, sym ((same_identity_iff r s).0 (ground arith)), ground arith)
  | inr e ↦ let (x, m, k, b) = beaten_sound r l (rw e at h) in (x, inr m, k, b)
]

beaten_complete :
    (r s : WorkRow) (l : List WorkRow)
    → beaten r l ≡ false
    → In s l
    → identity s ≡ identity r
    → s.revision < r.revision
unfolding beaten
beaten_complete r s [] h m k = elim m [ ]
beaten_complete r s (x ∷ l) h (inl e) k =
    let same : same_identity r s ≡ true = (same_identity_iff r s).1 (sym k) in
    let h' : ((same_identity r s && leb r.revision s.revision) || beaten r l) ≡ false = rw e h in
    ground arith
beaten_complete r s (x ∷ l) h (inr m) k = beaten_complete r s l (ground arith) m k

abbrev pub differs : WorkRow → WorkRow → Bool
differs r s = not (same_identity r s)

unfoldable pub final : List WorkRow → List WorkRow
unfolding beaten same_identity
final [] = []
final (r ∷ t) = let rest = final t in if beaten r rest then rest else r ∷ keep (differs r) rest

pub final-In : (t : List WorkRow) (r : WorkRow) → In r (final t) → In r t
unfolding final
final-In [] r m = m
final-In (x ∷ t) r m = elim (Bool-cases (beaten x (final t))) [
  | inl e ↦ inr (final-In t r (rw e at m))
  | inr e ↦ new (rw e at m) (final-In t r)
]
  where
    new : (r ≡ x) ⊎ In r (keep (differs x) (final t)) → (In r (final t) → In r t) → (r ≡ x) ⊎ In r t
    new (inl q) f = inl q
    new (inr n) f = inr (f (In-keep (differs x) r (final t) n).0)

dropped-differs :
    (x r : WorkRow) (l : List WorkRow) → In r (keep (differs x) l) → identity x ≡ identity r → ⊥
dropped-differs x r l m k =
    let differ = (In-keep (differs x) r l m).1 in
    let same : same_identity x r ≡ true = (same_identity_iff x r).1 k in
    false≢true (sym (ap not same) ∙ differ)

pub final_unique :
    (t : List WorkRow) (r s : WorkRow)
    → In r (final t)
    → In s (final t)
    → identity s ≡ identity r
    → s ≡ r
unfolding final
final_unique [] r s mr ms k = elim mr [ ]
final_unique (x ∷ t) r s mr ms k = elim (Bool-cases (beaten x (final t))) [
  | inl e ↦ final_unique t r s (rw e at mr) (rw e at ms) k
  | inr e ↦ new (rw e at mr) (rw e at ms) (final_unique t r s)
]
  where
    new :
        (r ≡ x) ⊎ In r (keep (differs x) (final t))
        → (s ≡ x) ⊎ In s (keep (differs x) (final t))
        → (In r (final t) → In s (final t) → identity s ≡ identity r → s ≡ r)
        → s ≡ r
    new (inl p) (inl q) f = q ∙ sym p
    new (inl p) (inr n) f = absurd (dropped-differs x s (final t) n (ap identity (sym p) ∙ sym k))
    new (inr n) (inl q) f = absurd (dropped-differs x r (final t) n (ap identity (sym q) ∙ k))
    new (inr n) (inr n') f =
        f (In-keep (differs x) r (final t) n).0 (In-keep (differs x) s (final t) n').0 k

pub final_total :
    (t : List WorkRow) (s : WorkRow)
    → In s t
    → (r : WorkRow) × In r (final t) × (identity r ≡ identity s)
unfolding final
final_total [] s m = elim m [ ]
final_total (x ∷ t) s (inl q) = elim (Bool-cases (beaten x (final t))) [
  | inl e ↦ let (r, m, k, b) = beaten_sound x (final t) e in rw e (r, m, k ∙ ap identity (sym q))
  | inr e ↦ rw e (x, inl refl, ap identity (sym q))
]
final_total (x ∷ t) s (inr m) =
    let (r, n, k) = final_total t s m in
    elim (Bool-cases (beaten x (final t))) [
      | inl e ↦ rw e (r, n, k)
      | inr e ↦ elim (Bool-cases (same_identity x r)) [
        | inl same ↦ rw e (x, inl refl, (same_identity_iff x r).0 same ∙ k)
        | inr other ↦ rw e (r, inr (keep-In (differs x) r (final t) n (ap not other)), k)
      ]
    ]

pub final_highest :
    (t : List WorkRow) (r s : WorkRow)
    → In r (final t)
    → In s t
    → identity s ≡ identity r
    → s.revision ≤ r.revision
unfolding final
final_highest [] r s mr ms k = elim ms [ ]
final_highest (x ∷ t) r s mr ms k = elim (Bool-cases (beaten x (final t))) [
  | inl e ↦ old (rw e at mr) ms (beaten_sound x (final t) e) (final_highest t r s)
  | inr e ↦ new e (rw e at mr) ms (λ r' s'. final_highest t r' s')
]
  where
    old :
        In r (final t)
        → (s ≡ x) ⊎ In s t
        → (y : WorkRow) × In y (final t) × (identity y ≡ identity x) × (x.revision ≤ y.revision)
        → (In r (final t) → In s t → identity s ≡ identity r → s.revision ≤ r.revision)
        → s.revision ≤ r.revision
    old n (inl q) (y, my, ky, b) f =
        let same : y ≡ r = final_unique t r y n my (ky ∙ ap identity (sym q) ∙ k) in
        rw (q, ← same) b
    old n (inr m) y f = f n m k

    new :
        beaten x (final t) ≡ false
        → (r ≡ x) ⊎ In r (keep (differs x) (final t))
        → (s ≡ x) ⊎ In s t
        → ((r' s' : WorkRow)
            → In r' (final t)
            → In s' t
            → identity s' ≡ identity r'
            → s'.revision ≤ r'.revision)
        → s.revision ≤ r.revision
    new e (inl p) (inl q) f = rw (p, q) (omega arith)
    new e (inl p) (inr m) f =
        let (y, my, ky) = final_total t s m in
        let below = beaten_complete x y (final t) e my (ky ∙ k ∙ ap identity p) in
        let up : s.revision ≤ y.revision = f y s my m (sym ky) in rw p (omega arith)
    new e (inr n) (inl q) f = absurd (dropped-differs x r (final t) n (ap identity (sym q) ∙ k))
    new e (inr n) (inr m) f = f r s (In-keep (differs x) r (final t) n).0 m k

abbrev pub engine : Engine
engine = record {
  final = final;
  final-In = final-In;
  final_highest = final_highest;
  final_total = final_total;
  final_unique = final_unique;
  order_by = λ d t. t;
  order_by-In = λ d t r m. m;
}
