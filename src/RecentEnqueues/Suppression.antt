-- ===== src/RecentEnqueues/Suppression.antt =====
-- What may be suppressed: only an identity that was written less than `ttl` ago.
use cow_indexer.Prelude.{
  ℕ, ◌+◌, ◌<◌, ◌≡◌, refl, sym, ap, subst, ◌⊎◌, inl, inr, true, some, List, [], ◌∷◌, ◌++◌, arith,
  ltb, Bool-cases, Option-cases, length, Text, text_eq, text_eq_iff, In, In-append, In-append_left,
  In-append_right, map, In-map,
}
use mathlib.Core.List.{append_assoc}
use cow_indexer.RecentEnqueues.{
  RecentEnqueues, Seen, enabled, lookup, without, put_last, is_live, expiry, take_each, evict,
  take_new,
}

-- A log of writes: which identity was returned for writing, and when.
abbrev pub Writes : Type 0
Writes = List (Text × ℕ)

-- Every entry expires `ttl` after a write of its identity.
abbrev pub Backed : ℕ → Writes → Seen → Type 0
Backed ttl writes seen = (e : Text × ℕ) → In e seen → (t : ℕ) × In (e.0, t) writes × (e.1 ≡ t + ttl)

lookup-In : (k : Text) (l : Seen) (v : ℕ) → lookup k l ≡ some v → In (k, v) l
unfolding lookup
lookup-In k [] v h = cc
lookup-In k ((j, w) ∷ l) v h = elim (Bool-cases (text_eq j k)) [
  | inl e ↦ inl (cc (rw e at h, (text_eq_iff j k).0 e))
  | inr e ↦ inr (lookup-In k l v (rw e at h))
]

without-In : (k : Text) (e : Text × ℕ) (l : Seen) → In e (without k l) → In e l
unfolding without
without-In k e [] h = h
without-In k e ((j, w) ∷ l) h = elim (Bool-cases (text_eq j k)) [
  | inl t ↦ inr (without-In k e l (rw t at h))
  | inr t ↦ here (rw t at h) (without-In k e l)
]
  where
    here : (e ≡ (j, w)) ⊎ In e (without k l) → (In e (without k l) → In e l) → (e ≡ (j, w)) ⊎ In e l
    here (inl p) f = inl p
    here (inr m) f = inr (f m)

evict-In : (bound : ℕ) (e : Text × ℕ) (l : Seen) → In e (evict bound l) → In e l
unfolding evict
evict-In bound e [] h = h
evict-In bound e (x ∷ l) h = elim (Bool-cases (ltb bound (length (x ∷ l)))) [
  | inl t ↦ inr (evict-In bound e l (rw t at h))
  | inr t ↦ rw t at h
]

-- The writes of one call.
abbrev pub stamped : ℕ → List Text → Writes
stamped now fresh = map (λ k. (k, now)) fresh

-- An identity that a log records as written less than `ttl` ago.
abbrev pub WrittenWithin : ℕ → ℕ → Writes → Text → Type 0
WrittenWithin ttl now writes k = (t : ℕ) × In (k, t) writes × (now < t + ttl)

put_last-Backed :
    (ttl : ℕ) (writes : Writes) (k : Text) (t : ℕ) (seen : Seen)
    → In (k, t) writes
    → Backed ttl writes seen
    → Backed ttl writes (put_last k (t + ttl) seen)
unfolding put_last
put_last-Backed ttl writes k t seen m b e h = found (In-append e (without k seen) _ h)
  where
    found :
        In e (without k seen) ⊎ In e ((k, t + ttl) ∷ [])
        → (u : ℕ) × In (e.0, u) writes × (e.1 ≡ u + ttl)
    found (inl old) = b e (without-In k e seen old)
    found (inr (inl new)) =
        (t, rw (ap (λ (x : Text × ℕ). x.0) new) m, ap (λ (x : Text × ℕ). x.1) new)
    found (inr (inr no_more)) = elim no_more [ ]

Backed-append :
    (ttl : ℕ) (writes more : Writes) (seen : Seen)
    → Backed ttl writes seen
    → Backed ttl (writes ++ more) seen
Backed-append ttl writes more seen b e h =
    let (t, m, q) = b e h in (t, In-append_left _ writes more m, q)

abbrev Outcome : ℕ → ℕ → Writes → List Text → List Text × Seen → Type 0
Outcome ttl now writes work_ids result =
    Backed ttl (writes ++ stamped now result.0) result.1
    × ((k : Text) → In k work_ids → WrittenWithin ttl now (writes ++ stamped now result.0) k)

module _ (ttl now : ℕ) (positive : 0 < ttl) where
  live_write :
      (writes : Writes) (k : Text) (seen : Seen)
      → Backed ttl writes seen
      → is_live (lookup k seen) now ≡ true
      → (t : ℕ) × In (k, t) writes × (now < t + ttl) × (expiry (lookup k seen) now ≡ t + ttl)
  unfolding is_live
  live_write writes k seen b h = elim (Option-cases (lookup k seen)) [
    | inl e ↦ absurd (cc (rw e at h))
    | inr (v, e) ↦
        let (t, m, q) = b (k, v) (lookup-In k seen v e) in
        let alive : ltb now v ≡ true = rw e at h in (t, m, ground arith, rw e q)
  ]

  covers_cons :
      (log : Writes) (k : Text) (rest : List Text)
      → WrittenWithin ttl now log k
      → ((j : Text) → In j rest → WrittenWithin ttl now log j)
      → (j : Text) → In j (k ∷ rest)
      → WrittenWithin ttl now log j
  covers_cons log k rest w f j (inl e) = subst (WrittenWithin ttl now log) (sym e) w
  covers_cons log k rest w f j (inr m) = f j m

  take_each-Outcome :
      (work_ids : List Text) (seen : Seen) (writes : Writes)
      → Backed ttl writes seen
      → Outcome ttl now writes work_ids (take_each ttl now work_ids seen)
  unfolding take_each
  take_each-Outcome [] seen writes b = (Backed-append ttl writes [] seen b, λ k m. elim m [ ])
  take_each-Outcome (k ∷ rest) seen writes b = elim (Bool-cases (is_live (lookup k seen) now)) [
    | inl live ↦
        let (t, m, recent, q) = live_write writes k seen b live in
        let seen' : Seen = put_last k (expiry (lookup k seen) now) seen in
        let backed : Backed ttl writes seen' = rw q (put_last-Backed ttl writes k t seen m b) in
        let (held, covered) = take_each-Outcome rest seen' writes backed in
        let log : Writes = writes ++ stamped now (take_each ttl now rest seen').0 in
        rw live (held, covers_cons log k rest (t, In-append_left _ writes _ m, recent) covered)
    | inr stale ↦
        let seen' : Seen = put_last k (now + ttl) seen in
        let writes' : Writes = writes ++ (k, now) ∷ [] in
        let m : In (k, now) writes' = In-append_right _ writes _ (inl refl) in
        let backed : Backed ttl writes' seen' =
          put_last-Backed ttl writes' k now seen m (Backed-append ttl writes _ seen b) in
        let (held, covered) = take_each-Outcome rest seen' writes' backed in
        let fresh : List Text = (take_each ttl now rest seen').0 in
        let log : Writes = writes' ++ stamped now fresh in
        let w : WrittenWithin ttl now log k = (now, In-append_left _ writes' _ m, omega arith) in
        rw (stale, ← append_assoc writes ((k, now) ∷ []) (stamped now fresh))
          (held, covers_cons log k rest w covered)
  ]

-- Suppression is safe. Let `ttl` be positive. If every remembered entry expires `ttl` after a logged write of its
-- identity, then after a call with `work_ids`, once the returned identities are logged as written now, every
-- identity asked for has been written less than `ttl` ago, and every remembered entry again expires
-- `ttl` after a logged write.
pub take_new-WrittenWithin :
    (r : RecentEnqueues) (work_ids : List Text) (now : ℕ) (writes : Writes)
    → 0 < r.ttl
    → Backed r.ttl writes r.seen
    → ((k : Text)
        → In k work_ids
        → WrittenWithin r.ttl now (writes ++ stamped now (take_new r work_ids now).0) k)
      × Backed r.ttl
          (writes ++ stamped now (take_new r work_ids now).0)
          (take_new r work_ids now).1.seen
unfolding take_new
take_new-WrittenWithin r work_ids now writes positive b = elim (Bool-cases (enabled r)) [
  | inl on ↦
      let (held, covered) = take_each-Outcome r.ttl now positive work_ids r.seen writes b in
      rw on (covered, λ e m. held e (evict-In r.max_entries e _ m))
  | inr off ↦ rw off (
    λ k m. (now, In-append_right _ writes _ (In-map (λ j. (j, now)) k work_ids m), omega arith),
    Backed-append r.ttl writes (stamped now work_ids) r.seen b,
  )
]
