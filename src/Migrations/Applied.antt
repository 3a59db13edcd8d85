-- ===== src/Migrations/Applied.antt =====
-- What `migrate` of src/cow_indexer/storage/clickhouse.py has applied when it returns or raises.
use cow_indexer.Prelude.{
  ℕ, not, keep, ◌⊎◌, ◌≡◌, refl, ◌∙◌, ap, sym, subst, Bool, true, false, List, In, [], ◌∷◌, All,
  Text, Bool-cases, inl, inr, length, map, text_eq, text_eq_iff, Result, ok, err,
}
use cow_indexer.Exec.{go_on}
use cow_indexer.Loader.{is_one_of}
use cow_indexer.Migrations.{
  Refusal, refused, Migration, Database, command, run_all, record_version, apply, apply_new,
  migrate, statements_of,
}

is_one_of-In : (name : Text) (names : List Text) → is_one_of name names ≡ true → In name names
unfolding is_one_of
is_one_of-In name [] h = cc
is_one_of-In name (x ∷ xs) h = elim (Bool-cases (text_eq name x)) [
  | inl e ↦ inl ((text_eq_iff name x).0 e)
  | inr e ↦ inr (is_one_of-In name xs (rw e at h))
]

In-is_one_of : (name : Text) (names : List Text) → In name names → is_one_of name names ≡ true
unfolding is_one_of
In-is_one_of name [] h = elim h [ ]
In-is_one_of name (x ∷ xs) (inl e) = rw ((text_eq_iff name x).1 e) refl
In-is_one_of name (x ∷ xs) (inr h) = elim (Bool-cases (text_eq name x)) [
  | inl e ↦ rw e refl
  | inr e ↦ rw e (In-is_one_of name xs h)
]

module _ (takes : ℕ → Text → Bool) (records : ℕ → Text → Bool) (quoted : Text) where
  -- When no file is new, nothing is done.
  apply_new-old :
      (applied : List Text) (files : List Migration) (d : Database)
      → All (λ m. In m.version applied) files
      → apply_new takes records quoted applied files d ≡ (ok [], d)
  unfolding apply_new
  apply_new-old applied [] d h = refl
  apply_new-old applied (m ∷ ms) d (one, h) =
      rw (In-is_one_of m.version applied one, apply_new) (apply_new-old applied ms d h)

  run_all-versions :
      (statements : List Text) (d : Database)
      → (run_all takes records quoted statements d).1.versions ≡ d.versions
  unfolding run_all command
  run_all-versions [] d = refl
  run_all-versions (s ∷ ss) d = elim (Bool-cases (takes (length d.commands) s)) [
    | inl e ↦ rw (e, run_all) (run_all-versions ss (record d { commands = s ∷ d.commands }))
    | inr e ↦ rw (e, run_all) refl
  ]

  record_version-versions :
      (version : Text) (d d' : Database)
      → record_version takes records quoted version d ≡ (ok tt, d')
      → d'.versions ≡ version ∷ d.versions
  unfolding record_version
  record_version-versions version d d' e = elim (Bool-cases (records (length d.versions) version)) [
    | inl yes_ ↦ sym (ap (λ r. r.1.versions) (sym (taken yes_) ∙ e))
    | inr no_ ↦ absurd (cc (ap (λ r. r.0) (sym (left_out no_) ∙ e)))
  ]
    where
      taken :
          records (length d.versions) version ≡ true
          → record_version takes records quoted version d
            ≡ (ok tt, record d { versions = version ∷ d.versions })
      taken h = rw (h, record_version) refl

      left_out :
          records (length d.versions) version ≡ false
          → record_version takes records quoted version d ≡ (err refused, d)
      left_out h = rw (h, record_version) refl

  apply-versions :
      (m : Migration) (d d' : Database)
      → apply takes records quoted m d ≡ (ok tt, d')
      → d'.versions ≡ m.version ∷ d.versions
  unfolding apply
  apply-versions m d d' e =
      recorded (run_all takes records quoted (statements_of takes records quoted m) d)
        (run_all-versions _ d) e
    where
      recorded :
          (r : Result Refusal (Unit {0}) × Database)
          → r.1.versions ≡ d.versions
          → go_on r (λ done. record_version takes records quoted m.version) ≡ (ok tt, d')
          → d'.versions ≡ m.version ∷ d.versions
      recorded (ok done, d₁) same q =
          record_version-versions m.version d₁ d' q ∙ ap (◌∷◌ m.version) same
      recorded (err failure, d₁) same q = absurd (cc (ap (λ r. r.0) q))

  -- What a run over the files that returned has done.
  record IsApplied (applied : List Text) (files : List Migration) (done : List Text)
      (d d' : Database) : Type 0 where
    new_ones : done ≡ map (λ m. m.version) (keep (λ m. not (is_one_of m.version applied)) files)
    kept : (version : Text) → In version d.versions → In version d'.versions
    all_there : All (λ m. In m.version applied ⊎ In m.version d'.versions) files

  later_ones :
      (applied : List Text) (m : Migration) (ms : List Migration) (done : List Text)
      (d d₁ d' : Database)
      → is_one_of m.version applied ≡ false
      → d₁.versions ≡ m.version ∷ d.versions
      → (r : Result Refusal (List Text) × Database)
      → ((later : List Text) (d₂ : Database)
          → r ≡ (ok later, d₂)
          → IsApplied applied ms later d₁ d₂)
      → go_on r (λ later d₂. (ok (m.version ∷ later), d₂)) ≡ (ok done, d')
      → IsApplied applied (m ∷ ms) done d d'
  later_ones applied m ms done d d₁ d' new versions (err failure, d₂) rest q =
      absurd (cc (ap (λ r. r.0) q))
  later_ones applied m ms done d d₁ d' new versions (ok later, d₂) rest q =
      let ih = rest later d₂ refl in
      let same : d₂ ≡ d' = ap (λ r. r.1) q in
      let listed : done ≡ m.version ∷ later = cc (ap (λ r. r.0) q) in
      let into : (version : Text) → In version d₁.versions → In version d'.versions =
        λ version h. subst (λ d. In version d.versions) same (ih.kept version h) in
      record {
        new_ones = rw new (listed ∙ ap (◌∷◌ m.version) ih.new_ones);
        kept = λ version h. into version (subst (In version) (sym versions) (inr h));
        all_there = (
          inr (into m.version (subst (In m.version) (sym versions) (inl refl))),
          subst (λ d. All (λ m. In m.version applied ⊎ In m.version d.versions) ms) same
              ih.all_there,
        );
      }

  -- The loop from a new file on, from its outcome and those of the rest.
  new_one-IsApplied :
      (applied : List Text) (m : Migration) (ms : List Migration) (done : List Text)
      (d d' : Database)
      → is_one_of m.version applied ≡ false
      → ((later : List Text) (d₁ d₂ : Database)
          → apply_new takes records quoted applied ms d₁ ≡ (ok later, d₂)
          → IsApplied applied ms later d₁ d₂)
      → go_on (apply takes records quoted m d) (λ _ d₁.
        go_on
          (apply_new takes records quoted applied ms d₁)
          (λ later d₂. (ok (m.version ∷ later), d₂)))
        ≡ (ok done, d')
      → IsApplied applied (m ∷ ms) done d d'
  new_one-IsApplied applied m ms done d d' new rest e =
      first (apply takes records quoted m d) (apply-versions m d) e
    where
      first :
          (r : Result Refusal (Unit {0}) × Database)
          → ((d₁ : Database) → r ≡ (ok tt, d₁) → d₁.versions ≡ m.version ∷ d.versions)
          → go_on r (λ _ d₁.
            go_on
              (apply_new takes records quoted applied ms d₁)
              (λ later d₂. (ok (m.version ∷ later), d₂)))
            ≡ (ok done, d')
          → IsApplied applied (m ∷ ms) done d d'
      first (err failure, d₁) grown q = absurd (cc (ap (λ r. r.0) q))
      first (ok one, d₁) grown q =
          later_ones applied m ms done d d₁ d' new (grown d₁ refl)
            (apply_new takes records quoted applied ms d₁) (λ later d₂. rest later d₁ d₂) q

  apply_new-IsApplied :
      (applied : List Text) (files : List Migration) (done : List Text) (d d' : Database)
      → apply_new takes records quoted applied files d ≡ (ok done, d')
      → IsApplied applied files done d d'
  unfolding apply_new
  apply_new-IsApplied applied [] done d d' e =
      let same : d ≡ d' = ap (λ r. r.1) e in
      record {
        new_ones = cc (ap (λ r. r.0) e);
        kept = λ version h. subst (λ d. In version d.versions) same h;
        all_there = tt;
      }
  apply_new-IsApplied applied (m ∷ ms) done d d' e =
      elim (Bool-cases (is_one_of m.version applied)) [
        | inl old ↦
            let ih =
              apply_new-IsApplied applied ms done d d' (sym (rw (old, apply_new) refl) ∙ e) in
            record {
              new_ones = rw old ih.new_ones;
              kept = ih.kept;
              all_there = (inl (is_one_of-In m.version applied old), ih.all_there);
            }
        | inr new ↦
            new_one-IsApplied applied m ms done d d' new (apply_new-IsApplied applied ms)
              (sym (rw (new, apply_new) refl) ∙ e)
      ]

  old_or_new :
      (applied versions : List Text) (files : List Migration)
      → ((version : Text) → In version applied → In version versions)
      → All (λ m. In m.version applied ⊎ In m.version versions) files
      → All (λ m. In m.version versions) files
  old_or_new applied versions [] k h = tt
  old_or_new applied versions (m ∷ ms) k (inl old, h) =
      (k m.version old, old_or_new applied versions ms k h)
  old_or_new applied versions (m ∷ ms) k (inr new, h) = (new, old_or_new applied versions ms k h)

  -- `migrate` is idempotent. When it returns, it names the versions of the files that had not been
  -- applied, in their order; every version recorded before is still recorded; and a second `migrate`
  -- of the same files returns nothing and does nothing to the database.
  pub migrate-twice :
      (files : List Migration) (done : List Text) (d d' : Database)
      → migrate takes records quoted files d ≡ (ok done, d')
      → (done ≡ map (λ m. m.version) (keep (λ m. not (is_one_of m.version d.versions)) files))
        × ((version : Text) → In version d.versions → In version d'.versions)
        × (migrate takes records quoted files d' ≡ (ok [], d'))
  unfolding migrate
  migrate-twice files done d d' e =
      let a = apply_new-IsApplied d.versions files done d d' e in
      (
        a.new_ones,
        a.kept,
        apply_new-old d'.versions files d'
            (old_or_new d.versions d'.versions files a.kept a.all_there),
      )
