-- ===== src/Exec.antt =====
-- Python code that changes a state and may raise: what it did before a raise stays done.
use cow_indexer.Prelude.{Bool, true, false, if◌then◌else◌, ◌≡◌, refl, ap, Result, ok, err}

abbrev pub Exec : Type 0 → Type 0 → Type 0 → Type 0
Exec S E A = S → Result E A × S

module _ {S E A : Type 0} where
  abbrev pub returning : A → Exec S E A
  returning value state = (ok value, state)

  abbrev pub raising : E → Exec S E A
  raising error state = (err error, state)

  -- Code that may raise and leaves the state alone.
  abbrev pub attempt : Result E A → Exec S E A
  attempt outcome state = (outcome, state)

module _ {S E A B : Type 0} where
  infixl 5 ◌>>=◌ ◌>>◌
  abbrev pub go_on : Result E A × S → (A → Exec S E B) → Result E B × S
  go_on (ok value, state) rest = rest value state
  go_on (err error, state) rest = (err error, state)

  abbrev pub ◌>>=◌ : Exec S E A → (A → Exec S E B) → Exec S E B
  ◌>>=◌ first rest state = go_on (first state) rest

  abbrev pub ◌>>◌ : Exec S E A → Exec S E B → Exec S E B
  ◌>>◌ first rest state = go_on (first state) (λ _. rest)

module _ {S E A B : Type 0} where
  -- A sequence that returned: its first step did, and so did the rest at what that gave.
  pub go_on-eq-ok :
      (first : Result E A × S) (rest : A → Exec S E B) (b : B) (state : S)
      → go_on first rest ≡ (ok b, state)
      → (a : A) × (middle : S) × (rest a middle ≡ (ok b, state)) × (first ≡ (ok a, middle))
  go_on-eq-ok (ok a, middle) rest b state e = (a, middle, e, refl)
  go_on-eq-ok (err error, middle) rest b state e = absurd (cc (ap (λ r. r.0) e))

module _ {S E A : Type 0} where
  -- A guarded piece of code that returned: the guard held, and the code returned.
  pub guarded-eq-ok :
      (test : Bool) (body : Exec S E A) (error : E) (state : S) (a : A) (after : S)
      → (if test then body else raising error) state ≡ (ok a, after)
      → (body state ≡ (ok a, after)) × (test ≡ true)
  guarded-eq-ok true body error state a after e = (e, refl)
  guarded-eq-ok false body error state a after e = absurd (cc (ap (λ r. r.0) e))
