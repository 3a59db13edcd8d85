-- ===== src/Backfill/Drain/Verdicts.antt =====
-- Why the drain of src/cow_indexer/services/backfill_orderbook.py stops, and that it does.
use cow_indexer.Prelude.{
  ℕ, zero, suc, arith, ◌+◌, ◌≡◌, ◌≢◌, ◌≤◌, ◌<◌, refl, ◌∙◌, ap, sym, subst, leb, leb→le, le→leb,
  Bool, true, false, List, [], ◌∷◌, length, Option, none, some, Text, Result, ok, err, Bool-cases,
  inl, inr,
}
use native.Mathlib.Numerals.{unary_clauses}
use cow_indexer.Exec.{go_on-eq-ok, go_on}
use cow_indexer.WorkQueue.{WorkItem, Status}
use cow_indexer.Enrichment.{Failure, Journal}
use cow_indexer.Backfill.Drain.Rounds.{
  World, Draining, Drain, Verdict, drained, deadline, open_kinds, lease_work, backfill_work_counts,
  gather, drain_items, round, outstanding, is_over, after_count, after_round, after_check,
  deadline_of, drain_loop, drain, counted,
}

module _ (w : World) where
  -- From a call on, the store had nothing to lease for each of the chains.
  pub data Idle : ℕ → List Text → Type 0 where
    nil : {n : ℕ} → Idle n []
    cons :
        {n : ℕ} {key : Text} {keys : List Text}
        → w.lease n key ≡ ok []
        → Idle (n + 1) keys
        → Idle n (key ∷ keys)

  -- From a call on, the store counted no open item for each of the chains.
  pub data Closed : ℕ → List Text → Type 0 where
    nil : {n : ℕ} → Closed n []
    cons :
        {n : ℕ} {key : Text} {keys : List Text} (kinds : List (List (Status × ℕ)))
        → w.counts n key ≡ ok kinds
        → open_kinds kinds ≡ 0
        → Closed (n + 1) keys
        → Closed n (key ∷ keys)

  -- What the verdict of a drain says, of the state at its end.
  pub data IsVerdict (until : Option ℕ) (keys : List Text) (d : Draining) : Verdict → Type 0 where
    over :
        (at reading : ℕ) → until ≡ some at → at ≤ w.clock reading → IsVerdict until keys d deadline
    empty :
        (leases countings : ℕ)
        → Idle leases keys
        → leases + length keys ≡ d.leases
        → Closed countings keys
        → countings + length keys ≡ d.countings
        → IsVerdict until keys d drained

  module _ (max_pages max_attempts : ℕ) where
    ok_pair :
        {A : Type 0} (a b : A) (d d' : Draining)
        → ◌≡◌ {A = Result Failure A × Draining} (ok a, d) (ok b, d')
        → (a ≡ b) × (d ≡ d')
    ok_pair a b d d' e = (ok_injective (ap (λ r. r.0) e), ap (λ r. r.1) e)
      where
        ok_injective : ◌≡◌ {A = Result Failure _} (ok a) (ok b) → a ≡ b
        ok_injective q = ground arith

    drain_items-none :
        (key : Text) (items : List WorkItem) (d d' : Draining)
        → drain_items w max_pages max_attempts key items d ≡ (ok 0, d')
        → (items ≡ []) × (d ≡ d')
    drain_items-none key [] d d' e = (refl, (ok_pair 0 0 d d' e).1)
    drain_items-none key (item ∷ items) d d' e =
        let (u, middle, after, first) =
          go_on-eq-ok (gather w max_pages max_attempts key (item ∷ items) d) _ 0 d' e in
        absurd (omega (arith, (ok_pair (suc (length items)) 0 _ d' after).0))

    lease_work-answer :
        (key : Text) (items : List WorkItem) (d d' : Draining)
        → lease_work w max_pages max_attempts key d ≡ (ok items, d')
        → (w.lease d.leases key ≡ ok items)
          × (d.leases + 1 ≡ d'.leases)
          × (d.countings ≡ d'.countings)
    unfolding lease_work
    lease_work-answer key items d d' e =
        (ap (λ r. r.0) e, ap (λ r. r.1.leases) e, ap (λ r. r.1.countings) e)

    round-Idle :
        (keys : List Text) (n : ℕ) (d d' : Draining)
        → round w max_pages max_attempts keys d ≡ (ok n, d')
        → n ≡ 0
        → Idle d.leases keys × (d.leases + length keys ≡ d'.leases) × (d.countings ≡ d'.countings)
    unfolding round
    round-Idle [] n d d' e none_run =
        let q = (ok_pair 0 n d d' e).1 in
        (Idle.nil, simp unary_clauses (ap (λ d. d.leases) q), ap (λ d. d.countings) q)
    round-Idle (key ∷ keys) total d d' e none_run =
        let (items, leased, after, asked) =
          go_on-eq-ok (lease_work w max_pages max_attempts key d) _ total d' e in
        let (n, processed, later, ran) =
          go_on-eq-ok (drain_items w max_pages max_attempts key items leased) _ total d' after in
        let (rest, final, last, others) =
          go_on-eq-ok (round w max_pages max_attempts keys processed) _ total d' later in
        let (sum, same) = ok_pair (n + rest) total final d' last in
        let (nothing, unmoved) = drain_items-none key items leased processed (
          subst (λ n. drain_items w max_pages max_attempts key items leased ≡ (ok n, processed))
            (omega (arith, sum, none_run)) ran) in
        let (answer, next, counting) = lease_work-answer key items d leased asked in
        let (idle, total_leases, total_countings) =
          round-Idle keys rest processed final others (omega (arith, sum, none_run)) in
        let moved : d.leases + 1 ≡ processed.leases = next ∙ ap (λ d. d.leases) unmoved in
        (
          Idle.cons (answer ∙ ap ok nothing) (subst (λ k. Idle k keys) (sym moved) idle),
          omega (arith, moved, total_leases, ap (λ d. d.leases) same),
          counting ∙ ap (λ d. d.countings) unmoved ∙ total_countings ∙ ap (λ d. d.countings) same,
        )

    counts-answer :
        (key : Text) (kinds : List (List (Status × ℕ))) (d d' : Draining)
        → backfill_work_counts w max_pages max_attempts key d ≡ (ok kinds, d')
        → (w.counts d.countings key ≡ ok kinds)
          × (d.countings + 1 ≡ d'.countings)
          × (d.leases ≡ d'.leases)
    unfolding backfill_work_counts
    counts-answer key kinds d d' e =
        (ap (λ r. r.0) e, ap (λ r. r.1.countings) e, ap (λ r. r.1.leases) e)

    outstanding-Closed :
        (keys : List Text) (n : ℕ) (d d' : Draining)
        → outstanding w max_pages max_attempts keys d ≡ (ok n, d')
        → n ≡ 0
        → Closed d.countings keys
          × (d.countings + length keys ≡ d'.countings)
          × (d.leases ≡ d'.leases)
    unfolding outstanding
    outstanding-Closed [] n d d' e none_open =
        let q = (ok_pair 0 n d d' e).1 in
        (Closed.nil, simp unary_clauses (ap (λ d. d.countings) q), ap (λ d. d.leases) q)
    outstanding-Closed (key ∷ keys) total d d' e none_open =
        let (kinds, asked, after, answered) =
          go_on-eq-ok (backfill_work_counts w max_pages max_attempts key d) _ total d' e in
        let (rest, final, last, others) =
          go_on-eq-ok (outstanding w max_pages max_attempts keys asked) _ total d' after in
        let (sum, same) = ok_pair (open_kinds kinds + rest) total final d' last in
        let (answer, next, leases) = counts-answer key kinds d asked answered in
        let (closed, total_countings, total_leases) =
          outstanding-Closed keys rest asked final others (omega (arith, sum, none_open)) in
        (
          Closed.cons kinds answer (omega (arith, sum, none_open))
              (subst (λ k. Closed k keys) (sym next) closed),
          omega (arith, next, total_countings, ap (λ d. d.countings) same),
          leases ∙ total_leases ∙ ap (λ d. d.leases) same,
        )

    module _ (until : Option ℕ) (keys : List Text) where
      -- The turns of the loop that are still to come.
      abbrev Later : Drain (Option Verdict) → Type 0
      Later again =
          (v : Verdict) (d d' : Draining) → again d ≡ (ok (some v), d') → IsVerdict until keys d' v

      some_pair :
          (v v' : Verdict) (d d' : Draining)
          → ◌≡◌ {A = Result Failure (Option Verdict) × Draining} (ok (some v), d) (ok (some v'), d')
          → (v ≡ v') × (d ≡ d')
      some_pair v v' d d' e = (some_injective (ap (λ r. r.0) e), ap (λ r. r.1) e)
        where
          some_injective :
              ◌≡◌ {A = Result Failure (Option Verdict)} (ok (some v)) (ok (some v')) → v ≡ v'
          some_injective q = ground arith

      after_count-IsVerdict :
          (again : Drain (Option Verdict)) (n : ℕ) (v : Verdict) (d d' : Draining)
          → Later again
          → (n ≡ 0 → IsVerdict until keys d drained)
          → after_count w max_pages max_attempts again n d ≡ (ok (some v), d')
          → IsVerdict until keys d' v
      after_count-IsVerdict again zero v d d' later none_open e =
          let (verdict, state) = some_pair drained v d d' e in
          subst (IsVerdict until keys d') verdict
            (subst (λ d. IsVerdict until keys d drained) state (none_open refl))
      after_count-IsVerdict again (suc more) v d d' later none_open e = later v d d' e

      after_round-IsVerdict :
          (again : Drain (Option Verdict)) (n leases : ℕ) (v : Verdict) (d d' : Draining)
          → Later again
          → (n ≡ 0 → Idle leases keys × (leases + length keys ≡ d.leases))
          → after_round w max_pages max_attempts keys again n d ≡ (ok (some v), d')
          → IsVerdict until keys d' v
      after_round-IsVerdict again zero leases v d d' later idle e =
          let (n, counted, after, count) =
            go_on-eq-ok (outstanding w max_pages max_attempts keys d) _ (some v) d' e in
          let (idle_all, total) = idle refl in
          after_count-IsVerdict again n v counted d' later
            (λ z.
              let (closed, countings, same) = outstanding-Closed keys n d counted count z in
              empty leases d.countings idle_all (total ∙ same) closed countings)
            after
      after_round-IsVerdict again (suc more) leases v d d' later idle e = later v d d' e

      after_check-IsVerdict :
          (over : Bool) (reading : ℕ) (again : Drain (Option Verdict)) (v : Verdict)
          (d d' : Draining)
          → Later again
          → is_over w max_pages max_attempts until reading ≡ over
          → after_check w max_pages max_attempts keys again over d ≡ (ok (some v), d')
          → IsVerdict until keys d' v
      unfolding is_over
      after_check-IsVerdict true reading again v d d' later passed e =
          let (verdict, state) = some_pair deadline v d d' e in
          let (at, given, late) = passed_at until passed in
          subst (IsVerdict until keys d') verdict (over at reading given late)
        where
          passed_at :
              (until : Option ℕ)
              → is_over w max_pages max_attempts until reading ≡ true
              → (at : ℕ) × (until ≡ some at) × (at ≤ w.clock reading)
          passed_at none h = cc
          passed_at (some at) h = (at, refl, leb→le at (w.clock reading) h)
      after_check-IsVerdict false reading again v d d' later passed e =
          let (n, ran, after, round_ran) =
            go_on-eq-ok (round w max_pages max_attempts keys d) _ (some v) d' e in
          after_round-IsVerdict again n d.leases v ran d' later
            (λ z. let (idle, total, _) = round-Idle keys n d ran round_ran z in (idle, total)) after

      drain_loop-IsVerdict :
          (fuel reading : ℕ) → Later (drain_loop w max_pages max_attempts fuel until keys reading)
      unfolding drain_loop is_over
      drain_loop-IsVerdict zero reading v d d' e = absurd (cc (ap (λ r. r.0) e))
      drain_loop-IsVerdict (suc fuel) reading v d d' e =
          after_check-IsVerdict (is_over w max_pages max_attempts until reading) reading
            (drain_loop w max_pages max_attempts fuel until keys (reading + 1)) v d d'
            (drain_loop-IsVerdict fuel (reading + 1)) refl e

      -- A round and a count do not use up the fuel; only a late turn of the loop finds none.
      EndsWell : Result Failure (Option Verdict) × Draining → Type 0
      EndsWell r = r.0 ≢ ok none

      go_on-EndsWell :
          (r : Result Failure ℕ × Draining) (rest : ℕ → Drain (Option Verdict))
          → ((n : ℕ) (d : Draining) → EndsWell (rest n d))
          → EndsWell (go_on r rest)
      unfolding EndsWell
      go_on-EndsWell (ok n, d) rest h = h n d
      go_on-EndsWell (err e, d) rest h = λ q. cc q

      after_count-EndsWell :
          (again : Drain (Option Verdict)) (n : ℕ) (d : Draining)
          → ((d : Draining) → EndsWell (again d))
          → EndsWell (after_count w max_pages max_attempts again n d)
      unfolding EndsWell
      after_count-EndsWell again zero d h = λ q. cc q
      after_count-EndsWell again (suc n) d h = h d

      after_round-EndsWell :
          (again : Drain (Option Verdict)) (n : ℕ) (d : Draining)
          → ((d : Draining) → EndsWell (again d))
          → EndsWell (after_round w max_pages max_attempts keys again n d)
      unfolding EndsWell
      after_round-EndsWell again zero d h =
          go_on-EndsWell (outstanding w max_pages max_attempts keys d) _
            (λ n d. after_count-EndsWell again n d h)
      after_round-EndsWell again (suc n) d h = h d

      after_check-EndsWell :
          (over : Bool) (again : Drain (Option Verdict)) (d : Draining)
          → (over ≡ false → (d : Draining) → EndsWell (again d))
          → EndsWell (after_check w max_pages max_attempts keys again over d)
      unfolding EndsWell
      after_check-EndsWell true again d h = λ q. cc q
      after_check-EndsWell false again d h =
          go_on-EndsWell (round w max_pages max_attempts keys d) _
            (λ n d. after_round-EndsWell again n d (h refl))

    drain_loop-EndsWell :
        (fuel reading at last : ℕ) (keys : List Text) (d : Draining)
        → at ≤ w.clock last
        → reading ≤ last
        → last < reading + fuel
        → EndsWell
            (some at)
            keys
            (drain_loop w max_pages max_attempts fuel (some at) keys reading d)
    unfolding drain_loop is_over
    drain_loop-EndsWell zero reading at last keys d late before enough =
        absurd (omega (arith, before, enough))
    drain_loop-EndsWell (suc fuel) reading at last keys d late before enough =
        after_check-EndsWell (some at) keys (leb at (w.clock reading))
          (drain_loop w max_pages max_attempts fuel (some at) keys (reading + 1)) d
          (λ early d.
            drain_loop-EndsWell fuel (reading + 1) at last keys d late (not_last early)
              (omega (arith, enough)))
      where
        not_last : leb at (w.clock reading) ≡ false → reading + 1 ≤ last
        not_last early = elim (Bool-cases (leb last reading)) [
          | inl past ↦
              let same : last ≡ reading = omega (arith, leb→le _ _ past, before) in
              let passed : at ≤ w.clock reading = subst (λ r. at ≤ w.clock r) same late in
              absurd (cc (le→leb at (w.clock reading) passed, early))
          | inr ahead ↦ ground arith
        ]

  -- A drain that stops says why truthfully: it stops as over only when a reading of the clock was at
  -- or after the deadline, and as drained only when its last calls of the store found nothing to lease
  -- for any of the chains and then counted no pending and no running item for any of them.
  pub drain-IsVerdict :
      (max_pages max_attempts fuel : ℕ) (run_seconds : Option ℕ) (keys : List Text) (j : Journal)
      (v : Verdict) (d : Draining)
      → drain w max_pages max_attempts fuel run_seconds keys j ≡ (ok (some v), d)
      → IsVerdict (deadline_of w max_pages max_attempts run_seconds) keys d v
  unfolding drain
  drain-IsVerdict max_pages max_attempts fuel run_seconds keys j v d e =
      drain_loop-IsVerdict max_pages max_attempts (deadline_of w max_pages max_attempts run_seconds)
        keys fuel 1 v _ d e

  -- A drain with a limit of time ends without using up its fuel, if the clock is at or after the
  -- deadline at some reading and the fuel is one turn for each reading up to that one.
  pub drain-ends :
      (max_pages max_attempts fuel run_seconds last : ℕ) (keys : List Text) (j : Journal)
      → w.clock 0 + run_seconds ≤ w.clock last
      → 1 ≤ last
      → last ≤ fuel
      → (drain w max_pages max_attempts fuel (some run_seconds) keys j).0 ≢ ok none
  unfolding drain EndsWell
  drain-ends max_pages max_attempts fuel run_seconds last keys j late first enough =
      drain_loop-EndsWell max_pages max_attempts fuel 1 (w.clock 0 + run_seconds) last keys _ late
        first (omega (arith, enough))
