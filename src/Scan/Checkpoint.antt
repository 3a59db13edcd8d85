-- ===== src/Scan/Checkpoint.antt =====
-- The durable checkpoint of the scan: `scan` of src/cow_indexer/services/historical.py and
-- `checkpoint` of src/cow_indexer/storage/clickhouse.py.
use cow_indexer.Prelude.{
  ℕ, zero, suc, ◌+◌, ◌≤◌, ◌≡◌, refl, ◌∙◌, subst, Bool, true, Option, some, List, leb, length,
  leb→le, arith, inl, inr, Bool-cases, Result, ok, err,
}
use cow_indexer.Models.{RpcLog}
use cow_indexer.Scan.{
  Scan, World, ScanConfig, Trace, RpcFailure, rpc_error, range_too_large, upper_of, next_round,
  loop,
}
use cow_indexer.Scan.Fuel.{IsSane}
use cow_indexer.Scan.Commits.{
  Post, returned, raised, go_on-Post, Halted, Keeps, IsBehind, Recorded, commit_range-Post,
  IsCommitted-Recorded,
}

module _ (w : World) (c : ScanConfig) (update store_all : Bool) (end : ℕ) where
  -- Every block from one up to another is in a range that the node answered, with so many logs, all
  -- written.
  pub data Indexed (t : Trace) (start : ℕ) : ℕ → ℕ → Type 0 where
    nothing : Indexed t start start 0
    range :
        {cursor upper total : ℕ} (call : ℕ) (logs : List RpcLog)
        → Indexed t start cursor total
        → cursor ≤ upper
        → w.get_logs call cursor upper ≡ ok logs
        → Recorded logs t
        → Indexed t start (upper + 1) (total + length logs)

  -- The checkpoint that the run left: the one it found, or a later block up to which all is indexed.
  pub data IsSafe (start : ℕ) (found : Option ℕ) (t : Trace) : Type 0 where
    unchanged : t.durable ≡ found → IsSafe start found t
    advanced :
        (block total : ℕ)
        → t.durable ≡ some block
        → update ≡ true
        → IsBehind found block
        → block ≤ end
        → Indexed t start (block + 1) total
        → IsSafe start found t

  pub Indexed-Keeps :
      {t t' : Trace} {start cursor total : ℕ}
      → Keeps t t'
      → Indexed t start cursor total
      → Indexed t' start cursor total
  Indexed-Keeps keeps nothing = nothing
  Indexed-Keeps keeps (range call logs before h e recorded) =
      range call logs (Indexed-Keeps keeps before) h e (λ entry k. keeps entry (recorded entry k))

  pub IsSafe-Keeps :
      {t t' : Trace} {start : ℕ} {found : Option ℕ}
      → Keeps t t'
      → t'.durable ≡ t.durable
      → IsSafe start found t
      → IsSafe start found t'
  IsSafe-Keeps keeps same (unchanged e) = unchanged (same ∙ e)
  IsSafe-Keeps keeps same (advanced block total e asked behind h indexed) =
      advanced block total (same ∙ e) asked behind h (Indexed-Keeps keeps indexed)

  IsSafe-IsBehind :
      {t : Trace} {start upper : ℕ} {found : Option ℕ}
      → IsSafe start found t
      → IsBehind t.durable upper
      → IsBehind found upper
  IsSafe-IsBehind (unchanged e) behind = λ current k. behind current (e ∙ k)
  IsSafe-IsBehind (advanced block total e asked behind' h indexed) behind =
      λ current k. let first = behind' current k in let second = behind block e in omega arith

  Halted-IsSafe :
      {t t' : Trace} {start cursor upper total : ℕ} {found : Option ℕ} (call : ℕ)
      (logs : List RpcLog)
      → IsSafe start found t
      → Indexed t start cursor total
      → cursor ≤ upper
      → upper ≤ end
      → w.get_logs call cursor upper ≡ ok logs
      → Halted w update store_all cursor upper logs t t'
      → IsSafe start found t'
  Halted-IsSafe call logs safe indexed h k answer halted = elim halted.moved [
    | inl stayed ↦ IsSafe-Keeps halted.keeps stayed safe
    | inr (went, asked, behind, recorded) ↦
        advanced _ _ went asked (IsSafe-IsBehind safe behind) k
          (range call logs (Indexed-Keeps halted.keeps indexed) h answer recorded)
  ]

  -- What the loop leaves when it returns a number of logs, and what it leaves when it raises.
  abbrev pub Scanned : ℕ → Option ℕ → ℕ → Trace → Type 0
  Scanned start found total t = IsSafe start found t × Indexed t start (end + 1) total

  module _ (sane : IsSane c) (start : ℕ) (found : Option ℕ) where
    -- A rest of the loop that keeps the promise from wherever it starts.
    abbrev Promises : (ℕ → ℕ → ℕ → Scan ℕ) → Type 0
    Promises rest =
        (cursor size total : ℕ) (t : Trace)
        → cursor ≤ end + 1
        → c.minimum_range ≤ size
        → IsSafe start found t
        → Indexed t start cursor total
        → Post (Scanned start found) (IsSafe start found) (rest cursor size total t)

    module _ (rest : ℕ → ℕ → ℕ → Scan ℕ) (promise : Promises rest) (cursor size total : ℕ)
        (t : Trace) (small : cursor ≤ end) (lo : c.minimum_range ≤ size)
        (safe : IsSafe start found t) (indexed : Indexed t start cursor total) where
      asked : Trace
      asked = record t { calls = t.calls + 1 }

      within : cursor ≤ upper_of w c update store_all end cursor size
      within = omega (arith, small, lo, sane.positive)

      next_round-Scanned :
          (answer : Result RpcFailure (List RpcLog))
          → w.get_logs t.calls cursor (upper_of w c update store_all end cursor size) ≡ answer
          → Post
              (Scanned start found)
              (IsSafe start found)
              (next_round w c update store_all end rest cursor size total answer asked)
      unfolding next_round asked
      next_round-Scanned (ok logs) e =
          let safe_after : (t' : Trace)
              → Halted w update store_all cursor (upper_of w c update store_all end cursor size)
                  logs asked t'
              → IsSafe start found t' =
            λ t'.
              Halted-IsSafe t.calls logs (IsSafe-Keeps (λ entry k. k) refl safe)
                (Indexed-Keeps (λ entry k. k) indexed) within (omega arith) e in
          go_on-Post (commit_range-Post w update store_all cursor _ logs asked) safe_after
            (λ a t' (committed, halted).
              promise _ _ _ t' (omega arith) (omega (arith, lo, sane.from_minimum, sane.to_maximum))
                (safe_after t' halted)
                (range t.calls logs (Indexed-Keeps (λ entry k. halted.keeps entry k) indexed) within
                  e (IsCommitted-Recorded w update store_all cursor _ logs _ t' committed)))
      next_round-Scanned (err rpc_error) e = raised _ _ (IsSafe-Keeps (λ entry k. k) refl safe)
      next_round-Scanned (err range_too_large) e = elim (Bool-cases (leb size c.minimum_range)) [
        | inl least ↦ rw (least, next_round) (raised _ _ (IsSafe-Keeps (λ entry k. k) refl safe))
        | inr larger ↦
            rw (larger, next_round)
              (promise _ _ _ asked (omega (arith, small)) (omega arith)
                (IsSafe-Keeps (λ entry k. k) refl safe) (Indexed-Keeps (λ entry k. k) indexed))
      ]

    pub loop-Promises : (fuel : ℕ) → Promises (loop w c update store_all end fuel)
    unfolding loop asked
    loop-Promises zero cursor size total t at lo safe indexed = raised _ _ safe
    loop-Promises (suc fuel) cursor size total t at lo safe indexed =
        elim (Bool-cases (leb cursor end)) [
          | inr past ↦
              rw (past, loop)
                (returned total t
                  (safe, subst (λ n. Indexed t start n total) (ground arith) indexed))
          | inl more ↦
              rw (more, loop)
                (next_round-Scanned _ (loop-Promises fuel) cursor size total t (leb→le _ _ more) lo
                  safe indexed _ refl)
        ]
