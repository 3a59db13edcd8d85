-- ===== src/Scan/Fuel.antt =====
-- The scan's loop ends: src/cow_indexer/services/historical.py.
use cow_indexer.Prelude.{
  ℕ, zero, suc, ◌+◌, ◌-◌, ◌*◌, ◌/◌, ◌≤◌, ◌<◌, ◌≡◌, ◌≢◌, min, max, Bool, true, false, List, arith,
  leb, leb→le, [], ◌∷◌, PyError, Bool-cases, inl, inr, Result, ok, err,
}
use cow_indexer.Exec.{go_on}
use cow_indexer.Models.{RpcLog, BlockHeader, DecodedEvent}
use cow_indexer.WorkQueue.Enqueue.{WorkKey}
use cow_indexer.Loader.{work_for_events}
use cow_indexer.Scan.{
  Scan, RpcFailure, rpc_error, range_too_large, ScanError, out_of_fuel, World, ScanConfig, Trace,
  commit_range, upper_of, next_round, loop, rounds, Write, write, lift, store_blocks,
  store_raw_logs, enqueue, process_many, get_blocks, save_checkpoint, advances, update_checkpoint,
  block_at, decode_logs,
}

-- The ranges that the configuration allows.
pub record IsSane (c : ScanConfig) : Type 0 where
  pub positive : 0 < c.minimum_range
  pub from_minimum : c.minimum_range ≤ c.initial_range
  pub to_maximum : c.initial_range ≤ c.maximum_range

-- A step that never runs out of fuel.
abbrev Finishes : {A : Type 0} → Scan A → Type 0
Finishes step = (t : Trace) → (step t).0 ≢ err out_of_fuel

module _ {A B : Type 0} where
  go_on-Finishes :
      (r : Result ScanError A × Trace) (rest : A → Scan B)
      → r.0 ≢ err out_of_fuel
      → ((a : A) → Finishes (rest a))
      → (go_on r rest).0 ≢ err out_of_fuel
  go_on-Finishes (ok a, t) rest h k = k a t
  go_on-Finishes (err e, t) rest h k = λ q. h (cc q)

module _ (w : World) where
  write-Finishes : (entry : Write) → Finishes (write w entry)
  unfolding write
  write-Finishes entry t = ground arith

  lift-Finishes : {A : Type 0} (r : Result PyError A) → Finishes (lift r)
  unfolding lift
  lift-Finishes (ok a) t = cc
  lift-Finishes (err e) t = cc

  store_blocks-Finishes : (hs : List BlockHeader) → Finishes (store_blocks w hs)
  unfolding store_blocks
  store_blocks-Finishes [] t = cc
  store_blocks-Finishes (h ∷ hs) t = write-Finishes _ t

  store_raw_logs-Finishes : (ls : List RpcLog) → Finishes (store_raw_logs w ls)
  unfolding store_raw_logs
  store_raw_logs-Finishes [] t = cc
  store_raw_logs-Finishes (l ∷ ls) t = write-Finishes _ t

  enqueue-Finishes : (ks : List WorkKey) → Finishes (enqueue w ks)
  unfolding enqueue
  enqueue-Finishes [] t = cc
  enqueue-Finishes (k ∷ ks) t = write-Finishes _ t

  process_many-Finishes : (es : List DecodedEvent) → Finishes (process_many w es)
  unfolding process_many
  process_many-Finishes [] t = cc
  process_many-Finishes (e ∷ es) t = go_on-Finishes _ _ (write-Finishes _ t) (λ a t₁.
      go_on-Finishes _ _ (lift-Finishes (work_for_events (e ∷ es)) t₁) (λ ks. enqueue-Finishes ks))

  get_blocks-Finishes : (ns : List ℕ) → Finishes (get_blocks w ns)
  unfolding get_blocks
  get_blocks-Finishes ns t = ground arith

  save_checkpoint-Finishes : (h : BlockHeader) → Finishes (save_checkpoint w h)
  unfolding save_checkpoint
  save_checkpoint-Finishes h t = elim (Bool-cases (advances w t.durable h.number)) [
    | inl e ↦ rw e (go_on-Finishes _ _ (write-Finishes _ t) (λ a t₁. cc))
    | inr e ↦ rw e (λ q. cc q)
  ]

  update_checkpoint-Finishes :
      (update : Bool) (upper : ℕ) (hs : List BlockHeader)
      → Finishes (update_checkpoint w update upper hs)
  unfolding update_checkpoint
  update_checkpoint-Finishes false upper hs t = cc
  update_checkpoint-Finishes true upper hs t =
      go_on-Finishes _ _ (lift-Finishes (block_at upper hs) t) save_checkpoint-Finishes

  commit_range-Finishes :
      (update store_all : Bool) (cursor upper : ℕ) (logs : List RpcLog)
      → Finishes (commit_range w update store_all cursor upper logs)
  unfolding commit_range
  commit_range-Finishes update store_all cursor upper logs t =
      go_on-Finishes _ _ (get_blocks-Finishes _ t) (λ hs t₁.
        go_on-Finishes _ _ (store_blocks-Finishes hs t₁) (λ a t₂.
          go_on-Finishes _ _ (store_raw_logs-Finishes logs t₂) (λ b t₃.
            go_on-Finishes _ _ (lift-Finishes (decode_logs w hs logs) t₃) (λ es t₄.
              go_on-Finishes _ _ (process_many-Finishes es t₄) (λ d t₅.
                go_on-Finishes _ _ (update_checkpoint-Finishes update upper hs t₅)
                  (λ e t₆. write-Finishes _ t₆))))))

module _ (w : World) (c : ScanConfig) (sane : IsSane c) (update store_all : Bool) (end : ℕ) where
  -- What is left to do: every block to come may take a full shrinking of the range.
  measure : ℕ → ℕ → ℕ
  measure cursor size = (end + 1 - cursor) * (c.maximum_range + 1) + size

  grow_less :
      (cursor size : ℕ)
      → cursor ≤ end
      → c.minimum_range ≤ size
      → measure (upper_of w c update store_all end cursor size + 1) (min c.maximum_range (size * 2))
        < measure cursor size
  unfolding measure
  grow_less cursor size h k =
      let a = end + 1 - cursor in
      let b = end + 1 - (upper_of w c update store_all end cursor size + 1) in
      let fewer : b + 1 ≤ a = omega (arith, sane.positive) in
      let scaled : (b + 1) * (c.maximum_range + 1) ≤ a * (c.maximum_range + 1) = grind arith in
      let spread : (b + 1) * (c.maximum_range + 1)
          ≡ b * (c.maximum_range + 1) + (c.maximum_range + 1) =
        omega arith in
      omega (arith, scaled, spread)

  shrink_less :
      (cursor size : ℕ)
      → leb size c.minimum_range ≡ false
      → c.minimum_range ≤ size
      → measure cursor (max c.minimum_range (size / 2)) < measure cursor size
  unfolding measure
  shrink_less cursor size larger lo =
      let more : c.minimum_range < size = ground arith in
      let smaller : max c.minimum_range (size / 2) < size = omega (arith, sane.positive) in
      omega arith

  loop_ends :
      (fuel cursor size total : ℕ) (t : Trace)
      → measure cursor size < fuel
      → c.minimum_range ≤ size
      → size ≤ c.maximum_range
      → (loop w c update store_all end fuel cursor size total t).0 ≢ err out_of_fuel
  unfolding loop next_round
  loop_ends zero cursor size total t m lo hi = absurd (omega arith)
  loop_ends (suc fuel) cursor size total t m lo hi = elim (Bool-cases (leb cursor end)) [
    | inr past ↦ rw (past, loop) (λ e. cc e)
    | inl more ↦
        rw (more, loop)
          (answered (leb→le _ _ more) _ _ (λ cursor' size' total' t' m' lo' hi'.
            loop_ends fuel cursor' size' total' t' (omega (arith, m')) lo' hi'))
  ]
    where
      answered :
          cursor ≤ end
          → (answer : Result RpcFailure (List RpcLog)) (t' : Trace)
          → ((cursor' size' total' : ℕ) (t'' : Trace)
              → measure cursor' size' < measure cursor size
              → c.minimum_range ≤ size'
              → size' ≤ c.maximum_range
              → (loop w c update store_all end fuel cursor' size' total' t'').0 ≢ err out_of_fuel)
          → (next_round w c update store_all end
              (loop w c update store_all end fuel)
              cursor
              size
              total
              answer
              t').0
            ≢ err out_of_fuel
      answered h (ok logs) t' again =
          go_on-Finishes _ _ (commit_range-Finishes w update store_all cursor _ logs t') (λ a t''.
            again _ _ _ t'' (grow_less cursor size h lo)
              (omega (arith, sane.positive, sane.from_minimum, sane.to_maximum)) (omega arith))
      answered h (err rpc_error) t' again = (λ e. cc e)
      answered h (err range_too_large) t' again = elim (Bool-cases (leb size c.minimum_range)) [
        | inl least ↦ rw (least, next_round) (λ e. cc e)
        | inr larger ↦
            rw (larger, next_round)
              (again cursor (max c.minimum_range (size / 2)) total t'
                (shrink_less cursor size larger lo) (omega arith)
                (omega (arith, sane.from_minimum, sane.to_maximum)))
      ]

  -- The scan's loop always ends: with the rounds that `scan` gives it and a sane configuration it
  -- returns a count or raises, whatever the node and the database answer.
  pub loop_total :
      (start : ℕ) (t : Trace)
      → (loop w c update store_all end (rounds w c start end) start c.initial_range 0 t).0
        ≢ err out_of_fuel
  loop_total start t =
      loop_ends (rounds w c start end) start c.initial_range 0 t (unfold measure in omega arith)
        sane.from_minimum sane.to_maximum
