-- ===== src/RecentEnqueues/Bounds.antt =====
-- The size of the remembered set.
use cow_indexer.Prelude.{
  ◌⊎◌, ◌≡◌, true, ◌≤◌, List, [], ◌∷◌, arith, length, Text, ℕ, Bool-cases, inl, inr,
}
use cow_indexer.RecentEnqueues.{RecentEnqueues, Seen, enabled, evict, take_new}

length-evict-le : (bound : ℕ) (l : Seen) → length (evict bound l) ≤ bound
unfolding evict
length-evict-le bound [] = omega arith
length-evict-le bound (e ∷ l) = ground (arith, length-evict-le bound l)

-- Whatever is enqueued, the set holds at most `max_entries` identities afterwards, if it did
-- before or the suppression is on.
pub length-take_new-le :
    (r : RecentEnqueues) (work_ids : List Text) (now : ℕ)
    → (length r.seen ≤ r.max_entries) ⊎ (enabled r ≡ true)
    → length (take_new r work_ids now).1.seen ≤ (take_new r work_ids now).1.max_entries
unfolding take_new
length-take_new-le r work_ids now h = elim (Bool-cases (enabled r)) [
  | inl e ↦ rw e (length-evict-le r.max_entries _)
  | inr e ↦ rw e (elim h [ inl bounded ↦ bounded | inr on ↦ absurd (cc (on, e)) ])
]
