-- ===== src/RateLimiter/Pacing.antt =====
-- The spacing of the requests that the rate limiter of src/cow_indexer/sources/cow_api.py admits.
use cow_indexer.Prelude.{ℕ, arith, ◌+◌, ◌≤◌, ◌<◌, List, [], ◌∷◌, All}
use cow_indexer.RateLimiter.{
  Limiter, Ticket, reserve, ticket, slot_of, slow_down, speed_up, Operation, reserving, slowing,
  speeding, perform, tickets,
}

-- The interval stays between its bounds.
pub record IsBounded (l : Limiter) : Type 0 where
  pub at_least : l.base_interval ≤ l.interval
  pub at_most : l.interval ≤ l.max_interval

-- Each slot is an interval or more before all that follow.
unfoldable pub IsPaced : ℕ → List Ticket → Type 0
IsPaced interval [] = Unit {0}
IsPaced interval (t ∷ ts) = All (λ later. t.slot + interval ≤ later.slot) ts × IsPaced interval ts

perform-IsBounded : (o : Operation) (l : Limiter) → IsBounded l → IsBounded (perform o l)
unfolding perform reserve slow_down speed_up
perform-IsBounded (reserving now) l b = record { at_least = b.at_least; at_most = b.at_most }
perform-IsBounded (slowing now) l b = record {
  at_least = omega (arith, b.at_least, b.at_most);
  at_most = omega arith;
}
perform-IsBounded speeding l b = record {
  at_least = omega arith;
  at_most = omega (arith, b.at_least, b.at_most);
}

module _ (P : Ticket → Type 0) {Q : Ticket → Type 0} where
  All-weaken : (ts : List Ticket) → ((t : Ticket) → P t → Q t) → All P ts → All Q ts
  All-weaken [] k h = tt
  All-weaken (t ∷ ts) k (p, h) = (k t p, All-weaken ts k h)

-- The slots and epochs to come are not before those that the limiter has reached.
tickets-after :
    (os : List Operation) (l : Limiter)
    → All (λ t. (l.next_slot ≤ t.slot) × (l.epoch ≤ t.epoch)) (tickets os l)
unfolding tickets ticket reserve slow_down speed_up slot_of
tickets-after [] l = tt
tickets-after (reserving now ∷ os) l = (
  (omega arith, omega arith),
  All-weaken _ (tickets os (reserve now l)) (λ t h. let a = h.0 in (omega arith, h.1))
      (tickets-after os (reserve now l)),
)
tickets-after (slowing now ∷ os) l =
    All-weaken _ (tickets os (slow_down now l))
      (λ t h. let a = h.0 in let b = h.1 in (omega arith, omega arith))
      (tickets-after os (slow_down now l))
tickets-after (speeding ∷ os) l = tickets-after os (speed_up l)

-- Whatever the operations and their times, and while the interval lies between its bounds at the
-- start: the slots that callers reserve are at least the base interval apart, and in the order in
-- which they were reserved.
pub tickets-IsPaced :
    (os : List Operation) (l : Limiter) → IsBounded l → IsPaced l.base_interval (tickets os l)
unfolding tickets ticket reserve slow_down speed_up slot_of IsPaced perform
tickets-IsPaced [] l b = tt
tickets-IsPaced (reserving now ∷ os) l b = (
  All-weaken _ (tickets os (reserve now l)) (λ t h. let a = h.0 in omega (arith, b.at_least, a))
      (tickets-after os (reserve now l)),
  tickets-IsPaced os (reserve now l) (perform-IsBounded (reserving now) l b),
)
tickets-IsPaced (slowing now ∷ os) l b =
    tickets-IsPaced os (slow_down now l) (perform-IsBounded (slowing now) l b)
tickets-IsPaced (speeding ∷ os) l b =
    tickets-IsPaced os (speed_up l) (perform-IsBounded speeding l b)

-- After a throttling at any time, whatever follows, each later reservation is of a newer epoch and
-- its slot is at least the new interval after that time.
pub tickets-slow_down :
    (now : ℕ) (os : List Operation) (l : Limiter)
    → All
        (λ t. (now + (slow_down now l).interval ≤ t.slot) × (l.epoch < t.epoch))
        (tickets os (slow_down now l))
unfolding slow_down
tickets-slow_down now os l =
    All-weaken _ (tickets os (slow_down now l))
      (λ t h. let a = h.0 in let b = h.1 in (omega arith, omega arith))
      (tickets-after os (slow_down now l))
