-- ===== src/RateLimiter.antt =====
-- The rate limiter of src/cow_indexer/sources/cow_api.py, in whole ticks of the clock. A call of
-- `wait` takes a ticket, the slot and the epoch of its reservation, and is admitted when it wakes
-- in the same epoch, or else takes another ticket; so any interleaving of the callers is a sequence
-- of the operations below.
pub mod Pacing
use cow_indexer.Prelude.{ℕ, ◌+◌, ◌*◌, ◌/◌, min, max, List, [], ◌∷◌}

pub record Limiter : Type 0 where
  pub base_interval : ℕ
  pub max_interval : ℕ
  pub interval : ℕ
  pub next_slot : ℕ
  pub epoch : ℕ

unfoldable pub new_limiter : ℕ → ℕ → Limiter
new_limiter interval max_interval = record {
  base_interval = interval;
  max_interval = max max_interval interval;
  interval = interval;
  next_slot = 0;
  epoch = 0;
}

pub record Ticket : Type 0 where
  pub slot : ℕ
  pub epoch : ℕ

unfoldable pub slot_of : ℕ → Limiter → ℕ
slot_of now l = max now l.next_slot

-- `_reserve`.
unfoldable pub reserve : ℕ → Limiter → Limiter
unfolding slot_of
reserve now l = record l { next_slot = slot_of now l + l.interval }

unfoldable pub ticket : ℕ → Limiter → Ticket
unfolding slot_of
ticket now l = record { slot = slot_of now l; epoch = l.epoch }

-- `slow_down` with its factor of two.
unfoldable pub slow_down : ℕ → Limiter → Limiter
slow_down now l =
    let slower = min l.max_interval (max l.base_interval (l.interval * 2)) in
    record l { interval = slower; epoch = l.epoch + 1; next_slot = max l.next_slot (now + slower) }

-- `speed_up` with its factor of nine tenths.
unfoldable pub speed_up : Limiter → Limiter
speed_up l = record l { interval = max l.base_interval (l.interval * 9 / 10) }

pub data Operation : Type 0 where
  reserving : ℕ → Operation
  slowing : ℕ → Operation
  speeding : Operation

unfoldable pub perform : Operation → Limiter → Limiter
perform (reserving now) l = reserve now l
perform (slowing now) l = slow_down now l
perform speeding l = speed_up l

unfoldable pub perform_all : List Operation → Limiter → Limiter
perform_all [] l = l
perform_all (o ∷ os) l = perform_all os (perform o l)

-- The tickets that the callers hold, in the order of their reservations.
unfoldable pub tickets : List Operation → Limiter → List Ticket
tickets [] l = []
tickets (reserving now ∷ os) l = ticket now l ∷ tickets os (reserve now l)
tickets (slowing now ∷ os) l = tickets os (slow_down now l)
tickets (speeding ∷ os) l = tickets os (speed_up l)
