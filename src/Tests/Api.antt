-- ===== src/Tests/Api.antt =====
-- Runs of the rate limiter, of the batches, and of the API client.
use cow_indexer.Prelude.{
  ℕ, ◌+◌, ◌≤◌, ◌<◌, ◌≡◌, refl, arith, true, none, some, List, [], ◌∷◌, All, take, drop,
  if◌then◌else◌, ltb, codes, Result, ok, err, Text, PyError,
}
use cow_indexer.RateLimiter.{
  Limiter, new_limiter, tickets, ticket, slot_of, reserve, slow_down, speed_up, reserving, slowing,
  speeding, Operation,
}
use cow_indexer.RateLimiter.Pacing.{IsBounded, IsPaced, tickets-IsPaced, tickets-slow_down}
use cow_indexer.Batches.{batched, batched_from, concat, flush, AreBatches, batched-AreBatches}
use cow_indexer.CowApi.{
  Response, Session, transport_error, plain, request, attempts_from, is_in, is_success,
  is_retryable, is_throttling, paused, send,
}
use cow_indexer.CowApi.Retries.{verdict, decisive, request-verdict}
use cow_indexer.CowApi.Paging.{pages, finished, concat-pages, next_page, yielded}

program : Unit {0}
unfolding new_limiter tickets ticket slot_of reserve slow_down speed_up batched batched_from concat
    flush request attempts_from is_in is_success is_retryable is_throttling paused send pages
    next_page yielded
program = tt

operations : List Operation
operations = reserving 0 ∷ reserving 0 ∷ slowing 150 ∷ reserving 150 ∷ speeding ∷ reserving 900 ∷ []

limiter : Limiter
unfolding program
limiter = new_limiter 100 5000

limiter-IsBounded : IsBounded limiter
unfolding program limiter
limiter-IsBounded = record { at_least = omega arith; at_most = omega arith }

tickets-IsPaced_example : IsPaced (limiter).base_interval (tickets operations limiter)
tickets-IsPaced_example = tickets-IsPaced operations limiter limiter-IsBounded

tickets-slow_down_example :
    All
      (λ t. (40 + (slow_down 40 limiter).interval ≤ t.slot) × (limiter.epoch < t.epoch))
      (tickets operations (slow_down 40 limiter))
tickets-slow_down_example = tickets-slow_down 40 operations limiter

numbers : List ℕ
numbers = 1 ∷ 2 ∷ 3 ∷ 4 ∷ 5 ∷ []

in_twos : batched 2 numbers ≡ ok ((1 ∷ 2 ∷ []) ∷ (3 ∷ 4 ∷ []) ∷ (5 ∷ []) ∷ [])
unfolding program numbers
in_twos = refl

batched-AreBatches_example :
    (batches : List (List ℕ)) × (batched 2 numbers ≡ ok batches)
    × AreBatches 2 batches
    × (concat batches ≡ numbers)
batched-AreBatches_example = batched-AreBatches 2 numbers (omega arith)

-- Two throttled answers, then a success, then a timeout.
transport : ℕ → Result Text Response
transport n =
    if ltb n 3
    then ok (record {
      status = if ltb n 2 then 429 else 200;
      retry_after = some (codes "5");
      body = none;
      text = codes "ok";
    })
    else err (codes "timeout")

session : Session
unfolding limiter
session = record { limiter = limiter; sent = 0; pauses = [] }

third_attempt : (request transport (λ n. n) true 6 session).0 ≡ ok (plain (codes "ok"))
unfolding program transport session
third_attempt = refl

timed_out :
    (request transport (λ n. n) true 6 (record { limiter = limiter; sent = 3; pauses = [] })).0
    ≡ err (transport_error (codes "timeout"))
unfolding program transport limiter
timed_out = refl

request-verdict_example :
    ((request transport (λ n. n) true 6 session).0
      ≡ verdict transport (λ n. n) true (decisive transport (λ n. n) true 5 session.sent))
    × ((request transport (λ n. n) true 6 session).1.sent ≤ session.sent + 6)
request-verdict_example = request-verdict transport (λ n. n) true 5 session

page : ℕ → Result PyError (List ℕ)
unfolding numbers
page offset = ok (take 2 (drop offset numbers))

concat-pages_example : ((pages page 2 6 0).1 ≡ finished) × (concat (pages page 2 6 0).0 ≡ numbers)
unfolding page numbers
concat-pages_example = concat-pages page 2 numbers (omega arith) (λ offset. refl)
