-- ===== src/CowApi.antt =====
-- The client of the CoW API: `CowApiClient` of src/cow_indexer/sources/cow_api.py. The transport,
-- which may raise, and the clock take the number of the request; the pauses between attempts are
-- recorded without their random part.
pub mod Retries
pub mod Paging
use cow_indexer.Prelude.{
  ℕ, zero, suc, ◌+◌, ◌-◌, ◌*◌, ◌^◌, ◌==◌, leb, ltb, Bool, true, false, ◌&&◌, ◌||◌, Option, none,
  some, List, [], ◌∷◌, min, length, if◌then◌else◌, every, take, Text, Result, ok, err,
}
use cow_indexer.Json.{Json}
use cow_indexer.RateLimiter.{Limiter, reserve, slow_down, speed_up}

pub record Response : Type 0 where
  pub status : ℕ
  pub retry_after : Option Text
  pub body : Option Json
  pub text : Text

pub data ApiError : Type 0 where
  cow_api_error : ℕ → Text → ApiError
  no_response : ApiError
  transport_error : Text → ApiError

pub data Answer : Type 0 where
  missing : Answer
  parsed : Json → Answer
  plain : Text → Answer

pub record Session : Type 0 where
  pub limiter : Limiter
  pub sent : ℕ
  pub pauses : List ℕ

unfoldable pub is_in : ℕ → List ℕ → Bool
is_in n [] = false
is_in n (m ∷ ms) = (n == m) || is_in n ms

unfoldable pub is_retryable : ℕ → Bool
unfolding is_in
is_retryable status = is_in status (403 ∷ 408 ∷ 425 ∷ 429 ∷ 500 ∷ 502 ∷ 503 ∷ 504 ∷ [])

unfoldable pub is_throttling : ℕ → Bool
unfolding is_in
is_throttling status = is_in status (403 ∷ 429 ∷ [])

unfoldable pub is_success : ℕ → Bool
is_success status = leb 200 status && ltb status 300

abbrev pub content : Response → Answer
content r = elim r.body [ some value ↦ parsed value | none ↦ plain r.text ]

unfoldable pub is_digit : ℕ → Bool
is_digit code = leb 48 code && leb code 57

-- `str.isdigit`, read on the ten digits of ASCII.
unfoldable pub decimal : ℕ → Text → Option ℕ
unfolding is_digit
decimal total [] = some total
decimal total (d ∷ ds) =
    let rest = decimal (total * 10 + (d - 48)) ds in if is_digit d then rest else none

unfoldable pub delay : ℕ → Option Text → ℕ
unfolding decimal
delay attempt none = 2 ^ attempt
delay attempt (some []) = 2 ^ attempt
delay attempt (some (d ∷ ds)) = elim (decimal 0 (d ∷ ds)) [
  | some seconds ↦ seconds
  | none ↦ 2 ^ attempt
]

module _ (transport : ℕ → Result Text Response) (clock : ℕ → ℕ) (allow_404 : Bool) where
  pub failure : Option Response → ApiError
  failure none = no_response
  failure (some r) = cow_api_error r.status (take 500 r.text)

  pub throttled : Response → Session → Session
  throttled r s =
      if is_throttling r.status
      then record s { limiter = slow_down (clock s.sent) s.limiter }
      else s

  unfoldable pub paused : ℕ → Response → Session → Session
  unfolding throttled delay
  paused attempt r s =
      let s' = throttled r s in
      record s' { pauses = min 30 (delay attempt r.retry_after) ∷ s'.pauses }

  -- `self.limiter.wait()` and the request.
  unfoldable pub send : Session → Session
  send s = record s { limiter = reserve (clock s.sent) s.limiter; sent = s.sent + 1 }

  -- The attempts that are left, the number of the next one, and the last response. What the transport
  -- raises gets out at once.
  unfoldable pub attempts_from :
      ℕ → ℕ → Option Response → Session → Result ApiError Answer × Session
  unfolding failure
  attempts_from zero attempt last s = (err (failure last), s)
  attempts_from (suc left) attempt last s = elim (transport s.sent) [
    | err e ↦ (err (transport_error e), send s)
    | ok r ↦
        let rest = attempts_from left (attempt + 1) (some r) (paused attempt r (send s)) in
        if is_success r.status
        then (ok (content r), record (send s) { limiter = speed_up (send s).limiter })
        else if allow_404 && (r.status == 404)
        then (ok missing, send s)
        else if is_retryable r.status
        then rest
        else (err (failure (some r)), send s)
  ]

  unfoldable pub request : ℕ → Session → Result ApiError Answer × Session
  request max_attempts s = attempts_from max_attempts 0 none s
