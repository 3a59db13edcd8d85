-- ===== src/CowApi/Retries.antt =====
-- The attempts of `_request` of src/cow_indexer/sources/cow_api.py.
use cow_indexer.Prelude.{
  ℕ, zero, suc, arith, ◌+◌, ◌≤◌, ◌≡◌, refl, ◌∙◌, ap, sym, Bool, true, false, ◌&&◌, ◌==◌, Option,
  some, none, Bool-cases, inl, inr, if◌then◌else◌, Result, ok, err, Text, ◌⊎◌,
}
use cow_indexer.CowApi.{
  Response, ApiError, transport_error, Answer, missing, content, Session, is_in, is_retryable,
  is_throttling, is_success, paused, throttled, send, failure, attempts_from, request,
}

-- A status that is retried is neither a success nor a 404.
is_retryable-failure :
    (status : ℕ)
    → is_retryable status ≡ true
    → (is_success status ≡ false) × ((status == 404) ≡ false)
unfolding is_retryable is_in is_success
is_retryable-failure status h = (grind arith, grind arith)

no_match : (allowed : Bool) {found : Bool} → found ≡ false → (allowed && found) ≡ false
no_match true e = e
no_match false e = refl

module _ (transport : ℕ → Result Text Response) (clock : ℕ → ℕ) (allow_404 : Bool) where
  -- An attempt is followed by another one only after a response with a status that is retried.
  pub is_tried_again : Result Text Response → Bool
  is_tried_again (err raised) = false
  is_tried_again (ok r) = is_retryable r.status

  -- The first attempt, of so many and one more, that is not retried, or the last.
  pub decisive : ℕ → ℕ → Result Text Response
  decisive zero n = transport n
  decisive (suc more) n =
      let next = decisive more (n + 1) in if is_tried_again (transport n) then next else transport n

  -- What one attempt alone stands for.
  pub verdict : Result Text Response → Result ApiError Answer
  verdict (err raised) = err (transport_error raised)
  verdict (ok r) =
      if is_success r.status
      then ok (content r)
      else if allow_404 && (r.status == 404)
      then ok missing
      else err (failure transport clock allow_404 (some r))

  paused-sent :
      (attempt : ℕ) (r : Response) (s : Session)
      → (paused transport clock allow_404 attempt r s).sent ≡ s.sent
  unfolding paused throttled
  paused-sent attempt r s = elim (Bool-cases (is_throttling r.status)) [
    | inl e ↦ rw (e, paused, throttled) refl
    | inr e ↦ rw (e, paused, throttled) refl
  ]

  verdict-retryable :
      (r : Response)
      → is_retryable r.status ≡ true
      → verdict (ok r) ≡ err (failure transport clock allow_404 (some r))
  unfolding verdict
  verdict-retryable r again =
      let (failed, found) = is_retryable-failure r.status again in
      elim (Bool-cases allow_404) [
        | inl e ↦ rw (failed, e, found) refl
        | inr e ↦ rw (failed, e) refl
      ]

  next_session : ℕ → Response → Session → Session
  next_session attempt r s =
      paused transport clock allow_404 attempt r (send transport clock allow_404 s)

  next_session-sent :
      (attempt : ℕ) (r : Response) (s : Session) → (next_session attempt r s).sent ≡ s.sent + 1
  unfolding next_session send
  next_session-sent attempt r s = paused-sent attempt r (send transport clock allow_404 s)

  attempts_from-again :
      (left attempt : ℕ) (last : Option Response) (s : Session) (r : Response)
      → transport s.sent ≡ ok r
      → is_retryable r.status ≡ true
      → attempts_from transport clock allow_404 (suc left) attempt last s
        ≡ attempts_from transport clock allow_404 left
            (attempt + 1)
            (some r)
            (next_session attempt r s)
  unfolding attempts_from next_session
  attempts_from-again left attempt last s r e again =
      let (failed, found) = is_retryable-failure r.status again in
      rw (e, attempts_from, failed, no_match allow_404 found, again) refl

  -- What one attempt that is the last one leaves.
  Settles : Session → Result ApiError Answer × Session → Type 0
  Settles s outcome = (outcome.0 ≡ verdict (transport s.sent)) × (outcome.1.sent ≡ s.sent + 1)

  attempts_from-settled :
      (left attempt : ℕ) (last : Option Response) (s : Session) (r : Response)
      → transport s.sent ≡ ok r
      → is_retryable r.status ≡ false
      → Settles s (attempts_from transport clock allow_404 (suc left) attempt last s)
  unfolding attempts_from verdict send Settles
  attempts_from-settled left attempt last s r e settled = elim (Bool-cases (is_success r.status)) [
    | inl f ↦ (rw (e, attempts_from, f) refl, rw (e, attempts_from, f) refl)
    | inr f ↦ elim (Bool-cases (allow_404 && (r.status == 404))) [
      | inl g ↦ (rw (e, attempts_from, f, g) refl, rw (e, attempts_from, f, g) refl)
      | inr g ↦
          (rw (e, attempts_from, f, g, settled) refl, rw (e, attempts_from, f, g, settled) refl)
    ]
  ]

  attempts_from-raised :
      (left attempt : ℕ) (last : Option Response) (s : Session) (raised : Text)
      → transport s.sent ≡ err raised
      → Settles s (attempts_from transport clock allow_404 (suc left) attempt last s)
  unfolding attempts_from verdict send Settles
  attempts_from-raised left attempt last s raised e =
      (rw (e, attempts_from) refl, rw (e, attempts_from) refl)

  -- One attempt: a response that is retried, or the last attempt of the request.
  attempt-cases :
      (left attempt : ℕ) (last : Option Response) (s : Session)
      → ((r : Response) × (transport s.sent ≡ ok r) × (is_retryable r.status ≡ true))
        ⊎ ((is_tried_again (transport s.sent) ≡ false)
            × Settles s (attempts_from transport clock allow_404 (suc left) attempt last s))
  unfolding is_tried_again
  attempt-cases left attempt last s = by_answer (transport s.sent) refl
    where
      by_answer :
          (x : Result Text Response)
          → transport s.sent ≡ x
          → ((r : Response) × (transport s.sent ≡ ok r) × (is_retryable r.status ≡ true))
            ⊎ ((is_tried_again (transport s.sent) ≡ false)
                × Settles s (attempts_from transport clock allow_404 (suc left) attempt last s))
      by_answer (err raised) e =
          inr (ap is_tried_again e, attempts_from-raised left attempt last s raised e)
      by_answer (ok r) e = elim (Bool-cases (is_retryable r.status)) [
        | inl again ↦ inl (r, e, again)
        | inr settled ↦
            inr
              (ap is_tried_again e ∙ settled, attempts_from-settled left attempt last s r e settled)
      ]

  Decided : ℕ → Session → Result ApiError Answer × Session → Type 0
  Decided left s outcome =
      (outcome.0 ≡ verdict (decisive left s.sent)) × (outcome.1.sent ≤ s.sent + (left + 1))

  attempts_from-Decided :
      (left attempt : ℕ) (last : Option Response) (s : Session)
      → Decided left s (attempts_from transport clock allow_404 (suc left) attempt last s)
  unfolding decisive Decided Settles is_tried_again
  attempts_from-Decided zero attempt last s = elim (attempt-cases 0 attempt last s) [
    | inl (r, e, again) ↦
        rw (attempts_from-again 0 attempt last s r e again, e)
          (
            unfold attempts_from in sym (verdict-retryable r again),
            unfold attempts_from in omega (arith, next_session-sent attempt r s),
          )
    | inr (settled, done) ↦ (done.0, omega (arith, done.1))
  ]
  attempts_from-Decided (suc left) attempt last s = elim (attempt-cases (suc left) attempt last s) [
    | inl (r, e, again) ↦
        let rest = attempts_from-Decided left (attempt + 1) (some r) (next_session attempt r s) in
        rw (attempts_from-again (suc left) attempt last s r e again, e, again)
          (
            rest.0 ∙ ap (λ n. verdict (decisive left n)) (next_session-sent attempt r s),
            omega (arith, rest.1, next_session-sent attempt r s),
          )
    | inr (settled, done) ↦ (rw settled done.0, omega (arith, done.1))
  ]

  -- With at least one attempt: the request gives what the first attempt that is not retried stands for,
  -- or the last one when all are retried (a 2xx response the answer, a 404 that is allowed no answer, any
  -- other response an error with its status, and an exception of the transport, such as a timeout, that
  -- exception), and sends no more than so many requests. Only a response with a status that is retried
  -- is followed by another attempt, an exception of the transport is not.
  pub request-verdict :
      (more : ℕ) (s : Session)
      → ((request transport clock allow_404 (suc more) s).0 ≡ verdict (decisive more s.sent))
        × ((request transport clock allow_404 (suc more) s).1.sent ≤ s.sent + (more + 1))
  unfolding request Decided
  request-verdict more s = attempts_from-Decided more 0 none s
