-- ===== src/Client/Judging.antt =====
-- How the breaker's view of an outcome and the retry's view of it relate.
use inference_box.Prelude.{
  ℕ, ◌*◌, ◌^◌, ◌≤◌, ◌≡◌, ◌≢◌, ◌↔◌, ◌⊎◌, min, Option, none, some, true, arith,
}
use inference_box.Breaker.{FailureKind, connect, throttled, server_error}
use inference_box.Client.Outcomes.{
  read_timed_out, Outcome, response, exception, classify, should_retry, retry_delay,
  max_retry_delay_sec,
}
use inference_box.Client.Retry.{exc_of, status_of, is_success}

-- How an attempt counts against the replica's breaker.
abbrev pub kind_of : Outcome → Option FailureKind
kind_of o = classify (exc_of o) (status_of o)

-- What is retried is a connection that failed, throttling, or one of three server errors; and it
-- is never what counts as a success or as the caller's fault, nor a read that timed out.
pub should_retry-kind_of :
    (o : Outcome)
    → should_retry o ≡ true
    → ((kind_of o ≡ some connect) ⊎ (kind_of o ≡ some throttled) ⊎ (kind_of o ≡ some server_error))
      × (o ≢ exception read_timed_out)
unfolding should_retry classify
should_retry-kind_of (response r) h = ground arith
should_retry-kind_of (exception e) h = ground arith

-- An attempt counts as a success exactly when it is a response with a status below 400.
pub kind_of-eq-none_iff : (o : Outcome) → (kind_of o ≡ none) ↔ (is_success o ≡ true)
unfolding classify
kind_of-eq-none_iff (response r) = ground arith
kind_of-eq-none_iff (exception e) = ground arith

-- Whatever Retry-After asks for and however the jitter falls within its bound, the delay before a
-- retry is at most two seconds.
pub retry_delay_bounded :
    (jitter : ℕ → ℕ) (attempt : ℕ) (o : Outcome)
    → ((most : ℕ) → jitter most ≤ most)
    → retry_delay jitter attempt o ≤ max_retry_delay_sec
unfolding retry_delay
retry_delay_bounded jitter attempt o h =
    ground (arith, h (min (250 * 2 ^ attempt) max_retry_delay_sec))
