-- ===== src/Client/Outcomes.antt =====
-- What an attempt can come to, and how gateway/upstream/client.py judges it.
use inference_box.Prelude.{
  ℕ, ◌*◌, ◌^◌, min, Bool, true, false, ◌||◌, Option, none, some, leb, ◌==◌, if◌then◌else◌,
}
use inference_box.Breaker.{
  FailureKind, connect, read_timeout, server_error, throttled, client_error,
}

-- The exceptions that the source tells apart: httpx.ReadTimeout and every other.
pub data Exc : Type 0 where
  read_timed_out : Exc
  failed_otherwise : Exc

-- A response: its status, and its Retry-After header, `some none` where it is no number and
-- otherwise a delay in milliseconds.
pub record Response : Type 0 where
  pub status_code : ℕ
  pub retry_after : Option (Option ℕ)

pub data Outcome : Type 0 where
  response : Response → Outcome
  exception : Exc → Outcome

abbrev classify_exc : Exc → FailureKind
classify_exc read_timed_out = read_timeout
classify_exc failed_otherwise = connect

classify_status : ℕ → Option FailureKind
classify_status code =
    if code == 429
    then some throttled
    else if leb 500 code
    then some server_error
    else if leb 400 code
    then some client_error
    else none

unfoldable pub classify : Option Exc → Option ℕ → Option FailureKind
unfolding classify_status
classify (some e) status_code = some (classify_exc e)
classify none none = none
classify none (some code) = classify_status code

-- `_RETRYABLE_STATUS`
abbrev pub is_retryable_status : ℕ → Bool
is_retryable_status code = code == 429 || code == 502 || code == 503 || code == 504

-- `kind is FailureKind.CONNECT`
abbrev is_connect : Option FailureKind → Bool
is_connect (some connect) = true
is_connect _ = false

unfoldable pub should_retry : Outcome → Bool
unfolding classify
should_retry (exception e) = is_connect (classify (some e) none)
should_retry (response r) = is_retryable_status r.status_code

abbrev pub max_retry_delay_sec : ℕ
max_retry_delay_sec = 2000

abbrev pub jitter_base_sec : ℕ
jitter_base_sec = 250

abbrev asked_delay : Option (Option ℕ) → Option ℕ
asked_delay (some (some raw)) = some raw
asked_delay _ = none

abbrev header_of : Outcome → Option (Option ℕ)
header_of (response r) = r.retry_after
header_of (exception e) = none

-- `_retry_delay`; `jitter` is `random.uniform(0, most)`.
unfoldable pub retry_delay : (ℕ → ℕ) → ℕ → Outcome → ℕ
retry_delay jitter attempt outcome = elim (asked_delay (header_of outcome)) [
  | some raw ↦ min raw max_retry_delay_sec
  | none ↦ jitter (min (jitter_base_sec * 2 ^ attempt) max_retry_delay_sec)
]
