-- ===== src/Client/Retry.antt =====
-- `_with_retry` of gateway/upstream/client.py, with what the network and the other tasks do in it
-- as arguments.
pub mod Laws
use inference_box.Prelude.{
  ℕ, zero, suc, ◌+◌, String, List, [], ◌∷◌, ◌++◌, Bool, true, false, ◌&&◌, ◌||◌, not, Option, none,
  some, ltb, leb, if◌then◌else◌, Result, ok, raises,
}
use inference_box.Prelude.Text.{rstrip_slash}
use Prim.Native.String
use inference_box.Client.{UpstreamPool, PoolError, Settings, pick, record_outcome, label_of}
use inference_box.Client.Outcomes.{
  Exc, Response, Outcome, response, exception, should_retry, retry_delay,
}

abbrev pub max_attempts : ℕ
max_attempts = 2

-- What one attempt meets: the clock at `pick` and at `record`, the upstream's reply to the URL
-- that is called, whether the closing of a response that is given up raises, the jitter, and what other tasks do to the pool while it waits for the reply
-- and while it sleeps.
pub record Attempt : Type 0 where
  pub picked_at : ℕ
  pub recorded_at : ℕ
  pub reply : String → Outcome
  pub closing_raises : Bool
  pub jitter : ℕ → ℕ
  pub during_send : UpstreamPool → UpstreamPool
  pub during_sleep : UpstreamPool → UpstreamPool

-- What a run does outside the pool: `sent` to a replica, with the outcome; counted in
-- `upstream_requests_total` under a label; a response closed unread; a sleep.
pub data Effect : Type 0 where
  sent : String → Outcome → Effect
  counted : String → String → Effect
  closed_unread : Response → Effect
  slept : ℕ → Effect

-- How a run ends: with a response of a replica, or with an exception, which may be the one that the
-- closing of a response has raised. `no_attempt` is a loop that has run out of rounds.
pub data Ending : Type 0 where
  responded : String → Response → Ending
  refused : PoolError → Ending
  unreachable : Exc → String → Ending
  closing_failed : Ending
  no_attempt : Ending

pub record Run : Type 0 where
  pub ending : Ending
  pub pool : UpstreamPool
  pub effects : List Effect

abbrev pub exc_of : Outcome → Option Exc
exc_of (exception e) = some e
exc_of (response r) = none

abbrev pub status_of : Outcome → Option ℕ
status_of (exception e) = none
status_of (response r) = some r.status_code

-- The `outcome` label of the counter.
abbrev outcome_label : Outcome → String
outcome_label (exception e) = "unreachable"
outcome_label (response r) = if ltb r.status_code 400 then "ok" else "http_error"

-- `not isinstance(outcome, Exception) and outcome.status_code < 400`
abbrev pub is_success : Outcome → Bool
is_success (exception e) = false
is_success (response r) = ltb r.status_code 400

-- After the loop: raise, or return the response.
abbrev pub conclude : String → Outcome → Ending
conclude upstream (exception e) = unreachable e upstream
conclude upstream (response r) = responded upstream r

-- A streamed response that is given up for a retry is closed, which may raise.
abbrev pub discarded : Bool → Outcome → List Effect
discarded true (response r) = closed_unread r ∷ []
discarded _ _ = []

abbrev pub is_discarded : Bool → Outcome → Bool
is_discarded true (response r) = true
is_discarded _ _ = false

-- `f"{upstream.rstrip('/')}{path}"`
abbrev pub url_of : String → String → String
url_of upstream path = String.◌++◌ (rstrip_slash upstream) path

abbrev pub prepend : List Effect → Run → Run
prepend es r = record r { effects = es ++ r.effects }

module _ (s : Settings) (path : String) (stream : Bool) (meets : ℕ → Attempt) where
  -- The pool once an attempt's outcome has been recorded.
  abbrev pub after_send : ℕ → UpstreamPool → String → Outcome → UpstreamPool
  after_send attempt p upstream outcome =
      record_outcome ((meets attempt).during_send p) upstream (exc_of outcome) (status_of outcome)
        (meets attempt).recorded_at

  -- One round that has picked a replica; `again` is the loop's next round.
  attempt_with : (UpstreamPool → Option String → Run) → ℕ → UpstreamPool → String → Outcome → Run
  attempt_with again attempt p upstream outcome =
      let p' = after_send attempt p upstream outcome in
      let done =
        sent upstream outcome ∷ counted (label_of p' upstream) (outcome_label outcome) ∷ [] in
      let delay = retry_delay (meets attempt).jitter attempt outcome in
      if is_success outcome || leb max_attempts (attempt + 1) || not (should_retry outcome)
      then record { ending = conclude upstream outcome; pool = p'; effects = done }
      else if is_discarded stream outcome && (meets attempt).closing_raises
      then record { ending = closing_failed; pool = p'; effects = done ++ discarded stream outcome }
      else prepend (done ++ discarded stream outcome ++ slept delay ∷ [])
          (again ((meets attempt).during_sleep p') (some upstream))

  -- One round, from what `pick` answered.
  attempt_picked :
      (UpstreamPool → Option String → Run) → ℕ → Result PoolError String × UpstreamPool → Run
  unfolding attempt_with
  attempt_picked again attempt (raises e, p) = record { ending = refused e; pool = p; effects = [] }
  attempt_picked again attempt (ok upstream, p) =
      attempt_with again attempt p upstream ((meets attempt).reply (url_of upstream path))

  -- The loop, from an attempt on.
  attempts : ℕ → ℕ → UpstreamPool → Option String → Run
  unfolding attempt_picked
  attempts zero attempt p exclude = record { ending = no_attempt; pool = p; effects = [] }
  attempts (suc rounds) attempt p exclude =
      attempt_picked (attempts rounds (attempt + 1)) attempt
        (pick s p exclude (meets attempt).picked_at)

  -- `_with_retry`; `request` is it with `stream` false and `open_stream` with `stream` true.
  unfoldable pub with_retry : UpstreamPool → Run
  unfolding attempts
  with_retry p = attempts max_attempts 0 p none
