-- ===== src/Breaker.antt =====
-- gateway/upstream/breaker.py: one replica's circuit breaker. Times and durations are whole
-- milliseconds of the monotonic clock, passed in as the source passes them in.
pub mod Events
pub mod Invariant
pub mod Tripping
pub mod Reclosing
pub mod Wedges
pub mod Registry
mod Examples
use inference_box.Prelude.{
  ℕ, ◌+◌, ◌-◌, ◌*◌, ◌/◌, min, max, String, Bool, true, false, not, ◌&&◌, ◌||◌, Option, none, some,
  ltb, leb, ◌==◌, if◌then◌else◌,
}

pub data BreakerState : Type 0 where
  closed opened half_open : BreakerState

pub data FailureKind : Type 0 where
  connect read_timeout server_error throttled client_error wedge : FailureKind

abbrev pub weights : FailureKind → ℕ
weights connect = 3
weights read_timeout = 3
weights server_error = 1
weights throttled = 0
weights client_error = 0
weights wedge = 6

abbrev pub trip_score_default : ℕ
trip_score_default = 6

abbrev pub initial_open_sec : ℕ
initial_open_sec = 15000

abbrev pub max_open_sec : ℕ
max_open_sec = 60000

abbrev pub probe_interval_sec : ℕ
probe_interval_sec = 5000

abbrev pub probes_to_close : ℕ
probes_to_close = 2

abbrev pub probation_sec : ℕ
probation_sec = 60000

pub record ReplicaBreaker : Type 0 where
  pub url : String
  pub trip_score : ℕ
  pub state : BreakerState
  pub score : ℕ
  pub opened_at : Option ℕ
  pub open_sec : ℕ
  pub good_probes : ℕ
  pub last_probe_at : Option ℕ
  pub probation_until : ℕ
  pub wedge_confirmations : ℕ
  pub trips : ℕ
  pub label : String

-- `ReplicaBreaker(url=url, _label=label)`, every other field at its default.
abbrev pub new_breaker : String → String → ReplicaBreaker
new_breaker url label = record {
  url = url;
  trip_score = trip_score_default;
  state = closed;
  score = 0;
  opened_at = none;
  open_sec = initial_open_sec;
  good_probes = 0;
  last_probe_at = none;
  probation_until = 0;
  wedge_confirmations = 0;
  trips = 0;
  label = label;
}

abbrev pub is_closed : BreakerState → Bool
is_closed closed = true
is_closed _ = false

unfoldable pub threshold : ReplicaBreaker → ℕ → ℕ
threshold b now = if ltb now b.probation_until then max 1 (b.trip_score / 2) else b.trip_score

abbrev pub allows : ReplicaBreaker → Bool
allows b = is_closed b.state

unfoldable pub record_success : ReplicaBreaker → ℕ → ReplicaBreaker
record_success b now = record b { score = 0; wedge_confirmations = 0 }

-- `_open`
open_breaker : ReplicaBreaker → ℕ → ReplicaBreaker
open_breaker b now = record b {
  state = opened;
  opened_at = some now;
  good_probes = 0;
  last_probe_at = none;
  trips = b.trips + 1;
}

-- What `record_failure` does once the weight has been added to the score.
trip_if_due : ReplicaBreaker → ℕ → ReplicaBreaker
unfolding threshold open_breaker
trip_if_due b now =
    if is_closed b.state && leb (threshold b now) b.score then open_breaker b now else b

unfoldable pub record_failure : ReplicaBreaker → FailureKind → ℕ → ReplicaBreaker
unfolding trip_if_due
record_failure b kind now =
    if weights kind == 0 then b else trip_if_due (record b { score = b.score + weights kind }) now

-- `record_wedge` past its first test, with the confirmation counted.
confirmed : ReplicaBreaker → ℕ → ReplicaBreaker
unfolding record_failure
confirmed b now =
    if b.wedge_confirmations == 1
    then b
    else if is_closed b.state
    then record_failure b wedge now
    else b

unfoldable pub record_wedge : ReplicaBreaker → Bool → ℕ → ReplicaBreaker
unfolding confirmed
record_wedge b suspected now =
    if not suspected
    then record b { wedge_confirmations = 0 }
    else confirmed (record b { wedge_confirmations = b.wedge_confirmations + 1 }) now

-- `now - t >= d`, for `t` possibly later than `now`.
abbrev pub has_elapsed : ℕ → ℕ → ℕ → Bool
has_elapsed now t d = leb (t + d) now

elapsed_since : Option ℕ → Bool → ℕ → ℕ → Bool
elapsed_since none default now d = default
elapsed_since (some t) default now d = has_elapsed now t d

unfoldable pub due_for_probe : ReplicaBreaker → ℕ → Bool
unfolding elapsed_since
due_for_probe b now = elim b.state [
  | closed ↦ false
  | opened ↦ elapsed_since b.opened_at false now b.open_sec
  | half_open ↦ elapsed_since b.last_probe_at true now probe_interval_sec
]

-- `_close`
close_breaker : ReplicaBreaker → ℕ → ReplicaBreaker
close_breaker b now = record b {
  state = closed;
  score = 0;
  good_probes = 0;
  opened_at = none;
  open_sec = initial_open_sec;
  wedge_confirmations = 0;
  probation_until = now + probation_sec;
}

-- `record_probe` on a probe that counts as bad, and on a good one.
bad_probe : ReplicaBreaker → ℕ → ReplicaBreaker
bad_probe b now = record b {
  state = opened;
  opened_at = some now;
  open_sec = min (b.open_sec * 2) max_open_sec;
  good_probes = 0;
  last_probe_at = some now;
}

good_probe : ReplicaBreaker → ℕ → ReplicaBreaker
unfolding close_breaker
good_probe b now =
    let b' : ReplicaBreaker = record b {
      state = half_open;
      good_probes = b.good_probes + 1;
      last_probe_at = some now;
    } in
    if leb probes_to_close b'.good_probes then close_breaker b' now else b'

unfoldable pub record_probe : ReplicaBreaker → Bool → ℕ → Bool → ReplicaBreaker
unfolding bad_probe good_probe
record_probe b good now wedge_suspected =
    if not good || wedge_suspected then bad_probe b now else good_probe b now

-- `max(0.0, d - (now - t))`
abbrev remaining : ℕ → ℕ → ℕ → ℕ
remaining now t d = (t + d) - now

remaining_since : Option ℕ → ℕ → ℕ → ℕ
remaining_since none now d = 0
remaining_since (some t) now d = remaining now t d

-- The last two tests of `seconds_until_probe`.
until_next_probe : ReplicaBreaker → ℕ → ℕ
unfolding remaining_since
until_next_probe b now = remaining_since b.last_probe_at now probe_interval_sec

until_first_probe : Option ℕ → ReplicaBreaker → ℕ → ℕ
unfolding until_next_probe
until_first_probe none b now = until_next_probe b now
until_first_probe (some t) b now = remaining now t b.open_sec

unfoldable pub seconds_until_probe : ReplicaBreaker → ℕ → ℕ
unfolding until_first_probe
seconds_until_probe b now = elim b.state [
  | closed ↦ 0
  | opened ↦ until_first_probe b.opened_at b now
  | half_open ↦ until_next_probe b now
]
