-- ===== src/Breaker/Invariant.antt =====
-- What holds of a breaker after any history of calls.
use inference_box.Prelude.{ℕ, ◌≤◌, ◌<◌, ◌≡◌, refl, ◌≢◌, none, List, [], ◌∷◌, arith, String, Bool}
use inference_box.Breaker.{
  ReplicaBreaker, BreakerState, closed, opened, half_open, new_breaker, initial_open_sec,
  max_open_sec, record_success, record_failure, record_wedge, record_probe, FailureKind,
}
use inference_box.Breaker.Events.{Event, success, failure, wedge_signal, probe, step, run}

-- What the fields say of each state.
abbrev pub IsCoherent : ReplicaBreaker → BreakerState → Type 0
IsCoherent b closed = (b.score < b.trip_score) × (b.opened_at ≡ none) × (b.good_probes ≡ 0)
IsCoherent b opened = (b.opened_at ≢ none) × (b.good_probes ≡ 0)
IsCoherent b half_open = (b.last_probe_at ≢ none) × (b.good_probes ≡ 1)

pub record IsValid (b : ReplicaBreaker) : Type 0 where
  pub positive : 0 < b.trip_score
  pub backoff_least : initial_open_sec ≤ b.open_sec
  pub backoff_most : b.open_sec ≤ max_open_sec
  pub coherent : IsCoherent b b.state

pub new_breaker-IsValid : (url label : String) → IsValid (new_breaker url label)
new_breaker-IsValid url label = record {
  positive = omega arith;
  backoff_least = omega arith;
  backoff_most = omega arith;
  coherent = (omega arith, refl, refl);
}

pub record_success-IsValid :
    (b : ReplicaBreaker) (now : ℕ) → IsValid b → IsValid (record_success b now)
unfolding record_success
record_success-IsValid b now v = ground arith

pub record_failure-IsValid :
    (b : ReplicaBreaker) (kind : FailureKind) (now : ℕ)
    → IsValid b
    → IsValid (record_failure b kind now)
unfolding record_failure
record_failure-IsValid b kind now v = ground arith

pub record_wedge-IsValid :
    (b : ReplicaBreaker) (suspected : Bool) (now : ℕ)
    → IsValid b
    → IsValid (record_wedge b suspected now)
unfolding record_wedge
record_wedge-IsValid b suspected now v = ground arith

pub record_probe-IsValid :
    (b : ReplicaBreaker) (good : Bool) (now : ℕ) (suspected : Bool)
    → IsValid b
    → IsValid (record_probe b good now suspected)
unfolding record_probe
record_probe-IsValid b good now suspected v = ground arith

step-IsValid : (b : ReplicaBreaker) (e : ℕ × Event) → IsValid b → IsValid (step b e)
unfolding step
step-IsValid b (now, success) v = record_success-IsValid b now v
step-IsValid b (now, failure kind) v = record_failure-IsValid b kind now v
step-IsValid b (now, wedge_signal suspected) v = record_wedge-IsValid b suspected now v
step-IsValid b (now, probe good suspected) v = record_probe-IsValid b good now suspected v

-- Every history of calls keeps a valid breaker valid: the reopening delay stays between 15 and 60
-- seconds, a closed breaker's score is below its trip score and it has no opening time and no good
-- probe, an open one has an opening time and no good probe, and a half-open one has the time of
-- its last probe and exactly one good probe.
pub run-IsValid : (b : ReplicaBreaker) (es : List (ℕ × Event)) → IsValid b → IsValid (run b es)
unfolding run
run-IsValid b [] v = v
run-IsValid b (e ∷ es) v = run-IsValid (step b e) es (step-IsValid b e v)
