-- ===== src/Breaker/Events.antt =====
-- The calls that reach a breaker, as events, and histories of them.
use inference_box.Prelude.{ℕ, Bool, List, [], ◌∷◌}
use inference_box.Breaker.{
  ReplicaBreaker, FailureKind, record_success, record_failure, record_wedge, record_probe,
}

pub data Event : Type 0 where
  success : Event
  failure : FailureKind → Event
  wedge_signal : Bool → Event
  probe : Bool → Bool → Event

unfoldable pub step : ReplicaBreaker → ℕ × Event → ReplicaBreaker
unfolding record_success record_failure record_wedge record_probe
step b (now, success) = record_success b now
step b (now, failure kind) = record_failure b kind now
step b (now, wedge_signal suspected) = record_wedge b suspected now
step b (now, probe good suspected) = record_probe b good now suspected

unfoldable pub run : ReplicaBreaker → List (ℕ × Event) → ReplicaBreaker
run b [] = b
run b (e ∷ es) = run (step b e) es
