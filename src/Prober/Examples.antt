-- ===== src/Prober/Examples.antt =====
-- Passes of the prober on concrete breakers.
use inference_box.Prelude.{◌≡◌, refl, ◌≤◌, ◌+◌, String, Bool, [], ◌∷◌, true, false, some, arith}
use inference_box.Breaker.{
  ReplicaBreaker, half_open, throttled, wedge, weights, new_breaker, threshold, is_closed,
}
use inference_box.Breaker.Tripping.{record_failures}
use inference_box.Prober.{Surroundings, attend}
use inference_box.Prober.Ticks.{suspected_twice}

abbrev always : Bool → String → Bool
always b url = b

abbrev healthy : Surroundings
healthy = record {
  now = 60000;
  later = 60010;
  wedge_suspected = always false;
  wedge_suspected_later = always false;
  probe = always true;
}

abbrev wedged : Surroundings
wedged = record {
  now = 61000;
  later = 61010;
  wedge_suspected = always true;
  wedge_suspected_later = always true;
  probe = always true;
}

abbrev fresh : ReplicaBreaker
fresh = new_breaker "http://replica/v1" "0"

abbrev recovering : ReplicaBreaker
recovering = record fresh { state = half_open; good_probes = 1; last_probe_at = some 1000 }

threshold_met : threshold fresh 61000 ≤ fresh.score + weights wedge
unfolding threshold
threshold_met = omega arith

suspected_twice_example :
    is_closed
      (attend wedged (record_failures (attend wedged fresh) ((60500, throttled) ∷ []))).state
    ≡ false
suspected_twice_example =
    suspected_twice wedged wedged fresh ((60500, throttled) ∷ []) (refl, refl) (refl, refl)
      threshold_met
