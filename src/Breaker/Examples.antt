-- ===== src/Breaker/Examples.antt =====
-- Runs of the breaker, and its theorems at concrete inputs.
use inference_box.Prelude.{
  ℕ, ◌+◌, ◌/◌, ◌≤◌, ◌<◌, ◌≡◌, refl, ◌↔◌, max, List, [], ◌∷◌, arith, true, false, none,
}
use inference_box.Breaker.{
  ReplicaBreaker, closed, opened, half_open, connect, server_error, new_breaker, threshold,
  record_failure, record_wedge, record_probe, due_for_probe, seconds_until_probe, initial_open_sec,
  probation_sec,
}
use inference_box.Breaker.Events.{Event, failure, probe, step, run}
use inference_box.Breaker.Invariant.{IsValid, new_breaker-IsValid, run-IsValid}
use inference_box.Breaker.Tripping.{record_failures, total_weight, record_failures-eq-opened_iff}
use inference_box.Breaker.Reclosing.{Probe, probes, record_probe-eq-closed_iff, probes_recloses}

abbrev fresh : ReplicaBreaker
fresh = new_breaker "http://replica/v1" "0"

-- Two failed connections trip it.
tripped : ReplicaBreaker
tripped = record_failures fresh ((0, connect) ∷ (1000, connect) ∷ [])

breaker : Unit {0}
unfolding step run record_failure record_wedge record_probe due_for_probe seconds_until_probe
breaker = tt

tripped_state :
    (tripped.state ≡ opened)
    × (due_for_probe tripped 15999 ≡ false)
    × (due_for_probe tripped 16000 ≡ true)
    × (seconds_until_probe tripped 6000 ≡ 10000)
unfolding breaker tripped
tripped_state = (refl, refl, refl, refl)

server_errors :
    ((record_failures fresh (
        (0, server_error)
        ∷ (1, server_error)
        ∷ (2, server_error)
        ∷ (3, server_error)
        ∷ (4, server_error)
        ∷ [])).state
      ≡ closed)
    × ((record_failures fresh (
          (0, server_error)
          ∷ (1, server_error)
          ∷ (2, server_error)
          ∷ (3, server_error)
          ∷ (4, server_error)
          ∷ (5, server_error)
          ∷ [])).state
        ≡ opened)
unfolding breaker
server_errors = (refl, refl)

tripped-IsValid : IsValid tripped
unfolding breaker tripped
tripped-IsValid =
    run-IsValid fresh ((0, failure connect) ∷ (1000, failure connect) ∷ [])
      (new_breaker-IsValid "http://replica/v1" "0")

abbrev history : List (ℕ × Event)
history =
    (0, failure connect)
    ∷ (1000, failure connect)
    ∷ (16000, probe true false)
    ∷ (21000, probe true false)
    ∷ []

run-IsValid_example : IsValid (run fresh history)
run-IsValid_example = run-IsValid fresh history (new_breaker-IsValid "http://replica/v1" "0")

record_failures-eq-opened_iff_example :
    ((record_failures fresh ((0, connect) ∷ (1000, connect) ∷ [])).state ≡ opened)
    ↔ (6 ≤ 0 + total_weight ((0, connect) ∷ (1000, connect) ∷ []))
record_failures-eq-opened_iff_example =
    record_failures-eq-opened_iff fresh ((0, connect) ∷ (1000, connect) ∷ []) refl (omega arith)
      (omega arith)

record_probe-eq-closed_iff_example :
    ((record_probe tripped true 16000 false).state ≡ closed)
    ↔ ((true ≡ true) × (false ≡ false) × (tripped.state ≡ half_open))
record_probe-eq-closed_iff_example =
    record_probe-eq-closed_iff tripped true 16000 false tripped-IsValid

abbrev bad_probes : List Probe
bad_probes = (16000, false, false) ∷ (46000, true, true) ∷ []

probes_recloses_example :
    let b' = probes tripped ((16000, true, false) ∷ (21000, true, false) ∷ []) in
    (b'.state ≡ closed)
    × (b'.score ≡ 0)
    × (b'.open_sec ≡ initial_open_sec)
    × (b'.wedge_confirmations ≡ 0)
    × (b'.opened_at ≡ none)
    × (22000 < 21000 + probation_sec → threshold b' 22000 ≡ max 1 (tripped.trip_score / 2))
    × (21000 + probation_sec ≤ 22000 → threshold b' 22000 ≡ tripped.trip_score)
unfolding breaker tripped
probes_recloses_example = probes_recloses tripped 16000 21000 22000 tripped-IsValid refl
