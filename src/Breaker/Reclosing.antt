-- ===== src/Breaker/Reclosing.antt =====
-- How an open breaker closes again: the back-off and the probes.
use inference_box.Prelude.{
  ℕ, ◌+◌, ◌*◌, ◌/◌, ◌^◌, ◌≤◌, ◌<◌, ◌≡◌, refl, ◌≢◌, ◌↔◌, ◌⊎◌, min, max, List, [], ◌∷◌, arith, All,
  length, Bool, true, false, none, ap, sym, ◌∙◌,
}
use native.Mathlib.Decide.{dec_le}
use native.Mathlib.Nat.{
  pow-suc, one-le-pow, min-eq_left, min-eq_right, mul-le-mul_left, mul-le-mul_right,
}
use inference_box.Breaker.{
  ReplicaBreaker, closed, opened, half_open, initial_open_sec, max_open_sec, probation_sec,
  threshold, record_probe, due_for_probe, seconds_until_probe,
}
use inference_box.Breaker.Events.{Event, success, failure, wedge_signal, probe, step}
use inference_box.Breaker.Invariant.{IsValid}

-- A breaker leaves the open or the half-open state only at a probe.
pub step-leaves_open :
    (b : ReplicaBreaker) (now : ℕ) (e : Event)
    → b.state ≢ closed
    → (step b (now, e)).state ≢ b.state
    → (good : Bool) × (suspected : Bool) × (e ≡ probe good suspected)
unfolding step
step-leaves_open b now success h k = absurd (k refl)
step-leaves_open b now (failure kind) h k = absurd (ground arith)
step-leaves_open b now (wedge_signal suspected) h k = absurd (ground arith)
step-leaves_open b now (probe good suspected) h k = (good, suspected, refl)

-- A probe of a valid breaker closes it exactly when it is the second good one in a row and no
-- wedge is suspected.
pub record_probe-eq-closed_iff :
    (b : ReplicaBreaker) (good : Bool) (now : ℕ) (suspected : Bool)
    → IsValid b
    → ((record_probe b good now suspected).state ≡ closed)
      ↔ ((good ≡ true) × (suspected ≡ false) × (b.state ≡ half_open))
unfolding record_probe
record_probe-eq-closed_iff b good now suspected v = ground arith

-- A probe: its time, whether it was good, and whether a wedge was suspected then.
abbrev pub Probe : Type 0
Probe = ℕ × Bool × Bool

abbrev pub probes : ReplicaBreaker → List Probe → ReplicaBreaker
probes b [] = b
probes b ((now, good, suspected) ∷ ps) = probes (record_probe b good now suspected) ps

abbrev pub IsBad : Probe → Type 0
IsBad (now, good, suspected) = (good ≡ false) ⊎ (suspected ≡ true)

doubled : (x p m : ℕ) → 1 ≤ p → min (min (x * 2) m * p) m ≡ min (x * (p * 2)) m
doubled x p m h = elim (dec_le (x * 2) m) [
  | yes below ↦ rw (min-eq_left below) (omega arith)
  | no above ↦
      let capped : m ≤ x * 2 = omega arith in
      rw (min-eq_right capped) (omega (arith, mul-le-mul_right p capped, mul-le-mul_left m h))
]

bad_probe-open_sec :
    (b : ReplicaBreaker) (p : Probe)
    → IsBad p
    → (record_probe b p.1 p.0 p.2).open_sec ≡ min (b.open_sec * 2) max_open_sec
unfolding record_probe
bad_probe-open_sec b (now, good, suspected) h = ground arith

-- After a number of bad probes in a row (failed, or with a wedge suspected) the reopening delay has
-- doubled that often, up to the cap of 60 seconds.
pub probes-open_sec :
    (b : ReplicaBreaker) (ps : List Probe)
    → All IsBad ps
    → b.open_sec ≤ max_open_sec
    → (probes b ps).open_sec ≡ min (b.open_sec * 2 ^ length ps) max_open_sec
probes-open_sec b [] h k = omega arith
probes-open_sec b (p ∷ ps) (h, hs) k =
    let e = bad_probe-open_sec b p h in
    probes-open_sec (record_probe b p.1 p.0 p.2) ps hs (omega (arith, e))
    ∙ ap (λ d. min (d * 2 ^ length ps) max_open_sec) e
    ∙ doubled b.open_sec (2 ^ length ps) max_open_sec (one-le-pow (length ps) 2 (omega arith))
    ∙ ap (λ q. min (b.open_sec * q) max_open_sec) (sym (pow-suc 2 (length ps)))

-- Two good probes in a row, with no wedge suspected, close an open breaker: its score, its delay and
-- its wedge count start again, and for the next 60 seconds its threshold is half the trip score,
-- and at least 1.
pub probes_recloses :
    (b : ReplicaBreaker) (first second now : ℕ)
    → IsValid b
    → b.state ≡ opened
    → let b' = probes b ((first, true, false) ∷ (second, true, false) ∷ []) in
      (b'.state ≡ closed)
      × (b'.score ≡ 0)
      × (b'.open_sec ≡ initial_open_sec)
      × (b'.wedge_confirmations ≡ 0)
      × (b'.opened_at ≡ none)
      × (now < second + probation_sec → threshold b' now ≡ max 1 (b.trip_score / 2))
      × (second + probation_sec ≤ now → threshold b' now ≡ b.trip_score)
unfolding record_probe threshold
probes_recloses b first second now v e = ground arith

-- A valid breaker is due for a probe exactly when it is not closed and no time is left to wait.
pub due_for_probe_iff :
    (b : ReplicaBreaker) (now : ℕ)
    → IsValid b
    → (due_for_probe b now ≡ true) ↔ ((b.state ≢ closed) × (seconds_until_probe b now ≡ 0))
unfolding due_for_probe seconds_until_probe
due_for_probe_iff b now v = ground arith

-- The wait that it announces is exact: a breaker that is not closed is due at `now` and `wait`
-- later exactly when `wait` is at least what it announces at `now`.
pub due_for_probe_after :
    (b : ReplicaBreaker) (now wait : ℕ)
    → IsValid b
    → b.state ≢ closed
    → (due_for_probe b (now + wait) ≡ true) ↔ (seconds_until_probe b now ≤ wait)
unfolding due_for_probe seconds_until_probe
due_for_probe_after b now wait v h = ground arith
