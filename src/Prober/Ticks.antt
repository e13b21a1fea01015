-- ===== src/Prober/Ticks.antt =====
-- What passes of the prober do to a breaker.
use inference_box.Prelude.{
  String, Bool, ℕ, ◌+◌, ◌≤◌, ◌≡◌, refl, ap, ◌∙◌, ◌⊎◌, ◌↔◌, List, [], ◌∷◌, All, arith, true, false,
}
use inference_box.Breaker.{
  ReplicaBreaker, FailureKind, record_failure, closed, wedge, weights, threshold, record_wedge,
  record_probe, due_for_probe, is_closed,
}
use inference_box.Breaker.Tripping.{record_failures}
use inference_box.Prober.{Surroundings, probe_if_due, attend, tick}

-- A pass closes a breaker that is not closed exactly when the breaker is due for a probe, the probe
-- is good, no wedge is suspected after it, and the breaker has counted a good probe already.
pub attend-closes_iff :
    (s : Surroundings) (b : ReplicaBreaker)
    → is_closed b.state ≡ false
    → ((attend s b).state ≡ closed) ↔ (
        (due_for_probe b s.now ≡ true)
        × (s.probe b.url ≡ true)
        × (s.wedge_suspected_later b.url ≡ false)
        × (1 ≤ b.good_probes))
unfolding attend probe_if_due record_probe
attend-closes_iff s b e = ground arith

-- A breaker that is not closed, or that a suspicion at a given time would open.
abbrev IsWatched : ℕ → String → ReplicaBreaker → Type 0
IsWatched now url b =
    (b.url ≡ url)
    × ((is_closed b.state ≡ false)
        ⊎ ((1 ≤ b.wedge_confirmations) × (threshold b now ≤ b.score + weights wedge)))

attend-IsWatched :
    (s : Surroundings) (b : ReplicaBreaker) (now : ℕ)
    → (s.wedge_suspected b.url ≡ true) × (s.wedge_suspected_later b.url ≡ true)
    → threshold b now ≤ b.score + weights wedge
    → IsWatched now b.url (attend s b)
unfolding attend probe_if_due record_probe record_wedge threshold
attend-IsWatched s b now h w = ground arith

record_failure-IsWatched :
    (b : ReplicaBreaker) (kind : FailureKind) (t now : ℕ) (url : String)
    → IsWatched now url b
    → IsWatched now url (record_failure b kind t)
unfolding record_failure threshold
record_failure-IsWatched b kind t now url h = ground arith

record_failures-IsWatched :
    (b : ReplicaBreaker) (failures : List (ℕ × FailureKind)) (now : ℕ) (url : String)
    → IsWatched now url b
    → IsWatched now url (record_failures b failures)
record_failures-IsWatched b [] now url h = h
record_failures-IsWatched b ((t, kind) ∷ failures) now url h =
    record_failures-IsWatched (record_failure b kind t) failures now url
      (record_failure-IsWatched b kind t now url h)

attend-opens :
    (s : Surroundings) (b : ReplicaBreaker)
    → IsWatched s.now b.url b
    → (s.wedge_suspected b.url ≡ true) × (s.wedge_suspected_later b.url ≡ true)
    → is_closed (attend s b).state ≡ false
unfolding attend probe_if_due record_probe record_wedge
attend-opens s b h v = ground arith

-- Two passes at both of which a replica is suspected leave its breaker not closed, whatever its state
-- was and whatever failures of requests are recorded between the passes, when its score with the
-- weight of a wedge reaches the threshold of the second pass. No success and no other event of the
-- breaker may come between them.
pub suspected_twice :
    (s s' : Surroundings) (b : ReplicaBreaker) (failures : List (ℕ × FailureKind))
    → (s.wedge_suspected b.url ≡ true) × (s.wedge_suspected_later b.url ≡ true)
    → (s'.wedge_suspected b.url ≡ true) × (s'.wedge_suspected_later b.url ≡ true)
    → threshold b s'.now ≤ b.score + weights wedge
    → is_closed (attend s' (record_failures (attend s b) failures)).state ≡ false
suspected_twice s s' b failures h (before, after) w =
    let b' = record_failures (attend s b) failures in
    let (same, watched) =
      record_failures-IsWatched (attend s b) failures s'.now b.url
        (attend-IsWatched s b s'.now h w) in
    attend-opens s' b' (refl, watched)
      (ap s'.wedge_suspected same ∙ before, ap s'.wedge_suspected_later same ∙ after)

attend_closed :
    (s : Surroundings) (b : ReplicaBreaker) (f g : String → Bool) (t : ℕ)
    → is_closed b.state ≡ true
    → attend s b ≡ attend (record s { probe = f; wedge_suspected_later = g; later = t }) b
unfolding attend
attend_closed s b f g t e = ground arith

-- While every breaker is closed, a pass does not depend on what a probe would come back with, nor
-- on anything else that is asked for after one.
pub tick_closed :
    (s : Surroundings) (bs : List ReplicaBreaker) (f g : String → Bool) (t : ℕ)
    → All (λ (b : ReplicaBreaker). is_closed b.state ≡ true) bs
    → tick s bs ≡ tick (record s { probe = f; wedge_suspected_later = g; later = t }) bs
unfolding tick
tick_closed s [] f g t h = refl
tick_closed s (b ∷ bs) f g t (e, h) =
    (λ i. attend_closed s b f g t e i ∷ tick_closed s bs f g t h i)
