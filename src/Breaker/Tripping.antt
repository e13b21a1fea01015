-- ===== src/Breaker/Tripping.antt =====
-- When failures open a breaker.
use inference_box.Prelude.{
  ℕ, ◌+◌, ◌≤◌, ◌<◌, ◌≡◌, refl, ◌↔◌, ◌⊎◌, inl, inr, List, [], ◌∷◌, arith, All,
}
use inference_box.Breaker.{
  ReplicaBreaker, closed, opened, FailureKind, throttled, client_error, weights, threshold,
  record_failure,
}

-- One failure opens a closed breaker exactly when its class has a weight and the score with that
-- weight reaches the threshold in force at the time: half the trip score, and at least 1, before
-- the end of probation, and the trip score from then on.
pub record_failure-eq-opened_iff :
    (b : ReplicaBreaker) (kind : FailureKind) (now : ℕ)
    → b.state ≡ closed
    → ((record_failure b kind now).state ≡ opened)
      ↔ ((0 < weights kind) × (threshold b now ≤ b.score + weights kind))
unfolding record_failure
record_failure-eq-opened_iff b kind now e = ground arith

abbrev pub record_failures : ReplicaBreaker → List (ℕ × FailureKind) → ReplicaBreaker
record_failures b [] = b
record_failures b ((now, kind) ∷ fs) = record_failures (record_failure b kind now) fs

abbrev pub total_weight : List (ℕ × FailureKind) → ℕ
total_weight [] = 0
total_weight ((now, kind) ∷ fs) = weights kind + total_weight fs

abbrev pub OffProbation : ReplicaBreaker → List (ℕ × FailureKind) → Type 0
OffProbation b fs = All (λ f. b.probation_until ≤ f.0) fs

record_failure-keeps_opened :
    (b : ReplicaBreaker) (kind : FailureKind) (now : ℕ)
    → b.state ≡ opened
    → (record_failure b kind now).state ≡ opened
unfolding record_failure
record_failure-keeps_opened b kind now e = ground arith

record_failures-keeps_opened :
    (b : ReplicaBreaker) (fs : List (ℕ × FailureKind))
    → b.state ≡ opened
    → (record_failures b fs).state ≡ opened
record_failures-keeps_opened b [] e = e
record_failures-keeps_opened b ((now, kind) ∷ fs) e =
    record_failures-keeps_opened (record_failure b kind now) fs
      (record_failure-keeps_opened b kind now e)

-- One failure off probation: it opens the breaker, or only adds to the score.
abbrev Absorbs : ReplicaBreaker → ReplicaBreaker → ℕ → Type 0
Absorbs b b' w =
    (b'.state ≡ closed)
    × (b'.score ≡ b.score + w)
    × (b'.score < b'.trip_score)
    × (b'.trip_score ≡ b.trip_score)
    × (b'.probation_until ≡ b.probation_until)

record_failure_cases :
    (b : ReplicaBreaker) (kind : FailureKind) (now : ℕ)
    → b.state ≡ closed
    → b.score < b.trip_score
    → b.probation_until ≤ now
    → (((record_failure b kind now).state ≡ opened) × (b.trip_score ≤ b.score + weights kind))
      ⊎ Absorbs b (record_failure b kind now) (weights kind)
unfolding record_failure
record_failure_cases b kind now e h p = ground arith

OffProbation-same :
    (b b' : ReplicaBreaker) (fs : List (ℕ × FailureKind))
    → b'.probation_until ≡ b.probation_until
    → OffProbation b fs
    → OffProbation b' fs
OffProbation-same b b' [] e h = tt
OffProbation-same b b' (f ∷ fs) e (p, h) = (omega arith, OffProbation-same b b' fs e h)

-- Off probation, a run of failures opens a closed breaker exactly when its score and the total
-- weight of the failures reach the trip score.
pub record_failures-eq-opened_iff :
    (b : ReplicaBreaker) (fs : List (ℕ × FailureKind))
    → b.state ≡ closed
    → b.score < b.trip_score
    → OffProbation b fs
    → ((record_failures b fs).state ≡ opened) ↔ (b.trip_score ≤ b.score + total_weight fs)
record_failures-eq-opened_iff b [] e h p = (λ o. cc, λ k. absurd (omega arith))
record_failures-eq-opened_iff b ((now, kind) ∷ fs) e h (p, ps) =
    elim (record_failure_cases b kind now e h p) [
      | inl (o, k) ↦
          (λ _. omega arith, λ _. record_failures-keeps_opened (record_failure b kind now) fs o)
      | inr (c, s, l, t, u) ↦
          let b' = record_failure b kind now in
          let rest = record_failures-eq-opened_iff b' fs c l (OffProbation-same b b' fs u ps) in
          (λ o. omega (arith, rest.0 o), λ k. rest.1 (omega arith))
    ]

-- Throttling and caller errors alone change nothing of a breaker, however many there are.
pub record_failures_harmless :
    (b : ReplicaBreaker) (fs : List (ℕ × FailureKind))
    → All (λ f. (f.1 ≡ throttled) ⊎ (f.1 ≡ client_error)) fs
    → record_failures b fs ≡ b
unfolding record_failure
record_failures_harmless b [] h = refl
record_failures_harmless b ((now, throttled) ∷ fs) (h, hs) = record_failures_harmless b fs hs
record_failures_harmless b ((now, client_error) ∷ fs) (h, hs) = record_failures_harmless b fs hs
record_failures_harmless b ((now, kind) ∷ fs) (h, hs) = absurd (ground arith)
