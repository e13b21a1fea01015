-- ===== src/Breaker/Wedges.antt =====
-- What the wedge signal does to a closed breaker.
use inference_box.Prelude.{
  ℕ, ◌+◌, ◌≤◌, ◌<◌, ◌≡◌, refl, ◌∙◌, ◌↔◌, List, [], ◌∷◌, arith, Bool, true, false,
}
use inference_box.Breaker.{ReplicaBreaker, closed, opened, wedge, weights, threshold, record_wedge}

-- A signal opens a closed breaker exactly when it is at least the second in a row that suspects a
-- wedge and the score with the weight of a wedge reaches the threshold.
pub record_wedge-eq-opened_iff :
    (b : ReplicaBreaker) (suspected : Bool) (now : ℕ)
    → b.state ≡ closed
    → ((record_wedge b suspected now).state ≡ opened) ↔ (
        (suspected ≡ true)
        × (0 < b.wedge_confirmations)
        × (threshold b now ≤ b.score + weights wedge))
unfolding record_wedge
record_wedge-eq-opened_iff b suspected now e = ground arith

abbrev pub signals : ReplicaBreaker → List (ℕ × Bool) → ReplicaBreaker
signals b [] = b
signals b ((now, suspected) ∷ ss) = signals (record_wedge b suspected now) ss

-- No two signals in a row suspect a wedge, the last one before the list included.
abbrev pub Isolated : Bool → List (ℕ × Bool) → Type 0
Isolated before [] = Unit {0}
Isolated before ((now, suspected) ∷ ss) =
    (before ≡ true → suspected ≡ false) × Isolated suspected ss

isolated_signal :
    (b : ReplicaBreaker) (before suspected : Bool) (now : ℕ)
    → b.state ≡ closed
    → (before ≡ false → b.wedge_confirmations ≡ 0)
    → (before ≡ true → suspected ≡ false)
    → ((record_wedge b suspected now).state ≡ closed)
      × ((record_wedge b suspected now).score ≡ b.score)
      × (suspected ≡ false → (record_wedge b suspected now).wedge_confirmations ≡ 0)
unfolding record_wedge
isolated_signal b before suspected now e k h = ground arith

signals-Isolated_from :
    (b : ReplicaBreaker) (before : Bool) (ss : List (ℕ × Bool))
    → b.state ≡ closed
    → (before ≡ false → b.wedge_confirmations ≡ 0)
    → Isolated before ss
    → ((signals b ss).state ≡ closed) × ((signals b ss).score ≡ b.score)
signals-Isolated_from b before [] e k h = (e, refl)
signals-Isolated_from b before ((now, suspected) ∷ ss) e k (h, hs) =
    let (closed_still, same, cleared) = isolated_signal b before suspected now e k h in
    let (c, t) =
      signals-Isolated_from (record_wedge b suspected now) suspected ss closed_still cleared hs in
    (c, t ∙ same)

-- Signals of which no two in a row suspect a wedge leave a closed breaker with no confirmation
-- closed, and its score as it was.
pub signals-Isolated :
    (b : ReplicaBreaker) (ss : List (ℕ × Bool))
    → b.state ≡ closed
    → b.wedge_confirmations ≡ 0
    → Isolated false ss
    → ((signals b ss).state ≡ closed) × ((signals b ss).score ≡ b.score)
signals-Isolated b ss e k h = signals-Isolated_from b false ss e (λ _. k) h
