-- ===== src/Prober.antt =====
-- gateway/main.py: `_breaker_prober`, which shows the wedge signal to the closed breakers and
-- probes the open ones. What a probe of a replica comes back with is a parameter, and so is the
-- wedge verdict of the scraper at the two places where the loop asks for it.
pub mod Ticks
mod Examples
use inference_box.Prelude.{ℕ, String, List, [], ◌∷◌, Bool, if◌then◌else◌}
use inference_box.Breaker.{
  ReplicaBreaker, closed, opened, half_open, record_wedge, record_probe, due_for_probe,
}

-- What surrounds one pass of the loop: its clock, the clock after a probe, the verdict of the
-- scraper before and after the probe, and the probe.
pub record Surroundings : Type 0 where
  pub now : ℕ
  pub later : ℕ
  pub wedge_suspected : String → Bool
  pub wedge_suspected_later : String → Bool
  pub probe : String → Bool

-- The part of the loop for a breaker that is not closed.
probe_if_due : Surroundings → ReplicaBreaker → ReplicaBreaker
unfolding due_for_probe record_probe
probe_if_due s b =
    if due_for_probe b s.now
    then record_probe b (s.probe b.url) s.later (s.wedge_suspected_later b.url)
    else b

-- The body of the inner loop.
unfoldable pub attend : Surroundings → ReplicaBreaker → ReplicaBreaker
unfolding probe_if_due record_wedge
attend s b = elim b.state [
  | closed ↦ record_wedge b (s.wedge_suspected b.url) s.now
  | opened ↦ probe_if_due s b
  | half_open ↦ probe_if_due s b
]

-- One pass over the pool's breakers.
unfoldable pub tick : Surroundings → List ReplicaBreaker → List ReplicaBreaker
unfolding attend
tick s [] = []
tick s (b ∷ bs) = attend s b ∷ tick s bs
