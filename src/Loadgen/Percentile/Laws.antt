-- ===== src/Loadgen/Percentile/Laws.antt =====
-- What a percentile is worth.
use inference_box.Prelude.{ℕ, suc, ◌+◌, ◌-◌, ◌*◌, ◌/◌, ◌%◌, min, ◌≡◌, List, length}
use inference_box.Loadgen.Percentile.{at}

-- The point between two values, in hundredths of hundredths.
abbrev blend : ℕ → ℕ → ℕ → ℕ
blend low high frac = low * (100 - frac) + high * frac

module _ (xs : List ℕ) (k : ℕ) (len : length xs ≡ suc k) where
  -- The point that a position stands for, before it is rounded.
  abbrev point : ℕ → ℕ
  point pos = blend (at xs (pos / 100)) (at xs (min (pos / 100 + 1) (length xs - 1))) (pos % 100)
