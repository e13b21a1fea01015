-- ===== src/Loadgen/Percentile.antt =====
-- scripts/loadgen.py: `pct` and the rounding. Values are whole millionths of their unit,
-- which for milliseconds is the nanosecond that `perf_counter` counts in; a percentile is rounded to
-- whole hundredths of the unit, and a quantile is a whole number of hundredths, as 0.50 and 0.95 are.
pub mod Order
pub mod Laws
use inference_box.Prelude.{
  ℕ, zero, suc, ◌+◌, ◌-◌, ◌*◌, ◌/◌, ◌%◌, min, Bool, List, [], ◌∷◌, Option, none, some, length, leb,
  ltb, if◌then◌else◌,
}

-- The whole number nearest to n / d, the even one of two that are as near.
unfoldable pub round_div : ℕ → ℕ → ℕ
round_div n d =
    if ltb (2 * (n % d)) d
    then n / d
    else if ltb d (2 * (n % d))
    then n / d + 1
    else n / d + (n / d) % 2

-- `sorted(values)`
abbrev pub insert : ℕ → List ℕ → List ℕ
insert x [] = x ∷ []
insert x (y ∷ ys) = let rest = insert x ys in if leb x y then x ∷ y ∷ ys else y ∷ rest

unfoldable pub sorted : List ℕ → List ℕ
sorted [] = []
sorted (x ∷ xs) = insert x (sorted xs)

-- `ordered[i]`, at the indices below the length that alone are asked for.
unfoldable pub at : List ℕ → ℕ → ℕ
at [] i = 0
at (x ∷ xs) zero = x
at (x ∷ xs) (suc i) = at xs i

-- Between two neighbours, in hundredths of the way, rounded to hundredths of the unit.
unfoldable pub interpolated : ℕ → ℕ → ℕ → ℕ
interpolated low high frac = round_div (low * (100 - frac) + high * frac) 1000000

-- The position is (len - 1) * q, in hundredths.
unfoldable pub pct_of : List ℕ → ℕ → ℕ
unfolding interpolated at
pct_of ordered pos =
    interpolated (at ordered (pos / 100)) (at ordered (min (pos / 100 + 1) (length ordered - 1)))
      (pos % 100)

pct_sorted : List ℕ → ℕ → Option ℕ
unfolding pct_of round_div
pct_sorted [] q = none
pct_sorted (x ∷ []) q = some (round_div x 10000)
pct_sorted (x ∷ y ∷ ys) q = some (pct_of (x ∷ y ∷ ys) (length (y ∷ ys) * q))

unfoldable pub pct : List ℕ → ℕ → Option ℕ
unfolding pct_sorted sorted
pct values q = pct_sorted (sorted values) q
