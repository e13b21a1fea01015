-- ===== src/Prelude/Text/Trimming.antt =====
-- What `strip` leaves of a text: no more to strip, and no character that was not there.
use Prim.Native.Nat.{ℕ, ◌≤◌}
use Prim.Native.Char.{Char}
use Prim.Native.String.{String, [], ◌∷◌}
use mathlib.Core.Path.{◌≡◌, refl, ap, ◌∙◌}
use mathlib.Core.Bool.{◌&&◌}
use mathlib.Core.Logic.{inl, inr}
use native.Mathlib.Omega.{arith}
use inference_box.Prelude.Tests.{Bool-cases}
use inference_box.Prelude.Text.{is_empty}
use inference_box.Prelude.Text.Cutting.{is_space, lstrip, rstrip, strip, count}

rstrip_tail : (c : Char) (s : String) → rstrip (c ∷ s) ≡ c ∷ s → rstrip s ≡ s
unfolding rstrip
rstrip_tail c s h = elim (Bool-cases (is_empty (rstrip s) && is_space c)) [
  | inl e ↦ (let k : [] ≡ c ∷ s = rw e at h in cc)
  | inr e ↦ (let k : c ∷ rstrip s ≡ c ∷ s = rw e at h in cc)
]

rstrip_twice : (s : String) → rstrip (rstrip s) ≡ rstrip s
unfolding rstrip
rstrip_twice [] = refl
rstrip_twice (c ∷ s) = elim (Bool-cases (is_empty (rstrip s) && is_space c)) [
  | inl e ↦ rw e refl
  | inr e ↦ rw (e, rstrip_twice s, e) refl
]

lstrip_twice : (s : String) → lstrip (lstrip s) ≡ lstrip s
unfolding lstrip
lstrip_twice [] = refl
lstrip_twice (c ∷ s) = elim (Bool-cases (is_space c)) [
  | inl e ↦ rw e (lstrip_twice s)
  | inr e ↦ rw (e, e) refl
]

rstrip-lstrip : (s : String) → rstrip s ≡ s → rstrip (lstrip s) ≡ lstrip s
unfolding lstrip
rstrip-lstrip [] h = h
rstrip-lstrip (c ∷ s) h = elim (Bool-cases (is_space c)) [
  | inl e ↦ rw e (rstrip-lstrip s (rstrip_tail c s h))
  | inr e ↦ rw e h
]

pub strip_twice : (s : String) → strip (strip s) ≡ strip s
strip_twice s = ap lstrip (rstrip-lstrip (rstrip s) (rstrip_twice s)) ∙ lstrip_twice (rstrip s)

count-lstrip : (n : ℕ) (s : String) → count n (lstrip s) ≤ count n s
unfolding lstrip count
count-lstrip n [] = omega arith
count-lstrip n (c ∷ s) = ground (arith, count-lstrip n s)

count-rstrip : (n : ℕ) (s : String) → count n (rstrip s) ≤ count n s
unfolding rstrip count
count-rstrip n [] = omega arith
count-rstrip n (c ∷ s) = ground (arith, count-rstrip n s)

pub count-strip : (n : ℕ) (s : String) → count n s ≡ 0 → count n (strip s) ≡ 0
count-strip n s h = omega (arith, count-lstrip n (rstrip s), count-rstrip n s)
