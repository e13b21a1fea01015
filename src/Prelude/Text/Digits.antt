-- ===== src/Prelude/Text/Digits.antt =====
-- Counts of a character in texts put together, and in printed numbers.
use Prim.Native.Nat.{ℕ, zero, suc, ◌+◌, ◌/◌, ◌%◌}
use Prim.Native.String
use Prim.Native.String.append
use Prim.Native.String.{String, [], ◌∷◌}
use mathlib.Core.Path.{◌≡◌, refl}
use native.Mathlib.Omega.{arith}
use mathlib.Core.Logic.{inl, inr}
use inference_box.Prelude.Tests.{ltb, Bool-cases}
use inference_box.Prelude.Text.{digit, decimal, str_of_ℕ}
use inference_box.Prelude.Text.Cutting.{count}

pub count-append : (n : ℕ) (p s : String) → count n (String.◌++◌ p s) ≡ count n p + count n s
unfolding count
count-append n [] s = rw (append.nil s) (omega arith)
count-append n (c ∷ p) s = rw (append.cons c p s) (ground (arith, count-append n p s))

count-digit : (n : ℕ) → count 10 (digit n) ≡ 0
unfolding count
count-digit zero = refl
count-digit (suc zero) = refl
count-digit (suc (suc zero)) = refl
count-digit (suc (suc (suc zero))) = refl
count-digit (suc (suc (suc (suc zero)))) = refl
count-digit (suc (suc (suc (suc (suc zero))))) = refl
count-digit (suc (suc (suc (suc (suc (suc zero)))))) = refl
count-digit (suc (suc (suc (suc (suc (suc (suc zero))))))) = refl
count-digit (suc (suc (suc (suc (suc (suc (suc (suc zero)))))))) = refl
count-digit (suc (suc (suc (suc (suc (suc (suc (suc (suc n))))))))) = refl

count-decimal : (fuel n : ℕ) → count 10 (decimal fuel n) ≡ 0
unfolding decimal count
count-decimal zero n = refl
count-decimal (suc fuel) n = elim (Bool-cases (ltb n 10)) [
  | inl e ↦ rw e (count-digit n)
  | inr e ↦ rw e (
      omega (
        arith,
        count-append 10 (decimal fuel (n / 10)) (digit (n % 10)),
        count-decimal fuel (n / 10),
        count-digit (n % 10),
      ))
]

-- A printed number has no line feed.
pub count-str_of_ℕ : (n : ℕ) → count 10 (str_of_ℕ n) ≡ 0
unfolding str_of_ℕ
count-str_of_ℕ n = count-decimal (n + 1) n
