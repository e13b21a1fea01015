-- ===== src/Loadgen/Percentile/Order.antt =====
-- Sorting and rounding keep bounds and order.
use inference_box.Prelude.{
  ℕ, zero, suc, ◌*◌, ◌≤◌, ◌<◌, ◌≡◌, refl, ap, ◌∙◌, List, [], ◌∷◌, All, All-mono, length, leb, arith,
  Bool-cases, inl, inr,
}
use inference_box.Loadgen.Percentile.{round_div, insert, sorted, at}

-- Each member is at most those behind it.
abbrev pub IsSorted : List ℕ → Type 0
IsSorted [] = Unit {0}
IsSorted (x ∷ xs) = All (λ y. x ≤ y) xs × IsSorted xs

insert-All : (P : ℕ → Type 0) (x : ℕ) (xs : List ℕ) → P x → All P xs → All P (insert x xs)
insert-All P x [] p h = (p, tt)
insert-All P x (y ∷ ys) p (q, h) = elim (Bool-cases (leb x y)) [
  | inl e ↦ rw e (p, (q, h))
  | inr e ↦ rw e (q, insert-All P x ys p h)
]

pub sorted-All : (P : ℕ → Type 0) (xs : List ℕ) → All P xs → All P (sorted xs)
unfolding sorted
sorted-All P [] h = tt
sorted-All P (x ∷ xs) (p, h) = insert-All P x (sorted xs) p (sorted-All P xs h)

insert-IsSorted : (x : ℕ) (xs : List ℕ) → IsSorted xs → IsSorted (insert x xs)
insert-IsSorted x [] h = (tt, tt)
insert-IsSorted x (y ∷ ys) (l, h) = elim (Bool-cases (leb x y)) [
  | inl e ↦
      (let k : x ≤ y = ground arith in
        rw e ((k, All-mono (λ z. y ≤ z) (λ z. x ≤ z) ys (λ z m. omega arith) l), (l, h)))
  | inr e ↦
      (let k : y ≤ x = ground arith in
        rw e (insert-All (λ z. y ≤ z) x ys k l, insert-IsSorted x ys h))
]

pub sorted-IsSorted : (xs : List ℕ) → IsSorted (sorted xs)
unfolding sorted
sorted-IsSorted [] = tt
sorted-IsSorted (x ∷ xs) = insert-IsSorted x (sorted xs) (sorted-IsSorted xs)

length-insert : (x : ℕ) (xs : List ℕ) → length (insert x xs) ≡ suc (length xs)
length-insert x [] = refl
length-insert x (y ∷ ys) = ground (arith, length-insert x ys)

pub length-sorted : (xs : List ℕ) → length (sorted xs) ≡ length xs
unfolding sorted
length-sorted [] = refl
length-sorted (x ∷ xs) = length-insert x (sorted xs) ∙ ap suc (length-sorted xs)

pub at-All : (P : ℕ → Type 0) (xs : List ℕ) (i : ℕ) → All P xs → i < length xs → P (at xs i)
unfolding at
at-All P [] i h l = absurd (omega arith)
at-All P (x ∷ xs) zero (p, h) l = p
at-All P (x ∷ xs) (suc i) (p, h) l = at-All P xs i h (omega arith)

-- A later member is no less.
pub at_mono : (xs : List ℕ) (i j : ℕ) → IsSorted xs → i ≤ j → j < length xs → at xs i ≤ at xs j
unfolding at
at_mono [] i j h l b = absurd (omega arith)
at_mono (x ∷ xs) zero zero h l b = omega arith
at_mono (x ∷ xs) zero (suc j) (m, h) l b = at-All (λ y. x ≤ y) xs j m (omega arith)
at_mono (x ∷ xs) (suc i) zero h l b = absurd (omega arith)
at_mono (x ∷ xs) (suc i) (suc j) (m, h) l b = at_mono xs i j h (omega arith) (omega arith)

pub round_div-bounded :
    (n lo hi : ℕ)
    → lo * 1000000 ≤ n
    → n ≤ hi * 1000000
    → (lo ≤ round_div n 1000000) × (round_div n 1000000 ≤ hi)
unfolding round_div
round_div-bounded n lo hi l h = ground arith

pub round_div-alone_bounded :
    (n lo hi : ℕ)
    → lo * 10000 ≤ n
    → n ≤ hi * 10000
    → (lo ≤ round_div n 10000) × (round_div n 10000 ≤ hi)
unfolding round_div
round_div-alone_bounded n lo hi l h = ground arith

pub round_div_mono : (m n : ℕ) → m ≤ n → round_div m 1000000 ≤ round_div n 1000000
unfolding round_div
round_div_mono m n l = ground arith
