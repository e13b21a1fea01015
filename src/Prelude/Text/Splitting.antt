-- ===== src/Prelude/Text/Splitting.antt =====
-- Texts split at a character and joined with it, and letters folded to lower case.
use Prim.Native.Nat.{ℕ, ◌+◌}
use Prim.Native.Char.{Char, code}
use Prim.Native.String
use Prim.Native.String.append
use Prim.Native.String.{String, [], ◌∷◌}
use mathlib.Core.Path.{◌≡◌, refl, ap, ◌∙◌}
use mathlib.Core.Bool.{false, ◌&&◌}
use mathlib.Core.List.{List}
use native.Mathlib.Omega.{arith}
use mathlib.Core.Logic.{inl, inr}
use inference_box.Prelude.Tests.{leb, ◌==◌, if◌then◌else◌, Bool-cases}
use inference_box.Prelude.Lists.{All}
use inference_box.Prelude.Text.Cutting.{count}

-- A character in front of the first part.
abbrev pub onto_part : Char → List String → List String
onto_part c List.[] = List.◌∷◌ (c ∷ []) List.[]
onto_part c (List.◌∷◌ p ps) = List.◌∷◌ (c ∷ p) ps

-- `s.split(c)`
unfoldable pub split_at : ℕ → String → List String
split_at c [] = List.◌∷◌ [] List.[]
split_at c (d ∷ s) =
    let rest = split_at c s in if code d == c then List.◌∷◌ [] rest else onto_part d rest

-- `separator.join(parts)`, of a separator that is one character.
unfoldable pub join : Char → List String → String
join d List.[] = []
join d (List.◌∷◌ p List.[]) = p
join d (List.◌∷◌ p (List.◌∷◌ q ps)) = let rest = join d (List.◌∷◌ q ps) in String.◌++◌ p (d ∷ rest)

-- `s.lower()` of the ASCII letters.
unfoldable pub lower_code : ℕ → ℕ
lower_code n = if leb 65 n && leb n 90 then n + 32 else n

split_at-alone : (c : ℕ) (p : String) → count c p ≡ 0 → split_at c p ≡ List.◌∷◌ p List.[]
unfolding split_at count
split_at-alone c [] h = refl
split_at-alone c (d ∷ p) h = ground (arith, split_at-alone c p)

pub split_at-append :
    (c : ℕ) (d : Char) (p s : String)
    → code d ≡ c
    → count c p ≡ 0
    → split_at c (String.◌++◌ p (d ∷ s)) ≡ List.◌∷◌ p (split_at c s)
unfolding split_at count
split_at-append c d [] s e h = rw (append.nil (d ∷ s)) (ground arith)
split_at-append c d (b ∷ p) s e h =
    rw (append.cons b p (d ∷ s)) (ground (arith, split_at-append c d p s))

-- Parts without the separator are what their join is split into.
pub split_at-join :
    (c : ℕ) (d : Char) (p : String) (ps : List String)
    → code d ≡ c
    → All (λ q. count c q ≡ 0) (List.◌∷◌ p ps)
    → split_at c (join d (List.◌∷◌ p ps)) ≡ List.◌∷◌ p ps
unfolding join
split_at-join c d p List.[] e (h, hs) = split_at-alone c p h
split_at-join c d p (List.◌∷◌ q ps) e (h, hs) =
    split_at-append c d p (join d (List.◌∷◌ q ps)) e h
    ∙ ap (List.◌∷◌ p) (split_at-join c d q ps e hs)

abbrev Lacks : ℕ → List String → Type 0
Lacks c ps = All (λ q. count c q ≡ 0) ps

onto_part-Lacks :
    (c : ℕ) (d : Char) (ps : List String)
    → (code d == c) ≡ false
    → Lacks c ps
    → Lacks c (onto_part d ps)
unfolding count
onto_part-Lacks c d List.[] e h = (rw e refl, tt)
onto_part-Lacks c d (List.◌∷◌ p ps) e (h, hs) = (rw e h, hs)

-- No part has the separator.
pub split_at-Lacks : (c : ℕ) (s : String) → All (λ q. count c q ≡ 0) (split_at c s)
unfolding split_at count
split_at-Lacks c [] = (refl, tt)
split_at-Lacks c (d ∷ s) = elim (Bool-cases (code d == c)) [
  | inl e ↦ rw e (refl, split_at-Lacks c s)
  | inr e ↦ rw e (onto_part-Lacks c d (split_at c s) e (split_at-Lacks c s))
]
