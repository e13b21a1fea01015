-- ===== src/Prelude/Text.antt =====
-- Texts as Python prints and trims them.
pub mod Cutting
pub mod Digits
pub mod Splitting
pub mod Trimming
pub mod Words
use Prim.Native.Nat.{ℕ, zero, suc, ◌+◌, ◌/◌, ◌%◌}
use Prim.Native.Char.{code}
use Prim.Native.String
use Prim.Native.String.{String, [], ◌∷◌}
use mathlib.Core.Path.{◌≡◌, refl}
use mathlib.Core.Bool.{Bool, true, false, ◌&&◌, ◌||◌}
use inference_box.Prelude.Tests.{ltb, ◌==◌, if◌then◌else◌}

abbrev pub is_empty : String → Bool
is_empty [] = true
is_empty (c ∷ s) = false

-- `s.rstrip("/")`
unfoldable pub rstrip_slash : String → String
rstrip_slash [] = []
rstrip_slash (c ∷ s) =
    let rest = rstrip_slash s in if is_empty rest && code c == b'/' then [] else c ∷ rest

abbrev digit : ℕ → String
digit zero = "0"
digit (suc zero) = "1"
digit (suc (suc zero)) = "2"
digit (suc (suc (suc zero))) = "3"
digit (suc (suc (suc (suc zero)))) = "4"
digit (suc (suc (suc (suc (suc zero))))) = "5"
digit (suc (suc (suc (suc (suc (suc zero)))))) = "6"
digit (suc (suc (suc (suc (suc (suc (suc zero))))))) = "7"
digit (suc (suc (suc (suc (suc (suc (suc (suc zero)))))))) = "8"
digit _ = "9"

-- The fuel is the number and one more, which is above its count of digits.
decimal : ℕ → ℕ → String
decimal zero n = ""
decimal (suc fuel) n =
    let leading = decimal fuel (n / 10) in
    if ltb n 10 then digit n else String.◌++◌ leading (digit (n % 10))

-- `str(n)`
unfoldable pub str_of_ℕ : ℕ → String
unfolding decimal
str_of_ℕ n = decimal (n + 1) n

printed : str_of_ℕ 2048 ≡ "2048"
unfolding str_of_ℕ
printed = refl

trimmed : rstrip_slash "http://a/v1//" ≡ "http://a/v1"
unfolding rstrip_slash
trimmed = refl

abbrev is_v1 : String → Bool
is_v1 (a ∷ b ∷ c ∷ []) = code a == b'/' && code b == b'v' && code c == b'1'
is_v1 _ = false

-- `s.endswith("/v1")`, and `s[:-len("/v1")]` of a text that ends so.
unfoldable pub ends_with_v1 : String → Bool
ends_with_v1 [] = false
ends_with_v1 (c ∷ s) = is_v1 (c ∷ s) || ends_with_v1 s

unfoldable pub drop_v1 : String → String
drop_v1 [] = []
drop_v1 (c ∷ s) = let rest = drop_v1 s in if is_v1 (c ∷ s) then [] else c ∷ rest
