-- ===== src/Prelude/Text/Cutting.antt =====
-- Texts cut at a prefix, at a character and at white space, as Python's methods cut them.
use Prim.Native.Nat.{ℕ, suc}
use Prim.Native.Char.{Char, code}
use Prim.Native.String
use Prim.Native.String
use Prim.Native.String.append
use Prim.Native.String.{String, [], ◌∷◌}
use mathlib.Core.Path.{◌≡◌, refl, ap}
use mathlib.Core.Bool.{Bool, true, false, ◌&&◌, ◌||◌, not}
use mathlib.Core.Option.{Option, none, some}
use mathlib.Core.List.{List}
use native.Mathlib.Omega.{arith}
use inference_box.Prelude.Tests.{leb, ◌==◌, if◌then◌else◌}
use inference_box.Prelude.Text.{is_empty}

-- `s[len(prefix):]` of a text that starts with the prefix.
unfoldable pub without_prefix : String → String → Option String
without_prefix [] s = some s
without_prefix (p ∷ ps) [] = none
without_prefix (p ∷ ps) (c ∷ s) =
    let rest = without_prefix ps s in if code p == code c then rest else none

-- `s.partition(c)` of a text in which the character occurs.
unfoldable pub partition : ℕ → String → Option (String × String)
partition c [] = none
partition c (d ∷ s) =
    let rest = partition c s in
    if code d == c
    then some ([], s)
    else elim rest [ none ↦ none | some (before, behind) ↦ some (d ∷ before, behind) ]

-- `s.count(c)`
unfoldable pub count : ℕ → String → ℕ
count c [] = 0
count c (d ∷ s) = if code d == c then suc (count c s) else count c s

-- The white space of Python's texts, by its codes.
abbrev pub is_space_code : ℕ → Bool
is_space_code n =
    (leb 9 n && leb n 13)
    || (leb 28 n && leb n 32)
    || n == 133
    || n == 160
    || n == 5760
    || (leb 8192 n && leb n 8202)
    || n == 8232
    || n == 8233
    || n == 8239
    || n == 8287
    || n == 12288

abbrev pub is_space : Char → Bool
is_space c = is_space_code (code c)

-- `s.strip()`
unfoldable pub lstrip : String → String
lstrip [] = []
lstrip (c ∷ s) = let rest = lstrip s in if is_space c then rest else c ∷ s

unfoldable pub rstrip : String → String
rstrip [] = []
rstrip (c ∷ s) = let rest = rstrip s in if is_empty rest && is_space c then [] else c ∷ rest

abbrev pub strip : String → String
strip s = lstrip (rstrip s)

-- A character in front of the first word, or alone, or in front of a space.
abbrev pub onto_word : Bool → Char → List String → List String
onto_word true c (List.◌∷◌ w ws) = List.◌∷◌ (c ∷ w) ws
onto_word _ c ws = List.◌∷◌ (c ∷ []) ws

abbrev pub starts_word : String → Bool
starts_word [] = false
starts_word (c ∷ s) = not (is_space c)

-- `s.split()`
unfoldable pub words : String → List String
words [] = List.[]
words (c ∷ s) = let rest = words s in if is_space c then rest else onto_word (starts_word s) c rest

words_test : words " chat  admin" ≡ List.◌∷◌ "chat" (List.◌∷◌ "admin" List.[])
unfolding words
words_test = refl

strip_test : strip "  a b \t" ≡ "a b"
unfolding lstrip rstrip
strip_test = refl

pub without_prefix-append : (p s : String) → without_prefix p (String.◌++◌ p s) ≡ some s
unfolding without_prefix
without_prefix-append [] s = ap some (append.nil s)
without_prefix-append (c ∷ p) s = rw (append.cons c p s) (ground (arith, without_prefix-append p s))

-- A text is cut at the first occurrence.
pub partition-append :
    (before rest : String) (d : Char) (c : ℕ)
    → code d ≡ c
    → count c before ≡ 0
    → partition c (String.◌++◌ before (d ∷ rest)) ≡ some (before, rest)
unfolding partition count
partition-append [] rest d c e h = rw (append.nil (d ∷ rest)) (ground arith)
partition-append (b ∷ before) rest d c e h =
    rw (append.cons b before (d ∷ rest)) (ground (arith, partition-append before rest d c e))

-- A text at least as long as another.
abbrev pub covers : String → String → Bool
covers s [] = true
covers [] (p ∷ ps) = false
covers (c ∷ s) (p ∷ ps) = covers s ps

pub without_prefix-none :
    (p q s : String)
    → covers q p ≡ true
    → without_prefix p q ≡ none
    → without_prefix p (String.◌++◌ q s) ≡ none
unfolding without_prefix
without_prefix-none [] q s h e = cc
without_prefix-none (c ∷ p) [] s h e = cc
without_prefix-none (c ∷ p) (d ∷ q) s h e =
    rw (append.cons d q s) (ground (arith, without_prefix-none p q s))
