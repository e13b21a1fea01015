-- ===== src/Stub/Filler.antt =====
-- stub/server.py: `_deterministic_text` and `_completion_text`. The digest of a text is a parameter:
-- `digest seed i` is byte i of its SHA-256, which has 32 bytes.
pub mod Vocabulary
pub mod Counting
use Prim.Native.Char.{Char, code}
use Prim.Native.String
use Prim.Native.String.{String, [], ◌∷◌}
use mathlib.Core.List.{List}
use inference_box.Prelude.{
  ℕ, zero, suc, ◌+◌, ◌-◌, ◌%◌, max, ◌≡◌, refl, Bool, true, false, ◌&&◌, Option, none, some,
  get_elem?, leb, if◌then◌else◌,
}
use inference_box.Prelude.Text.Splitting.{join}
use Vocabulary.{vocabulary, capitals}

abbrev pub or_blank : Option String → String
or_blank none = ""
or_blank (some w) = w

-- `_WORDS[b % len(_WORDS)]`, which is never out of range.
abbrev pub word_of : ℕ → String
word_of b = or_blank (get_elem? vocabulary (b % 20))

abbrev pub or_same : Char → Option Char → Char
or_same c none = c
or_same c (some d) = d

-- `c.upper()` of an ASCII letter.
unfoldable pub upper : Char → Char
upper c =
    if leb 97 (code c) && leb (code c) 122 then or_same c (get_elem? capitals (code c - 97)) else c

-- `text[0].upper() + text[1:]`, of a text that is not empty.
unfoldable pub capitalised : String → String
unfolding upper
capitalised [] = []
capitalised (c ∷ s) = upper c ∷ s

module _ (digest : String → ℕ → ℕ) where
  -- The words for `n` indices from `i` on.
  unfoldable pub words_from : String → ℕ → ℕ → List String
  words_from seed zero i = List.[]
  words_from seed (suc n) i = List.◌∷◌ (word_of (digest seed (i % 32))) (words_from seed n (i + 1))

  unfoldable pub deterministic_text : String → ℕ → String
  unfolding capitalised
  deterministic_text seed_material n_tokens =
      String.◌++◌ (capitalised (join " " (words_from seed_material (max 1 n_tokens) 0))) "."

  -- `_completion_text`, with what `_seed_of` makes of the body.
  unfoldable pub completion_text : Bool → String → ℕ → String
  completion_text false seed n_tokens = deterministic_text seed n_tokens
  completion_text true seed n_tokens = String.◌++◌ "<think>\n" (
      String.◌++◌ (deterministic_text (String.◌++◌ "think" seed) 40)
        (String.◌++◌ "\n</think>\n\n" (deterministic_text seed n_tokens)))
