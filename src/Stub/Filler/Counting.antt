-- ===== src/Stub/Filler/Counting.antt =====
-- How many words the filler has.
use Prim.Native.Char.{Char, code}
use Prim.Native.String
use Prim.Native.String.append
use Prim.Native.String.{String, [], ◌∷◌}
use mathlib.Core.List.{List}
use native.Mathlib.Nat.{mod-lt}
use text.Mathlib.TextLemmas.{append_assoc}
use inference_box.Prelude.{
  ℕ, zero, suc, ◌+◌, ◌-◌, ◌%◌, ◌<◌, max, ◌≡◌, refl, sym, ap, ◌∙◌, subst, Bool, true, false, ◌&&◌,
  not, Option, none, some, get_elem?, get_elem?-lt, All, All-get_elem?, length, leb, if◌then◌else◌,
  arith,
}
use inference_box.Prelude.Text.{is_empty}
use inference_box.Prelude.Text.Cutting.{is_space, words}
use inference_box.Prelude.Text.Splitting.{join}
use inference_box.Prelude.Text.Words.{no_space, IsWord, solid_head, solid_tail, words-join}
use inference_box.Stub.Filler.Vocabulary.{vocabulary, capitals}
use inference_box.Stub.Filler.{
  word_of, or_blank, or_same, upper, capitalised, words_from, deterministic_text,
}

-- The last word with a full stop.
abbrev dotted : String → List String → List String
dotted p List.[] = List.◌∷◌ (String.◌++◌ p ".") List.[]
dotted p (List.◌∷◌ q ps) = List.◌∷◌ p (dotted q ps)

abbrev head_dotted : String → List String → String
head_dotted p List.[] = String.◌++◌ p "."
head_dotted p (List.◌∷◌ q ps) = p

length-dotted : (p : String) (ps : List String) → length (dotted p ps) ≡ suc (length ps)
length-dotted p List.[] = refl
length-dotted p (List.◌∷◌ q ps) = ap suc (length-dotted q ps)

join-dotted_cons :
    (p q : String) (ps : List String)
    → join " " (List.◌∷◌ p (dotted q ps)) ≡ String.◌++◌ p (" " ∷ join " " (dotted q ps))
unfolding join
join-dotted_cons p q List.[] = refl
join-dotted_cons p q (List.◌∷◌ r ps) = refl

join-dotted :
    (p : String) (ps : List String)
    → String.◌++◌ (join " " (List.◌∷◌ p ps)) "." ≡ join " " (dotted p ps)
unfolding join
join-dotted p List.[] = refl
join-dotted p (List.◌∷◌ q ps) =
    append_assoc p (" " ∷ join " " (List.◌∷◌ q ps)) "."
    ∙ ap (String.◌++◌ p) (append.cons " " (join " " (List.◌∷◌ q ps)) ".")
    ∙ ap (λ z. String.◌++◌ p (" " ∷ z)) (join-dotted q ps)
    ∙ sym (join-dotted_cons p q ps)

no_space-dot : (w : String) → no_space w ≡ true → no_space (String.◌++◌ w ".") ≡ true
no_space-dot [] h = refl
no_space-dot (c ∷ w) h = rw (append.cons c w ".") (ground (arith, no_space-dot w))

dot-present : (w : String) → is_empty (String.◌++◌ w ".") ≡ false
dot-present [] = refl
dot-present (c ∷ w) = rw (append.cons c w ".") refl

dotted-IsWord :
    (p : String) (ps : List String) → All IsWord (List.◌∷◌ p ps) → All IsWord (dotted p ps)
dotted-IsWord p List.[] (h, hs) =
    (record { present = dot-present p; solid = no_space-dot p h.solid }, tt)
dotted-IsWord p (List.◌∷◌ q ps) (h, hs) = (h, dotted-IsWord q ps hs)

words-join-dotted :
    (p : String) (ps : List String)
    → All IsWord (List.◌∷◌ p ps)
    → words (String.◌++◌ (join " " (List.◌∷◌ p ps)) ".") ≡ dotted p ps
words-join-dotted p List.[] h =
    ap words (join-dotted p List.[])
    ∙ words-join (String.◌++◌ p ".") List.[] (dotted-IsWord p List.[] h)
words-join-dotted p (List.◌∷◌ q ps) h =
    ap words (join-dotted p (List.◌∷◌ q ps))
    ∙ words-join p (dotted q ps) (dotted-IsWord p (List.◌∷◌ q ps) h)

capitalised-join :
    (p : String) (ps : List String)
    → is_empty p ≡ false
    → capitalised (join " " (List.◌∷◌ p ps)) ≡ join " " (List.◌∷◌ (capitalised p) ps)
unfolding capitalised join
capitalised-join [] ps h = cc
capitalised-join (c ∷ s) List.[] h = refl
capitalised-join (c ∷ s) (List.◌∷◌ q ps) h =
    ap capitalised (append.cons c s (" " ∷ join " " (List.◌∷◌ q ps)))
    ∙ sym (append.cons (upper c) s (" " ∷ join " " (List.◌∷◌ q ps)))

not-true : (b : Bool) → not b ≡ true → b ≡ false
not-true true h = cc
not-true false h = refl

-- A test that every member passes, run.
abbrev passes {ℓ} : {A : Type ℓ} → (A → Bool) → List A → Bool
passes t List.[] = true
passes t (List.◌∷◌ x xs) = t x && passes t xs

passes-All {ℓ} :
    {A : Type ℓ} (t : A → Bool) (xs : List A) → passes t xs ≡ true → All (λ x. t x ≡ true) xs
passes-All t List.[] h = tt
passes-All t (List.◌∷◌ x xs) h = (ground arith, passes-All t xs (ground arith))

or_same-solid :
    (c : Char) (o : Option Char)
    → is_space c ≡ false
    → ((d : Char) → o ≡ some d → not (is_space d) ≡ true)
    → is_space (or_same c o) ≡ false
or_same-solid c none h k = h
or_same-solid c (some d) h k = not-true (is_space d) (k d refl)

either-solid :
    (b : Bool) (c d : Char)
    → is_space c ≡ false
    → is_space d ≡ false
    → is_space (if b then d else c) ≡ false
either-solid true c d h k = k
either-solid false c d h k = h

upper-solid : (c : Char) → is_space c ≡ false → is_space (upper c) ≡ false
unfolding upper
upper-solid c h =
    either-solid (leb 97 (code c) && leb (code c) 122) c
      (or_same c (get_elem? capitals (code c - 97))) h
      (or_same-solid c (get_elem? capitals (code c - 97)) h (λ d e.
        All-get_elem? (λ z. not (is_space z) ≡ true) capitals (code c - 97)
          (passes-All (λ z. not (is_space z)) capitals refl) e))

capitalised-IsWord : (p : String) → IsWord p → IsWord (capitalised p)
unfolding capitalised
capitalised-IsWord [] h = h
capitalised-IsWord (c ∷ s) h = record {
  present = refl;
  solid = rw (upper-solid c (solid_head c s h.solid)) (solid_tail c s h.solid);
}

abbrev is_word : String → Bool
is_word w = not (is_empty w) && no_space w

is_word-IsWord : (w : String) → is_word w ≡ true → IsWord w
is_word-IsWord w h = record { present = not-true (is_empty w) (ground arith); solid = ground arith }

word_of-IsWord : (b : ℕ) → IsWord (word_of b)
word_of-IsWord b =
    let (w, e) = get_elem?-lt vocabulary (b % 20) (mod-lt b (omega arith)) in
    let h =
      All-get_elem? (λ z. is_word z ≡ true) vocabulary (b % 20) (passes-All is_word vocabulary refl)
        e in
    subst (λ z. IsWord (or_blank z)) (sym e) (is_word-IsWord w h)

module _ (digest : String → ℕ → ℕ) where
  words_from-IsWord : (seed : String) (n i : ℕ) → All IsWord (words_from digest seed n i)
  unfolding words_from
  words_from-IsWord seed zero i = tt
  words_from-IsWord seed (suc n) i =
      (word_of-IsWord (digest seed (i % 32)), words_from-IsWord seed n (i + 1))

  length-words_from : (seed : String) (n i : ℕ) → length (words_from digest seed n i) ≡ n
  unfolding words_from
  length-words_from seed zero i = refl
  length-words_from seed (suc n) i = ap suc (length-words_from seed n (i + 1))

  text_of_length :
      (ps : List String) (n : ℕ)
      → All IsWord ps
      → length ps ≡ n
      → 0 < n
      → length (words (String.◌++◌ (capitalised (join " " ps)) ".")) ≡ n
  text_of_length List.[] n h e l = absurd (omega arith)
  text_of_length (List.◌∷◌ p ps) n (h, hs) e l =
      ap (λ z. length (words (String.◌++◌ z "."))) (capitalised-join p ps h.present)
      ∙ ap length (words-join-dotted (capitalised p) ps (capitalised-IsWord p h, hs))
      ∙ length-dotted (capitalised p) ps
      ∙ e

  -- The filler has as many words as were asked for, or one if none were.
  pub length-words-deterministic_text :
      (seed : String) (n : ℕ) → length (words (deterministic_text digest seed n)) ≡ max 1 n
  unfolding deterministic_text
  length-words-deterministic_text seed n =
      text_of_length (words_from digest seed (max 1 n) 0) (max 1 n)
        (words_from-IsWord seed (max 1 n) 0) (length-words_from seed (max 1 n) 0) (omega arith)
