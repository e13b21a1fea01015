-- ===== src/Prelude/Text/Words.antt =====
-- The words that a text made of words and spaces is split into.
use Prim.Native.Char.{Char}
use Prim.Native.String
use Prim.Native.String.append
use Prim.Native.String.{String, [], ◌∷◌}
use mathlib.Core.Path.{◌≡◌, refl, sym, ap, ◌∙◌}
use mathlib.Core.Bool.{Bool, true, false, ◌&&◌, not}
use mathlib.Core.List.{List}
use native.Mathlib.Omega.{arith}
use inference_box.Prelude.Lists.{All}
use inference_box.Prelude.Text.{is_empty}
use inference_box.Prelude.Text.Cutting.{is_space, words, onto_word, starts_word}
use inference_box.Prelude.Text.Splitting.{join}

abbrev pub no_space : String → Bool
no_space [] = true
no_space (c ∷ s) = not (is_space c) && no_space s

pub record IsWord (w : String) : Type 0 where
  pub present : is_empty w ≡ false
  pub solid : no_space w ≡ true

pub solid_head : (c : Char) (s : String) → no_space (c ∷ s) ≡ true → is_space c ≡ false
solid_head c s h = ground arith

pub solid_tail : (c : Char) (s : String) → no_space (c ∷ s) ≡ true → no_space s ≡ true
solid_tail c s h = ground arith

words-cons_solid :
    (c : Char) (s : String)
    → is_space c ≡ false
    → words (c ∷ s) ≡ onto_word (starts_word s) c (words s)
unfolding words
words-cons_solid c s e = rw e refl

words-cons_space : (c : Char) (s : String) → is_space c ≡ true → words (c ∷ s) ≡ words s
unfolding words
words-cons_space c s e = rw e refl

starts_solid : (c : Char) (s : String) → is_space c ≡ false → starts_word (c ∷ s) ≡ true
starts_solid c s e = rw e refl

-- A word in front of a space, and the rest.
words-append : (w s : String) → IsWord w → words (String.◌++◌ w (" " ∷ s)) ≡ List.◌∷◌ w (words s)
words-append [] s h = (let e = h.present in cc)
words-append (c ∷ []) s h =
    ap words (append.cons c [] (" " ∷ s) ∙ ap (λ z. c ∷ z) (append.nil (" " ∷ s)))
    ∙ words-cons_solid c (" " ∷ s) (solid_head c [] h.solid)
    ∙ ap (λ z. List.◌∷◌ (c ∷ []) z) (words-cons_space " " s refl)
words-append (c ∷ d ∷ w) s h =
    let t = solid_tail c (d ∷ w) h.solid in
    ap words (append.cons c (d ∷ w) (" " ∷ s) ∙ ap (λ z. c ∷ z) (append.cons d w (" " ∷ s)))
    ∙ words-cons_solid c (d ∷ String.◌++◌ w (" " ∷ s)) (solid_head c (d ∷ w) h.solid)
    ∙ ap (λ b. onto_word b c (words (d ∷ String.◌++◌ w (" " ∷ s))))
        (starts_solid d (String.◌++◌ w (" " ∷ s)) (solid_head d w t))
    ∙ ap (λ z. onto_word true c (words z)) (sym (append.cons d w (" " ∷ s)))
    ∙ ap (onto_word true c) (words-append (d ∷ w) s (record { present = refl; solid = t }))

words-alone : (w : String) → IsWord w → words w ≡ List.◌∷◌ w List.[]
unfolding words
words-alone [] h = (let e = h.present in cc)
words-alone (c ∷ []) h = words-cons_solid c [] (solid_head c [] h.solid)
words-alone (c ∷ d ∷ s) h =
    let t = solid_tail c (d ∷ s) h.solid in
    words-cons_solid c (d ∷ s) (solid_head c (d ∷ s) h.solid)
    ∙ ap (λ b. onto_word b c (words (d ∷ s))) (starts_solid d s (solid_head d s t))
    ∙ ap (onto_word true c) (words-alone (d ∷ s) (record { present = refl; solid = t }))

pub words-join :
    (p : String) (ps : List String)
    → All IsWord (List.◌∷◌ p ps)
    → words (join " " (List.◌∷◌ p ps)) ≡ List.◌∷◌ p ps
unfolding join
words-join p List.[] (h, hs) = words-alone p h
words-join p (List.◌∷◌ q ps) (h, hs) =
    words-append p (join " " (List.◌∷◌ q ps)) h ∙ ap (List.◌∷◌ p) (words-join q ps hs)
