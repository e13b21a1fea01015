-- ===== src/Audit/Lines.antt =====
-- A record is one line of the file, whatever texts it holds.
use Prim.Native.Char.{Char, code}
use Prim.Native.String
use Prim.Native.String.append
use Prim.Native.String.{[], ◌∷◌}
use inference_box.Prelude.{
  ℕ, zero, suc, ◌%◌, ◌≡◌, refl, String, Bool, true, false, ltb, ◌==◌, if◌then◌else◌, arith,
}
use inference_box.Prelude.Text.Cutting.{count}
use inference_box.Prelude.Text.Digits.{count-append}
use inference_box.Chat.Values.{
  Json, null, boolean, number, text, array, object, Items, no_items, item, Fields, no_fields, field,
  Number,
}
use inference_box.Audit.{
  char_at, escape, escaped, quoted, separator, rendered, rendered_items, rendered_fields, dumps,
  sorted_json,
}

-- A text without a line feed.
abbrev IsOneLine : String → Type 0
IsOneLine s = count 10 s ≡ 0

append-IsOneLine : (p s : String) → IsOneLine p → IsOneLine s → IsOneLine (String.◌++◌ p s)
append-IsOneLine p s h k = omega (arith, count-append 10 p s)

char_at-IsOneLine : (n : ℕ) (s : String) → IsOneLine s → IsOneLine (char_at n s)
unfolding char_at count
char_at-IsOneLine n [] h = refl
char_at-IsOneLine zero (c ∷ s) h = ground arith
char_at-IsOneLine (suc n) (c ∷ s) h = char_at-IsOneLine n s (ground arith)

either-IsOneLine :
    (s t : String) (b : Bool)
    → IsOneLine s
    → (b ≡ false → IsOneLine t)
    → IsOneLine (if b then s else t)
either-IsOneLine s t true h k = h
either-IsOneLine s t false h k = k refl

hex-IsOneLine :
    (n : ℕ) (p : String) → IsOneLine p → IsOneLine (String.◌++◌ p (char_at n "0123456789abcdef"))
unfolding count
hex-IsOneLine n p h =
    append-IsOneLine p (char_at n "0123456789abcdef") h
      (char_at-IsOneLine n "0123456789abcdef" refl)

escape-IsOneLine : (c : Char) → IsOneLine (escape (code c) c)
unfolding escape count
escape-IsOneLine c =
    let n = code c in
    either-IsOneLine _ _ (n == 34) refl (λ quote. either-IsOneLine _ _ (n == 92) refl (λ backslash.
      either-IsOneLine _ _ (n == 10) refl (λ line_feed.
        either-IsOneLine _ _ (n == 13) refl (λ carriage_return.
          either-IsOneLine _ _ (n == 9) refl (λ tab.
            either-IsOneLine _ _ (n == 12) refl (λ form_feed.
              either-IsOneLine _ _ (n == 8) refl (λ backspace.
                either-IsOneLine _ _ (ltb n 16) (hex-IsOneLine n "\\u000" refl) (λ low.
                  either-IsOneLine _ _ (ltb n 32) (hex-IsOneLine (n % 16) "\\u001" refl)
                    (λ control. rw line_feed refl)))))))))

escaped-IsOneLine : (s : String) → IsOneLine (escaped s)
unfolding escaped count
escaped-IsOneLine [] = refl
escaped-IsOneLine (c ∷ s) =
    append-IsOneLine (escape (code c) c) (escaped s) (escape-IsOneLine c) (escaped-IsOneLine s)

quoted-IsOneLine : (s : String) → IsOneLine (quoted s)
unfolding quoted count
quoted-IsOneLine s =
    append-IsOneLine "\"" (String.◌++◌ (escaped s) "\"") refl
      (append-IsOneLine (escaped s) "\"" (escaped-IsOneLine s) refl)

separator-IsOneLine : (is_first : Bool) → IsOneLine (separator is_first)
unfolding separator count
separator-IsOneLine true = refl
separator-IsOneLine false = refl

enclosed-IsOneLine :
    (p s q : String)
    → IsOneLine p
    → IsOneLine s
    → IsOneLine q
    → IsOneLine (String.◌++◌ p (String.◌++◌ s q))
enclosed-IsOneLine p s q h k l = append-IsOneLine p (String.◌++◌ s q) h (append-IsOneLine s q k l)

module _ (shown : Number → String) (h : (n : Number) → IsOneLine (shown n)) where
  mutual
    unfolding rendered count

    rendered-IsOneLine : (v : Json) → IsOneLine (rendered shown v)
    rendered-IsOneLine null = refl
    rendered-IsOneLine (boolean true) = refl
    rendered-IsOneLine (boolean false) = refl
    rendered-IsOneLine (number n) = h n
    rendered-IsOneLine (text s) = quoted-IsOneLine s
    rendered-IsOneLine (array items) =
        enclosed-IsOneLine "[" (rendered_items shown true items) "]" refl
          (rendered_items-IsOneLine true items) refl
    rendered-IsOneLine (object d) =
        enclosed-IsOneLine "{" (rendered_fields shown true d) "}" refl
          (rendered_fields-IsOneLine true d) refl

    rendered_items-IsOneLine :
        (is_first : Bool) (items : Items) → IsOneLine (rendered_items shown is_first items)
    rendered_items-IsOneLine is_first no_items = refl
    rendered_items-IsOneLine is_first (item v items) =
        enclosed-IsOneLine (separator is_first) (rendered shown v)
          (rendered_items shown false items) (separator-IsOneLine is_first) (rendered-IsOneLine v)
          (rendered_items-IsOneLine false items)

    rendered_fields-IsOneLine :
        (is_first : Bool) (d : Fields) → IsOneLine (rendered_fields shown is_first d)
    rendered_fields-IsOneLine is_first no_fields = refl
    rendered_fields-IsOneLine is_first (field k v d) =
        let rest = rendered_fields shown false d in
        enclosed-IsOneLine (separator is_first) (quoted k)
          (String.◌++◌ ": " (String.◌++◌ (rendered shown v) rest)) (separator-IsOneLine is_first)
          (quoted-IsOneLine k)
          (enclosed-IsOneLine ": " (rendered shown v) rest refl (rendered-IsOneLine v)
            (rendered_fields-IsOneLine false d))

  pub dumps-IsOneLine : (v : Json) → count 10 (dumps shown v) ≡ 0
  unfolding dumps
  dumps-IsOneLine v = rendered-IsOneLine (sorted_json v)
