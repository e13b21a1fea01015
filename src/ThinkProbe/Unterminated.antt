-- ===== src/ThinkProbe/Unterminated.antt =====
-- Answers whose thinking never closes, of which the stripping leaves nothing.
use Prim.Native.Char.{Char, code}
use Prim.Native.String.{[], ◌∷◌}
use inference_box.Prelude.{
  ℕ, zero, suc, ◌≡◌, refl, ap, String, true, false, none, some, Option-cases, Bool-cases, inl, inr,
  ◌==◌,
}
use inference_box.Prelude.Text.{is_empty}
use inference_box.Prelude.Text.Cutting.{without_prefix, strip, lstrip, rstrip}
use inference_box.ThinkProbe.{
  opening, closing, behind, is_some, occurs, behind_section, substituted, without_sections,
  cut_here, without_open, characters, strip_think, Row, row_of,
}
use inference_box.ThinkProbe.Stripping.{occurs_here, occurs_later}

-- What occurs behind a prefix occurs in the text.
occurs_behind :
    (p q s body : String)
    → without_prefix p s ≡ some body
    → occurs q body ≡ true
    → occurs q s ≡ true
unfolding without_prefix
occurs_behind [] q s body h k = (let e : s ≡ body = cc in rw e k)
occurs_behind (x ∷ p) q [] body h k = cc
occurs_behind (x ∷ p) q (c ∷ s) body h k = elim (Bool-cases (code x == code c)) [
  | inl e ↦ occurs_later q c s (occurs_behind p q s body (rw e at h) k)
  | inr e ↦ (let i : none ≡ some body = rw e at h in cc)
]

not_behind :
    (p q s body : String)
    → without_prefix p s ≡ some body
    → occurs q s ≡ false
    → occurs q body ≡ false
not_behind p q s body h k = elim (Bool-cases (occurs q body)) [
  | inl e ↦ (let i : occurs q s ≡ true = occurs_behind p q s body h e in cc)
  | inr e ↦ e
]

behind-none : (p s : String) → occurs p s ≡ false → behind p s ≡ none
unfolding occurs is_some
behind-none p s h = elim (Option-cases (behind p s)) [
  | inl e ↦ e
  | inr (r, e) ↦ (let k : true ≡ false = rw e at h in cc)
]

occurs_rest : (p : String) (c : Char) (s : String) → occurs p (c ∷ s) ≡ false → occurs p s ≡ false
occurs_rest p c s h = elim (Bool-cases (occurs p s)) [
  | inl e ↦ (let k : occurs p (c ∷ s) ≡ true = occurs_later p c s e in cc)
  | inr e ↦ e
]

no_section_here :
    (s : String) → occurs closing s ≡ false → behind_section (without_prefix opening s) ≡ none
unfolding behind_section
no_section_here s h = elim (Option-cases (without_prefix opening s)) [
  | inl e ↦ rw e refl
  | inr (body, e) ↦ rw e (behind-none closing body (not_behind opening closing s body e h))
]

without_sections-unclosed :
    (n : ℕ) (s : String) → occurs closing s ≡ false → without_sections n s ≡ s
unfolding without_sections substituted
without_sections-unclosed zero s h = refl
without_sections-unclosed (suc n) [] h = refl
without_sections-unclosed (suc n) (c ∷ s) h =
    rw (no_section_here (c ∷ s) h)
      (ap (◌∷◌ c) (without_sections-unclosed n s (occurs_rest closing c s h)))

without_open-opening :
    (s body : String) → without_prefix opening s ≡ some body → without_open s ≡ []
unfolding without_open cut_here
without_open-opening [] body h = refl
without_open-opening (c ∷ s) body h = rw h refl

strip_nothing : strip [] ≡ []
unfolding lstrip rstrip
strip_nothing = refl

strip_think-unclosed :
    (raw body : String)
    → without_prefix opening raw ≡ some body
    → occurs closing raw ≡ false
    → strip_think raw ≡ []
unfolding strip_think
strip_think-unclosed raw body h k =
    rw (without_sections-unclosed (characters raw) raw k, without_open-opening raw body h)
      strip_nothing

begun : (raw body : String) → without_prefix opening raw ≡ some body → is_empty raw ≡ false
unfolding without_prefix
begun [] body h = cc
begun (c ∷ s) body h = refl

-- Thinking that the allowance cuts short leaves an empty answer: the row of an answer that begins with
-- "<think>" and has no "</think>" says that the section is unterminated, that no character is left, and
-- that the answer is empty after the stripping.
pub row_of-unclosed :
    (raw body : String)
    → without_prefix opening raw ≡ some body
    → occurs closing raw ≡ false
    → (Row.think_unterminated (row_of raw) ≡ true)
      × (Row.stripped_chars (row_of raw) ≡ 0)
      × (Row.empty_after_strip (row_of raw) ≡ true)
unfolding row_of is_some
row_of-unclosed raw body h k =
    let e = strip_think-unclosed raw body h k in
    (
      rw (occurs_here opening raw (rw h refl), k) refl,
      ap characters e,
      rw (e, begun raw body h) refl,
    )
