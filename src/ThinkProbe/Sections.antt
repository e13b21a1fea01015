-- ===== src/ThinkProbe/Sections.antt =====
-- Thinking sections that are closed: the rounds that their removal takes, and what stays of an answer.
use Prim.Native.Char.{Char, code}
use Prim.Native.String
use Prim.Native.String.append
use Prim.Native.String.{[], ◌∷◌}
use inference_box.Prelude.{
  ℕ, zero, suc, ◌≤◌, ◌≡◌, refl, sym, ap, ◌∙◌, String, false, none, some, Option-cases, Bool-cases,
  inl, inr, arith, ◌==◌, All,
}
use mathlib.Core.List.{List}
use inference_box.Prelude.Text.Cutting.{without_prefix, without_prefix-append, count, strip}
use inference_box.ThinkProbe.{
  opening, closing, behind, behind_section, substituted, without_sections, without_open, characters,
  strip_think,
}

without_prefix_shorter :
    (p s r : String) → without_prefix p s ≡ some r → characters r ≤ characters s
unfolding without_prefix
without_prefix_shorter [] s r h = (let k : s ≡ r = cc in rw k (omega arith))
without_prefix_shorter (x ∷ p) [] r h = cc
without_prefix_shorter (x ∷ p) (c ∷ s) r h = elim (Bool-cases (code x == code c)) [
  | inl e ↦ (let i = without_prefix_shorter p s r (rw e at h) in omega arith)
  | inr e ↦ (let k : none ≡ some r = rw e at h in cc)
]

behind_shorter : (p s r : String) → behind p s ≡ some r → characters r ≤ characters s
unfolding behind
behind_shorter p [] r h = without_prefix_shorter p [] r h
behind_shorter p (c ∷ s) r h = elim (Option-cases (without_prefix p (c ∷ s))) [
  | inl e ↦ (let i = behind_shorter p s r (rw e at h) in omega arith)
  | inr (q, e) ↦ without_prefix_shorter p (c ∷ s) r (e ∙ rw e at h)
]

without_prefix_strict :
    (x c : Char) (p s r : String)
    → without_prefix (x ∷ p) (c ∷ s) ≡ some r
    → characters r ≤ characters s
unfolding without_prefix
without_prefix_strict x c p s r h = elim (Bool-cases (code x == code c)) [
  | inl e ↦ without_prefix_shorter p s r (rw e at h)
  | inr e ↦ (let k : none ≡ some r = rw e at h in cc)
]

section_shorter :
    (c : Char) (s r : String)
    → behind_section (without_prefix opening (c ∷ s)) ≡ some r
    → characters r ≤ characters s
unfolding behind_section
section_shorter c s r h = elim (Option-cases (without_prefix opening (c ∷ s))) [
  | inl e ↦ (let k : none ≡ some r = rw e at h in cc)
  | inr (body, e) ↦
      (let i = without_prefix_strict "<" c "think>" s body e in
        let j = behind_shorter closing body r (rw e at h) in omega arith)
]

without_sections-nothing : (n : ℕ) → without_sections n [] ≡ []
unfolding without_sections
without_sections-nothing zero = refl
without_sections-nothing (suc n) = refl

-- With a round for each character, more rounds change nothing.
pub rounds_enough :
    (n m : ℕ) (s : String)
    → characters s ≤ n
    → characters s ≤ m
    → without_sections n s ≡ without_sections m s
unfolding without_sections substituted
rounds_enough n m [] h k = without_sections-nothing n ∙ sym (without_sections-nothing m)
rounds_enough zero m (c ∷ s) h k = ground arith
rounds_enough (suc n) zero (c ∷ s) h k = ground arith
rounds_enough (suc n) (suc m) (c ∷ s) h k =
    elim (Option-cases (behind_section (without_prefix opening (c ∷ s)))) [
      | inl e ↦ rw e (ap (◌∷◌ c) (rounds_enough n m s (omega arith) (omega arith)))
      | inr (r, e) ↦
          (let i = section_shorter c s r e in
            rw e (rounds_enough n m r (omega arith) (omega arith)))
    ]

behind_here : (p s r : String) → without_prefix p s ≡ some r → behind p s ≡ some r
unfolding behind
behind_here p [] r h = h
behind_here p (c ∷ s) r h = rw h refl

behind-closing :
    (c : Char) (s : String) → (code c == 60) ≡ false → behind closing (c ∷ s) ≡ behind closing s
unfolding behind without_prefix
behind-closing c s h = ground arith

behind-append :
    (body rest : String)
    → count 60 body ≡ 0
    → behind closing (String.◌++◌ body (String.◌++◌ closing rest)) ≡ some rest
unfolding count
behind-append [] rest h =
    rw (append.nil (String.◌++◌ closing rest))
      (behind_here closing (String.◌++◌ closing rest) rest (without_prefix-append closing rest))
behind-append (c ∷ body) rest h = elim (Bool-cases (code c == 60)) [
  | inl e ↦ (let k : suc (count 60 body) ≡ 0 = rw e at h in absurd (omega arith))
  | inr e ↦ rw (append.cons c body (String.◌++◌ closing rest)) (
      behind-closing c (String.◌++◌ body (String.◌++◌ closing rest)) e
      ∙ behind-append body rest (rw e at h))
]

-- Sections one behind another, and the text behind the last.
abbrev pub after_sections : List String → String → String
after_sections List.[] rest = rest
after_sections (List.◌∷◌ body bodies) rest =
    String.◌++◌ opening (String.◌++◌ body (String.◌++◌ closing (after_sections bodies rest)))

no_section : behind_section (without_prefix opening []) ≡ none
unfolding behind_section without_prefix
no_section = refl

without_sections-section :
    (s r : String)
    → behind_section (without_prefix opening s) ≡ some r
    → without_sections (characters s) s ≡ without_sections (characters r) r
unfolding without_sections substituted
without_sections-section [] r h = (let k : none ≡ some r = sym no_section ∙ h in cc)
without_sections-section (c ∷ s) r h =
    rw h (rounds_enough (characters s) (characters r) r (section_shorter c s r h) (omega arith))

behind_section-append :
    (body rest : String)
    → count 60 body ≡ 0
    → behind_section
        (without_prefix opening (String.◌++◌ opening (String.◌++◌ body (String.◌++◌ closing rest))))
      ≡ some rest
unfolding behind_section
behind_section-append body rest h =
    rw (without_prefix-append opening (String.◌++◌ body (String.◌++◌ closing rest)))
      (behind-append body rest h)

-- Thinking sections that are closed leave no trace: an answer that begins with any number of them, each
-- with no "<" in what it thinks, is stripped to what the text behind the last of them is stripped to.
pub strip_think-after_sections :
    (bodies : List String) (rest : String)
    → All (λ body. count 60 body ≡ 0) bodies
    → strip_think (after_sections bodies rest) ≡ strip_think rest
unfolding strip_think
strip_think-after_sections List.[] rest h = refl
strip_think-after_sections (List.◌∷◌ body bodies) rest (h, hs) =
    ap (λ cut. strip (without_open cut))
      (without_sections-section (after_sections (List.◌∷◌ body bodies) rest)
        (after_sections bodies rest) (behind_section-append body (after_sections bodies rest) h))
    ∙ strip_think-after_sections bodies rest hs
