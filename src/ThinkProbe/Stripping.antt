-- ===== src/ThinkProbe/Stripping.antt =====
-- No answer keeps the mark that opens a thinking section.
use Prim.Native.Char.{Char, code}
use Prim.Native.String.{[], ◌∷◌}
use inference_box.Prelude.{
  ◌≡◌, refl, sym, ap, ◌∙◌, String, Bool, true, false, ◌&&◌, ◌||◌, Option, none, some, Option-cases,
  Bool-cases, inl, inr, arith, ◌==◌,
}
use inference_box.Prelude.Text.{is_empty}
use inference_box.Prelude.Text.Cutting.{without_prefix, strip, lstrip, rstrip, is_space}
use inference_box.ThinkProbe.{
  opening, or_later, behind, is_some, occurs, without_sections, cut_here, without_open, characters,
  strip_think,
}

abbrev pub starts : String → String → Bool
unfolding is_some
starts p s = is_some (without_prefix p s)

is_some-or_later :
    (o later : Option String) → is_some (or_later o later) ≡ (is_some o || is_some later)
unfolding is_some
is_some-or_later none later = refl
is_some-or_later (some rest) later = refl

occurs-cons :
    (p : String) (c : Char) (s : String) → occurs p (c ∷ s) ≡ (starts p (c ∷ s) || occurs p s)
unfolding occurs behind is_some
occurs-cons p c s = is_some-or_later (without_prefix p (c ∷ s)) (behind p s)

pub occurs_here : (p s : String) → starts p s ≡ true → occurs p s ≡ true
unfolding occurs behind is_some
occurs_here p [] h = h
occurs_here p (c ∷ s) h = occurs-cons p c s ∙ ap (λ b. b || occurs p s) h

pub occurs_later :
    (p : String) (c : Char) (s : String) → occurs p s ≡ true → occurs p (c ∷ s) ≡ true
occurs_later p c s h = occurs-cons p c s ∙ rw h (ground arith)

-- A text that another begins with.
pub data IsStart : String → String → Type 0 where
  nil : {s : String} → IsStart [] s
  cons : {c : Char} {q s : String} → IsStart q s → IsStart (c ∷ q) (c ∷ s)

starts_mono : (p q s : String) → IsStart q s → starts p q ≡ true → starts p s ≡ true
unfolding without_prefix is_some
starts_mono [] q s i h = refl
starts_mono (x ∷ p) [] s i h = cc
starts_mono (x ∷ p) (c ∷ q) [] i h = elim i [ ]
starts_mono (x ∷ p) (c ∷ q) (d ∷ s) (cons i) h = elim (Bool-cases (code x == code c)) [
  | inl e ↦ rw e (starts_mono p q s i (rw e at h))
  | inr e ↦ (let k : false ≡ true = rw e at h in cc)
]

occurs_mono : (p q s : String) → IsStart q s → occurs p q ≡ true → occurs p s ≡ true
unfolding occurs behind
occurs_mono p [] s i h = occurs_here p s (starts_mono p [] s nil h)
occurs_mono p (c ∷ q) [] i h = elim i [ ]
occurs_mono p (c ∷ q) (d ∷ s) (cons i) h = elim (Bool-cases (starts p (c ∷ q))) [
  | inl e ↦ occurs_here p (c ∷ s) (starts_mono p (c ∷ q) (c ∷ s) (cons i) e)
  | inr e ↦
      (let k : occurs p q ≡ true = rw e at (sym (occurs-cons p c q) ∙ h) in
        occurs_later p c s (occurs_mono p q s i k))
]

without_open-IsStart : (s : String) → IsStart (without_open s) s
unfolding without_open cut_here
without_open-IsStart [] = nil
without_open-IsStart (c ∷ s) = elim (Option-cases (without_prefix opening (c ∷ s))) [
  | inl e ↦ rw e (cons (without_open-IsStart s))
  | inr (rest, e) ↦ rw e nil
]

rstrip-IsStart : (s : String) → IsStart (rstrip s) s
unfolding rstrip
rstrip-IsStart [] = nil
rstrip-IsStart (c ∷ s) = elim (Bool-cases (is_empty (rstrip s) && is_space c)) [
  | inl e ↦ rw e nil
  | inr e ↦ rw e (cons (rstrip-IsStart s))
]

occurs-lstrip : (p s : String) → occurs p (lstrip s) ≡ true → occurs p s ≡ true
unfolding lstrip
occurs-lstrip p [] h = h
occurs-lstrip p (c ∷ s) h = elim (Bool-cases (is_space c)) [
  | inl e ↦ occurs_later p c s (occurs-lstrip p s (rw e at h))
  | inr e ↦ rw e at h
]

-- A text that begins another does not begin with a mark that the other lacks at its start.
starts-IsStart : (p q s : String) → IsStart q s → starts p s ≡ false → starts p q ≡ false
starts-IsStart p q s i h = elim (Bool-cases (starts p q)) [
  | inl e ↦ (let k : starts p s ≡ true = starts_mono p q s i e in cc)
  | inr e ↦ e
]

occurs-nothing : occurs opening [] ≡ false
unfolding occurs behind without_prefix is_some
occurs-nothing = refl

occurs-without_open : (s : String) → occurs opening (without_open s) ≡ false
unfolding without_open cut_here is_some
occurs-without_open [] = occurs-nothing
occurs-without_open (c ∷ s) = elim (Option-cases (without_prefix opening (c ∷ s))) [
  | inl e ↦
      (let rest = without_open s in
        let k : starts opening (c ∷ rest) ≡ false =
          starts-IsStart opening (c ∷ rest) (c ∷ s) (cons (without_open-IsStart s)) (rw e refl) in
        rw e (occurs-cons opening c rest ∙ rw (k, occurs-without_open s) refl))
  | inr (rest, e) ↦ rw e occurs-nothing
]

occurs-strip : (p s : String) → occurs p s ≡ false → occurs p (strip s) ≡ false
occurs-strip p s h = elim (Bool-cases (occurs p (strip s))) [
  | inl e ↦
      (let k : occurs p s ≡ true =
          occurs_mono p (rstrip s) s (rstrip-IsStart s) (occurs-lstrip p (rstrip s) e) in
        cc)
  | inr e ↦ e
]

-- No answer keeps the mark that opens a thinking section: what `strip_think` returns has no "<think>" in
-- it, whatever the text, one in which the removal of a section brings such a mark together included.
pub occurs-strip_think : (raw : String) → occurs opening (strip_think raw) ≡ false
unfolding strip_think
occurs-strip_think raw =
    let cut = without_sections (characters raw) raw in
    occurs-strip opening (without_open cut) (occurs-without_open cut)
