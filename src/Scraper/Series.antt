-- ===== src/Scraper/Series.antt =====
-- What `parse` keeps of a list of samples.
use inference_box.Prelude.{
  ℕ, ◌+◌, max, ◌≡◌, refl, String, List, [], ◌∷◌, Option, none, some, arith, str_eq, eq_iff,
  if◌then◌else◌, ap, ◌∙◌, sym, Option-cases, inl, inr, Bool-cases, true, false,
}
use inference_box.Dict.{Dict, get?}
use inference_box.Dict.Laws.{get?-set, str_eq_refl}
use inference_box.Scraper.{
  How, sum, greatest, series, combine, add_sample, take_sample, parse_from, parse,
}

-- The values of the samples whose name is exactly this one.
abbrev pub values_of : String → List (String × ℕ) → List ℕ
values_of name [] = []
values_of name ((n, v) ∷ samples) =
    if str_eq n name then v ∷ values_of name samples else values_of name samples

abbrev pub total : List ℕ → ℕ
total [] = 0
total (v ∷ vs) = v + total vs

abbrev pub maximum : List ℕ → ℕ
maximum [] = 0
maximum (v ∷ vs) = max v (maximum vs)

-- Counts add up over the engines, and of a ratio the greatest counts.
abbrev pub overall : How → List ℕ → ℕ
overall sum vs = total vs
overall greatest vs = maximum vs

abbrev pub reading : How → List ℕ → Option ℕ
reading how [] = none
reading how (v ∷ vs) = some (overall how (v ∷ vs))

-- An entry with the values still to come.
abbrev with_rest : How → Option ℕ → List ℕ → Option ℕ
with_rest how none vs = reading how vs
with_rest how (some old) vs = some (combine how old (overall how vs))

take_sample-keeps :
    (out : Dict ℕ) (n name : String) (v : ℕ)
    → str_eq n name ≡ false
    → get? name (take_sample out n v) ≡ get? name out
unfolding take_sample add_sample
take_sample-keeps out n name v h = elim (Option-cases (get? n series)) [
  | inl e ↦ rw (take_sample, e) refl
  | inr (how, e) ↦ elim (Option-cases (get? n out)) [
    | inl u ↦ rw (take_sample, e, add_sample, u, get?-set, h) refl
    | inr (old, u) ↦ rw (take_sample, e, add_sample, u, get?-set, h) refl
  ]
]

with_rest-nil : (how : How) (old : ℕ) → with_rest how (some old) [] ≡ some old
with_rest-nil sum old = ap some (omega arith)
with_rest-nil greatest old = ap some (omega arith)

with_rest-none :
    (how : How) (v : ℕ) (vs : List ℕ) → with_rest how (some v) vs ≡ reading how (v ∷ vs)
with_rest-none sum v vs = refl
with_rest-none greatest v vs = refl

with_rest-some :
    (how : How) (old v : ℕ) (vs : List ℕ)
    → with_rest how (some (combine how old v)) vs ≡ with_rest how (some old) (v ∷ vs)
with_rest-some sum old v vs = ap some (omega arith)
with_rest-some greatest old v vs = ap some (omega arith)

take_sample-adds :
    (out : Dict ℕ) (name : String) (v : ℕ) (how : How) (vs : List ℕ)
    → get? name series ≡ some how
    → with_rest how (get? name (take_sample out name v)) vs ≡ with_rest how (get? name out) (v ∷ vs)
unfolding take_sample add_sample
take_sample-adds out name v how vs e = elim (Option-cases (get? name out)) [
  | inl u ↦ rw (take_sample, e, add_sample, u, get?-set, str_eq_refl) (with_rest-none how v vs)
  | inr (old, u) ↦
      rw (take_sample, e, add_sample, u, get?-set, str_eq_refl) (with_rest-some how old v vs)
]

text_eq : (n name : String) → str_eq n name ≡ true → n ≡ name
text_eq n name h = ground (arith, eq_iff n name)

get?-parse_from :
    (out : Dict ℕ) (name : String) (how : How) (samples : List (String × ℕ))
    → get? name series ≡ some how
    → get? name (parse_from out samples) ≡ with_rest how (get? name out) (values_of name samples)
unfolding parse_from
get?-parse_from out name how [] e = elim (Option-cases (get? name out)) [
  | inl u ↦ rw u refl
  | inr (old, u) ↦ rw u (sym (with_rest-nil how old))
]
get?-parse_from out name how ((n, v) ∷ samples) e =
    get?-parse_from (take_sample out n v) name how samples e ∙ elim (Bool-cases (str_eq n name)) [
      | inl h ↦ rw h (
          ap (λ m. with_rest how (get? name (take_sample out m v)) (values_of name samples))
            (text_eq n name h)
          ∙ take_sample-adds out name v how (values_of name samples) e)
      | inr h ↦ rw (h, take_sample-keeps out n name v h) refl
    ]

other_series :
    (out : Dict ℕ) (name : String) (samples : List (String × ℕ))
    → get? name series ≡ none
    → get? name (parse_from out samples) ≡ get? name out
unfolding parse_from
other_series out name [] e = refl
other_series out name ((n, v) ∷ samples) e =
    other_series (take_sample out n v) name samples e ∙ elim (Bool-cases (str_eq n name)) [
      | inl h ↦
          ap (λ m. get? name (take_sample out m v)) (text_eq n name h) ∙ rw (take_sample, e) refl
      | inr h ↦ take_sample-keeps out n name v h
    ]

-- What `parse` holds for a name depends on the samples of exactly that name alone, wherever they
-- stand: nothing for a name that is no allowed series or has no sample, the sum of all its values
-- for a count, and the greatest of them for the cache usage ratio.
pub get?-parse :
    (samples : List (String × ℕ)) (name : String)
    → get? name (parse samples)
      ≡ elim (get? name series) [ none ↦ none | some how ↦ reading how (values_of name samples) ]
unfolding parse get?
get?-parse samples name = elim (Option-cases (get? name series)) [
  | inl e ↦ rw e (other_series [] name samples e)
  | inr (how, e) ↦ rw e (get?-parse_from [] name how samples e)
]
