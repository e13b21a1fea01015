-- ===== src/Dict.antt =====
-- A Python dict with text keys: an association list in insertion order, in which an assignment
-- keeps the place of a key that is present and appends one that is not.
pub mod Laws
use inference_box.Prelude.{
  String, Bool, true, false, ◌||◌, Option, none, some, List, [], ◌∷◌, str_eq, if◌then◌else◌, map,
  not,
}

abbrev pub Dict {ℓ} : Type ℓ → Type ℓ
Dict V = List (String × V)

module _ {ℓ} {V : Type ℓ} where
  -- `d.get(k)`
  unfoldable pub get? : String → Dict V → Option V
  get? k [] = none
  get? k ((j, v) ∷ d) = if str_eq j k then some v else get? k d

  -- `d.get(k, default)`
  unfoldable pub get_or : String → V → Dict V → V
  get_or k default d = elim (get? k d) [ none ↦ default | some v ↦ v ]

  -- `k in d`
  unfoldable pub contains : String → Dict V → Bool
  contains k [] = false
  contains k ((j, v) ∷ d) = str_eq j k || contains k d

  -- `d[k] = v`
  unfoldable pub set : String → V → Dict V → Dict V
  set k v [] = (k, v) ∷ []
  set k v ((j, w) ∷ d) = if str_eq j k then (j, v) ∷ d else (j, w) ∷ set k v d

  abbrev pub keys : Dict V → List String
  keys [] = []
  keys ((k, v) ∷ d) = k ∷ keys d

  abbrev pub values : Dict V → List V
  values [] = []
  values ((k, v) ∷ d) = v ∷ values d

-- `k in xs`, for a list or a set of texts.
abbrev pub member : String → List String → Bool
member k [] = false
member k (x ∷ xs) = str_eq x k || member k xs
