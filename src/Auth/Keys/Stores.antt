-- ===== src/Auth/Keys/Stores.antt =====
-- What a saved store reads back as.
use inference_box.Prelude.{
  ◌≡◌, refl, ◌∙◌, sym, ap, inl, inr, Bool-cases, String, [], ◌∷◌, true, false, Option, none, some,
  arith, str_eq, eq_iff, if◌then◌else◌,
}
use inference_box.Dict.{get?, contains, set, values}
use inference_box.Dict.Laws.{get?-set}
use inference_box.Auth.Keys.{
  ApiKeyRecord, KeyStore, to_json, from_json, to_jsons, save, reload, reload_onto,
}

from_json-to_json : (r : ApiKeyRecord) → from_json (to_json r) ≡ r
unfolding from_json to_json
from_json-to_json r = refl

-- Every record stands under its own key id, and no key id occurs twice.
abbrev pub IsValid : KeyStore → Type 0
IsValid [] = Unit {0}
IsValid ((k, r) ∷ store) = (r.keyid ≡ k) × (contains k store ≡ false) × IsValid store

abbrev or_else : Option ApiKeyRecord → Option ApiKeyRecord → Option ApiKeyRecord
or_else none other = other
or_else (some r) other = some r

or_else-none : (o : Option ApiKeyRecord) → or_else o none ≡ o
or_else-none none = refl
or_else-none (some r) = refl

get?-absent : (k : String) (store : KeyStore) → contains k store ≡ false → get? k store ≡ none
unfolding get? contains
get?-absent k [] h = refl
get?-absent k ((j, r) ∷ store) h = ground (arith, get?-absent k store)

-- The place of one record in what is loaded.
loaded_one :
    (k keyid : String) (r : ApiKeyRecord) (onto store : KeyStore)
    → r.keyid ≡ k
    → contains k store ≡ false
    → or_else (get? keyid store) (get? keyid (set r.keyid r onto))
      ≡ or_else (if str_eq k keyid then some r else get? keyid store) (get? keyid onto)
loaded_one k keyid r onto store e absent = elim (Bool-cases (str_eq k keyid)) [
  | inl h ↦
      (let here : k ≡ keyid = ground (arith, eq_iff k keyid) in
        let own : str_eq r.keyid keyid ≡ true = ground (arith, eq_iff r.keyid keyid) in
        let absent_here : get? keyid store ≡ none =
          ap (λ j. get? j store) (sym here) ∙ get?-absent k store absent in
        rw (absent_here, get?-set, own, h) refl)
  | inr h ↦
      (let other : str_eq r.keyid keyid ≡ false = ap (λ j. str_eq j keyid) e ∙ h in
        rw (get?-set, other, h) refl)
]

get?-reload_onto :
    (onto store : KeyStore) (keyid : String)
    → IsValid store
    → get? keyid (reload_onto onto (to_jsons (values store)))
      ≡ or_else (get? keyid store) (get? keyid onto)
unfolding reload_onto to_json from_json get?
get?-reload_onto onto [] keyid v = refl
get?-reload_onto onto ((k, r) ∷ store) keyid (e, absent, v) =
    get?-reload_onto (set r.keyid r onto) store keyid v ∙ loaded_one k keyid r onto store e absent

-- A valid store that is saved and loaded again answers every look-up as before.
pub get?-reload :
    (store : KeyStore) (keyid : String)
    → IsValid store
    → get? keyid (reload (save store)) ≡ get? keyid store
unfolding reload get?
get?-reload store keyid v = get?-reload_onto [] store keyid v ∙ or_else-none (get? keyid store)
