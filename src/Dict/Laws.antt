-- ===== src/Dict/Laws.antt =====
-- What an assignment does to every lookup.
use inference_box.Prelude.{
  String, List, All, ◌≡◌, refl, true, some, [], ◌∷◌, str_eq, eq_iff, arith, if◌then◌else◌,
}
use inference_box.Dict.{Dict, get?, get_or, contains, set, keys, member}

pub str_eq_refl : (k : String) → str_eq k k ≡ true
str_eq_refl k = ground (arith, eq_iff k k)

module _ {ℓ} {V : Type ℓ} where
  pub get?-set :
      (k j : String) (v : V) (d : Dict V)
      → get? j (set k v d) ≡ (if str_eq k j then some v else get? j d)
  unfolding get? set
  get?-set k j v [] = refl
  get?-set k j v ((i, w) ∷ d) = ground (arith, eq_iff i k, eq_iff i j, eq_iff k j, get?-set k j v d)

  pub get_or-set :
      (k j : String) (v default : V) (d : Dict V)
      → get_or j default (set k v d) ≡ (if str_eq k j then v else get_or j default d)
  unfolding get_or
  get_or-set k j v default d = ground (arith, get?-set k j v d)

  pub contains-set :
      (k j : String) (v : V) (d : Dict V)
      → contains j (set k v d) ≡ (if str_eq k j then true else contains j d)
  unfolding contains set
  contains-set k j v [] = ground arith
  contains-set k j v ((i, w) ∷ d) =
      ground (arith, eq_iff i k, eq_iff i j, eq_iff k j, contains-set k j v d)

  -- Assigning to a key that is present keeps the keys and their order.
  pub keys-set : (k : String) (v : V) (d : Dict V) → contains k d ≡ true → keys (set k v d) ≡ keys d
  unfolding contains set
  keys-set k v [] h = ground arith
  keys-set k v ((i, w) ∷ d) h = ground (arith, keys-set k v d)

member_cons : (k x : String) (xs : List String) → member k xs ≡ true → member k (x ∷ xs) ≡ true
member_cons k x xs h = ground arith

All-member_cons :
    (x : String) (xs ys : List String)
    → All (λ k. member k xs ≡ true) ys
    → All (λ k. member k (x ∷ xs) ≡ true) ys
All-member_cons x xs [] h = tt
All-member_cons x xs (y ∷ ys) (h, hs) = (member_cons y x xs h, All-member_cons x xs ys hs)

-- Every member of a list is a member of it.
pub All-member : (xs : List String) → All (λ k. member k xs ≡ true) xs
All-member [] = tt
All-member (x ∷ xs) = (ground (arith, eq_iff x x), All-member_cons x xs xs (All-member xs))
