-- ===== src/Auth/Keys/Verifying.antt =====
-- Which presented keys the store accepts.
use inference_box.Prelude.{
  ◌||◌, ℕ, Option, ◌≡◌, refl, ◌↔◌, ◌∙◌, ap, sym, String, true, false, some, none, Option-cases,
  Bool, Result, ok, raises, arith, str_eq, eq_iff, inl, inr, if◌then◌else◌, Bool-cases,
}
use inference_box.Prelude.Text.{is_empty}
use inference_box.Prelude.Text.Cutting.{
  without_prefix, partition, count, without_prefix-append, without_prefix-none, partition-append,
}
use Prim.Native.String
use Prim.Native.String.append
use inference_box.Dict.{get?}
use inference_box.Dict.Laws.{get?-set, str_eq_refl}
use inference_box.Auth.Keys.{
  AuthError, Check, matches, mismatches, check_failed, checked, ApiKeyRecord, KeyStore, split_key,
  split_rest, split_prefixed, add, revoke, Minting, mint_key, verify, verify_record, verify_found,
  verify_split, expiry, has_expired,
}

-- A key as `mint_key` puts it together.
abbrev pub assembled : Bool → String → String → String
assembled live keyid secret =
    String.◌++◌ (if live then "bkn_live_" else "bkn_test_")
      (String.◌++◌ keyid (String.◌++◌ "_" secret))

split_rest-assembled :
    (keyid secret : String)
    → is_empty keyid ≡ false
    → count b'_' keyid ≡ 0
    → is_empty secret ≡ false
    → split_rest (partition b'_' (String.◌++◌ keyid (String.◌++◌ "_" secret))) ≡ ok (keyid, secret)
unfolding split_rest
split_rest-assembled keyid secret h c k =
    rw (append.cons "_" "" secret, append.nil secret, partition-append keyid secret "_" b'_' refl c)
      (ground arith)

-- A key that is put together from a non-empty key id without `_` and a non-empty secret is split
-- into the two, for either prefix and whatever the secret holds.
pub split_key-assembled :
    (live : Bool) (keyid secret : String)
    → is_empty keyid ≡ false
    → count b'_' keyid ≡ 0
    → is_empty secret ≡ false
    → split_key (assembled live keyid secret) ≡ ok (keyid, secret)
unfolding split_key split_prefixed without_prefix
split_key-assembled true keyid secret h c k =
    ap (λ o. split_prefixed o (without_prefix "bkn_test_" (assembled true keyid secret)))
      (without_prefix-append "bkn_live_" (String.◌++◌ keyid (String.◌++◌ "_" secret)))
    ∙ split_rest-assembled keyid secret h c k
split_key-assembled false keyid secret h c k =
    ap (λ o. split_prefixed o (without_prefix "bkn_test_" (assembled false keyid secret)))
      (without_prefix-none "bkn_live_" "bkn_test_" (String.◌++◌ keyid (String.◌++◌ "_" secret)) refl
        refl)
    ∙ ap (λ o. split_prefixed none o)
        (without_prefix-append "bkn_test_" (String.◌++◌ keyid (String.◌++◌ "_" secret)))
    ∙ split_rest-assembled keyid secret h c k

get?-revoke_other :
    (store : KeyStore) (keyid id : String)
    → str_eq keyid id ≡ false
    → get? id (revoke store keyid).1 ≡ get? id store
unfolding revoke
get?-revoke_other store keyid id h = elim (Option-cases (get? keyid store)) [
  | inl e ↦ rw (revoke, e) refl
  | inr (r, e) ↦ rw (revoke, e, get?-set, h) refl
]

get?-revoke_same :
    (store : KeyStore) (keyid id : String) (r : ApiKeyRecord)
    → str_eq keyid id ≡ true
    → get? id (revoke store keyid).1 ≡ some r
    → r.revoked ≡ true
unfolding revoke
get?-revoke_same store keyid id r h g =
    let same : keyid ≡ id = ground (arith, eq_iff keyid id) in
    elim (Option-cases (get? keyid store)) [
      | inl e ↦ absurd (
          let none_still : get? keyid (revoke store keyid).1 ≡ none = rw (revoke, e) e in
          let here : get? keyid (revoke store keyid).1 ≡ some r =
            ap (λ k. get? k (revoke store keyid).1) same ∙ g in
          cc)
      | inr (q, e) ↦
          (let revoked_now : get? keyid (revoke store keyid).1
                ≡ some (record q { revoked = true }) =
              rw (revoke, e, get?-set, str_eq_refl) refl in
            let here : get? keyid (revoke store keyid).1 ≡ some r =
              ap (λ k. get? k (revoke store keyid).1) same ∙ g in
            let both : record q { revoked = true } ≡ r = cc in
            ap (λ (x : ApiKeyRecord). x.revoked) (sym both))
    ]

checked_iff : (q r : ApiKeyRecord) (c : Check) → (checked q c ≡ ok r) ↔ ((c ≡ matches) × (q ≡ r))
unfolding checked
checked_iff q r matches = (λ h. (refl, cc), λ (c, e). ap ok e)
checked_iff q r mismatches = (λ h. cc, λ (c, e). cc)
checked_iff q r check_failed = (λ h. cc, λ (c, e). cc)

module _ (checks : String → String → Check) (pepper : String) where
  verify_found_iff :
      (o : Option ApiKeyRecord) (secret : String) (now : ℕ) (r : ApiKeyRecord)
      → (verify_found checks pepper o secret now ≡ ok r) ↔ (
          (o ≡ some r)
          × (r.revoked ≡ false)
          × (has_expired r.expires_at now ≡ false)
          × (checks r.hash (String.◌++◌ secret pepper) ≡ matches))
  unfolding verify_found verify_record
  verify_found_iff none secret now r = ground arith
  verify_found_iff (some q) secret now r =
      elim (Bool-cases (q.revoked || has_expired q.expires_at now)) [
        | inl e ↦ rw e (ground arith)
        | inr e ↦ rw e (
            (
              λ h.
                  (let (c, k) = (checked_iff q r (checks q.hash (String.◌++◌ secret pepper))).0 h in
                    let same : q ≡ r = k in
                    (
                      ap some same,
                      ap (λ (x : ApiKeyRecord). x.revoked) (sym same) ∙ ground arith,
                      ap (λ (x : ApiKeyRecord). has_expired x.expires_at now) (sym same)
                          ∙ ground arith,
                      ap (λ (x : ApiKeyRecord). checks x.hash (String.◌++◌ secret pepper))
                            (sym same)
                          ∙ c,
                    )),
              λ (o, u, v, c).
                  (let same : q ≡ r = cc in
                    (checked_iff q r (checks q.hash (String.◌++◌ secret pepper))).1 (
                      ap (λ (x : ApiKeyRecord). checks x.hash (String.◌++◌ secret pepper)) same ∙ c,
                      same,
                    )),
            ))
      ]

  verify_split_iff :
      (store : KeyStore) (split : Result AuthError (String × String)) (now : ℕ) (r : ApiKeyRecord)
      → (verify_split checks pepper store split now ≡ ok r) ↔ (
          (keyid : String) × (secret : String) × (split ≡ ok (keyid, secret))
          × (get? keyid store ≡ some r)
          × (r.revoked ≡ false)
          × (has_expired r.expires_at now ≡ false)
          × (checks r.hash (String.◌++◌ secret pepper) ≡ matches))
  unfolding verify_split
  verify_split_iff store (raises e) now r = (λ h. cc, λ (keyid, secret, h, g, u, v, w). cc)
  verify_split_iff store (ok (keyid, secret)) now r = (
    λ h.
        (let (g, u, v, w) = (verify_found_iff (get? keyid store) secret now r).0 h in
          (keyid, secret, refl, g, u, v, w)),
    λ (k, s, h, g, u, v, w).
        (let same_keyid : keyid ≡ k = cc in
          let same_secret : secret ≡ s = cc in
          (verify_found_iff (get? keyid store) secret now r).1 (
            ap (λ j. get? j store) same_keyid ∙ g,
            u,
            v,
            ap (λ t. checks r.hash (String.◌++◌ t pepper)) same_secret ∙ w,
          )),
  )

  -- The store accepts a presented key, with a record, exactly when the key splits into an id that
  -- has this record and a secret, the record is neither revoked nor expired, and its hash checks
  -- against the secret followed by the pepper.
  pub verify_iff :
      (store : KeyStore) (presented : String) (now : ℕ) (r : ApiKeyRecord)
      → (verify checks pepper store presented now ≡ ok r) ↔ (
          (keyid : String) × (secret : String) × (split_key presented ≡ ok (keyid, secret))
          × (get? keyid store ≡ some r)
          × (r.revoked ≡ false)
          × (has_expired r.expires_at now ≡ false)
          × (checks r.hash (String.◌++◌ secret pepper) ≡ matches))
  unfolding verify
  verify_iff store presented now r = verify_split_iff store (split_key presented) now r

  -- A minted key is accepted once its record has been added, until it expires, and whatever else
  -- the store holds. The key id drawn is not empty and has no `_`, the secret is not empty, and
  -- the check accepts every hash of the hash function for the text that was hashed.
  pub verify-mint_key :
      (hasher : String → String) (m : Minting) (store : KeyStore) (now : ℕ)
      → ((t : String) → checks (hasher t) t ≡ matches)
      → is_empty m.new_keyid ≡ false
      → count b'_' m.new_keyid ≡ 0
      → is_empty m.new_secret ≡ false
      → has_expired (expiry m.ttl_sec m.minted_at) now ≡ false
      → let (plaintext, r) = mint_key hasher pepper m in
        verify checks pepper (add store r) plaintext now ≡ ok r
  unfolding mint_key add
  verify-mint_key hasher m store now sound h c k fresh = (verify_iff _ _ now _).1 (
    m.new_keyid,
    m.new_secret,
    split_key-assembled m.live m.new_keyid m.new_secret h c k,
    (rw (get?-set, str_eq_refl) refl),
    refl,
    fresh,
    sound (String.◌++◌ m.new_secret pepper),
  )

  verify-verify_found :
      (store : KeyStore) (presented id secret : String) (now : ℕ)
      → split_key presented ≡ ok (id, secret)
      → verify checks pepper store presented now
        ≡ verify_found checks pepper (get? id store) secret now
  unfolding verify verify_split
  verify-verify_found store presented id secret now e =
      ap (λ x. verify_split checks pepper store x now) e

  -- Once a key id has been revoked, no key with this id is accepted, and every other key is
  -- accepted, with the same record, exactly when it was before.
  pub verify-revoke :
      (store : KeyStore) (keyid id secret presented : String) (now : ℕ) (r : ApiKeyRecord)
      → split_key presented ≡ ok (id, secret)
      → (verify checks pepper (revoke store keyid).1 presented now ≡ ok r)
        ↔ ((verify checks pepper store presented now ≡ ok r) × (str_eq keyid id ≡ false))
  verify-revoke store keyid id secret presented now r e = elim (Bool-cases (str_eq keyid id)) [
    | inl same ↦ (
      λ h. absurd (
          let q = sym (verify-verify_found (revoke store keyid).1 presented id secret now e) ∙ h in
          let (g, u, x, w) = (verify_found_iff (get? id (revoke store keyid).1) secret now r).0 q in
          let v = get?-revoke_same store keyid id r same g in cc),
      λ (h, other). cc,
    )
    | inr other ↦
        (let q =
            verify-verify_found (revoke store keyid).1 presented id secret now e
            ∙ ap (λ o. verify_found checks pepper o secret now)
                (get?-revoke_other store keyid id other)
            ∙ sym (verify-verify_found store presented id secret now e) in
          (λ h. (sym q ∙ h, other), λ (h, o). q ∙ h))
  ]
