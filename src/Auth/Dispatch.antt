-- ===== src/Auth/Dispatch.antt =====
-- `require_principal` of gateway/auth/__init__.py. What the two verifiers come to is an argument.
use inference_box.Prelude.{
  ℕ, ◌+◌, ◌≡◌, refl, ap, sym, String, Bool, true, false, ◌&&◌, not, Option, none, some, leb, ◌==◌,
  if◌then◌else◌, Result, ok, raises,
}
use inference_box.Prelude.Text.{is_empty}
use inference_box.Prelude.Text.Cutting.{without_prefix, count, strip}
use Prim.Native.Char.{code}
use Prim.Native.String
use Prim.Native.String.{String as Text}
use inference_box.Auth.{Principal, Method, jwt, apikey}
use inference_box.Auth.Keys.{AuthError, VerifyError, rejected_as, not_caught, ApiKeyRecord}
use inference_box.Auth.Tokens.{Claims, scopes_of}

abbrev lower_code : ℕ → ℕ
lower_code n = if leb b'A' n && leb n b'Z' then n + 32 else n

-- `s[len(prefix):]` of a text whose lower case starts with the prefix.
unfoldable pub without_lower_prefix : String → String → Option String
without_lower_prefix String.[] s = some s
without_lower_prefix (String.◌∷◌ p ps) String.[] = none
without_lower_prefix (String.◌∷◌ p ps) (String.◌∷◌ c s) =
    let rest = without_lower_prefix ps s in if lower_code (code c) == code p then rest else none

-- The credential of a header, when it is a Bearer header with one.
credential_in : Option String → Option String
credential_in none = none
credential_in (some rest) = if is_empty (strip rest) then none else some (strip rest)

unfoldable pub credential_of : Option String → Option String
unfolding credential_in
credential_of none = none
credential_of (some header) = credential_in (without_lower_prefix "bearer " header)

abbrev starts_with : String → String → Bool
starts_with p s = elim (without_prefix p s) [ none ↦ false | some rest ↦ true ]

-- Two dots, and not the prefix of an API key.
unfoldable pub is_jwt_shaped : String → Bool
is_jwt_shaped credential = count b'.' credential == 2 && not (starts_with "bkn_" credential)

abbrev pub jwt_principal : Claims → Principal
jwt_principal claims = record {
  subject = claims.sub;
  scopes = scopes_of claims;
  method = jwt;
  keyid = none;
  token_budget = none;
  max_concurrency = none;
}

abbrev pub key_principal : ApiKeyRecord → Principal
key_principal r = record {
  subject = String.◌++◌ "key:" r.keyid;
  scopes = r.scopes;
  method = apikey;
  keyid = some r.keyid;
  token_budget = r.token_budget;
  max_concurrency = r.max_concurrency;
}

-- The answer, an exception being its status, and the method that the request is marked with.
pub record Decision : Type 0 where
  pub answer : Result ℕ Principal
  pub marked : Option Method

abbrev unauthorized : Decision
unauthorized = record { answer = raises 401; marked = none }

abbrev granted : Principal → Decision
granted p = record { answer = ok p; marked = some p.method }

by_token : Result AuthError Claims → Decision
by_token (raises e) = unauthorized
by_token (ok claims) = granted (jwt_principal claims)

by_key : Result VerifyError ApiKeyRecord → Decision
by_key (raises (rejected_as e)) = unauthorized
by_key (raises not_caught) = record { answer = raises 500; marked = none }
by_key (ok r) = granted (key_principal r)

module _ (verify_jwt : String → Result AuthError Claims)
    (verify_key : String → Result VerifyError ApiKeyRecord) where
  decide_shaped : Bool → String → Decision
  unfolding by_token by_key
  decide_shaped true credential = by_token (verify_jwt credential)
  decide_shaped false credential = by_key (verify_key credential)

  decide : Option String → Decision
  unfolding decide_shaped is_jwt_shaped
  decide none = unauthorized
  decide (some credential) = decide_shaped (is_jwt_shaped credential) credential

  unfoldable pub require_principal : Option String → Decision
  unfolding decide credential_of
  require_principal authorization = decide (credential_of authorization)

  abbrev pub IsVouchedAs : Bool → String → Principal → Type 0
  IsVouchedAs true credential p =
      (claims : Claims) × (verify_jwt credential ≡ ok claims) × (p ≡ jwt_principal claims)
  IsVouchedAs false credential p =
      (r : ApiKeyRecord) × (verify_key credential ≡ ok r) × (p ≡ key_principal r)

  -- How a principal can have come about: by a token or by a key, according to the credential's
  -- shape, and with what the verifier of that kind alone gave.
  abbrev pub IsVouched : Option String → Principal → Type 0
  IsVouched none p = ⊥
  IsVouched (some credential) p = IsVouchedAs (is_jwt_shaped credential) credential p

  by_token-ok :
      (v : Result AuthError Claims) (p : Principal)
      → (by_token v).answer ≡ ok p
      → ((by_token v).marked ≡ some p.method)
        × ((claims : Claims) × (v ≡ ok claims) × (p ≡ jwt_principal claims))
  unfolding by_token
  by_token-ok (raises e) p h = cc
  by_token-ok (ok claims) p h =
      let q : p ≡ jwt_principal claims = cc in
      (ap (λ (x : Principal). some x.method) (sym q), (claims, refl, q))

  by_key-ok :
      (v : Result VerifyError ApiKeyRecord) (p : Principal)
      → (by_key v).answer ≡ ok p
      → ((by_key v).marked ≡ some p.method)
        × ((r : ApiKeyRecord) × (v ≡ ok r) × (p ≡ key_principal r))
  unfolding by_key
  by_key-ok (raises (rejected_as e)) p h = cc
  by_key-ok (raises not_caught) p h = cc
  by_key-ok (ok r) p h =
      let q : p ≡ key_principal r = cc in
      (ap (λ (x : Principal). some x.method) (sym q), (r, refl, q))

  decide_shaped-ok :
      (shape : Bool) (credential : String) (p : Principal)
      → (decide_shaped shape credential).answer ≡ ok p
      → ((decide_shaped shape credential).marked ≡ some p.method) × IsVouchedAs shape credential p
  unfolding decide_shaped
  decide_shaped-ok true credential p h = by_token-ok (verify_jwt credential) p h
  decide_shaped-ok false credential p h = by_key-ok (verify_key credential) p h

  decide-ok :
      (o : Option String) (p : Principal)
      → (decide o).answer ≡ ok p
      → ((decide o).marked ≡ some p.method) × IsVouched o p
  unfolding decide
  decide-ok none p h = cc
  decide-ok (some credential) p h = decide_shaped-ok (is_jwt_shaped credential) credential p h

  -- A principal is granted only to a Bearer header with a credential, by the token verifier alone
  -- if the credential looks like a token and by the key verifier alone if it does not. It is made
  -- of what that verifier gave, so that only a key's principal has a key id or a limit, and the
  -- request is marked with the same method.
  pub require_principal-IsVouched :
      (authorization : Option String) (p : Principal)
      → (require_principal authorization).answer ≡ ok p
      → ((require_principal authorization).marked ≡ some p.method)
        × IsVouched (credential_of authorization) p
  unfolding require_principal
  require_principal-IsVouched authorization p h = decide-ok (credential_of authorization) p h
