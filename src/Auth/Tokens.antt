-- ===== src/Auth/Tokens.antt =====
-- gateway/auth/jwt.py: the checks around PyJWT's decoder, which is an argument: it takes the token,
-- the key, the one algorithm that is allowed, the issuer and the audience, and gives the claims or
-- refuses.
use inference_box.Prelude.{
  String, List, [], ◌∷◌, Bool, true, false, not, Option, none, some, if◌then◌else◌, Result, ok,
  raises,
}
use inference_box.Prelude.Text.{is_empty}
use inference_box.Prelude.Text.Cutting.{words}
use inference_box.Dict.{member}
use inference_box.Auth.Keys.{AuthError, auth_error}

-- A claim that names scopes: one text, or a list.
pub data ScopeClaim : Type 0 where
  spaced : String → ScopeClaim
  listed : List String → ScopeClaim

-- The claims that the gateway reads; the decoder requires `sub`.
pub record Claims : Type 0 where
  pub sub : String
  pub scope : Option ScopeClaim
  pub scopes : Option ScopeClaim

abbrev pub allowed_algorithms : List String
allowed_algorithms = "RS256" ∷ "RS384" ∷ "RS512" ∷ "ES256" ∷ "ES384" ∷ "ES512" ∷ []

pub record JwtVerifier : Type 0 where
  pub public_key : String
  pub algorithm : String

-- `JwtVerifier(...)`, which raises `ValueError` on any other algorithm.
unfoldable pub new_verifier : String → String → Result String JwtVerifier
new_verifier public_key algorithm =
    if member algorithm allowed_algorithms
    then ok (record { public_key = public_key; algorithm = algorithm })
    else raises "ValueError"

abbrev pub enabled : JwtVerifier → Bool
enabled v = not (is_empty v.public_key)

abbrev decoded : Option Claims → Result AuthError Claims
decoded none = raises (auth_error "invalid token")
decoded (some claims) = ok claims

module _ (decode : String → String → String → String → String → Option Claims)
    (issuer audience : String) where
  unfoldable pub verify_token : JwtVerifier → String → Result AuthError Claims
  verify_token v token =
      if not (enabled v)
      then raises (auth_error "jwt not configured")
      else decoded (decode token v.public_key v.algorithm issuer audience)

-- What `or` takes for true.
abbrev truthy : Option ScopeClaim → Bool
truthy none = false
truthy (some (spaced s)) = not (is_empty s)
truthy (some (listed [])) = false
truthy (some (listed (s ∷ ss))) = true

abbrev scopes_in : Option ScopeClaim → List String
scopes_in none = []
scopes_in (some (spaced s)) = words s
scopes_in (some (listed ss)) = ss

-- An untrue `scopes` names no scope, as the `[]` that stands after it does.
unfoldable pub scopes_of : Claims → List String
scopes_of claims = if truthy claims.scope then scopes_in claims.scope else scopes_in claims.scopes
