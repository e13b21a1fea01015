-- ===== src/Auth/Examples.antt =====
-- Keys, stores and credentials of concrete requests.
use inference_box.Dict.Laws.{str_eq_refl}
use inference_box.Prelude.{
  if◌then◌else◌, ◌≡◌, refl, ◌↔◌, String, [], ◌∷◌, true, false, some, Result, ok, raises, str_eq,
}
use Prim.Native.String
use inference_box.Dict.{get?, contains}
use inference_box.Auth.{Principal}
use inference_box.Auth.Keys.{
  AuthError, auth_error, VerifyError, Check, matches, mismatches, ApiKeyRecord, KeyStore, split_key,
  add, revoke, Minting, mint_key, verify, has_expired, reload, save,
}
use inference_box.Auth.Keys.Stores.{get?-reload}
use inference_box.Auth.Keys.Verifying.{
  verify_iff, verify-mint_key, verify-revoke, split_key-assembled,
}
use inference_box.Auth.Tokens.{Claims}
use inference_box.Auth.Dispatch.{
  key_principal, require_principal, IsVouched, credential_of, require_principal-IsVouched,
  without_lower_prefix, is_jwt_shaped,
}
use inference_box.Prelude.Text.Cutting.{without_prefix, count, lstrip, rstrip}

-- A hash that is the text itself, and its check.
abbrev plain_hash : String → String
plain_hash t = t

abbrev plain_check : String → String → Check
plain_check h t = if str_eq h t then matches else mismatches

abbrev minting : Minting
minting = record {
  live = true;
  new_keyid = "0a1b2c";
  new_secret = "s_1";
  new_scopes = [];
  ttl_sec = some 60;
  minted_at = 1000;
  new_label = "job";
  budget = some 500;
  cap = some 2;
}

plain_check_sound : (t : String) → plain_check (plain_hash t) t ≡ matches
plain_check_sound t = rw (str_eq_refl t) refl

verify-mint_key_example :
    let (plaintext, r) = mint_key plain_hash "pepper" minting in
    verify plain_check "pepper" (add [] r) plaintext 1060 ≡ ok r
unfolding count
verify-mint_key_example =
    verify-mint_key plain_check "pepper" plain_hash minting [] 1060 plain_check_sound refl refl refl
      refl

abbrev minted : ApiKeyRecord
minted = record {
  keyid = "0a1b2c";
  hash = "s_1pepper";
  scopes = "chat" ∷ [];
  expires_at = some 1060;
  revoked = false;
  label = "job";
  token_budget = some 500;
  max_concurrency = some 2;
}

abbrev store : KeyStore
store = ("0a1b2c", minted) ∷ []

verify_iff_example : (verify plain_check "pepper" store "bkn_live_0a1b2c_s_1" 1000 ≡ ok minted) ↔ (
    (keyid : String) × (secret : String) × (split_key "bkn_live_0a1b2c_s_1" ≡ ok (keyid, secret))
    × (get? keyid store ≡ some minted)
    × (minted.revoked ≡ false)
    × (has_expired minted.expires_at 1000 ≡ false)
    × (plain_check minted.hash (String.◌++◌ secret "pepper") ≡ matches))
verify_iff_example = verify_iff plain_check "pepper" store "bkn_live_0a1b2c_s_1" 1000 minted

split : split_key "bkn_live_0a1b2c_s_1" ≡ ok ("0a1b2c", "s_1")
unfolding count
split = split_key-assembled true "0a1b2c" "s_1" refl refl refl

verify-revoke_example :
    (verify plain_check "pepper" (revoke store "0a1b2c").1 "bkn_live_0a1b2c_s_1" 1000 ≡ ok minted)
    ↔ ((verify plain_check "pepper" store "bkn_live_0a1b2c_s_1" 1000 ≡ ok minted)
        × (str_eq "0a1b2c" "0a1b2c" ≡ false))
verify-revoke_example =
    verify-revoke plain_check "pepper" store "0a1b2c" "0a1b2c" "s_1" "bkn_live_0a1b2c_s_1" 1000
      minted split

get?-reload_example : get? "0a1b2c" (reload (save store)) ≡ get? "0a1b2c" store
unfolding contains
get?-reload_example = get?-reload store "0a1b2c" (refl, refl, tt)

abbrev no_token : String → Result AuthError Claims
no_token t = raises (auth_error "jwt not configured")

abbrev the_key : String → Result VerifyError ApiKeyRecord
the_key presented = ok minted

abbrev job : Principal
job = key_principal minted

granted_job :
    (require_principal no_token the_key (some "bEaReR bkn_live_0a1b2c_s_1 ")).answer ≡ ok job
unfolding require_principal credential_of is_jwt_shaped without_lower_prefix without_prefix count
    lstrip rstrip
granted_job = refl

require_principal-IsVouched_example :
    ((require_principal no_token the_key (some "bEaReR bkn_live_0a1b2c_s_1 ")).marked
      ≡ some job.method)
    × IsVouched no_token the_key (credential_of (some "bEaReR bkn_live_0a1b2c_s_1 ")) job
require_principal-IsVouched_example =
    require_principal-IsVouched no_token the_key (some "bEaReR bkn_live_0a1b2c_s_1 ") job
      granted_job
