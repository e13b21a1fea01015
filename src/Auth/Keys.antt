-- ===== src/Auth/Keys.antt =====
-- gateway/auth/keys.py: API keys, their records and the store. The hash function and its check are
-- argon2's, and so arguments; the clock of `verify` is one, and so are the random parts of a key.
pub mod Stores
pub mod Verifying
use inference_box.Prelude.{
  ℕ, ◌+◌, String, List, [], ◌∷◌, Bool, true, false, ◌||◌, not, Option, none, some, ltb, ◌==◌,
  if◌then◌else◌, Result, ok, raises,
}
use inference_box.Prelude.Text.{is_empty}
use inference_box.Prelude.Text.Cutting.{without_prefix, partition}
use Prim.Native.String
use inference_box.Dict.{Dict, get?, set, values}

-- Every rejection raises the same bare error; the text is the one it is raised with.
pub data AuthError : Type 0 where
  auth_error : String → AuthError

-- What argon2 says of a hash and a text; any error of its own but a mismatch is `check_failed`.
pub data Check : Type 0 where
  matches mismatches check_failed : Check

-- What `verify` raises: an AuthError, or an error of argon2 that it does not catch.
pub data VerifyError : Type 0 where
  rejected_as : AuthError → VerifyError
  not_caught : VerifyError

pub record ApiKeyRecord : Type 0 where
  pub keyid : String
  pub hash : String
  pub scopes : List String
  pub expires_at : Option ℕ
  pub revoked : Bool
  pub label : String
  pub token_budget : Option ℕ
  pub max_concurrency : Option ℕ

-- A record as JSON. A field that is missing and one that is null are alike to `from_json`.
pub record RawRecord : Type 0 where
  pub raw_keyid : String
  pub raw_hash : String
  pub raw_scopes : Option (List String)
  pub raw_expires_at : Option ℕ
  pub raw_revoked : Option Bool
  pub raw_label : Option String
  pub raw_token_budget : Option ℕ
  pub raw_max_concurrency : Option ℕ

unfoldable pub to_json : ApiKeyRecord → RawRecord
to_json r = record {
  raw_keyid = r.keyid;
  raw_hash = r.hash;
  raw_scopes = some r.scopes;
  raw_expires_at = r.expires_at;
  raw_revoked = some r.revoked;
  raw_label = some r.label;
  raw_token_budget = r.token_budget;
  raw_max_concurrency = r.max_concurrency;
}

-- `raw.get(...)` with a default
abbrev pub or_default {ℓ} : {A : Type ℓ} → A → Option A → A
or_default default none = default
or_default default (some a) = a

unfoldable pub from_json : RawRecord → ApiKeyRecord
from_json r = record {
  keyid = r.raw_keyid;
  hash = r.raw_hash;
  scopes = or_default [] r.raw_scopes;
  expires_at = r.raw_expires_at;
  revoked = or_default false r.raw_revoked;
  label = or_default "" r.raw_label;
  token_budget = r.raw_token_budget;
  max_concurrency = r.raw_max_concurrency;
}

abbrev malformed : Result AuthError (String × String)
malformed = raises (auth_error "malformed key")

-- What follows the prefix of a key, cut at the first `_`.
split_rest : Option (String × String) → Result AuthError (String × String)
split_rest none = malformed
split_rest (some (keyid, secret)) =
    if is_empty keyid || is_empty secret then malformed else ok (keyid, secret)

-- What follows the one prefix, and what follows the other.
split_prefixed : Option String → Option String → Result AuthError (String × String)
unfolding split_rest
split_prefixed (some rest) _ = split_rest (partition b'_' rest)
split_prefixed none (some rest) = split_rest (partition b'_' rest)
split_prefixed none none = malformed

unfoldable pub split_key : String → Result AuthError (String × String)
unfolding split_prefixed
split_key presented =
    split_prefixed (without_prefix "bkn_live_" presented) (without_prefix "bkn_test_" presented)

abbrev pub KeyStore : Type 0
KeyStore = Dict ApiKeyRecord

-- `save`: what is written.
abbrev pub to_jsons : List ApiKeyRecord → List RawRecord
to_jsons [] = []
to_jsons (r ∷ rs) = to_json r ∷ to_jsons rs

abbrev pub save : KeyStore → List RawRecord
save store = to_jsons (values store)

-- `reload` of what a file holds, from a dict so far.
reload_onto : KeyStore → List RawRecord → KeyStore
reload_onto store [] = store
reload_onto store (r ∷ rs) = reload_onto (set r.raw_keyid (from_json r) store) rs

unfoldable pub reload : List RawRecord → KeyStore
unfolding reload_onto
reload rs = reload_onto [] rs

unfoldable pub add : KeyStore → ApiKeyRecord → KeyStore
add store r = set r.keyid r store

-- `revoke`: whether there was such a key, and the store. The record is changed where it stands.
unfoldable pub revoke : KeyStore → String → Bool × KeyStore
revoke store keyid = elim (get? keyid store) [
  | none ↦ (false, store)
  | some r ↦ (true, set keyid (record r { revoked = true }) store)
]

-- `time.time() > record.expires_at`
abbrev pub has_expired : Option ℕ → ℕ → Bool
has_expired none now = false
has_expired (some t) now = ltb t now

-- What is drawn and read while a key is minted.
pub record Minting : Type 0 where
  pub live : Bool
  pub new_keyid : String
  pub new_secret : String
  pub new_scopes : List String
  pub ttl_sec : Option ℕ
  pub minted_at : ℕ
  pub new_label : String
  pub budget : Option ℕ
  pub cap : Option ℕ

-- `scopes or ["chat"]`
abbrev pub or_chat : List String → List String
or_chat [] = "chat" ∷ []
or_chat (s ∷ ss) = s ∷ ss

-- A lifetime of zero counts as none.
abbrev pub expiry : Option ℕ → ℕ → Option ℕ
expiry none now = none
expiry (some ttl) now = if ttl == 0 then none else some (now + ttl)

-- `hasher` is argon2's hash, and `checks` its check of a hash against a text.
module _ (hasher : String → String) (pepper : String) where
  unfoldable pub mint_key : Minting → String × ApiKeyRecord
  mint_key m = (
    String.◌++◌ (if m.live then "bkn_live_" else "bkn_test_")
        (String.◌++◌ m.new_keyid (String.◌++◌ "_" m.new_secret)),
    record {
      keyid = m.new_keyid;
      hash = hasher (String.◌++◌ m.new_secret pepper);
      scopes = or_chat m.new_scopes;
      expires_at = expiry m.ttl_sec m.minted_at;
      revoked = false;
      label = m.new_label;
      token_budget = m.budget;
      max_concurrency = m.cap;
    },
  )

checked : ApiKeyRecord → Check → Result VerifyError ApiKeyRecord
checked r matches = ok r
checked r mismatches = raises (rejected_as (auth_error "invalid key"))
checked r check_failed = raises not_caught

module _ (checks : String → String → Check) (pepper : String) where
  -- `verify` with the record found.
  verify_record : ApiKeyRecord → String → ℕ → Result VerifyError ApiKeyRecord
  unfolding checked
  verify_record r secret now =
      if r.revoked || has_expired r.expires_at now
      then raises (rejected_as (auth_error "invalid key"))
      else checked r (checks r.hash (String.◌++◌ secret pepper))

  -- `verify` with the record that was looked up.
  verify_found : Option ApiKeyRecord → String → ℕ → Result VerifyError ApiKeyRecord
  unfolding verify_record
  verify_found none secret now = raises (rejected_as (auth_error "invalid key"))
  verify_found (some r) secret now = verify_record r secret now

  -- `verify` with the key split.
  verify_split : KeyStore → Result AuthError (String × String) → ℕ → Result VerifyError ApiKeyRecord
  unfolding verify_found
  verify_split store (raises e) now = raises (rejected_as e)
  verify_split store (ok (keyid, secret)) now = verify_found (get? keyid store) secret now

  unfoldable pub verify : KeyStore → String → ℕ → Result VerifyError ApiKeyRecord
  unfolding verify_split
  verify store presented now = verify_split store (split_key presented) now
