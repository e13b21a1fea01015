-- ===== src/Client/Connection.antt =====
-- gateway/upstream/client.py: the HTTP client that the pool starts, with its headers, timeouts and
-- TLS setting. A certificate and a key are given by their paths.
use inference_box.Prelude.{
  ◌≡◌, refl, sym, ap, ◌∙◌, String, Bool, true, false, inl, inr, Option, none, some, [], ◌∷◌,
  Bool-cases, Result, ok, raises, bind-ok, ◌>>=◌, if◌then◌else◌,
}
use Prim.Native.String
use inference_box.Prelude.Text.{is_empty}
use inference_box.Dict.{Dict}
use inference_box.Config.{Settings, Invalid, upstream_client_cert, client_cert_by}

-- The error of a pool whose client is asked for before it is started or after it is stopped.
pub data Stopped : Type 0 where
  not_started : Stopped

-- The default trust, or a context with its bundle of authorities, if not the system's, and the
-- certificate chain it presents, if any.
pub data Verify : Type 0 where
  default_trust : Verify
  context : Option String → Option (String × String) → Verify

pub record HttpClient (F : Type 0) : Type 0 where
  pub headers : Dict String
  pub verify : Verify
  pub connect : F
  pub reading : F
  pub write : F
  pub pool : F

-- `path or None`
abbrev or_none : String → Option String
or_none path = if is_empty path then none else some path

context_with : String → Option (String × String) → Verify
context_with ca_bundle none =
    if is_empty ca_bundle then default_trust else context (or_none ca_bundle) none
context_with ca_bundle (some chain) = context (or_none ca_bundle) (some chain)

start_headers : String → Dict String
start_headers key =
    if is_empty key
    then ("Content-Type", "application/json") ∷ []
    else ("Content-Type", "application/json") ∷ ("Authorization", String.◌++◌ "Bearer " key) ∷ []

module _ {F : Type 0} (s : Settings F) where
  unfoldable pub upstream_ssl_context : Result Invalid Verify
  unfolding context_with
  upstream_ssl_context = upstream_client_cert s >>= λ client_cert.
      ok (context_with s.upstream_ca_bundle_path client_cert)

  unfoldable pub client_with : Verify → HttpClient F
  unfolding start_headers
  client_with verify = record {
    headers = start_headers s.upstream_api_key;
    verify = verify;
    connect = s.numbers.upstream_connect_timeout_sec;
    reading = s.numbers.upstream_read_timeout_sec;
    write = s.numbers.upstream_connect_timeout_sec;
    pool = s.numbers.upstream_connect_timeout_sec;
  }

  -- What `UpstreamPool.start` makes the client.
  unfoldable pub start : Result Invalid (HttpClient F)
  unfolding client_with
  start = upstream_ssl_context >>= λ verify. ok (client_with verify)

-- `UpstreamPool.stop`: the client that is closed, if there is one, and what the pool holds then.
unfoldable pub stop :
    {F : Type 0} → Option (HttpClient F) → Option (HttpClient F) × Option (HttpClient F)
stop client = (client, none)

-- `UpstreamPool.client`, which raises where there is none.
unfoldable pub started : {F : Type 0} → Option (HttpClient F) → Result Stopped (HttpClient F)
started none = raises not_started
started (some client) = ok client

-- The certificate chain that a client presents.
abbrev pub presented : Verify → Option (String × String)
presented default_trust = none
presented (context bundle chain) = chain

-- The authorities that it trusts in place of the system's.
abbrev pub trusted : Verify → Option String
trusted default_trust = none
trusted (context bundle chain) = bundle

context_with-presents :
    (ca_bundle : String) (chain : Option (String × String))
    → (presented (context_with ca_bundle chain) ≡ chain)
      × (trusted (context_with ca_bundle chain) ≡ or_none ca_bundle)
unfolding context_with
context_with-presents ca_bundle none = elim (Bool-cases (is_empty ca_bundle)) [
  | inl e ↦ rw e (refl, refl)
  | inr e ↦ rw e (refl, refl)
]
context_with-presents ca_bundle (some chain) = (refl, refl)

module _ {F : Type 0} (s : Settings F) where
  -- The certificate and the key, where there is a certificate.
  abbrev pub chain_of : Option (String × String)
  chain_of =
      if is_empty s.upstream_client_cert_path
      then none
      else some (s.upstream_client_cert_path, s.upstream_client_key_path)

  cert_by-ok :
      (b c : Bool) (chain : Option (String × String))
      → client_cert_by s b c ≡ ok chain
      → (b ≡ c)
        × (chain
            ≡ (if b then none else some (s.upstream_client_cert_path, s.upstream_client_key_path)))
  unfolding client_cert_by
  cert_by-ok true true chain h = (refl, cc)
  cert_by-ok false false chain h = (refl, cc)
  cert_by-ok true false chain h = cc
  cert_by-ok false true chain h = cc

  -- A pool that starts has a key path exactly if it has a certificate path. It presents the two
  -- if it has them and nothing if it has neither, whether or not a bundle of authorities is set,
  -- and it trusts that bundle if it is.
  pub start-ok :
      (c : HttpClient F)
      → start s ≡ ok c
      → (is_empty s.upstream_client_cert_path ≡ is_empty s.upstream_client_key_path)
        × (presented c.verify ≡ chain_of)
        × (trusted c.verify
            ≡ (if is_empty s.upstream_ca_bundle_path then none else some s.upstream_ca_bundle_path))
  unfolding start upstream_ssl_context upstream_client_cert client_with
  start-ok c h =
      let (v, e, k) = bind-ok (upstream_ssl_context s) _ c h in
      let (chain, e', k') = bind-ok (upstream_client_cert s) _ v e in
      let q : context_with s.upstream_ca_bundle_path chain ≡ v = cc in
      let w : client_with s v ≡ c = cc in
      let r : context_with s.upstream_ca_bundle_path chain ≡ c.verify = q ∙ ap (λ z. z.verify) w in
      let (same, is_chain) =
        cert_by-ok (is_empty s.upstream_client_cert_path) (is_empty s.upstream_client_key_path)
          chain e' in
      let (p, t) = context_with-presents s.upstream_ca_bundle_path chain in
      (same, ap presented (sym r) ∙ p ∙ is_chain, ap trusted (sym r) ∙ t)
