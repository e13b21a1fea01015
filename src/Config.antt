-- ===== src/Config.antt =====
-- gateway/config.py: the settings, read from the environment. What `int` and `float` make of a
-- text are parameters, with `none` where they raise.
pub mod Lists
pub mod Loading
pub mod Flags
mod Examples
use Prim.Native.Char.{code}
use Prim.Native.String.{[], ◌∷◌}
use inference_box.Prelude.{
  String, Bool, true, false, ◌&&◌, ◌||◌, not, Option, none, some, List, ◌==◌, if◌then◌else◌, Result,
  ok, raises, ◌>>=◌,
}
use inference_box.Prelude.Text.{is_empty}
use inference_box.Prelude.Text.Cutting.{strip}
use inference_box.Prelude.Text.Splitting.{split_at, lower_code}
use inference_box.Dict.{Dict, get_or}
use inference_box.Chat.Values.{ℤ}

-- Whether `s.lower()` is the text, of which no letter but the ASCII ones is the lower case.
unfoldable pub lowers_to : String → String → Bool
unfolding lower_code
lowers_to [] [] = true
lowers_to (c ∷ s) (d ∷ t) = lower_code (code c) == code d && lowers_to s t
lowers_to _ _ = false

unfoldable pub flag : Dict String → String → String → Bool
unfolding lowers_to
flag env name default =
    let raw = get_or name default env in
    lowers_to raw "1" || lowers_to raw "true" || lowers_to raw "yes"

-- The parts that are not blank, stripped.
unfoldable pub kept : List String → List String
kept List.[] = List.[]
kept (List.◌∷◌ item items) =
    let rest = kept items in
    if not (is_empty (strip item)) then List.◌∷◌ (strip item) rest else rest

unfoldable pub csv : String → List String
unfolding kept
csv raw = kept (split_at b',' raw)

-- The `ValueError` of a text that reads as no number, and of half a client certificate.
pub data Invalid : Type 0 where
  no_number : String → Invalid
  half_a_certificate : Invalid

-- The settings that are numbers.
pub record Numbers (F : Type 0) : Type 0 where
  pub port : ℤ
  pub upstream_connect_timeout_sec : F
  pub upstream_read_timeout_sec : F
  pub breaker_open_sec : F
  pub upstream_probe_timeout_sec : F
  pub breaker_probe_tick_sec : F
  pub auth_verify_concurrency : ℤ
  pub jwt_leeway_sec : ℤ
  pub max_body_bytes : ℤ
  pub max_completion_tokens : ℤ
  pub max_prompt_tokens : ℤ
  pub upstream_metrics_poll_sec : F
  pub upstream_metrics_timeout_sec : F
  pub upstream_wedge_window_sec : F

pub record Settings (F : Type 0) : Type 0 where
  pub host : String
  pub upstream_urls_csv : String
  pub upstream_api_key : String
  pub upstream_client_cert_path : String
  pub upstream_client_key_path : String
  pub upstream_ca_bundle_path : String
  pub breaker_enabled : Bool
  pub api_key_store_path : String
  pub api_key_pepper : String
  pub jwt_public_key : String
  pub jwt_algorithm : String
  pub jwt_issuer : String
  pub jwt_audience : String
  pub allowed_models_csv : String
  pub audit_log_path : String
  pub audit_include_prompt_text : Bool
  pub metrics_enabled : Bool
  pub numbers : Numbers F

read : {A : Type 0} → String → Option A → Result Invalid A
read raw none = raises (no_number raw)
read raw (some a) = ok a

module _ {F : Type 0} (int_of_text : String → Option ℤ) (float_of_text : String → Option F) where
  -- `int(os.getenv(name, default))`
  unfoldable pub env_int : Dict String → String → String → Result Invalid ℤ
  unfolding read
  env_int env name default = read (get_or name default env) (int_of_text (get_or name default env))

  unfoldable pub env_float : Dict String → String → String → Result Invalid F
  unfolding read
  env_float env name default =
      read (get_or name default env) (float_of_text (get_or name default env))

  unfoldable pub load_numbers : Dict String → Result Invalid (Numbers F)
  load_numbers env = do
    port ← env_int env "GATEWAY_PORT" "8080"
    connect ← env_float env "UPSTREAM_CONNECT_TIMEOUT_SEC" "5.0"
    reading ← env_float env "UPSTREAM_READ_TIMEOUT_SEC" "120.0"
    open_sec ← env_float env "BREAKER_OPEN_SEC" "15.0"
    probing ← env_float env "UPSTREAM_PROBE_TIMEOUT_SEC" "2.0"
    tick ← env_float env "BREAKER_PROBE_TICK_SEC" "1.0"
    verifying ← env_int env "AUTH_VERIFY_CONCURRENCY" "6"
    leeway ← env_int env "JWT_LEEWAY_SEC" "30"
    body ← env_int env "MAX_BODY_BYTES" "1048576"
    completion ← env_int env "MAX_COMPLETION_TOKENS" "2048"
    prompt ← env_int env "MAX_PROMPT_TOKENS" "7000"
    polling ← env_float env "UPSTREAM_METRICS_POLL_SEC" "5.0"
    scraping ← env_float env "UPSTREAM_METRICS_TIMEOUT_SEC" "2.0"
    window ← env_float env "UPSTREAM_WEDGE_WINDOW_SEC" "120.0"
    ok (record {
      port = port;
      upstream_connect_timeout_sec = connect;
      upstream_read_timeout_sec = reading;
      breaker_open_sec = open_sec;
      upstream_probe_timeout_sec = probing;
      breaker_probe_tick_sec = tick;
      auth_verify_concurrency = verifying;
      jwt_leeway_sec = leeway;
      max_body_bytes = body;
      max_completion_tokens = completion;
      max_prompt_tokens = prompt;
      upstream_metrics_poll_sec = polling;
      upstream_metrics_timeout_sec = scraping;
      upstream_wedge_window_sec = window;
    })

  -- The settings around numbers that have been read; no text and no flag is refused.
  unfoldable pub settings_with : Dict String → Numbers F → Settings F
  unfolding flag
  settings_with env numbers = record {
    host = get_or "GATEWAY_HOST" "0.0.0.0" env;
    upstream_urls_csv = get_or "UPSTREAM_URLS" "http://127.0.0.1:8001/v1" env;
    upstream_api_key = get_or "UPSTREAM_API_KEY" "" env;
    upstream_client_cert_path = get_or "UPSTREAM_CLIENT_CERT_PATH" "" env;
    upstream_client_key_path = get_or "UPSTREAM_CLIENT_KEY_PATH" "" env;
    upstream_ca_bundle_path = get_or "UPSTREAM_CA_BUNDLE_PATH" "" env;
    breaker_enabled = flag env "BREAKER_ENABLED" "true";
    api_key_store_path = get_or "API_KEY_STORE_PATH" "./keys.json" env;
    api_key_pepper = get_or "API_KEY_PEPPER" "" env;
    jwt_public_key = get_or "JWT_PUBLIC_KEY" "" env;
    jwt_algorithm = get_or "JWT_ALGORITHM" "RS256" env;
    jwt_issuer = get_or "JWT_ISSUER" "firstdata-api" env;
    jwt_audience = get_or "JWT_AUDIENCE" "bkn301-inference" env;
    allowed_models_csv = get_or "ALLOWED_MODELS" "Qwen/Qwen3-8B-AWQ" env;
    audit_log_path = get_or "AUDIT_LOG_PATH" "./logs/audit.jsonl" env;
    audit_include_prompt_text = flag env "AUDIT_INCLUDE_PROMPT_TEXT" "false";
    metrics_enabled = flag env "METRICS_ENABLED" "true";
    numbers = numbers;
  }

  -- `Settings()`
  unfoldable pub load : Dict String → Result Invalid (Settings F)
  load env = load_numbers env >>= λ numbers. ok (settings_with env numbers)

module _ {F : Type 0} (s : Settings F) where
  unfoldable pub upstream_urls : List String
  upstream_urls = csv s.upstream_urls_csv

  unfoldable pub allowed_models : List String
  allowed_models = csv s.allowed_models_csv

  -- `UPSTREAM_CLIENT_CERT`, by whether each path is missing.
  unfoldable pub client_cert_by : Bool → Bool → Result Invalid (Option (String × String))
  client_cert_by true true = ok none
  client_cert_by false false = ok (some (s.upstream_client_cert_path, s.upstream_client_key_path))
  client_cert_by _ _ = raises half_a_certificate

  unfoldable pub upstream_client_cert : Result Invalid (Option (String × String))
  unfolding client_cert_by
  upstream_client_cert =
      client_cert_by (is_empty s.upstream_client_cert_path) (is_empty s.upstream_client_key_path)
