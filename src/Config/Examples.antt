-- ===== src/Config/Examples.antt =====
-- Settings read from concrete environments.
use Prim.Native.Char.{code}
use Prim.Native.String.{[], ◌∷◌}
use inference_box.Prelude.{
  ℕ, ◌+◌, ◌-◌, ◌*◌, ◌≡◌, refl, ◌↔◌, String, false, Option, none, some, List, ◌==◌, if◌then◌else◌,
  ok, raises,
}
use inference_box.Prelude.Text.Splitting.{split_at, lower_code}
use inference_box.Prelude.Text.Cutting.{lstrip, rstrip}
use inference_box.Dict.{Dict, get?, get_or}
use inference_box.Chat.Values.{ℤ, pos}
use inference_box.Config
use inference_box.Config.{
  Settings, Numbers, csv, kept, flag, lowers_to, load, load_numbers, settings_with, env_int,
  env_float, allowed_models, no_number, half_a_certificate, upstream_client_cert, Invalid,
}
use inference_box.Config.Loading.{ReadsDefaults, ReadsSet, load-ok_iff}
use inference_box.Client.Connection.{
  HttpClient, start, start-ok, upstream_ssl_context, presented, trusted, context, client_with,
}

-- The digits of a text as one number, any other character skipped, and nothing for an empty text.
abbrev digits : ℕ → String → ℕ
digits n [] = n
digits n (c ∷ s) = if code c == b'.' then digits n s else digits (n * 10 + (code c - 48)) s

abbrev whole : String → Option ℤ
whole [] = none
whole (c ∷ s) = some (pos (digits 0 (c ∷ s)))

-- Tenths, of a text with one digit behind its point.
abbrev tenths : String → Option ℕ
tenths [] = none
tenths (c ∷ s) = some (digits 0 (c ∷ s))

abbrev defaults : Numbers ℕ
defaults = record {
  port = pos 8080;
  upstream_connect_timeout_sec = 50;
  upstream_read_timeout_sec = 1200;
  breaker_open_sec = 150;
  upstream_probe_timeout_sec = 20;
  breaker_probe_tick_sec = 10;
  auth_verify_concurrency = pos 6;
  jwt_leeway_sec = pos 30;
  max_body_bytes = pos 1048576;
  max_completion_tokens = pos 2048;
  max_prompt_tokens = pos 7000;
  upstream_metrics_poll_sec = 50;
  upstream_metrics_timeout_sec = 20;
  upstream_wedge_window_sec = 1200;
}

-- With nothing set, the defaults of the source.
loads_defaults : load_numbers whole tenths List.[] ≡ ok defaults
unfolding load_numbers env_int env_float Config.read get_or get?
loads_defaults = refl

loads_no_number :
    load_numbers whole tenths (List.◌∷◌ ("GATEWAY_PORT", "") List.[]) ≡ raises (no_number "")
unfolding load_numbers env_int env_float Config.read get_or get?
loads_no_number = refl

splits : csv " http://a/v1 ,, http://b/v1" ≡ List.◌∷◌ "http://a/v1" (List.◌∷◌ "http://b/v1" List.[])
unfolding csv kept split_at lstrip rstrip
splits = refl

abbrev audited : Dict String
audited =
    List.◌∷◌ ("AUDIT_INCLUDE_PROMPT_TEXT", "YES") (List.◌∷◌ ("MAX_PROMPT_TOKENS", "9") List.[])

defaults-Read : ReadsDefaults whole tenths
defaults-Read = record {
  ints_read = ((_, refl), ((_, refl), ((_, refl), ((_, refl), ((_, refl), ((_, refl), tt))))));
  floats_read = (
    (_, refl),
    ((_, refl), ((_, refl), ((_, refl), ((_, refl), ((_, refl), ((_, refl), ((_, refl), tt))))))),
  );
}

load-ok_iff_example :
    ((s : Settings ℕ) × (load whole tenths audited ≡ ok s)) ↔ ReadsSet whole tenths audited
load-ok_iff_example = load-ok_iff whole tenths audited defaults-Read

abbrev audited_settings : Settings ℕ
unfolding settings_with flag get_or get? lowers_to lower_code
audited_settings =
    settings_with whole tenths audited (record defaults { max_prompt_tokens = pos 9 })

load-audited : load whole tenths audited ≡ ok audited_settings
unfolding load load_numbers env_int env_float Config.read get_or get? audited_settings settings_with
load-audited = refl

abbrev secured : Settings ℕ
secured = record audited_settings {
  upstream_client_cert_path = "cert.pem";
  upstream_client_key_path = "key.pem";
  upstream_ca_bundle_path = "ca.pem";
}

abbrev client : HttpClient ℕ
unfolding client_with
client = client_with secured (context (some "ca.pem") (some ("cert.pem", "key.pem")))

start-secured : start secured ≡ ok client
unfolding start upstream_ssl_context upstream_client_cert
start-secured = refl

start-ok_example :
    (false ≡ false)
    × (presented client.verify ≡ some ("cert.pem", "key.pem"))
    × (trusted client.verify ≡ some "ca.pem")
start-ok_example = start-ok secured client start-secured

half : start (record secured { upstream_client_key_path = "" }) ≡ raises half_a_certificate
unfolding start upstream_ssl_context upstream_client_cert
half = refl
