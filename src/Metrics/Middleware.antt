-- ===== src/Metrics/Middleware.antt =====
-- gateway/metrics.py: MetricsMiddleware. A request enters it, the application behind it sends some
-- messages and ends in some way, and the request leaves; other requests come and go in between.
-- Durations are milliseconds.
pub mod Gauge
use inference_box.Prelude.{
  ℕ, ◌+◌, ◌-◌, String, Bool, true, false, List, [], ◌∷◌, Option, none, some, str_eq, if◌then◌else◌,
}
use inference_box.Prelude.Text.{is_empty, str_of_ℕ}
use inference_box.Metrics.{outcome_of}

-- What the middleware reads of a scope.
pub record HttpScope : Type 0 where
  pub route : Option String
  pub method : Option String
  pub auth_method : Option String

-- A message that the application sends.
pub data Message : Type 0 where
  response_start : ℕ → Message
  other_message : Message

-- How the application ends: it returns, raises an Exception, or is cancelled.
pub data AppEnd : Type 0 where
  returned raised cancelled : AppEnd

pub record Labels : Type 0 where
  pub route : String
  pub method : String
  pub status : String
  pub auth_method : String

pub record Observation : Type 0 where
  pub route : String
  pub outcome : String
  pub elapsed : ℕ

-- The metrics that the middleware writes, with one entry for each count and each observation.
pub record Metered : Type 0 where
  pub inflight_requests : ℕ
  pub requests_total : List Labels
  pub request_durations : List Observation

abbrev pub new_metered : Metered
new_metered = record { inflight_requests = 0; requests_total = []; request_durations = [] }

abbrev or_else : Option String → String → String
or_else none default = default
or_else (some v) default = v

-- `status_holder["status"]` after some messages.
unfoldable pub status_after : ℕ → List Message → ℕ
status_after status [] = status
status_after status (response_start sent ∷ ms) = status_after sent ms
status_after status (other_message ∷ ms) = status_after status ms

-- An exception that the application raises counts as a 500, whatever it has sent.
unfoldable pub final_status : List Message → AppEnd → ℕ
unfolding status_after
final_status ms returned = status_after 500 ms
final_status ms cancelled = status_after 500 ms
final_status ms raised = 500

-- `getattr(scope.get("route"), "path", None) or "__unmatched__"`
route_of : Option String → String
route_of none = "__unmatched__"
route_of (some path) = if is_empty path then "__unmatched__" else path

unfoldable pub route_label : HttpScope → String
unfolding route_of
route_label scope = route_of scope.route

-- `_record`
unfoldable pub record_request : HttpScope → ℕ → ℕ → Metered → Metered
unfolding outcome_of
record_request scope status elapsed m =
    if str_eq (route_label scope) "/metrics" then m else record m {
      requests_total =
          record {
            route = route_label scope;
            method = or_else scope.method "GET";
            status = str_of_ℕ status;
            auth_method = or_else scope.auth_method "none";
          }
          ∷ m.requests_total;
      request_durations =
          record { route = route_label scope; outcome = outcome_of status; elapsed = elapsed }
          ∷ m.request_durations;
    }

-- `inflight_requests.inc()`
abbrev pub enter : Metered → Metered
enter m = record m { inflight_requests = m.inflight_requests + 1 }

-- The `finally` of `__call__`.
unfoldable pub leave : HttpScope → List Message → AppEnd → ℕ → Metered → Metered
unfolding record_request final_status
leave scope ms end elapsed m =
    record_request scope (final_status ms end) elapsed
      (record m { inflight_requests = m.inflight_requests - 1 })
