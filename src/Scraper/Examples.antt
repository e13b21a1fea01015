-- ===== src/Scraper/Examples.antt =====
-- Readings and polls of the scraper on concrete inputs.
use inference_box.Prelude.{
  ℕ, ◌≡◌, refl, List, [], ◌∷◌, String, true, some, none, not, arith, ◌↔◌, ◌+◌, ◌≤◌,
}
use inference_box.Prelude.Text.{ends_with_v1, rstrip_slash, drop_v1}
use inference_box.Dict.{get?, member}
use inference_box.Scraper.{series, metrics_url, parse, suspected, stall_seconds, observe_counter}
use inference_box.Scraper.Series.{values_of, reading, get?-parse}
use inference_box.Scraper.Stalls.{Reading, after, StalledFrom, InOrder, suspected_iff}
use inference_box.Scraper.Polling.{answered, timed_out, new_poller, detector_of, wedge_suspected}
use inference_box.Scraper.Polling.Outages.{Poll, polls, shown, succeeded, polls-verdict}

metrics_url_test : metrics_url "http://10.0.0.1:8000/v1/" ≡ "http://10.0.0.1:8000/metrics"
unfolding metrics_url ends_with_v1 rstrip_slash drop_v1
metrics_url_test = refl

abbrev two_engines : List (String × ℕ)
two_engines =
    ("vllm:num_requests_waiting", 2)
    ∷ ("vllm:kv_cache_usage_perc", 40)
    ∷ ("vllm:num_requests_waiting_total", 9)
    ∷ ("vllm:num_requests_waiting", 3)
    ∷ ("vllm:kv_cache_usage_perc", 30)
    ∷ []

get?-parse_example :
    get? "vllm:num_requests_waiting" (parse two_engines)
    ≡ elim (get? "vllm:num_requests_waiting" series) [
      | none ↦ none
      | some how ↦ reading how (values_of "vllm:num_requests_waiting" two_engines)
    ]
get?-parse_example = get?-parse two_engines "vllm:num_requests_waiting"

parse_test : get? "vllm:kv_cache_usage_perc" (parse two_engines) ≡ some 40
unfolding parse get?
parse_test = get?-parse two_engines "vllm:kv_cache_usage_perc"

abbrev at : ℕ → ℕ → ℕ → Reading
at t w g = record { time = t; waiting = w; gen = g }

abbrev stalled : List Reading
stalled = at 9000 4 100 ∷ at 6000 3 100 ∷ at 3000 1 100 ∷ at 1000 1 90 ∷ []

stalled-InOrder : InOrder stalled
stalled-InOrder = (
  (omega arith, (omega arith, (omega arith, tt))),
  ((omega arith, (omega arith, tt)), ((omega arith, tt), (tt, tt))),
)

suspected_iff_example :
    (suspected (after 5000 stalled) 11500 ≡ true)
    ↔ ((t : ℕ) × (g : ℕ) × StalledFrom t g stalled × (t + 5000 ≤ 11500))
suspected_iff_example = suspected_iff 5000 11500 stalled (omega arith) stalled-InOrder

suspected_test : suspected (after 5000 stalled) 11500 ≡ true
unfolding suspected stall_seconds observe_counter
suspected_test = refl

abbrev url : String
url = "http://10.0.0.1:8000/v1"

abbrev earlier : List Poll
earlier = (answered 200 (some two_engines), (5000, 5000)) ∷ []

polls-verdict_example :
    let after_outage = polls 60000 new_poller "0" url ((timed_out, (10000, 12000)) ∷ earlier) in
    (get? "0" after_outage.published.upstream_up ≡ some (succeeded timed_out))
    × (member url after_outage.failing ≡ not (succeeded timed_out))
    × (wedge_suspected after_outage url 13000
        ≡ suspected
            (shown (detector_of 60000 new_poller url) ((timed_out, (10000, 12000)) ∷ earlier))
            13000)
polls-verdict_example = polls-verdict 60000 "0" url new_poller timed_out 10000 12000 earlier 13000
