-- ===== src/Scraper.antt =====
-- gateway/upstream/metrics_scraper.py: what is read from a replica's own metrics, and the wedge
-- signal derived from it. Times are milliseconds. A sample's value is a whole number, of a unit
-- fine enough for every series; the exposition text comes parsed into samples.
pub mod Series
pub mod Stalls
pub mod Polling
mod Examples
use inference_box.Prelude.{
  ℕ, zero, suc, ◌+◌, ◌-◌, max, String, List, [], ◌∷◌, Bool, true, false, ◌&&◌, Option, none, some,
  ltb, leb, ◌==◌, if◌then◌else◌,
}
use inference_box.Prelude.Text.{rstrip_slash, ends_with_v1, drop_v1}
use Prim.Native.String
use inference_box.Dict.{Dict, get?, get_or, set}

-- How samples that differ only by engine or model are combined.
pub data How : Type 0 where
  sum greatest : How

-- `SERIES`
abbrev pub series : Dict How
series =
    ("vllm:num_requests_waiting", sum)
    ∷ ("vllm:num_requests_running", sum)
    ∷ ("vllm:generation_tokens_total", sum)
    ∷ ("vllm:prompt_tokens_total", sum)
    ∷ ("vllm:num_preemptions_total", sum)
    ∷ ("vllm:prefix_cache_hits_total", sum)
    ∷ ("vllm:prefix_cache_queries_total", sum)
    ∷ ("vllm:kv_cache_usage_perc", greatest)
    ∷ []

unfoldable pub metrics_url : String → String
metrics_url base =
    let trimmed = rstrip_slash base in
    String.◌++◌ (if ends_with_v1 trimmed then drop_v1 trimmed else trimmed) "/metrics"

abbrev pub combine : How → ℕ → ℕ → ℕ
combine sum old value = old + value
combine greatest old value = max old value

-- What a sample of an allowed series does to the entry of its name.
add_sample : Dict ℕ → String → ℕ → How → Dict ℕ
add_sample out name value how = elim (get? name out) [
  | none ↦ set name value out
  | some old ↦ set name (combine how old value) out
]

take_sample : Dict ℕ → String → ℕ → Dict ℕ
unfolding add_sample
take_sample out name value = elim (get? name series) [
  | none ↦ out
  | some how ↦ add_sample out name value how
]

-- The loop of `parse`.
parse_from : Dict ℕ → List (String × ℕ) → Dict ℕ
unfolding take_sample
parse_from out [] = out
parse_from out ((name, value) ∷ samples) = parse_from (take_sample out name value) samples

unfoldable pub parse : List (String × ℕ) → Dict ℕ
unfolding parse_from
parse samples = parse_from [] samples

pub record WedgeDetector : Type 0 where
  pub window_sec : ℕ
  pub last_gen_tokens : Option ℕ
  pub stall_since : Option ℕ

abbrev pub new_detector : ℕ → WedgeDetector
new_detector window = record { window_sec = window; last_gen_tokens = none; stall_since = none }

-- `observe` with the counter of an earlier reading at hand.
compared : WedgeDetector → ℕ → ℕ → ℕ → ℕ → WedgeDetector
compared d previous waiting gen now =
    if ltb gen previous
    then record d { stall_since = none }
    else if ltb 0 waiting && gen == previous
    then record d { stall_since = some (elim d.stall_since [ none ↦ now | some since ↦ since ]) }
    else record d { stall_since = none }

-- `observe` with the counter present.
unfoldable pub observe_counter : WedgeDetector → ℕ → ℕ → ℕ → WedgeDetector
unfolding compared
observe_counter d waiting gen now =
    let d' : WedgeDetector = record d { last_gen_tokens = some gen } in
    elim d.last_gen_tokens [ none ↦ d' | some previous ↦ compared d' previous waiting gen now ]

unfoldable pub observe : WedgeDetector → Dict ℕ → ℕ → WedgeDetector
unfolding observe_counter
observe d snapshot now = elim (get? "vllm:generation_tokens_total" snapshot) [
  | none ↦ d
  | some gen ↦ observe_counter d (get_or "vllm:num_requests_waiting" 0 snapshot) gen now
]

-- A failed scrape is no information.
abbrev pub on_scrape_failure : WedgeDetector → WedgeDetector
on_scrape_failure d = d

stalled_for : Option ℕ → ℕ → ℕ
stalled_for none now = 0
stalled_for (some since) now = now - since

unfoldable pub stall_seconds : WedgeDetector → ℕ → ℕ
unfolding stalled_for
stall_seconds d now = stalled_for d.stall_since now

unfoldable pub suspected : WedgeDetector → ℕ → Bool
unfolding stall_seconds
suspected d now = leb d.window_sec (stall_seconds d now)
