-- ===== src/Scraper/Polling.antt =====
-- gateway/upstream/metrics_scraper.py: `UpstreamMetricsPoller`, with the gauges it publishes.
-- A fetch is a parameter of a poll: what the HTTP client and the exposition parser came back with.
use inference_box.Prelude.{
  ℕ, ◌+◌, ◌-◌, String, List, [], ◌∷◌, Bool, true, false, Option, none, some, leb, if◌then◌else◌,
  suc, str_eq, Result, ok, raises,
}
pub mod Outages
use inference_box.Prelude.Text.{str_of_ℕ}
use inference_box.Dict.{Dict, get?, get_or, set, member}
use inference_box.Scraper.{
  WedgeDetector, new_detector, parse, observe, on_scrape_failure, stall_seconds, suspected,
}

-- `none` for a text that the parser refuses.
pub data Fetched : Type 0 where
  answered : ℕ → Option (List (String × ℕ)) → Fetched
  timed_out connect_failed : Fetched

pub data ScrapeFailure : Type 0 where
  http_status timeout connect unparsed : ScrapeFailure

-- The gauges of a replica's label, and the failures counted so far.
pub record Published : Type 0 where
  pub upstream_up : Dict Bool
  pub scrape_age_seconds : Dict ℕ
  pub wedge_stall_seconds : Dict ℕ
  pub wedge_suspected_gauge : Dict Bool
  pub scrape_failures : List (String × ScrapeFailure)

pub record UpstreamMetricsPoller : Type 0 where
  pub detectors : Dict WedgeDetector
  pub last_ok : Dict ℕ
  pub failing : List String
  pub published : Published

abbrev pub new_poller : UpstreamMetricsPoller
new_poller = record {
  detectors = [];
  last_ok = [];
  failing = [];
  published = record {
    upstream_up = [];
    scrape_age_seconds = [];
    wedge_stall_seconds = [];
    wedge_suspected_gauge = [];
    scrape_failures = [];
  };
}

-- `_detector`, less the storing of a new one, which every caller does with its result.
unfoldable pub detector_of : ℕ → UpstreamMetricsPoller → String → WedgeDetector
detector_of window p url = get_or url (new_detector window) p.detectors

unfoldable pub wedge_suspected : UpstreamMetricsPoller → String → ℕ → Bool
wedge_suspected p url now = elim (get? url p.detectors) [ none ↦ false | some d ↦ suspected d now ]

abbrev pub discard : String → List String → List String
discard k [] = []
discard k (x ∷ xs) = if str_eq x k then discard k xs else x ∷ discard k xs

abbrev pub add : String → List String → List String
add k xs = if member k xs then xs else k ∷ xs

-- `_fail` at a clock of its own, a little later than the poll's.
unfoldable pub fail :
    UpstreamMetricsPoller
    → String
    → String
    → ScrapeFailure
    → WedgeDetector
    → ℕ
    → UpstreamMetricsPoller
fail p label url kind d later =
    let g = p.published in
    record p {
      detectors = set url (on_scrape_failure d) p.detectors;
      failing = add url p.failing;
      published = record g {
        upstream_up = set label false g.upstream_up;
        scrape_age_seconds = elim (get? url p.last_ok) [
          | none ↦ g.scrape_age_seconds
          | some last ↦ set label (later - last) g.scrape_age_seconds
        ];
        scrape_failures = (label, kind) ∷ g.scrape_failures;
      };
    }

-- The rest of `_poll_one` with a snapshot that is not empty.
unfoldable pub succeed :
    UpstreamMetricsPoller → String → String → Dict ℕ → WedgeDetector → ℕ → UpstreamMetricsPoller
succeed p label url snapshot d now =
    let g = p.published in
    let d' = observe d snapshot now in
    record p {
      detectors = set url d' p.detectors;
      last_ok = set url now p.last_ok;
      failing = discard url p.failing;
      published = record g {
        upstream_up = set label true g.upstream_up;
        scrape_age_seconds = set label 0 g.scrape_age_seconds;
        wedge_stall_seconds = set label (stall_seconds d' now) g.wedge_stall_seconds;
        wedge_suspected_gauge = set label (suspected d' now) g.wedge_suspected_gauge;
      };
    }

-- What a fetch comes to: a kind of failure, or a snapshot to observe.
unfoldable pub snapshot_of : Fetched → Result ScrapeFailure (Dict ℕ)
snapshot_of timed_out = raises timeout
snapshot_of connect_failed = raises connect
snapshot_of (answered status text) = if leb 400 status then raises http_status else elim text [
  | none ↦ raises connect
  | some samples ↦ elim (parse samples) [ [] ↦ raises unparsed | entry ∷ rest ↦ ok (entry ∷ rest) ]
]

-- What `_poll_one` does with it.
unfoldable pub settle :
    ℕ
    → UpstreamMetricsPoller
    → String
    → String
    → Result ScrapeFailure (Dict ℕ)
    → ℕ
    → ℕ
    → UpstreamMetricsPoller
unfolding detector_of fail succeed
settle window p label url (raises kind) now later =
    fail p label url kind (detector_of window p url) later
settle window p label url (ok snapshot) now later =
    succeed p label url snapshot (detector_of window p url) now

-- `_poll_one`, begun at `now`; `later` is the clock of a failure.
unfoldable pub poll_one :
    ℕ → UpstreamMetricsPoller → String → String → Fetched → ℕ → ℕ → UpstreamMetricsPoller
unfolding settle snapshot_of
poll_one window p label url fetched now later =
    settle window p label url (snapshot_of fetched) now later

-- `poll_once`: every replica in turn, each with what its fetch comes back with and when.
unfoldable pub poll_once :
    ℕ → UpstreamMetricsPoller → ℕ → List (String × (Fetched × (ℕ × ℕ))) → UpstreamMetricsPoller
unfolding poll_one
poll_once window p index [] = p
poll_once window p index ((url, (fetched, (now, later))) ∷ urls) =
    poll_once window (poll_one window p (str_of_ℕ index) url fetched now later) (suc index) urls
