-- ===== src/Scraper/Polling/Outages.antt =====
-- What failed fetches leave of a poller, and what a replica's polls amount to for its detector.
use inference_box.Prelude.{
  not, ℕ, ◌≡◌, refl, ◌∙◌, ap, String, List, [], ◌∷◌, Bool, true, false, none, some, Result, ok,
  raises, arith,
}
use inference_box.Dict.{Dict, get?, get_or, member}
use inference_box.Dict.Laws.{get?-set, str_eq_refl}
use inference_box.Scraper.{WedgeDetector, new_detector, observe, suspected}
use inference_box.Scraper.Polling.{
  UpstreamMetricsPoller, Fetched, ScrapeFailure, settle, snapshot_of, detector_of, fail, succeed,
  poll_one, add, discard, wedge_suspected,
}

-- A replica's polls under one label, the latest first: what came back, the clock, and the clock of
-- a failure.
abbrev pub Poll : Type 0
Poll = Fetched × (ℕ × ℕ)

abbrev pub polls : ℕ → UpstreamMetricsPoller → String → String → List Poll → UpstreamMetricsPoller
polls window p label url [] = p
polls window p label url ((fetched, (now, later)) ∷ ps) =
    poll_one window (polls window p label url ps) label url fetched now later

abbrev pub is_ok : Result ScrapeFailure (Dict ℕ) → Bool
is_ok (raises kind) = false
is_ok (ok snapshot) = true

abbrev pub succeeded : Fetched → Bool
succeeded fetched = is_ok (snapshot_of fetched)

abbrev pub shown_one : WedgeDetector → Result ScrapeFailure (Dict ℕ) → ℕ → WedgeDetector
shown_one d (raises kind) now = d
shown_one d (ok snapshot) now = observe d snapshot now

-- The detector shown the snapshots of the fetches that succeeded, and nothing else.
abbrev pub shown : WedgeDetector → List Poll → WedgeDetector
shown d [] = d
shown d ((fetched, (now, later)) ∷ ps) = shown_one (shown d ps) (snapshot_of fetched) now

member-add : (k : String) (xs : List String) → member k (add k xs) ≡ true
member-add k xs = ground (arith, str_eq_refl k)

member-discard : (k : String) (xs : List String) → member k (discard k xs) ≡ false
member-discard k [] = refl
member-discard k (x ∷ xs) = ground (arith, member-discard k xs)

module _ (window : ℕ) (label url : String) where
  settle-detectors :
      (p : UpstreamMetricsPoller) (r : Result ScrapeFailure (Dict ℕ)) (now later : ℕ)
      → get? url (settle window p label url r now later).detectors
        ≡ some (shown_one (detector_of window p url) r now)
  unfolding settle fail succeed
  settle-detectors p (raises kind) now later = rw (get?-set, str_eq_refl) refl
  settle-detectors p (ok snapshot) now later = rw (get?-set, str_eq_refl) refl

  settle-upstream_up :
      (p : UpstreamMetricsPoller) (r : Result ScrapeFailure (Dict ℕ)) (now later : ℕ)
      → get? label (settle window p label url r now later).published.upstream_up ≡ some (is_ok r)
  unfolding settle fail succeed
  settle-upstream_up p (raises kind) now later = rw (get?-set, str_eq_refl) refl
  settle-upstream_up p (ok snapshot) now later = rw (get?-set, str_eq_refl) refl

  settle-failing :
      (p : UpstreamMetricsPoller) (r : Result ScrapeFailure (Dict ℕ)) (now later : ℕ)
      → member url (settle window p label url r now later).failing ≡ not (is_ok r)
  unfolding settle fail succeed
  settle-failing p (raises kind) now later = member-add url p.failing
  settle-failing p (ok snapshot) now later = member-discard url p.failing

  polls-detector_of :
      (p : UpstreamMetricsPoller) (ps : List Poll)
      → detector_of window (polls window p label url ps) url ≡ shown (detector_of window p url) ps
  unfolding detector_of get_or poll_one
  polls-detector_of p [] = refl
  polls-detector_of p ((fetched, (now, later)) ∷ ps) =
      ap (λ o. elim o [ none ↦ new_detector window | some d ↦ d ])
        (settle-detectors (polls window p label url ps) (snapshot_of fetched) now later)
      ∙ ap (λ d. shown d ((fetched, (now, later)) ∷ [])) (polls-detector_of p ps)

  -- After any polls of a replica, the latest of which came back with `fetched`: the gauge says the
  -- replica is up exactly when that one brought a snapshot, the replica counts as failing exactly
  -- when it did not, and the wedge verdict at any time is that of the detector shown the snapshots
  -- of the polls that succeeded and no others, so that a failed scrape neither advances nor clears
  -- a stall.
  pub polls-verdict :
      (p : UpstreamMetricsPoller) (fetched : Fetched) (now later : ℕ) (ps : List Poll) (t : ℕ)
      → let after = polls window p label url ((fetched, (now, later)) ∷ ps) in
        (get? label after.published.upstream_up ≡ some (succeeded fetched))
        × (member url after.failing ≡ not (succeeded fetched))
        × (wedge_suspected after url t
            ≡ suspected (shown (detector_of window p url) ((fetched, (now, later)) ∷ ps)) t)
  unfolding wedge_suspected poll_one
  polls-verdict p fetched now later ps t = (
    settle-upstream_up (polls window p label url ps) (snapshot_of fetched) now later,
    settle-failing (polls window p label url ps) (snapshot_of fetched) now later,
    ap (λ o. elim o [ none ↦ false | some d ↦ suspected d t ])
          (settle-detectors (polls window p label url ps) (snapshot_of fetched) now later)
        ∙ ap (λ d. suspected (shown d ((fetched, (now, later)) ∷ [])) t) (polls-detector_of p ps),
  )
