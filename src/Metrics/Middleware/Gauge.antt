-- ===== src/Metrics/Middleware/Gauge.antt =====
-- The in-flight gauge and the counts over any interleaving of requests.
use inference_box.Prelude.{
  ℕ, ◌-◌, ◌≡◌, refl, ap, String, Bool, true, false, List, [], ◌∷◌, ◌++◌, map, length, length-append,
  arith, str_eq, if◌then◌else◌,
}
use inference_box.Metrics.Middleware.{
  HttpScope, Message, AppEnd, Metered, new_metered, final_status, route_label, record_request,
  enter, leave,
}

-- A request that has left: its scope and its final status.
pub record Served : Type 0 where
  pub scope : HttpScope
  pub status : ℕ

-- What the metrics are after some requests have entered and left: the scopes still inside, and the
-- requests that have left, the latest first.
pub data Reach : Metered → List HttpScope → List Served → Type 0 where
  fresh : Reach new_metered [] []
  enters :
      {m : Metered} {inside : List HttpScope} {gone : List Served} (scope : HttpScope)
      → Reach m inside gone
      → Reach (enter m) (scope ∷ inside) gone
  leaves :
      {m : Metered} {gone : List Served} (before behind : List HttpScope) (scope : HttpScope)
      (ms : List Message) (end : AppEnd) (elapsed : ℕ)
      → Reach m (before ++ (scope ∷ behind)) gone
      → Reach
          (leave scope ms end elapsed m)
          (before ++ behind)
          (record { scope = scope; status = final_status ms end } ∷ gone)

-- The routes of the requests that have left and are counted: all but those of the scrapes.
abbrev pub counted_routes : List Served → List String
counted_routes [] = []
counted_routes (s ∷ ss) =
    if str_eq (route_label s.scope) "/metrics"
    then counted_routes ss
    else route_label s.scope ∷ counted_routes ss

pub record Tallies (m : Metered) (inside : List HttpScope) (routes : List String) : Type 0 where
  pub gauge : m.inflight_requests ≡ length inside
  pub counted : map (λ l. l.route) m.requests_total ≡ routes
  pub observed : map (λ o. o.route) m.request_durations ≡ routes

either-Tallies :
    (b : Bool) (m m' : Metered) (inside : List HttpScope) (routes routes' : List String)
    → Tallies m inside routes
    → Tallies m' inside routes'
    → Tallies (if b then m else m') inside (if b then routes else routes')
either-Tallies true m m' inside routes routes' h h' = h
either-Tallies false m m' inside routes routes' h h' = h'

recorded-Tallies :
    (m : Metered) (inside : List HttpScope) (gone : List Served) (s : Served) (elapsed : ℕ)
    → Tallies m inside (counted_routes gone)
    → Tallies (record_request s.scope s.status elapsed m) inside (counted_routes (s ∷ gone))
unfolding record_request
recorded-Tallies m inside gone s elapsed a =
    either-Tallies (str_eq (route_label s.scope) "/metrics") m _ inside (counted_routes gone)
      (route_label s.scope ∷ counted_routes gone) a
      (record {
        gauge = a.gauge;
        counted = ap (λ rs. route_label s.scope ∷ rs) a.counted;
        observed = ap (λ rs. route_label s.scope ∷ rs) a.observed;
      })

-- However requests overlap, and however each of them ends, the in-flight gauge is the number of the
-- requests that have entered and not left, and both the counter and the histogram have exactly one
-- entry, under its own route, for each request that has left and was no scrape of the metrics.
pub Reach-Tallies :
    (m : Metered) (inside : List HttpScope) (gone : List Served)
    → Reach m inside gone
    → Tallies m inside (counted_routes gone)
unfolding leave
Reach-Tallies m inside gone fresh = record { gauge = refl; counted = refl; observed = refl }
Reach-Tallies m inside gone (enters {m = n} {inside = others} scope reach) =
    let a = Reach-Tallies n others gone reach in
    record { gauge = omega (arith, a.gauge); counted = a.counted; observed = a.observed }
Reach-Tallies m inside gone
      (leaves {m = n} {gone = earlier} before behind scope ms end elapsed reach) =
    let a = Reach-Tallies n (before ++ (scope ∷ behind)) earlier reach in
    recorded-Tallies (record n { inflight_requests = n.inflight_requests - 1 }) (before ++ behind)
      earlier (record { scope = scope; status = final_status ms end }) elapsed
      (record {
        gauge =
            omega
              (arith, a.gauge, length-append before (scope ∷ behind), length-append before behind);
        counted = a.counted;
        observed = a.observed;
      })
