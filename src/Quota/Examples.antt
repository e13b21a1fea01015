-- ===== src/Quota/Examples.antt =====
-- Runs of the tracker, and its theorems at concrete inputs.
use inference_box.Prelude.{max, suc, ℕ, ◌+◌, ◌<◌, ◌≡◌, refl, String, [], ◌∷◌, arith, ok, raises}
use inference_box.Dict.{get_or, get?, set}
use inference_box.Quota.{
  QuotaTracker, tokens_used, check_budget, record_usage, in_flight, acquire, release,
}
use inference_box.Quota.Slots.{
  Gate, granted, ended, Reach, here, next, idle_gate, Agrees, Reach-Agrees,
}
use inference_box.Quota.Budget.{charges, charges_bounded}

quota : Unit {0}
unfolding tokens_used check_budget record_usage in_flight acquire release get_or get? set
quota = tt

abbrev busy : QuotaTracker
busy = record { inflight = ("k1", 1) ∷ []; consumed = ("k1", 99) ∷ [] }

abbrev busier : QuotaTracker
busier = record { inflight = ("k1", 2) ∷ []; consumed = ("k1", 99) ∷ [] }

runs :
    (acquire busy "k1" 2 ≡ ok busier)
    × (acquire busier "k1" 2 ≡ raises "concurrency_cap_exceeded")
    × (check_budget busy "k1" 100 ≡ ok busy)
    × (check_budget (record_usage busy "k1" 6) "k1" 100 ≡ raises "token_budget_exceeded")
unfolding quota
runs = (refl, refl, refl, refl)

abbrev two_each : String → ℕ
two_each k = 2

abbrev one_held : Gate
one_held = record {
  tracker = record { inflight = ("k1", 1) ∷ []; consumed = [] };
  held = "k1" ∷ [];
}

abbrev none_held : Gate
none_held = record { tracker = record { inflight = ("k1", 0) ∷ []; consumed = [] }; held = [] }

came_and_went : Reach two_each idle_gate none_held
unfolding quota
came_and_went =
    next {g' = one_held} (next here (granted "k1" refl refl)) (ended "k1" [] [] refl refl)

Reach-Agrees_example : Agrees two_each none_held
Reach-Agrees_example = Reach-Agrees two_each none_held came_and_went

charges_bounded_example :
    tokens_used (charges busy "k1" 100 (15 ∷ 20 ∷ [])) "k1"
    < max (suc (tokens_used busy "k1")) (100 + 20)
unfolding quota
charges_bounded_example = charges_bounded busy "k1" 100 20 (15 ∷ 20 ∷ []) (omega arith)
