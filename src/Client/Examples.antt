-- ===== src/Client/Examples.antt =====
-- Runs of the pool, and its theorems at concrete inputs.
use inference_box.Prelude.{
  ℕ, ◌+◌, ◌*◌, ◌==◌, ◌≡◌, refl, ◌≢◌, ◌↔◌, ◌⊎◌, inr, String, Option, str_eq, [], ◌∷◌, true, false,
  none, some, arith, ok, raises, All, Any, get_elem?, if◌then◌else◌,
}
use inference_box.Prelude.Text.{str_of_ℕ, rstrip_slash}
use inference_box.Dict.{get?, get_or, set, member}
use inference_box.Breaker.{ReplicaBreaker, opened, new_breaker, allows, seconds_until_probe}
use inference_box.Breaker.Registry.{get, reset, breaker_of, snapshot}
use inference_box.Client.{
  PoolError, UpstreamPool, Settings, candidates, wait_for_any, rotate, pick, all_replicas_open,
  record_outcome, label_of,
}
use inference_box.Client.Outcomes.{Outcome, response, classify, should_retry, retry_delay}
use inference_box.Client.Routing.{soonest, pick-ok}
use inference_box.Client.Refusal.{IsOpen, pick-refuses_iff}
use inference_box.Client.RoundRobin.{picks, picks-round_robin}
use inference_box.Client.Retry.{Attempt, with_retry, max_attempts, Run, responded, no_attempt}
use inference_box.Client.Retry.Laws.{IsSound, count_sent, with_retry-IsSound, with_retry-concludes}
use inference_box.Client.Reachability.{readyz, health, probe, readyz_iff}

pool : Unit {0}
unfolding candidates wait_for_any rotate pick record_outcome label_of classify get reset breaker_of
    get? get_or set str_of_ℕ seconds_until_probe with_retry should_retry retry_delay rstrip_slash
    picks
pool = tt

abbrev enabled : Settings
enabled = record { breaker_enabled = true; breaker_open_sec = 15000 }

abbrev failed : String → ReplicaBreaker
failed url = record (new_breaker url "0") { state = opened; opened_at = some 1000; score = 6 }

abbrev one_down : UpstreamPool
one_down = record {
  urls = "a" ∷ "b" ∷ [];
  position = 0;
  breakers = ("a", failed "a") ∷ ("b", new_breaker "b" "1") ∷ [];
}

abbrev all_down : UpstreamPool
all_down = record { urls = "a" ∷ []; position = 0; breakers = ("a", failed "a") ∷ [] }

abbrev all_up : UpstreamPool
all_up = record {
  urls = "a" ∷ "b" ∷ [];
  position = 0;
  breakers = ("a", new_breaker "a" "0") ∷ ("b", new_breaker "b" "1") ∷ [];
}

picked :
    ((pick enabled one_down none 2000).0 ≡ ok "b")
    × ((pick enabled all_down none 2000).0 ≡ raises (all_replicas_open 14000))
    × ((pick enabled all_up (some "b") 2000).0 ≡ ok "a")
unfolding pool
picked = (refl, refl, refl)

pick-ok_example :
    (member "b" one_down.urls ≡ true) × (allows (breaker_of one_down.breakers "b") ≡ true)
pick-ok_example = pick-ok enabled one_down none 2000 "b" refl picked.0

pick-refuses_iff_example :
    (((error : PoolError) × ((pick enabled all_down none 2000).0 ≡ raises error))
      ↔ All (IsOpen all_down) all_down.urls)
    × ((error : PoolError)
        → (pick enabled all_down none 2000).0 ≡ raises error
        → error ≡ all_replicas_open (soonest all_down.breakers all_down.urls 2000 15000))
pick-refuses_iff_example = pick-refuses_iff enabled all_down none 2000 refl

picks-round_robin_example : get_elem? (picks enabled all_up (1 ∷ 2 ∷ 3 ∷ [])) 2 ≡ some (ok "b")
unfolding pool
picks-round_robin_example =
    picks-round_robin enabled all_up (1 ∷ 2 ∷ 3 ∷ []) 2 "b" (λ e. cc) (inr (refl, (refl, tt)))
      (omega arith) refl

-- The first replica that is called answers 503, and any later one 200.
abbrev answers : ℕ → Attempt
answers i = record {
  picked_at = i * 1000;
  recorded_at = i * 1000 + 500;
  reply =
      λ url. response (record { status_code = if i == 0 then 503 else 200; retry_after = none });
  jitter = λ most. most;
  during_send = λ p. p;
  during_sleep = λ p. p;
  closing_raises = false;
}

abbrev retried : Run
retried = with_retry enabled "/chat/completions" true answers all_up

retried_ending :
    (retried.ending ≡ responded "a" (record { status_code = 200; retry_after = none }))
    × (count_sent retried.effects ≡ 2)
unfolding pool
retried_ending = (refl, refl)

with_retry-IsSound_example : IsSound enabled true max_attempts retried
with_retry-IsSound_example = with_retry-IsSound enabled "/chat/completions" true answers all_up

with_retry-concludes_example : retried.ending ≢ no_attempt
with_retry-concludes_example = with_retry-concludes enabled "/chat/completions" true answers all_up

abbrev throttling : Outcome
throttling = response (record { status_code = 429; retry_after = some (some 30000) })

abbrev first_answers : String → Option ℕ
first_answers url = if str_eq url "a/models" then some 200 else none

readyz_iff_example :
    (((readyz first_answers one_down).status ≡ 200)
      ↔ Any (λ (u : String). probe first_answers u ≡ true) one_down.urls)
    × (((readyz first_answers one_down).status ≡ 200)
        ⊎ ((readyz first_answers one_down).status ≡ 503))
    × ((url : String)
        → member url one_down.urls ≡ true
        → get? url (readyz first_answers one_down).upstreams ≡ some (probe first_answers url))
    × ((readyz first_answers one_down).breaker_states ≡ snapshot one_down.breakers)
readyz_iff_example = readyz_iff first_answers one_down

ready_test : ((readyz first_answers one_down).status ≡ 200)
unfolding readyz health probe rstrip_slash get? set
ready_test = refl
