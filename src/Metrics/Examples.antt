-- ===== src/Metrics/Examples.antt =====
-- Requests that overlap in the middleware.
use inference_box.Prelude.{◌≡◌, refl, [], ◌∷◌, none, some}
use inference_box.Prelude.Text.{str_of_ℕ}
use inference_box.Metrics.{outcome_of}
use inference_box.Metrics.Middleware.{
  HttpScope, Metered, new_metered, enter, leave, response_start, returned, raised, final_status,
  record_request, route_label, status_after,
}
use inference_box.Metrics.Middleware.Gauge.{
  Served, Reach, fresh, enters, leaves, Tallies, Reach-Tallies, counted_routes,
}

abbrev chat : HttpScope
chat = record {
  route = some "/v1/chat/completions";
  method = some "POST";
  auth_method = some "jwt";
}

abbrev scrape : HttpScope
scrape = record { route = some "/metrics"; method = none; auth_method = none }

-- A stream that breaks behind its first message, with a scrape inside it.
abbrev broken_chat : Metered
broken_chat =
    leave chat (response_start 200 ∷ []) raised 900
      (leave scrape (response_start 200 ∷ []) returned 3 (enter (enter new_metered)))

abbrev chat_served : Served
unfolding final_status
chat_served = record { scope = chat; status = final_status (response_start 200 ∷ []) raised }

abbrev scrape_served : Served
unfolding final_status
scrape_served = record { scope = scrape; status = final_status (response_start 200 ∷ []) returned }

reached : Reach broken_chat [] (chat_served ∷ scrape_served ∷ [])
unfolding chat_served scrape_served
reached = leaves [] [] chat (response_start 200 ∷ []) raised 900 (
    leaves [] (chat ∷ []) scrape (response_start 200 ∷ []) returned 3
      (enters scrape (enters chat fresh)))

Reach-Tallies_example : Tallies broken_chat [] (counted_routes (chat_served ∷ scrape_served ∷ []))
Reach-Tallies_example = Reach-Tallies broken_chat [] (chat_served ∷ scrape_served ∷ []) reached

-- It is counted as a 500, and the scrape is not counted.
counts_one :
    broken_chat.requests_total
    ≡ record {
      route = "/v1/chat/completions";
      method = "POST";
      status = "500";
      auth_method = "jwt";
    }
      ∷ []
unfolding leave record_request final_status status_after route_label outcome_of str_of_ℕ
counts_one = refl
