-- ===== src/Ops.antt =====
-- gateway/routes: the liveness, models and metrics routes. The exposition is what
-- prometheus_client writes, and a parameter; a caller of the models route has been authenticated.
use inference_box.Prelude.{ℕ, String, List, [], ◌∷◌, Option, none, some, if◌then◌else◌}
use inference_box.Chat.Values.{
  Json, text, array, object, Items, item, no_items, field, no_fields, whole_number,
}
use inference_box.Config.{Settings, allowed_models}

unfoldable pub healthz : Json
healthz = object (field "status" (text "ok") no_fields)

listed : ℕ → List String → Items
listed created [] = no_items
listed created (m ∷ ms) =
    item
      (object (
        field "id" (text m) (
          field "object" (text "model")
            (field "created" (whole_number created) (field "owned_by" (text "bkn301") no_fields)))))
      (listed created ms)

unfoldable pub list_models : {F : Type 0} → Settings F → ℕ → Json
unfolding listed
list_models s created = object (
    field "object" (text "list")
      (field "data" (array (listed created (allowed_models s))) no_fields))

-- The status and the body.
unfoldable pub metrics : {F : Type 0} → Settings F → String → ℕ × Option String
metrics s exposition = if s.metrics_enabled then (200, some exposition) else (404, none)
