-- ===== src/Metrics.antt =====
-- gateway/metrics.py: the folds that keep the labels of the gateway's metrics to a closed vocabulary.
pub mod Middleware
mod Examples
use inference_box.Prelude.{
  ℕ, String, List, [], ◌∷◌, not, ◌&&◌, Option, none, some, leb, if◌then◌else◌,
}
use inference_box.Prelude.Text.{is_empty}
use inference_box.Dict.{member}

-- `REJECT_REASONS`
abbrev pub reject_reasons : List String
reject_reasons =
    "body_too_large" ∷ "invalid_json" ∷ "invalid_body" ∷ "scope_denied" ∷ "model_not_allowed"
    ∷ "messages_required" ∷ "prompt_too_long" ∷ "max_tokens_invalid" ∷ "upstream_unreachable"
    ∷ "upstream_error" ∷ "upstream_bad_response" ∷ "upstream_stream_broken" ∷ "all_replicas_open"
    ∷ "token_budget_exceeded" ∷ "concurrency_cap_exceeded" ∷ []

-- The label that `record_rejection` counts a reason under.
unfoldable pub rejection_label : String → String
rejection_label reason = if member reason reject_reasons then reason else "other"

unfoldable pub safe_model : List String → Option String → String
safe_model allowed none = "other"
safe_model allowed (some model) =
    if not (is_empty model) && member model allowed then model else "other"

unfoldable pub outcome_of : ℕ → String
outcome_of status =
    if leb 500 status then "server_error" else if leb 400 status then "client_error" else "success"
