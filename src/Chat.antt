-- ===== src/Chat.antt =====
-- gateway/routes/chat.py: the one route that reaches a GPU. `Values` models the values of a request's
-- body, this file the checks before the quotas and `Quotas` the quotas.
pub mod Values
pub mod Quotas
pub mod Frames
pub mod Serving
pub mod Handler
pub mod Vocabulary
pub mod Admission
mod Examples
use inference_box.Prelude.{
  ℕ, ◌+◌, min, String, List, Bool, true, false, not, Option, none, some, ltb, if◌then◌else◌, length,
  Result, ok, raises,
}
use inference_box.Prelude.Text.Cutting.{words}
use inference_box.Dict.{member}
use inference_box.Auth.{Principal, has_scope}
use Values.{
  Json, null, boolean, number, text, array, object, Items, no_items, item, Fields, lookup, put, ℤ,
  pos, negsuc, whole_number, Raised, type_error, value_error, overflow_error, attribute_error,
  int_of,
}

pub record ChatSettings : Type 0 where
  pub max_body_bytes : ℕ
  pub allowed_models : List String
  pub max_prompt_tokens : ℕ
  pub max_completion_tokens : ℕ

-- How a request ends before it is forwarded: by `_reject` with a status, a reason and the model it
-- is recorded under, or by an exception that the handler does not catch.
pub data Refusal : Type 0 where
  rejected : ℕ → String → Option Json → Refusal
  crashed : Raised → Refusal

-- `str` of a value that is no text, and `int` of a text, are Python's own, and arguments.
module _ (printed : Json → String) (int_of_text : String → Option ℤ) where
  -- `str(m.get("content", ""))`
  content_of : Option Json → String
  content_of none = ""
  content_of (some (text s)) = s
  content_of (some v) = printed v

  -- `_estimate_prompt_tokens`
  unfoldable pub estimate_prompt_tokens : Items → Result Raised ℕ
  unfolding content_of
  estimate_prompt_tokens no_items = ok 0
  estimate_prompt_tokens (item (object m) ms) =
      let rest = estimate_prompt_tokens ms in
      elim rest [
        | raises e ↦ raises e
        | ok n ↦ ok (length (words (content_of (lookup "content" m))) + n)
      ]
  estimate_prompt_tokens (item _ ms) = raises attribute_error

  -- The integer that a request asks for, against the ceiling.
  ceiled : ChatSettings → Option Json → Fields → ℤ → Result Refusal Fields
  ceiled s model body (negsuc n) = raises (rejected 400 "max_tokens_invalid" model)
  ceiled s model body (pos n) =
      if ltb n 1
      then raises (rejected 400 "max_tokens_invalid" model)
      else ok (put "max_tokens" (whole_number (min n s.max_completion_tokens)) body)

  -- What the handler does with the outcome of `int(requested)`.
  with_wanted : ChatSettings → Option Json → Fields → Result Raised ℤ → Result Refusal Fields
  unfolding ceiled
  with_wanted s model body (ok i) = ceiled s model body i
  with_wanted s model body (raises type_error) = raises (rejected 400 "max_tokens_invalid" model)
  with_wanted s model body (raises value_error) = raises (rejected 400 "max_tokens_invalid" model)
  with_wanted s model body (raises e) = raises (crashed e)

  with_max_tokens : ChatSettings → Option Json → Fields → Option Json → Result Refusal Fields
  unfolding with_wanted
  with_max_tokens s model body none =
      ok (put "max_tokens" (whole_number s.max_completion_tokens) body)
  with_max_tokens s model body (some null) =
      ok (put "max_tokens" (whole_number s.max_completion_tokens) body)
  with_max_tokens s model body (some requested) =
      with_wanted s model body (int_of int_of_text requested)

  with_estimate : ChatSettings → Option Json → Fields → Result Raised ℕ → Result Refusal Fields
  unfolding with_max_tokens
  with_estimate s model body (raises e) = raises (crashed e)
  with_estimate s model body (ok n) =
      if ltb s.max_prompt_tokens n
      then raises (rejected 400 "prompt_too_long" model)
      else with_max_tokens s model body (lookup "max_tokens" body)

  with_messages : ChatSettings → Option Json → Fields → Option Json → Result Refusal Fields
  unfolding with_estimate estimate_prompt_tokens
  with_messages s model body (some (array (item m ms))) =
      with_estimate s model body (estimate_prompt_tokens (item m ms))
  with_messages s model body _ = raises (rejected 400 "messages_required" model)

  -- `model in settings.ALLOWED_MODELS`
  abbrev pub is_allowed_model : ChatSettings → Option Json → Bool
  is_allowed_model s (some (text m)) = member m s.allowed_models
  is_allowed_model s _ = false

  with_body : ChatSettings → Principal → Fields → Result Refusal Fields
  unfolding with_messages
  with_body s p body =
      let model = lookup "model" body in
      if not (has_scope p "chat")
      then raises (rejected 403 "scope_denied" model)
      else if not (is_allowed_model s model)
      then raises (rejected 400 "model_not_allowed" model)
      else with_messages s model body (lookup "messages" body)

  with_parsed : ChatSettings → Principal → Option Json → Result Refusal Fields
  unfolding with_body
  with_parsed s p none = raises (rejected 400 "invalid_json" none)
  with_parsed s p (some (object body)) = with_body s p body
  with_parsed s p (some _) = raises (rejected 400 "invalid_body" none)

  -- The handler up to the quotas: the body to forward, or the refusal. `size` is the length of
  -- the raw body, and `parsed` what it is as JSON, if it is any.
  unfoldable pub admit : ChatSettings → Principal → ℕ → Option Json → Result Refusal Fields
  unfolding with_parsed
  admit s p size parsed =
      if ltb s.max_body_bytes size
      then raises (rejected 413 "body_too_large" none)
      else with_parsed s p parsed
