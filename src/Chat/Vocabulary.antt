-- ===== src/Chat/Vocabulary.antt =====
-- Every reason that the chat route refuses a request for is one that the metrics know.
use inference_box.Prelude.{
  ℕ, ◌≡◌, refl, String, Bool, true, false, not, Option, none, some, ltb, Result, ok, raises,
  if◌then◌else◌,
}
use inference_box.Dict.{member}
use inference_box.Metrics.{reject_reasons}
use inference_box.Auth.{Principal, has_scope}
use inference_box.Chat.{
  ChatSettings, Refusal, rejected, crashed, estimate_prompt_tokens, ceiled, with_wanted,
  with_max_tokens, with_estimate, with_messages, is_allowed_model, with_body, with_parsed, admit,
}
use inference_box.Chat.Values.{
  Json, null, boolean, number, text, array, object, no_items, item, Fields, lookup, ℤ, pos, negsuc,
  Raised, type_error, value_error, overflow_error, attribute_error, int_of,
}

-- The reason is in the vocabulary, so that it is counted under itself.
abbrev pub IsKnown : String → Type 0
IsKnown reason = member reason reject_reasons ≡ true

abbrev pub IsKnownRefusal : Refusal → Type 0
IsKnownRefusal (rejected status reason model) = IsKnown reason
IsKnownRefusal (crashed e) = Unit {0}

module _ {A : Type 0} where
  abbrev pub Known : Result Refusal A → Type 0
  Known (ok a) = Unit {0}
  Known (raises r) = IsKnownRefusal r

  pub guarded-Known :
      (b : Bool) (r : Refusal) (rest : Result Refusal A)
      → IsKnownRefusal r
      → Known rest
      → Known (if b then raises r else rest)
  guarded-Known true r rest h k = h
  guarded-Known false r rest h k = k

module _ (printed : Json → String) (int_of_text : String → Option ℤ) (s : ChatSettings) where
  ceiled-Known :
      (model : Option Json) (body : Fields) (i : ℤ)
      → Known (ceiled printed int_of_text s model body i)
  unfolding ceiled
  ceiled-Known model body (negsuc n) = refl
  ceiled-Known model body (pos n) =
      guarded-Known (ltb n 1) (rejected 400 "max_tokens_invalid" model) _ refl tt

  with_wanted-Known :
      (model : Option Json) (body : Fields) (r : Result Raised ℤ)
      → Known (with_wanted printed int_of_text s model body r)
  unfolding with_wanted
  with_wanted-Known model body (ok i) = ceiled-Known model body i
  with_wanted-Known model body (raises type_error) = refl
  with_wanted-Known model body (raises value_error) = refl
  with_wanted-Known model body (raises overflow_error) = tt
  with_wanted-Known model body (raises attribute_error) = tt

  with_max_tokens-Known :
      (model : Option Json) (body : Fields) (o : Option Json)
      → Known (with_max_tokens printed int_of_text s model body o)
  unfolding with_max_tokens
  with_max_tokens-Known model body none = tt
  with_max_tokens-Known model body (some null) = tt
  with_max_tokens-Known model body (some (boolean b)) =
      with_wanted-Known model body (int_of int_of_text (boolean b))
  with_max_tokens-Known model body (some (number x)) =
      with_wanted-Known model body (int_of int_of_text (number x))
  with_max_tokens-Known model body (some (text t)) =
      with_wanted-Known model body (int_of int_of_text (text t))
  with_max_tokens-Known model body (some (array items)) =
      with_wanted-Known model body (int_of int_of_text (array items))
  with_max_tokens-Known model body (some (object o)) =
      with_wanted-Known model body (int_of int_of_text (object o))

  with_estimate-Known :
      (model : Option Json) (body : Fields) (r : Result Raised ℕ)
      → Known (with_estimate printed int_of_text s model body r)
  unfolding with_estimate
  with_estimate-Known model body (raises e) = tt
  with_estimate-Known model body (ok n) =
      guarded-Known (ltb s.max_prompt_tokens n) (rejected 400 "prompt_too_long" model) _ refl
        (with_max_tokens-Known model body (lookup "max_tokens" body))

  with_messages-Known :
      (model : Option Json) (body : Fields) (o : Option Json)
      → Known (with_messages printed int_of_text s model body o)
  unfolding with_messages
  with_messages-Known model body none = refl
  with_messages-Known model body (some null) = refl
  with_messages-Known model body (some (boolean b)) = refl
  with_messages-Known model body (some (number x)) = refl
  with_messages-Known model body (some (text t)) = refl
  with_messages-Known model body (some (object o)) = refl
  with_messages-Known model body (some (array no_items)) = refl
  with_messages-Known model body (some (array (item m ms))) =
      with_estimate-Known model body (estimate_prompt_tokens printed int_of_text (item m ms))

  with_body-Known : (p : Principal) (body : Fields) → Known (with_body printed int_of_text s p body)
  unfolding with_body
  with_body-Known p body =
      guarded-Known (not (has_scope p "chat")) (rejected 403 "scope_denied" (lookup "model" body)) _
        refl
        (guarded-Known (not (is_allowed_model printed int_of_text s (lookup "model" body)))
          (rejected 400 "model_not_allowed" (lookup "model" body)) _ refl
          (with_messages-Known (lookup "model" body) body (lookup "messages" body)))

  with_parsed-Known :
      (p : Principal) (o : Option Json) → Known (with_parsed printed int_of_text s p o)
  unfolding with_parsed
  with_parsed-Known p none = refl
  with_parsed-Known p (some null) = refl
  with_parsed-Known p (some (boolean b)) = refl
  with_parsed-Known p (some (number x)) = refl
  with_parsed-Known p (some (text t)) = refl
  with_parsed-Known p (some (array items)) = refl
  with_parsed-Known p (some (object body)) = with_body-Known p body

  pub admit-Known :
      (p : Principal) (size : ℕ) (o : Option Json) → Known (admit printed int_of_text s p size o)
  unfolding admit
  admit-Known p size o =
      guarded-Known (ltb s.max_body_bytes size) (rejected 413 "body_too_large" none) _ refl
        (with_parsed-Known p o)
