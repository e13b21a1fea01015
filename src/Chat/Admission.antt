-- ===== src/Chat/Admission.antt =====
-- What a body that is let through has been checked for.
use inference_box.Prelude.{
  ℕ, ◌≤◌, ◌≡◌, refl, String, Bool, true, false, not, Option, none, some, ltb, min, arith, Result,
  ok, raises, guarded-ok, ltb-false→le, if◌then◌else◌,
}
use inference_box.Auth.{Principal, has_scope}
use inference_box.Chat.{
  ChatSettings, rejected, estimate_prompt_tokens, ceiled, with_wanted, with_max_tokens,
  with_estimate, with_messages, is_allowed_model, with_body, with_parsed, admit,
}
use inference_box.Chat.Values.{
  Json, null, boolean, number, text, array, object, no_items, item, Fields, lookup, put, ℤ, pos,
  negsuc, whole_number, Raised, type_error, value_error, overflow_error, attribute_error, int_of,
}

not-false : (b : Bool) → not b ≡ false → b ≡ true
not-false true h = refl
not-false false h = cc

module _ (printed : Json → String) (int_of_text : String → Option ℤ) (s : ChatSettings) where
  -- The forwarded body is the request's with `max_tokens` set, to at least 1 and at most the
  -- ceiling.
  abbrev pub IsClamped : Fields → Fields → Type 0
  IsClamped body forwarded =
      (n : ℕ) × (1 ≤ n)
      × (n ≤ s.max_completion_tokens)
      × (forwarded ≡ put "max_tokens" (whole_number n) body)

  ceiled-IsClamped :
      (model : Option Json) (body forwarded : Fields) (i : ℤ)
      → 1 ≤ s.max_completion_tokens
      → ceiled printed int_of_text s model body i ≡ ok forwarded
      → IsClamped body forwarded
  unfolding ceiled
  ceiled-IsClamped model body forwarded (negsuc n) c h = cc
  ceiled-IsClamped model body forwarded (pos n) c h =
      let clamped = put "max_tokens" (whole_number (min n s.max_completion_tokens)) body in
      let (e, q) =
        guarded-ok (ltb n 1) (rejected 400 "max_tokens_invalid" model) (ok clamped) forwarded h in
      let l = ltb-false→le n 1 e in (min n s.max_completion_tokens, omega arith, omega arith, cc)

  with_wanted-IsClamped :
      (model : Option Json) (body forwarded : Fields) (r : Result Raised ℤ)
      → 1 ≤ s.max_completion_tokens
      → with_wanted printed int_of_text s model body r ≡ ok forwarded
      → IsClamped body forwarded
  unfolding with_wanted
  with_wanted-IsClamped model body forwarded (ok i) c h =
      ceiled-IsClamped model body forwarded i c h
  with_wanted-IsClamped model body forwarded (raises type_error) c h = cc
  with_wanted-IsClamped model body forwarded (raises value_error) c h = cc
  with_wanted-IsClamped model body forwarded (raises overflow_error) c h = cc
  with_wanted-IsClamped model body forwarded (raises attribute_error) c h = cc

  with_max_tokens-IsClamped :
      (model : Option Json) (body forwarded : Fields) (requested : Option Json)
      → 1 ≤ s.max_completion_tokens
      → with_max_tokens printed int_of_text s model body requested ≡ ok forwarded
      → IsClamped body forwarded
  unfolding with_max_tokens
  with_max_tokens-IsClamped model body forwarded none c h =
      (s.max_completion_tokens, c, omega arith, cc)
  with_max_tokens-IsClamped model body forwarded (some null) c h =
      (s.max_completion_tokens, c, omega arith, cc)
  with_max_tokens-IsClamped model body forwarded (some (boolean b)) c h =
      with_wanted-IsClamped model body forwarded (int_of int_of_text (boolean b)) c h
  with_max_tokens-IsClamped model body forwarded (some (number x)) c h =
      with_wanted-IsClamped model body forwarded (int_of int_of_text (number x)) c h
  with_max_tokens-IsClamped model body forwarded (some (text t)) c h =
      with_wanted-IsClamped model body forwarded (int_of int_of_text (text t)) c h
  with_max_tokens-IsClamped model body forwarded (some (array items)) c h =
      with_wanted-IsClamped model body forwarded (int_of int_of_text (array items)) c h
  with_max_tokens-IsClamped model body forwarded (some (object o)) c h =
      with_wanted-IsClamped model body forwarded (int_of int_of_text (object o)) c h

  with_estimate-IsClamped :
      (model : Option Json) (body forwarded : Fields) (r : Result Raised ℕ)
      → 1 ≤ s.max_completion_tokens
      → with_estimate printed int_of_text s model body r ≡ ok forwarded
      → ((n : ℕ) × (r ≡ ok n) × (n ≤ s.max_prompt_tokens)) × IsClamped body forwarded
  unfolding with_estimate
  with_estimate-IsClamped model body forwarded (raises e) c h = cc
  with_estimate-IsClamped model body forwarded (ok n) c h =
      let (e, q) =
        guarded-ok (ltb s.max_prompt_tokens n) (rejected 400 "prompt_too_long" model)
          (with_max_tokens printed int_of_text s model body (lookup "max_tokens" body)) forwarded
          h in
      (
        (n, refl, ltb-false→le s.max_prompt_tokens n e),
        with_max_tokens-IsClamped model body forwarded (lookup "max_tokens" body) c q,
      )

  -- The messages are a list that is not empty, with an estimate within the bound.
  abbrev pub IsShort : Option Json → Type 0
  IsShort (some (array (item m ms))) =
      (n : ℕ) × (estimate_prompt_tokens printed int_of_text (item m ms) ≡ ok n)
      × (n ≤ s.max_prompt_tokens)
  IsShort _ = ⊥

  with_messages-IsShort :
      (model : Option Json) (body forwarded : Fields) (messages : Option Json)
      → 1 ≤ s.max_completion_tokens
      → with_messages printed int_of_text s model body messages ≡ ok forwarded
      → IsShort messages × IsClamped body forwarded
  unfolding with_messages
  with_messages-IsShort model body forwarded none c h = cc
  with_messages-IsShort model body forwarded (some null) c h = cc
  with_messages-IsShort model body forwarded (some (boolean b)) c h = cc
  with_messages-IsShort model body forwarded (some (number x)) c h = cc
  with_messages-IsShort model body forwarded (some (text t)) c h = cc
  with_messages-IsShort model body forwarded (some (object o)) c h = cc
  with_messages-IsShort model body forwarded (some (array no_items)) c h = cc
  with_messages-IsShort model body forwarded (some (array (item m ms))) c h =
      with_estimate-IsClamped model body forwarded
        (estimate_prompt_tokens printed int_of_text (item m ms)) c h

  -- What is known of an admitted request of a principal, and of the body that is forwarded.
  abbrev pub IsFit : Principal → Option Json → Fields → Type 0
  IsFit p (some (object body)) forwarded =
      (has_scope p "chat" ≡ true)
      × (is_allowed_model printed int_of_text s (lookup "model" body) ≡ true)
      × IsShort (lookup "messages" body)
      × IsClamped body forwarded
  IsFit p _ forwarded = ⊥

  with_body-IsFit :
      (p : Principal) (body forwarded : Fields)
      → 1 ≤ s.max_completion_tokens
      → with_body printed int_of_text s p body ≡ ok forwarded
      → IsFit p (some (object body)) forwarded
  unfolding with_body
  with_body-IsFit p body forwarded c h =
      let model = lookup "model" body in
      let messages = with_messages printed int_of_text s model body (lookup "messages" body) in
      let (e, q) =
        guarded-ok (not (has_scope p "chat")) (rejected 403 "scope_denied" model)
          (if not (is_allowed_model printed int_of_text s model)
            then raises (rejected 400 "model_not_allowed" model)
            else messages)
          forwarded h in
      let (f, r) =
        guarded-ok (not (is_allowed_model printed int_of_text s model))
          (rejected 400 "model_not_allowed" model) messages forwarded q in
      let (short, clamped) =
        with_messages-IsShort model body forwarded (lookup "messages" body) c r in
      (
        not-false (has_scope p "chat") e,
        not-false (is_allowed_model printed int_of_text s model) f,
        short,
        clamped,
      )

  with_parsed-IsFit :
      (p : Principal) (parsed : Option Json) (forwarded : Fields)
      → 1 ≤ s.max_completion_tokens
      → with_parsed printed int_of_text s p parsed ≡ ok forwarded
      → IsFit p parsed forwarded
  unfolding with_parsed
  with_parsed-IsFit p none forwarded c h = cc
  with_parsed-IsFit p (some null) forwarded c h = cc
  with_parsed-IsFit p (some (boolean b)) forwarded c h = cc
  with_parsed-IsFit p (some (number x)) forwarded c h = cc
  with_parsed-IsFit p (some (text t)) forwarded c h = cc
  with_parsed-IsFit p (some (array items)) forwarded c h = cc
  with_parsed-IsFit p (some (object body)) forwarded c h = with_body-IsFit p body forwarded c h

  -- With a completion ceiling of at least 1, whatever is let through to the quotas has a raw body
  -- within the limit, comes from a principal with the scope, and is a JSON object that names an
  -- allowed model and a list of messages, not empty and estimated within the bound. The body to
  -- forward is that object with `max_tokens` set to a whole number from 1 to the ceiling, and
  -- nothing else changed.
  pub admit-IsFit :
      (p : Principal) (size : ℕ) (parsed : Option Json) (forwarded : Fields)
      → 1 ≤ s.max_completion_tokens
      → admit printed int_of_text s p size parsed ≡ ok forwarded
      → (size ≤ s.max_body_bytes) × IsFit p parsed forwarded
  unfolding admit
  admit-IsFit p size parsed forwarded c h =
      let (e, q) =
        guarded-ok (ltb s.max_body_bytes size) (rejected 413 "body_too_large" none)
          (with_parsed printed int_of_text s p parsed) forwarded h in
      (ltb-false→le s.max_body_bytes size e, with_parsed-IsFit p parsed forwarded c q)
