-- ===== src/Config/Flags.antt =====
-- When a flag of the settings is on.
use inference_box.Prelude.{
  ◌≡◌, refl, sym, subst, ◌↔◌, inl, inr, String, Bool, true, ◌||◌, Option, some, Option-cases, ok,
  bind-ok,
}
use inference_box.Prelude.Text.Splitting.{lower_code}
use inference_box.Dict.{Dict, get?, get_or}
use inference_box.Chat.Values.{ℤ}
use inference_box.Config.{Settings, load_numbers, settings_with, load, flag, lowers_to}

abbrev pub is_on : String → Bool
is_on raw = lowers_to raw "1" || lowers_to raw "true" || lowers_to raw "yes"

-- The environment sets a variable to 1, true or yes, in any case.
abbrev pub IsSetOn : Dict String → String → Type 0
IsSetOn env name = (raw : String) × (get? name env ≡ some raw) × (is_on raw ≡ true)

-- A flag that is off by default.
flag-off_iff :
    (env : Dict String) (name : String) → (flag env name "false" ≡ true) ↔ IsSetOn env name
unfolding flag get_or lowers_to lower_code
flag-off_iff env name = elim (Option-cases (get? name env)) [
  | inl e ↦ rw (flag, get_or, e) (λ h. cc, λ (raw, q, t). cc)
  | inr (raw, e) ↦
      rw (flag, get_or, e)
        (
          λ h. (raw, refl, h),
          λ (other, q, t). (let r : raw ≡ other = cc in subst (λ z. is_on z ≡ true) (sym r) t),
        )
]

module _ {F : Type 0} (int_of_text : String → Option ℤ) (float_of_text : String → Option F) where
  -- The audit log is asked to hold prompt texts exactly if the environment sets the variable, to
  -- something that is 1, true or yes in lower case: an empty value, and any other, is off.
  pub load-audit_include_prompt_text_iff :
      (env : Dict String) (s : Settings F)
      → load int_of_text float_of_text env ≡ ok s
      → (s.audit_include_prompt_text ≡ true) ↔ IsSetOn env "AUDIT_INCLUDE_PROMPT_TEXT"
  unfolding load settings_with
  load-audit_include_prompt_text_iff env s h =
      let (n, e, k) = bind-ok (load_numbers int_of_text float_of_text env) _ s h in
      let q : settings_with int_of_text float_of_text env n ≡ s = cc in
      subst (λ z. (z.audit_include_prompt_text ≡ true) ↔ IsSetOn env "AUDIT_INCLUDE_PROMPT_TEXT") q
        (flag-off_iff env "AUDIT_INCLUDE_PROMPT_TEXT")
