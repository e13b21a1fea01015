-- ===== src/Chat/Quotas/Reasons.antt =====
-- The reasons that the quota gates refuse a request for.
use inference_box.Prelude.{
  ℕ, String, Option, none, some, leb, Result, ok, raises, ◌>>=◌, Bool, true, false, if◌then◌else◌,
  refl,
}
use inference_box.Auth.{Principal}
use inference_box.Quota.{QuotaTracker, check_budget, acquire, tokens_used, in_flight}
use inference_box.Chat.{Refusal}
use inference_box.Chat.Values.{Json}
use inference_box.Chat.Vocabulary.{IsKnown, Known}
use inference_box.Chat.Quotas.{Passed, refused, budget_gate, slot_taken, slot_gate, gates}

KnownReason : Result String QuotaTracker → Type 0
KnownReason (ok t) = Unit {0}
KnownReason (raises reason) = IsKnown reason

guarded-KnownReason :
    (b : Bool) (reason : String) (t : QuotaTracker)
    → IsKnown reason
    → KnownReason (if b then raises reason else ok t)
unfolding KnownReason
guarded-KnownReason true reason t h = h
guarded-KnownReason false reason t h = tt

refused-Known :
    (model : Option Json) (r : Result String QuotaTracker) → KnownReason r → Known (refused model r)
unfolding refused KnownReason
refused-Known model (ok t) h = tt
refused-Known model (raises reason) h = h

budget_gate-Known :
    (t : QuotaTracker) (model : Option Json) (keyid : Option String) (limit : Option ℕ)
    → Known (budget_gate t model keyid limit)
unfolding budget_gate check_budget
budget_gate-Known t model none limit = tt
budget_gate-Known t model (some keyid) none = tt
budget_gate-Known t model (some keyid) (some limit) =
    refused-Known model (check_budget t keyid limit)
      (guarded-KnownReason (leb limit (tokens_used t keyid)) "token_budget_exceeded" t refl)

slot_taken-Known :
    (keyid : String) (r : Result Refusal QuotaTracker) → Known r → Known (slot_taken keyid r)
unfolding slot_taken
slot_taken-Known keyid (ok t) h = tt
slot_taken-Known keyid (raises r) h = h

slot_gate-Known :
    (model : Option Json) (keyid : Option String) (limit : Option ℕ) (t : QuotaTracker)
    → Known (slot_gate model keyid limit t)
unfolding slot_gate acquire
slot_gate-Known model none limit t = tt
slot_gate-Known model (some keyid) none t = tt
slot_gate-Known model (some keyid) (some limit) t =
    slot_taken-Known keyid (refused model (acquire t keyid limit)) (
      refused-Known model (acquire t keyid limit)
        (guarded-KnownReason (leb limit (in_flight t keyid)) "concurrency_cap_exceeded" _ refl))

bind-Known :
    (r : Result Refusal QuotaTracker) (f : QuotaTracker → Result Refusal Passed)
    → Known r
    → ((t : QuotaTracker) → Known (f t))
    → Known (r >>= f)
bind-Known (ok t) f h k = k t
bind-Known (raises r) f h k = h

pub gates-Known : (t : QuotaTracker) (p : Principal) (model : Option Json) → Known (gates t p model)
unfolding gates
gates-Known t p model =
    bind-Known (budget_gate t model p.keyid p.token_budget)
      (slot_gate model p.keyid p.max_concurrency) (budget_gate-Known t model p.keyid p.token_budget)
      (slot_gate-Known model p.keyid p.max_concurrency)
