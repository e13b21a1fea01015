-- ===== src/Chat/Quotas.antt =====
-- The gates of the chat route that know the API keys: the budget, then a slot, which is given back.
pub mod Passing
pub mod Reasons
use inference_box.Prelude.{ℕ, ◌-◌, ◌≡◌, refl, String, Option, none, some, Result, ok, raises, ◌>>=◌}
use inference_box.Auth.{Principal}
use inference_box.Quota.{QuotaTracker, check_budget, acquire, release, record_usage}
use inference_box.Chat.{Refusal, rejected}
use inference_box.Chat.Values.{Json}

-- What passing the gates leaves: the tracker, and the key that holds a slot for the request.
pub record Passed : Type 0 where
  pub tracker : QuotaTracker
  pub release_keyid : Option String

refused : Option Json → Result String QuotaTracker → Result Refusal QuotaTracker
refused model (ok t) = ok t
refused model (raises reason) = raises (rejected 429 reason model)

budget_gate : QuotaTracker → Option Json → Option String → Option ℕ → Result Refusal QuotaTracker
unfolding refused
budget_gate t model (some keyid) (some token_budget) =
    refused model (check_budget t keyid token_budget)
budget_gate t model _ _ = ok t

slot_taken : String → Result Refusal QuotaTracker → Result Refusal Passed
slot_taken keyid (raises e) = raises e
slot_taken keyid (ok t) = ok (record { tracker = t; release_keyid = some keyid })

slot_gate : Option Json → Option String → Option ℕ → QuotaTracker → Result Refusal Passed
unfolding refused slot_taken
slot_gate model (some keyid) (some max_concurrency) t =
    slot_taken keyid (refused model (acquire t keyid max_concurrency))
slot_gate model _ _ t = ok (record { tracker = t; release_keyid = none })

-- Both gates in turn.
unfoldable pub gates : QuotaTracker → Principal → Option Json → Result Refusal Passed
unfolding budget_gate slot_gate
gates t p model = budget_gate t model p.keyid p.token_budget >>= λ t'.
    slot_gate model p.keyid p.max_concurrency t'

-- `if release_keyid is not None: quota.release(release_keyid)`
unfoldable pub release_slot : Option String → QuotaTracker → QuotaTracker
release_slot none t = t
release_slot (some keyid) t = release t keyid
