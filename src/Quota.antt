-- ===== src/Quota.antt =====
-- gateway/quota.py: token budgets and concurrency caps of the API keys. Counts and limits are
-- natural numbers, and an exception is its reason.
pub mod Slots
pub mod Budget
mod Examples
use inference_box.Prelude.{ℕ, ◌+◌, ◌-◌, String, [], ltb, leb, if◌then◌else◌, Result, ok, raises}
use inference_box.Dict.{Dict, get_or, set}

pub record QuotaTracker : Type 0 where
  pub inflight : Dict ℕ
  pub consumed : Dict ℕ

-- `QuotaTracker()`, and what `reset` leaves.
abbrev pub new_tracker : QuotaTracker
new_tracker = record { inflight = []; consumed = [] }

unfoldable pub tokens_used : QuotaTracker → String → ℕ
tokens_used t keyid = get_or keyid 0 t.consumed

-- `check_budget`: passes the tracker on, or raises.
unfoldable pub check_budget : QuotaTracker → String → ℕ → Result String QuotaTracker
check_budget t keyid token_budget =
    if leb token_budget (tokens_used t keyid) then raises "token_budget_exceeded" else ok t

unfoldable pub record_usage : QuotaTracker → String → ℕ → QuotaTracker
record_usage t keyid total_tokens =
    if ltb 0 total_tokens
    then record t { consumed = set keyid (tokens_used t keyid + total_tokens) t.consumed }
    else t

unfoldable pub in_flight : QuotaTracker → String → ℕ
in_flight t keyid = get_or keyid 0 t.inflight

unfoldable pub acquire : QuotaTracker → String → ℕ → Result String QuotaTracker
acquire t keyid max_concurrency =
    if leb max_concurrency (in_flight t keyid)
    then raises "concurrency_cap_exceeded"
    else ok (record t { inflight = set keyid (in_flight t keyid + 1) t.inflight })

-- `max(0, current - 1)`: the subtraction stops at 0.
unfoldable pub release : QuotaTracker → String → QuotaTracker
release t keyid = record t { inflight = set keyid (in_flight t keyid - 1) t.inflight }

pub reset : QuotaTracker → QuotaTracker
reset t = new_tracker
