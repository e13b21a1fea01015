-- ===== src/Quota/Budget.antt =====
-- The token budget over the requests of a key.
use inference_box.Prelude.{
  ℕ, ◌+◌, ◌≤◌, ◌<◌, ◌≡◌, refl, ap, ◌∙◌, max, suc, ◌↔◌, ◌⊎◌, inl, inr, String, List, [], ◌∷◌, arith,
  str_eq, eq_iff, if◌then◌else◌, All, ok, raises,
}
use inference_box.Dict.Laws.{get_or-set}
use inference_box.Quota.{QuotaTracker, tokens_used, check_budget, record_usage}

-- The budget lets a request through, and changes nothing, exactly when the key has consumed less.
pub check_budget_iff :
    (t : QuotaTracker) (keyid : String) (budget : ℕ)
    → (check_budget t keyid budget ≡ ok t) ↔ (tokens_used t keyid < budget)
unfolding check_budget
check_budget_iff t keyid budget = ground arith

pub tokens_used-record_usage :
    (t : QuotaTracker) (keyid j : String) (n : ℕ)
    → tokens_used (record_usage t keyid n) j ≡ tokens_used t j + (if str_eq keyid j then n else 0)
unfolding tokens_used record_usage
tokens_used-record_usage t keyid j n =
    ground (arith, eq_iff keyid j, get_or-set keyid j (tokens_used t keyid + n) 0 t.consumed)

-- One request of a key: checked against the budget, and charged its cost when it completes.
abbrev pub charge : QuotaTracker → String → ℕ → ℕ → QuotaTracker
charge t keyid budget cost = elim (check_budget t keyid budget) [
  | ok t' ↦ record_usage t' keyid cost
  | raises reason ↦ t
]

abbrev pub charges : QuotaTracker → String → ℕ → List ℕ → QuotaTracker
charges t keyid budget [] = t
charges t keyid budget (cost ∷ costs) = charges (charge t keyid budget cost) keyid budget costs

charge_cases :
    (t : QuotaTracker) (keyid : String) (budget cost : ℕ)
    → ((tokens_used t keyid < budget) × (charge t keyid budget cost ≡ record_usage t keyid cost))
      ⊎ ((budget ≤ tokens_used t keyid) × (charge t keyid budget cost ≡ t))
unfolding check_budget
charge_cases t keyid budget cost = ground arith

-- Requests one after another never take a key further over its budget than the cost of one: if no
-- request costs more than `most`, then in the end either less than `budget + most` is consumed or no
-- more than was at the start. Requests that overlap are not covered, since each is charged at its end.
pub charges_bounded :
    (t : QuotaTracker) (keyid : String) (budget most : ℕ) (costs : List ℕ)
    → All (λ cost. cost ≤ most) costs
    → tokens_used (charges t keyid budget costs) keyid
      < max (suc (tokens_used t keyid)) (budget + most)
charges_bounded t keyid budget most [] h = omega arith
charges_bounded t keyid budget most (cost ∷ costs) (h, hs) =
    let t' = charge t keyid budget cost in
    let ih = charges_bounded t' keyid budget most costs hs in
    elim (charge_cases t keyid budget cost) [
      | inl (below, e) ↦
          (let used : tokens_used t' keyid ≡ tokens_used t keyid + cost =
              ap (λ x. tokens_used x keyid) e
              ∙ tokens_used-record_usage t keyid keyid cost
              ∙ ground (arith, eq_iff keyid keyid) in
            omega (arith, used, ih))
      | inr (over, e) ↦
          (let used : tokens_used t' keyid ≡ tokens_used t keyid =
              ap (λ x. tokens_used x keyid) e in
            omega (arith, used, ih))
    ]

-- Once a key has consumed its budget, no later request of it is let through or charged.
pub charges_exhausted :
    (t : QuotaTracker) (keyid : String) (budget : ℕ) (costs : List ℕ)
    → budget ≤ tokens_used t keyid
    → charges t keyid budget costs ≡ t
charges_exhausted t keyid budget [] h = refl
charges_exhausted t keyid budget (cost ∷ costs) h = elim (charge_cases t keyid budget cost) [
  | inl (below, e) ↦ absurd (omega arith)
  | inr (over, e) ↦ rw e (charges_exhausted t keyid budget costs h)
]
