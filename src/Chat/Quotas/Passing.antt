-- ===== src/Chat/Quotas/Passing.antt =====
-- What it means that a request has passed the gates, and that its slot comes back.
use inference_box.Prelude.{
  ℕ, ◌<◌, ◌≡◌, refl, String, Option, none, some, Result, ok, raises, arith, guarded-ok, bind-ok,
  leb, subst, sym,
}
use inference_box.Auth.{Principal}
use inference_box.Quota.{QuotaTracker, tokens_used, in_flight, check_budget, acquire}
use inference_box.Quota.Slots.{acquire_iff, release-acquire}
use inference_box.Chat.{Refusal}
use inference_box.Chat.Values.{Json}
use inference_box.Chat.Quotas.{
  Passed, refused, budget_gate, slot_taken, slot_gate, gates, release_slot,
}

-- A limit that applies to a key is not used up.
abbrev pub IsBelow : Option String → Option ℕ → (String → ℕ) → Type 0
IsBelow (some keyid) (some limit) used = used keyid < limit
IsBelow _ _ used = Unit {0}

refused-ok :
    (model : Option Json) (r : Result String QuotaTracker) (t : QuotaTracker)
    → refused model r ≡ ok t
    → r ≡ ok t
unfolding refused
refused-ok model (ok t') t h = cc
refused-ok model (raises e) t h = cc

budget_gate-ok :
    (t t' : QuotaTracker) (model : Option Json) (keyid : Option String) (limit : Option ℕ)
    → budget_gate t model keyid limit ≡ ok t'
    → (t ≡ t') × IsBelow keyid limit (tokens_used t)
unfolding budget_gate check_budget
budget_gate-ok t t' model none limit h = (cc, tt)
budget_gate-ok t t' model (some keyid) none h = (cc, tt)
budget_gate-ok t t' model (some keyid) (some limit) h =
    let (e, q) =
      guarded-ok (leb limit (tokens_used t keyid)) "token_budget_exceeded" (ok t) t'
        (refused-ok model (check_budget t keyid limit) t' h) in
    (cc, ground arith)

-- The key holds a slot exactly if a limit applies to it, and giving it back restores every count.
abbrev pub IsGranted : QuotaTracker → Option String → Option ℕ → Passed → Type 0
IsGranted t keyid limit g =
    IsBelow keyid limit (in_flight t)
    × ((k : String)
        → (in_flight (release_slot g.release_keyid g.tracker) k ≡ in_flight t k)
          × (tokens_used (release_slot g.release_keyid g.tracker) k ≡ tokens_used t k))

slot_taken-ok :
    (keyid : String) (r : Result Refusal QuotaTracker) (g : Passed)
    → slot_taken keyid r ≡ ok g
    → (t' : QuotaTracker) × (r ≡ ok t') × (record { tracker = t'; release_keyid = some keyid } ≡ g)
unfolding slot_taken
slot_taken-ok keyid (raises e) g h = cc
slot_taken-ok keyid (ok t') g h = (t', refl, cc)

slot_gate-ok :
    (t : QuotaTracker) (model : Option Json) (keyid : Option String) (limit : Option ℕ) (g : Passed)
    → slot_gate model keyid limit t ≡ ok g
    → IsGranted t keyid limit g
unfolding slot_gate release_slot
slot_gate-ok t model none limit g h =
    let q : record { tracker = t; release_keyid = none } ≡ g = cc in
    subst (λ x. IsGranted t none limit x) q (tt, λ k. (refl, refl))
slot_gate-ok t model (some keyid) none g h =
    let q : record { tracker = t; release_keyid = none } ≡ g = cc in
    subst (λ x. IsGranted t (some keyid) none x) q (tt, λ k. (refl, refl))
slot_gate-ok t model (some keyid) (some limit) g h =
    let (t', e, q) = slot_taken-ok keyid (refused model (acquire t keyid limit)) g h in
    let taken = refused-ok model (acquire t keyid limit) t' e in
    subst (λ x. IsGranted t (some keyid) (some limit) x) q
      ((acquire_iff t keyid limit).0 (t', taken), release-acquire t t' keyid limit taken)

-- A request that passes the gates comes from a principal whose key, if a budget applies to it, has
-- consumed less than its budget, and, if a cap applies to it, holds fewer slots than its cap. Once
-- the request gives back the slot that it was granted, if any, every key holds the slots and has
-- consumed the tokens that it did before the gates.
pub gates-IsGranted :
    (t : QuotaTracker) (p : Principal) (model : Option Json) (g : Passed)
    → gates t p model ≡ ok g
    → IsBelow p.keyid p.token_budget (tokens_used t) × IsGranted t p.keyid p.max_concurrency g
unfolding gates
gates-IsGranted t p model g h =
    let (t', e, q) =
      bind-ok (budget_gate t model p.keyid p.token_budget)
        (slot_gate model p.keyid p.max_concurrency) g h in
    let (same, below) = budget_gate-ok t t' model p.keyid p.token_budget e in
    (
      below,
      subst (λ x. IsGranted x p.keyid p.max_concurrency g) (sym same)
          (slot_gate-ok t' model p.keyid p.max_concurrency g q),
    )
