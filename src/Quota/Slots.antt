-- ===== src/Quota/Slots.antt =====
-- The in-flight counters against the slots that requests hold.
use inference_box.Prelude.{
  ℕ, ◌+◌, ◌-◌, ◌≤◌, ◌<◌, ◌≡◌, ap, ◌↔◌, String, List, [], ◌∷◌, ◌++◌, arith, str_eq, eq_iff,
  if◌then◌else◌, ok, raises,
}
use inference_box.Dict.{get_or, get?, set}
use inference_box.Dict.Laws.{get_or-set}
use inference_box.Quota.{QuotaTracker, new_tracker, tokens_used, in_flight, acquire, release}

-- The tracker after a granted slot.
granted_tracker : QuotaTracker → String → QuotaTracker
granted_tracker t keyid = record t { inflight = set keyid (in_flight t keyid + 1) t.inflight }

-- A slot is granted exactly when the key holds fewer than its cap.
pub acquire_iff :
    (t : QuotaTracker) (keyid : String) (cap : ℕ)
    → ((t' : QuotaTracker) × (acquire t keyid cap ≡ ok t')) ↔ (in_flight t keyid < cap)
unfolding acquire granted_tracker
acquire_iff t keyid cap =
    (λ h. let (t', e) = h in ground arith, λ h. (granted_tracker t keyid, ground arith))

in_flight-acquire :
    (t t' : QuotaTracker) (keyid j : String) (cap : ℕ)
    → acquire t keyid cap ≡ ok t'
    → in_flight t' j ≡ in_flight t j + (if str_eq keyid j then 1 else 0)
unfolding acquire in_flight
in_flight-acquire t t' keyid j cap e =
    ground (arith, eq_iff keyid j, get_or-set keyid j (in_flight t keyid + 1) 0 t.inflight)

consumed-acquire :
    (t t' : QuotaTracker) (keyid : String) (cap : ℕ)
    → acquire t keyid cap ≡ ok t'
    → (t'.consumed ≡ t.consumed) × (in_flight t keyid < cap)
unfolding acquire
consumed-acquire t t' keyid cap e = ground arith

pub in_flight-release :
    (t : QuotaTracker) (keyid j : String)
    → in_flight (release t keyid) j ≡ in_flight t j - (if str_eq keyid j then 1 else 0)
unfolding release in_flight
in_flight-release t keyid j =
    ground (arith, eq_iff keyid j, get_or-set keyid j (in_flight t keyid - 1) 0 t.inflight)

-- A granted slot, released, leaves every key's counter and every key's consumption as they were.
pub release-acquire :
    (t t' : QuotaTracker) (keyid : String) (cap : ℕ)
    → acquire t keyid cap ≡ ok t'
    → (j : String)
    → (in_flight (release t' keyid) j ≡ in_flight t j)
      × (tokens_used (release t' keyid) j ≡ tokens_used t j)
unfolding release tokens_used
release-acquire t t' keyid cap e j = (
  omega (arith, in_flight-release t' keyid j, in_flight-acquire t t' keyid j cap e),
  ap (λ d. get_or j 0 d) (consumed-acquire t t' keyid cap e).0,
)

-- How many of the held slots are a key's.
pub held_by : String → List String → ℕ
held_by k [] = 0
held_by k (x ∷ xs) = (if str_eq x k then 1 else 0) + held_by k xs

held_by-append :
    (k : String) (xs ys : List String) → held_by k (xs ++ ys) ≡ held_by k xs + held_by k ys
unfolding held_by
held_by-append k [] ys = omega arith
held_by-append k (x ∷ xs) ys = omega (arith, held_by-append k xs ys)

pub record Gate : Type 0 where
  pub tracker : QuotaTracker
  pub held : List String

-- What can happen at the gate, each key with a cap of its own: a request is granted a slot, or is
-- refused one, or one that holds a slot ends and releases it. Requests end in any order.
pub data Step (limits : String → ℕ) (g : Gate) (g' : Gate) : Type 0 where
  granted :
      (k : String)
      → acquire g.tracker k (limits k) ≡ ok g'.tracker
      → g'.held ≡ k ∷ g.held
      → Step limits g g'
  refused :
      (k reason : String)
      → acquire g.tracker k (limits k) ≡ raises reason
      → g' ≡ g
      → Step limits g g'
  ended :
      (k : String) (before after : List String)
      → g.held ≡ before ++ k ∷ after
      → g' ≡ record { tracker = release g.tracker k; held = before ++ after }
      → Step limits g g'

pub data Reach (limits : String → ℕ) (g : Gate) : Gate → Type 0 where
  here : Reach limits g g
  next : {g' g'' : Gate} → Reach limits g g' → Step limits g' g'' → Reach limits g g''

abbrev pub idle_gate : Gate
idle_gate = record { tracker = new_tracker; held = [] }

-- The counter of each key is the number of slots it holds, which its cap bounds.
abbrev pub Agrees : (String → ℕ) → Gate → Type 0
Agrees limits g =
    (k : String) → (in_flight g.tracker k ≡ held_by k g.held) × (held_by k g.held ≤ limits k)

Step-Agrees :
    (limits : String → ℕ) (g g' : Gate) → Step limits g g' → Agrees limits g → Agrees limits g'
unfolding held_by
Step-Agrees limits g g' (granted k e h) a j = ground (
  arith,
  a j,
  eq_iff k j,
  in_flight-acquire g.tracker g'.tracker k j (limits k) e,
  consumed-acquire g.tracker g'.tracker k (limits k) e,
)
Step-Agrees limits g g' (refused k reason e h) a j = rw h (a j)
Step-Agrees limits g g' (ended k before after e h) a j = ground (
  arith,
  a j,
  in_flight-release g.tracker k j,
  held_by-append j before (k ∷ after),
  held_by-append j before after,
)

Reach-Agrees_from :
    (limits : String → ℕ) (g g' : Gate) → Reach limits g g' → Agrees limits g → Agrees limits g'
Reach-Agrees_from limits g g' here a = a
Reach-Agrees_from limits g g' (next {g' = mid} r s) a =
    Step-Agrees limits mid g' s (Reach-Agrees_from limits g mid r a)

-- From an idle gate, however requests arrive and end, each key's in-flight counter is the number
-- of slots that its requests hold, and that is never more than its cap.
pub Reach-Agrees : (limits : String → ℕ) (g : Gate) → Reach limits idle_gate g → Agrees limits g
unfolding in_flight held_by get_or get?
Reach-Agrees limits g r = Reach-Agrees_from limits idle_gate g r (λ k. omega arith)
