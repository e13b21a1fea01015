-- ===== src/Breaker/Registry.antt =====
-- BreakerRegistry of gateway/upstream/breaker.py: the breakers by replica URL.
use inference_box.Prelude.{
  ℕ, ◌+◌, ◌≡◌, refl, String, List, [], ◌∷◌, true, none, some, arith, str_eq, if◌then◌else◌, eq_iff,
}
use inference_box.Prelude.Text.{str_of_ℕ}
use inference_box.Dict.{Dict, get?, get_or, set}
use inference_box.Dict.Laws.{get?-set, get_or-set}
use inference_box.Breaker.{
  ReplicaBreaker, BreakerState, closed, opened, half_open, new_breaker, allows,
}

abbrev pub BreakerRegistry : Type 0
BreakerRegistry = Dict ReplicaBreaker

-- The loop of `reset`: each URL in turn, labelled by its place in the list.
reset_from : ℕ → List String → BreakerRegistry → BreakerRegistry
reset_from i [] reg = reg
reset_from i (url ∷ urls) reg = reset_from (i + 1) urls (set url (new_breaker url (str_of_ℕ i)) reg)

unfoldable pub reset : List String → BreakerRegistry
unfolding reset_from
reset urls = reset_from 0 urls []

-- `get`: the breaker, and the registry, into which a missing one has been put.
unfoldable pub get : BreakerRegistry → String → ReplicaBreaker × BreakerRegistry
get reg url = elim (get? url reg) [
  | some b ↦ (b, reg)
  | none ↦ (new_breaker url "?", set url (new_breaker url "?") reg)
]

-- `BreakerState.value`
abbrev pub state_value : BreakerState → String
state_value closed = "closed"
state_value opened = "open"
state_value half_open = "half_open"

unfoldable pub snapshot : BreakerRegistry → Dict String
snapshot [] = []
snapshot ((url, b) ∷ reg) = (url, state_value b.state) ∷ snapshot reg

-- The breaker that `get` answers with.
unfoldable pub breaker_of : BreakerRegistry → String → ReplicaBreaker
breaker_of reg url = get_or url (new_breaker url "?") reg

pub get-breaker_of : (reg : BreakerRegistry) (url : String) → (get reg url).0 ≡ breaker_of reg url
unfolding get breaker_of get_or
get-breaker_of reg url = ground arith

-- Asking for a breaker changes the answer for no URL.
pub breaker_of-get :
    (reg : BreakerRegistry) (url j : String) → breaker_of (get reg url).1 j ≡ breaker_of reg j
unfolding get breaker_of get_or
breaker_of-get reg url j = ground (arith, eq_iff url j, get?-set url j (new_breaker url "?") reg)

pub breaker_of-set :
    (reg : BreakerRegistry) (url j : String) (b : ReplicaBreaker)
    → breaker_of (set url b reg) j ≡ (if str_eq url j then b else breaker_of reg j)
unfolding breaker_of
breaker_of-set reg url j b = get_or-set url j b (new_breaker j "?") reg

reset_from-allows :
    (i : ℕ) (urls : List String) (reg : BreakerRegistry) (j : String)
    → allows (breaker_of reg j) ≡ true
    → allows (breaker_of (reset_from i urls reg) j) ≡ true
unfolding reset_from
reset_from-allows i [] reg j h = h
reset_from-allows i (url ∷ urls) reg j h =
    reset_from-allows (i + 1) urls (set url (new_breaker url (str_of_ℕ i)) reg) j
      (ground (arith, breaker_of-set reg url j (new_breaker url (str_of_ℕ i))))

-- After a reset every replica is closed.
pub reset-allows : (urls : List String) (j : String) → allows (breaker_of (reset urls) j) ≡ true
unfolding reset breaker_of get_or get?
reset-allows urls j = reset_from-allows 0 urls [] j refl
