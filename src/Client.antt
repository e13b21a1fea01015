-- ===== src/Client.antt =====
-- gateway/upstream/client.py: the pool of replicas. Times and delays are whole milliseconds.
pub mod Outcomes
pub mod Routing
pub mod Refusal
pub mod RoundRobin
pub mod Retry
pub mod Judging
pub mod Reachability
pub mod Connection
mod Examples
use inference_box.Prelude.{
  ℕ, ◌+◌, ◌%◌, min, String, List, [], ◌∷◌, Bool, true, false, ◌&&◌, not, Option, none, some, str_eq,
  if◌then◌else◌, length, get_elem?, Result, ok, raises,
}
use inference_box.Prelude.Text.{str_of_ℕ}
use inference_box.Dict.{set}
use inference_box.Breaker.{
  ReplicaBreaker, allows, record_success, record_failure, seconds_until_probe, FailureKind,
}
use inference_box.Breaker.Registry.{BreakerRegistry, get}
use inference_box.Breaker.Registry as Registry
use Outcomes.{Exc, classify}

pub record UpstreamPool : Type 0 where
  pub urls : List String
  pub position : ℕ
  pub breakers : BreakerRegistry

-- What `pick` and `set_urls` raise; `index_error` stands for picking from an empty list.
pub data PoolError : Type 0 where
  all_replicas_open : ℕ → PoolError
  no_urls : PoolError
  index_error : PoolError

-- `set_urls`; on an empty list it raises before it changes anything.
unfoldable pub set_urls : List String → Result PoolError UpstreamPool
set_urls [] = raises no_urls
set_urls (url ∷ urls) =
    ok (record { urls = url ∷ urls; position = 0; breakers = Registry.reset (url ∷ urls) })

-- `u != exclude`
abbrev pub differs : String → Option String → Bool
differs u none = true
differs u (some e) = not (str_eq u e)

-- `[u for u in urls if breakers.get(u).allows() and u != exclude]`
unfoldable pub candidates :
    BreakerRegistry → List String → Option String → List String × BreakerRegistry
candidates reg [] exclude = ([], reg)
candidates reg (u ∷ us) exclude =
    let (b, reg') = get reg u in
    let (rest, reg'') = candidates reg' us exclude in
    (if allows b && differs u exclude then u ∷ rest else rest, reg'')

-- `min(breakers.get(u).seconds_until_probe(now) for u in urls)`, from the least so far.
least_wait : BreakerRegistry → List String → ℕ → ℕ → ℕ × BreakerRegistry
least_wait reg [] now least = (least, reg)
least_wait reg (u ∷ us) now least =
    let (b, reg') = get reg u in least_wait reg' us now (min least (seconds_until_probe b now))

unfoldable pub wait_for_any : BreakerRegistry → List String → ℕ → ℕ → ℕ × BreakerRegistry
unfolding least_wait
wait_for_any reg [] now default = (default, reg)
wait_for_any reg (u ∷ us) now default =
    let (b, reg') = get reg u in least_wait reg' us now (seconds_until_probe b now)

-- `self._next = (self._next + 1) % len(cs)`, then `cs[self._next]`.
unfoldable pub rotate : UpstreamPool → List String → Result PoolError String × UpstreamPool
rotate p cs =
    let next = (p.position + 1) % length cs in
    (
      elim (get_elem? cs next) [ none ↦ raises index_error | some u ↦ ok u ],
      record p { position = next },
    )

pub record Settings : Type 0 where
  pub breaker_enabled : Bool
  pub breaker_open_sec : ℕ

-- `pick` once a list of candidates has been found.
pick_from : Settings → UpstreamPool → List String → ℕ → Result PoolError String × UpstreamPool
unfolding rotate wait_for_any
pick_from s p [] now =
    let (wait, reg) = wait_for_any p.breakers p.urls now s.breaker_open_sec in
    (raises (all_replicas_open wait), record p { breakers = reg })
pick_from s p (c ∷ cs) now = rotate p (c ∷ cs)

-- The second list of candidates, without `exclude`, where the first is empty.
pub with_fallback : List String → UpstreamPool → List String × BreakerRegistry
unfolding candidates
with_fallback [] p = candidates p.breakers p.urls none
with_fallback (c ∷ cs) p = (c ∷ cs, p.breakers)

-- `pick` with the breaker enabled.
pub pick_closed :
    Settings → UpstreamPool → Option String → ℕ → Result PoolError String × UpstreamPool
unfolding pick_from with_fallback
pick_closed s p exclude now =
    let (first, reg) = candidates p.breakers p.urls exclude in
    let (cs, reg') = with_fallback first (record p { breakers = reg }) in
    pick_from s (record p { breakers = reg' }) cs now

unfoldable pub pick :
    Settings → UpstreamPool → Option String → ℕ → Result PoolError String × UpstreamPool
unfolding pick_closed
pick s p exclude now =
    if not s.breaker_enabled then rotate p p.urls else pick_closed s p exclude now

-- `record`: one attempt's outcome, folded into the replica's breaker.
folded : Option FailureKind → ReplicaBreaker → ℕ → ReplicaBreaker
unfolding record_success record_failure
folded none b now = record_success b now
folded (some kind) b now = record_failure b kind now

unfoldable pub record_outcome : UpstreamPool → String → Option Exc → Option ℕ → ℕ → UpstreamPool
unfolding folded
record_outcome p url exc status_code now =
    let (b, reg) = get p.breakers url in
    record p { breakers = set url (folded (classify exc status_code) b now) reg }

-- `_label`: the place of a URL in the list, as a text.
label_from : ℕ → List String → String → String
label_from i [] url = "unknown"
label_from i (u ∷ us) url = if str_eq u url then str_of_ℕ i else label_from (i + 1) us url

unfoldable pub label_of : UpstreamPool → String → String
unfolding label_from
label_of p url = label_from 0 p.urls url
