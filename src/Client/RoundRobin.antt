-- ===== src/Client/RoundRobin.antt =====
-- `pick` over successive calls: what it changes, and the order it serves the replicas in.
use mathlib.Core.Path.{ap₂}
use native.Mathlib.Nat.{mod-add-mod, add-zero}
use inference_box.Prelude.{
  ℕ, zero, suc, ◌+◌, ◌%◌, ◌<◌, String, List, [], ◌∷◌, true, false, Option, none, some, ◌≡◌, refl,
  ◌≢◌, ◌⊎◌, inl, inr, sym, ap, ◌∙◌, length, get_elem?, ok, Result, arith, All, select, select-All,
  All-mono, Bool-cases,
}
use inference_box.Breaker.{allows}
use inference_box.Breaker.Registry.{BreakerRegistry, get, breaker_of, breaker_of-get}
use inference_box.Client.{
  UpstreamPool, PoolError, Settings, candidates, least_wait, wait_for_any, with_fallback, pick_from,
  pick_closed, rotate, pick,
}
use inference_box.Client.Routing.{
  is_candidate, candidates-breaker_of, with_fallback-breaker_of, prefer, rotated-eq-eligible,
  pick_on, pick_off,
}

least_wait-breaker_of :
    (reg : BreakerRegistry) (us : List String) (now least : ℕ) (j : String)
    → breaker_of (least_wait reg us now least).1 j ≡ breaker_of reg j
unfolding least_wait
least_wait-breaker_of reg [] now least j = refl
least_wait-breaker_of reg (u ∷ us) now least j =
    least_wait-breaker_of (get reg u).1 us now _ j ∙ breaker_of-get reg u j

wait_for_any-breaker_of :
    (reg : BreakerRegistry) (us : List String) (now default : ℕ) (j : String)
    → breaker_of (wait_for_any reg us now default).1 j ≡ breaker_of reg j
unfolding wait_for_any
wait_for_any-breaker_of reg [] now default j = refl
wait_for_any-breaker_of reg (u ∷ us) now default j =
    least_wait-breaker_of (get reg u).1 us now _ j ∙ breaker_of-get reg u j

pick_from-keeps :
    (s : Settings) (p : UpstreamPool) (cs : List String) (now : ℕ)
    → ((pick_from s p cs now).1.urls ≡ p.urls)
      × ((j : String) → breaker_of (pick_from s p cs now).1.breakers j ≡ breaker_of p.breakers j)
unfolding pick_from rotate
pick_from-keeps s p [] now = (refl, wait_for_any-breaker_of p.breakers p.urls now _)
pick_from-keeps s p (c ∷ cs) now = (refl, λ j. refl)

pick_closed-keeps :
    (s : Settings) (p : UpstreamPool) (exclude : Option String) (now : ℕ)
    → ((pick_closed s p exclude now).1.urls ≡ p.urls)
      × ((j : String)
          → breaker_of (pick_closed s p exclude now).1.breakers j ≡ breaker_of p.breakers j)
unfolding pick_closed
pick_closed-keeps s p exclude now =
    let first = (candidates p.breakers p.urls exclude).0 in
    let p' : UpstreamPool = record p { breakers = (candidates p.breakers p.urls exclude).1 } in
    let (cs, reg') = with_fallback first p' in
    let (urls_same, same) = pick_from-keeps s (record p' { breakers = reg' }) cs now in
    (
      urls_same,
      λ j.
          same j
          ∙ with_fallback-breaker_of first p' j
          ∙ candidates-breaker_of p.breakers p.urls exclude j,
    )

-- `pick` changes no breaker and no list of replicas, whatever it answers.
pub pick-keeps :
    (s : Settings) (p : UpstreamPool) (exclude : Option String) (now : ℕ)
    → ((pick s p exclude now).1.urls ≡ p.urls)
      × ((j : String) → breaker_of (pick s p exclude now).1.breakers j ≡ breaker_of p.breakers j)
unfolding rotate
pick-keeps s p exclude now = elim (Bool-cases s.breaker_enabled) [
  | inl on ↦ rw (pick_on s p exclude now on) (pick_closed-keeps s p exclude now)
  | inr off ↦ rw (pick_off s p exclude now off) (refl, λ j. refl)
]

abbrev pub AllClosed : UpstreamPool → Type 0
AllClosed p = All (λ u. allows (breaker_of p.breakers u) ≡ true) p.urls

-- Nothing is withheld: the breaker is off, or every replica is closed.
abbrev pub IsUnrestricted : Settings → UpstreamPool → Type 0
IsUnrestricted s p = (s.breaker_enabled ≡ false) ⊎ AllClosed p

pick_from-rotates :
    (s : Settings) (p : UpstreamPool) (cs : List String) (now : ℕ)
    → cs ≢ []
    → pick_from s p cs now ≡ rotate p cs
unfolding pick_from
pick_from-rotates s p [] now h = absurd (h refl)
pick_from-rotates s p (c ∷ cs) now h = refl

prefer_self : (xs : List String) → prefer xs xs ≡ xs
prefer_self [] = refl
prefer_self (x ∷ xs) = refl

closed_when_on :
    (s : Settings) (p : UpstreamPool) → s.breaker_enabled ≡ true → IsUnrestricted s p → AllClosed p
closed_when_on s p on (inl off) = absurd (cc)
closed_when_on s p on (inr c) = c

pick_closed-rotates :
    (s : Settings) (p : UpstreamPool) (now : ℕ)
    → p.urls ≢ []
    → AllClosed p
    → ((pick_closed s p none now).0 ≡ (rotate p p.urls).0)
      × ((pick_closed s p none now).1.position ≡ (p.position + 1) % length p.urls)
unfolding pick_closed rotate
pick_closed-rotates s p now h c =
    let (first, reg) = candidates p.breakers p.urls none in
    let (cs, reg') = with_fallback first (record p { breakers = reg }) in
    let q : UpstreamPool = record p { breakers = reg' } in
    let every : select (is_candidate p.breakers none) p.urls ≡ p.urls =
      select-All _ p.urls (All-mono _ _ p.urls (λ u k. ground arith) c) in
    let listed : cs ≡ p.urls =
      rotated-eq-eligible p none ∙ ap₂ prefer every every ∙ prefer_self p.urls in
    let turn = pick_from-rotates s q cs now (λ e. h (sym listed ∙ e)) in
    (
      ap (λ r. r.0) turn ∙ ap (λ l. (rotate q l).0) listed,
      ap (λ r. r.1.position) turn ∙ ap (λ l. (rotate q l).1.position) listed,
    )

-- Then one call answers with the next replica in the list, and moves the position on to it.
pick_unrestricted :
    (s : Settings) (p : UpstreamPool) (now : ℕ)
    → p.urls ≢ []
    → IsUnrestricted s p
    → ((pick s p none now).0 ≡ (rotate p p.urls).0)
      × ((pick s p none now).1.position ≡ (p.position + 1) % length p.urls)
unfolding rotate
pick_unrestricted s p now h c = elim (Bool-cases s.breaker_enabled) [
  | inl on ↦ rw (pick_on s p none now on) (pick_closed-rotates s p now h (closed_when_on s p on c))
  | inr off ↦ rw (pick_off s p none now off) (refl, refl)
]

pick-IsUnrestricted :
    (s : Settings) (p : UpstreamPool) (now : ℕ)
    → IsUnrestricted s p
    → IsUnrestricted s (pick s p none now).1
pick-IsUnrestricted s p now (inl off) = inl off
pick-IsUnrestricted s p now (inr c) =
    let (urls_same, same) = pick-keeps s p none now in
    inr (rw urls_same (All-mono _ _ p.urls (λ u k. ap allows (same u) ∙ k) c))

-- The answers to a number of calls, one after another, none of which excludes a replica.
unfoldable pub picks : Settings → UpstreamPool → List ℕ → List (Result PoolError String)
picks s p [] = []
picks s p (now ∷ times) = let (answer, p') = pick s p none now in answer ∷ picks s p' times

rotate-answer :
    (p : UpstreamPool) (us : List String) (u : String)
    → get_elem? us ((p.position + 1) % length us) ≡ some u
    → (rotate p us).0 ≡ ok u
unfolding rotate
rotate-answer p us u e = rw (e, rotate)

turned : (a n i : ℕ) → ((a + 1) % n + 1 + i) % n ≡ (a + 1 + suc i) % n
turned a n i =
    ap (λ t. t % n) (omega arith) ∙ mod-add-mod (a + 1) n (1 + i) ∙ ap (λ t. t % n) (omega arith)

-- Where nothing is withheld, successive calls answer with the replicas in the order of the list,
-- round and round, from the one after the current position: the call number `i` (from 0) with
-- the one at `position + 1 + i` modulo their number.
pub picks-round_robin :
    (s : Settings) (p : UpstreamPool) (times : List ℕ) (i : ℕ) (u : String)
    → p.urls ≢ []
    → IsUnrestricted s p
    → i < length times
    → get_elem? p.urls ((p.position + 1 + i) % length p.urls) ≡ some u
    → get_elem? (picks s p times) i ≡ some (ok u)
unfolding picks
picks-round_robin s p [] i u h c l e = elim l [ ]
picks-round_robin s p (now ∷ times) zero u h c l e = ap some (
    (pick_unrestricted s p now h c).0
    ∙ rotate-answer p p.urls u (rw (← add-zero (p.position + 1)) e))
picks-round_robin s p (now ∷ times) (suc i) u h c l e =
    let p' = (pick s p none now).1 in
    let urls_same = (pick-keeps s p none now).0 in
    let moved = (pick_unrestricted s p now h c).1 in
    let index : (p'.position + 1 + i) % length p'.urls ≡ (p.position + 1 + suc i) % length p.urls =
      ap₂ (λ a n. (a + 1 + i) % n) moved (ap length urls_same)
      ∙ turned p.position (length p.urls) i in
    picks-round_robin s p' times i u (λ n. h (sym urls_same ∙ n)) (pick-IsUnrestricted s p now c)
      (omega arith) (ap₂ get_elem? urls_same index ∙ e)
