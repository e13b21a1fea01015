-- ===== src/Client/Routing.antt =====
-- Which replica `pick` chooses, and when it refuses.
use inference_box.Prelude.{
  ℕ, ◌+◌, ◌%◌, min, String, List, [], ◌∷◌, Bool, true, false, ◌&&◌, Option, none, some, ◌≡◌, refl,
  sym, ap, ◌∙◌, subst, length, get_elem?, ok, raises, Result, arith, All, select, select-All_of,
  All-get_elem?, get_elem?-lt,
}
use mathlib.Core.Path.{fun_ext, ap₂}
use inference_box.Dict.{member}
use inference_box.Dict.Laws.{All-member}
use inference_box.Breaker.{allows, seconds_until_probe}
use inference_box.Breaker.Registry.{
  BreakerRegistry, get, breaker_of, get-breaker_of, breaker_of-get,
}
use inference_box.Client.{
  UpstreamPool, PoolError, all_replicas_open, Settings, differs, candidates, least_wait,
  wait_for_any, rotate, pick_closed, pick_from, with_fallback, pick,
}

-- The test that a candidate has passed.
abbrev pub is_candidate : BreakerRegistry → Option String → String → Bool
is_candidate reg exclude u = allows (breaker_of reg u) && differs u exclude

SameBreakers : BreakerRegistry → BreakerRegistry → Type 0
SameBreakers reg reg' = (j : String) → breaker_of reg' j ≡ breaker_of reg j

pub candidates-breaker_of :
    (reg : BreakerRegistry) (us : List String) (exclude : Option String) (j : String)
    → breaker_of (candidates reg us exclude).1 j ≡ breaker_of reg j
unfolding candidates
candidates-breaker_of reg [] exclude j = refl
candidates-breaker_of reg (u ∷ us) exclude j =
    candidates-breaker_of (get reg u).1 us exclude j ∙ breaker_of-get reg u j

pub candidates-eq-select :
    (reg : BreakerRegistry) (us : List String) (exclude : Option String)
    → (candidates reg us exclude).0 ≡ select (is_candidate reg exclude) us
unfolding candidates
candidates-eq-select reg [] exclude = refl
candidates-eq-select reg (u ∷ us) exclude =
    rw (get-breaker_of reg u, candidates-eq-select (get reg u).1 us exclude)
      (rw (
        fun_ext (λ (v : String). ap (λ b. allows b && differs v exclude) (breaker_of-get reg u v))))

-- `rotate` on a list that is not empty chooses one of its members.
pub rotate_cons :
    (p : UpstreamPool) (c : String) (cs : List String)
    → (u : String) × ((rotate p (c ∷ cs)).0 ≡ ok u)
      × (get_elem? (c ∷ cs) ((p.position + 1) % length (c ∷ cs)) ≡ some u)
unfolding rotate
rotate_cons p c cs =
    let (u, e) = get_elem?-lt (c ∷ cs) ((p.position + 1) % length (c ∷ cs)) (omega arith) in
    (u, rw (e, rotate) refl, e)

-- The soonest probe of the replicas listed, as `pick` computes it.
abbrev pub soonest_from : BreakerRegistry → List String → ℕ → ℕ → ℕ
soonest_from reg [] now least = least
soonest_from reg (u ∷ us) now least =
    soonest_from reg us now (min least (seconds_until_probe (breaker_of reg u) now))

abbrev pub soonest : BreakerRegistry → List String → ℕ → ℕ → ℕ
soonest reg [] now default = default
soonest reg (u ∷ us) now default =
    soonest_from reg us now (seconds_until_probe (breaker_of reg u) now)

soonest_from-same :
    (reg reg' : BreakerRegistry) (us : List String) (now least : ℕ)
    → ((j : String) → breaker_of reg' j ≡ breaker_of reg j)
    → soonest_from reg' us now least ≡ soonest_from reg us now least
soonest_from-same reg reg' [] now least h = refl
soonest_from-same reg reg' (u ∷ us) now least h = rw (h u) (soonest_from-same reg reg' us now _ h)

least_wait-eq-soonest_from :
    (reg : BreakerRegistry) (us : List String) (now least : ℕ)
    → (least_wait reg us now least).0 ≡ soonest_from reg us now least
unfolding least_wait
least_wait-eq-soonest_from reg [] now least = refl
least_wait-eq-soonest_from reg (u ∷ us) now least = rw (← get-breaker_of reg u) (
    least_wait-eq-soonest_from (get reg u).1 us now _
    ∙ soonest_from-same reg (get reg u).1 us now _ (breaker_of-get reg u))

wait_for_any-eq-soonest :
    (reg : BreakerRegistry) (us : List String) (now default : ℕ)
    → (wait_for_any reg us now default).0 ≡ soonest reg us now default
unfolding wait_for_any
wait_for_any-eq-soonest reg [] now default = refl
wait_for_any-eq-soonest reg (u ∷ us) now default = rw (get-breaker_of reg u) (
    least_wait-eq-soonest_from (get reg u).1 us now _
    ∙ soonest_from-same reg (get reg u).1 us now _ (breaker_of-get reg u))

soonest-same :
    (reg reg' : BreakerRegistry) (us : List String) (now default : ℕ)
    → ((j : String) → breaker_of reg' j ≡ breaker_of reg j)
    → soonest reg' us now default ≡ soonest reg us now default
soonest-same reg reg' [] now default h = refl
soonest-same reg reg' (u ∷ us) now default h = rw (h u) (soonest_from-same reg reg' us now _ h)

abbrev pub prefer : List String → List String → List String
prefer [] ys = ys
prefer (x ∷ xs) ys = x ∷ xs

-- The replicas that `pick` rotates over: the closed ones other than `exclude`, or else all closed
-- ones.
abbrev pub eligible : UpstreamPool → Option String → List String
eligible p exclude =
    prefer (select (is_candidate p.breakers exclude) p.urls)
      (select (is_candidate p.breakers none) p.urls)

pub with_fallback-eq-prefer :
    (first : List String) (p : UpstreamPool)
    → (with_fallback first p).0 ≡ prefer first (select (is_candidate p.breakers none) p.urls)
unfolding with_fallback
with_fallback-eq-prefer [] p = candidates-eq-select p.breakers p.urls none
with_fallback-eq-prefer (c ∷ cs) p = refl

pub with_fallback-breaker_of :
    (first : List String) (p : UpstreamPool) (j : String)
    → breaker_of (with_fallback first p).1 j ≡ breaker_of p.breakers j
unfolding with_fallback
with_fallback-breaker_of [] p j = candidates-breaker_of p.breakers p.urls none j
with_fallback-breaker_of (c ∷ cs) p j = refl

-- What `pick` answers, from the list it rotates over.
abbrev pub answer : UpstreamPool → ℕ → ℕ → List String → Result PoolError String
answer p now default [] = raises (all_replicas_open (soonest p.breakers p.urls now default))
answer p now default (c ∷ cs) = (rotate p (c ∷ cs)).0

pick_from-answer :
    (s : Settings) (p : UpstreamPool) (cs : List String) (now : ℕ)
    → (pick_from s p cs now).0 ≡ answer p now s.breaker_open_sec cs
unfolding pick_from
pick_from-answer s p [] now =
    ap (λ w. raises (all_replicas_open w)) (wait_for_any-eq-soonest p.breakers p.urls now _)
pick_from-answer s p (c ∷ cs) now = refl

answer-same :
    (p : UpstreamPool) (reg : BreakerRegistry) (now default : ℕ) (cs : List String)
    → ((j : String) → breaker_of reg j ≡ breaker_of p.breakers j)
    → answer (record p { breakers = reg }) now default cs ≡ answer p now default cs
unfolding rotate
answer-same p reg now default [] h =
    ap (λ w. raises (all_replicas_open w)) (soonest-same p.breakers reg p.urls now default h)
answer-same p reg now default (c ∷ cs) h = refl

pub is_candidate-same :
    (reg reg' : BreakerRegistry) (exclude : Option String)
    → ((j : String) → breaker_of reg' j ≡ breaker_of reg j)
    → is_candidate reg' exclude ≡ is_candidate reg exclude
is_candidate-same reg reg' exclude h = fun_ext (λ v. ap (λ b. allows b && differs v exclude) (h v))

-- The list that `pick` rotates over.
abbrev pub rotated : UpstreamPool → Option String → List String
rotated p exclude =
    let (first, reg) = candidates p.breakers p.urls exclude in
    (with_fallback first (record p { breakers = reg })).0

pub rotated-eq-eligible :
    (p : UpstreamPool) (exclude : Option String) → rotated p exclude ≡ eligible p exclude
rotated-eq-eligible p exclude =
    let reg = (candidates p.breakers p.urls exclude).1 in
    with_fallback-eq-prefer (candidates p.breakers p.urls exclude).0 (record p { breakers = reg })
    ∙ ap₂ prefer (candidates-eq-select p.breakers p.urls exclude) (
        ap (λ t. select t p.urls)
          (is_candidate-same p.breakers reg none (candidates-breaker_of p.breakers p.urls exclude)))

pub pick_on :
    (s : Settings) (p : UpstreamPool) (exclude : Option String) (now : ℕ)
    → s.breaker_enabled ≡ true
    → pick s p exclude now ≡ pick_closed s p exclude now
unfolding pick
pick_on s p exclude now e = rw (e, pick)

pub pick_off :
    (s : Settings) (p : UpstreamPool) (exclude : Option String) (now : ℕ)
    → s.breaker_enabled ≡ false
    → pick s p exclude now ≡ rotate p p.urls
unfolding pick
pick_off s p exclude now e = rw (e, pick)

-- With the breaker enabled, `pick` rotates over the eligible replicas, and where there are none it
-- raises with the time to the soonest probe.
pub pick-eq-answer :
    (s : Settings) (p : UpstreamPool) (exclude : Option String) (now : ℕ)
    → s.breaker_enabled ≡ true
    → (pick s p exclude now).0 ≡ answer p now s.breaker_open_sec (eligible p exclude)
unfolding pick_closed
pick-eq-answer s p exclude now e =
    let reg = (candidates p.breakers p.urls exclude).1 in
    let p' : UpstreamPool = record p { breakers = reg } in
    let first = (candidates p.breakers p.urls exclude).0 in
    let (cs, reg') = with_fallback first p' in
    rw (pick_on s p exclude now e) (
      pick_from-answer s (record p' { breakers = reg' }) cs now
      ∙ answer-same p reg' now s.breaker_open_sec cs (λ j.
        with_fallback-breaker_of first p' j ∙ candidates-breaker_of p.breakers p.urls exclude j)
      ∙ ap (answer p now s.breaker_open_sec) (rotated-eq-eligible p exclude))

prefer-All :
    (P : String → Type 0) (xs ys : List String) → All P xs → All P ys → All P (prefer xs ys)
prefer-All P [] ys h k = k
prefer-All P (x ∷ xs) ys h k = h

pub answer-ok :
    (P : String → Type 0) (p : UpstreamPool) (now default : ℕ) (cs : List String) (u : String)
    → All P cs
    → answer p now default cs ≡ ok u
    → P u
answer-ok P p now default [] u h e = cc
answer-ok P p now default (c ∷ cs) u h e =
    let (v, a, found) = rotate_cons p c cs in subst P (cc) (All-get_elem? P (c ∷ cs) _ h found)

-- With the breaker enabled, whatever `pick` returns is a replica of the pool whose breaker is
-- closed.
pub pick-ok :
    (s : Settings) (p : UpstreamPool) (exclude : Option String) (now : ℕ) (u : String)
    → s.breaker_enabled ≡ true
    → (pick s p exclude now).0 ≡ ok u
    → (member u p.urls ≡ true) × (allows (breaker_of p.breakers u) ≡ true)
pick-ok s p exclude now u on e =
    let Q : String → Type 0 =
      λ v. (member v p.urls ≡ true) × (allows (breaker_of p.breakers v) ≡ true) in
    answer-ok Q p now s.breaker_open_sec (eligible p exclude) u
      (prefer-All Q _ _
        (select-All_of _ Q (is_candidate p.breakers exclude) p.urls (λ v k h. (k, ground arith))
          (All-member p.urls))
        (select-All_of _ Q (is_candidate p.breakers none) p.urls (λ v k h. (k, ground arith))
          (All-member p.urls)))
      (sym (pick-eq-answer s p exclude now on) ∙ e)
