-- ===== src/Client/Refusal.antt =====
-- When `pick` refuses, what it announces, and what `exclude` does.
use inference_box.Prelude.{
  ℕ, ◌≤◌, min, String, List, [], ◌∷◌, true, false, Option, none, some, ◌≡◌, refl, ◌≢◌, ◌↔◌, ◌⊎◌,
  inl, sym, ◌∙◌, eq_iff, ok, raises, arith, All, Any, select, select-eq-nil_iff, select-ne-nil,
  select-All_of, All-mono,
}
use inference_box.Dict.{member}
use inference_box.Dict.Laws.{All-member}
use inference_box.Breaker.{allows, seconds_until_probe}
use inference_box.Breaker.Registry.{BreakerRegistry, breaker_of}
use inference_box.Client.{UpstreamPool, PoolError, all_replicas_open, Settings, pick}
use inference_box.Client.Routing.{
  is_candidate, soonest_from, soonest, prefer, eligible, answer, rotate_cons, pick-eq-answer,
  answer-ok,
}

-- The breaker of a replica is not closed.
abbrev pub IsOpen : UpstreamPool → String → Type 0
IsOpen p u = allows (breaker_of p.breakers u) ≡ false

prefer-eq-nil_iff : (xs ys : List String) → (prefer xs ys ≡ []) ↔ ((xs ≡ []) × (ys ≡ []))
prefer-eq-nil_iff [] ys = ground arith
prefer-eq-nil_iff (x ∷ xs) ys = ground arith

eligible-eq-nil_iff :
    (p : UpstreamPool) (exclude : Option String) → (eligible p exclude ≡ []) ↔ All (IsOpen p) p.urls
eligible-eq-nil_iff p exclude =
    let every = is_candidate p.breakers none in
    let other = is_candidate p.breakers exclude in
    let split = prefer-eq-nil_iff (select other p.urls) (select every p.urls) in
    (
      λ e.
          All-mono (λ u. every u ≡ false) (IsOpen p) p.urls (λ u h. ground arith)
            ((select-eq-nil_iff every p.urls).0 (split.0 e).1),
      λ h. split.1 (
        (select-eq-nil_iff other p.urls).1
            (All-mono (IsOpen p) (λ u. other u ≡ false) p.urls (λ u k. ground arith) h),
        (select-eq-nil_iff every p.urls).1
            (All-mono (IsOpen p) (λ u. every u ≡ false) p.urls (λ u k. ground arith) h),
      ),
    )

answer-refuses :
    (p : UpstreamPool) (now default : ℕ) (error : PoolError) (cs : List String)
    → answer p now default cs ≡ raises error
    → (cs ≡ []) × (error ≡ all_replicas_open (soonest p.breakers p.urls now default))
answer-refuses p now default error [] e = (refl, cc)
answer-refuses p now default error (c ∷ cs) e =
    let (v, a, found) = rotate_cons p c cs in absurd (cc)

-- With the breaker enabled, `pick` raises exactly when every replica's breaker is open or
-- half-open, whatever is excluded, and whatever it raises is `AllReplicasOpen` with the time to the
-- soonest probe.
pub pick-refuses_iff :
    (s : Settings) (p : UpstreamPool) (exclude : Option String) (now : ℕ)
    → s.breaker_enabled ≡ true
    → (((error : PoolError) × ((pick s p exclude now).0 ≡ raises error)) ↔ All (IsOpen p) p.urls)
      × ((error : PoolError)
          → (pick s p exclude now).0 ≡ raises error
          → error ≡ all_replicas_open (soonest p.breakers p.urls now s.breaker_open_sec))
pick-refuses_iff s p exclude now on =
    let e = pick-eq-answer s p exclude now on in
    (
      (
        λ (error, r).
            (eligible-eq-nil_iff p exclude).0
              (answer-refuses p now s.breaker_open_sec error (eligible p exclude) (sym e ∙ r)).0,
        λ h. (
          all_replicas_open (soonest p.breakers p.urls now s.breaker_open_sec),
          e ∙ (rw ((eligible-eq-nil_iff p exclude).1 h) refl),
        ),
      ),
      λ error r. (answer-refuses p now s.breaker_open_sec error (eligible p exclude) (sym e ∙ r)).1,
    )

soonest_from-least :
    (reg : BreakerRegistry) (us : List String) (now least : ℕ)
    → (soonest_from reg us now least ≤ least)
      × All (λ u. soonest_from reg us now least ≤ seconds_until_probe (breaker_of reg u) now) us
soonest_from-least reg [] now least = (omega arith, tt)
soonest_from-least reg (u ∷ us) now least =
    let ih =
      soonest_from-least reg us now (min least (seconds_until_probe (breaker_of reg u) now)) in
    (omega arith, (omega arith, ih.1))

soonest_from-attained :
    (reg : BreakerRegistry) (us : List String) (now least : ℕ)
    → (soonest_from reg us now least ≡ least)
      ⊎ Any (λ u. seconds_until_probe (breaker_of reg u) now ≡ soonest_from reg us now least) us
soonest_from-attained reg [] now least = inl refl
soonest_from-attained reg (u ∷ us) now least = ground (
  arith,
  soonest_from-attained reg us now (min least (seconds_until_probe (breaker_of reg u) now)),
)

-- The announced time is the least wait of any replica, and some replica has it.
pub soonest-least :
    (reg : BreakerRegistry) (us : List String) (now default : ℕ)
    → us ≢ []
    → All (λ u. soonest reg us now default ≤ seconds_until_probe (breaker_of reg u) now) us
      × Any (λ u. seconds_until_probe (breaker_of reg u) now ≡ soonest reg us now default) us
soonest-least reg [] now default h = absurd (h refl)
soonest-least reg (u ∷ us) now default h =
    let w = seconds_until_probe (breaker_of reg u) now in
    (
      (omega (arith, (soonest_from-least reg us now w).0), (soonest_from-least reg us now w).1),
      ground (arith, soonest_from-attained reg us now w),
    )

-- A retry goes elsewhere: with the breaker enabled, and some closed replica other than the
-- excluded one, `pick` does not return the excluded one.
pub pick-ne-exclude :
    (s : Settings) (p : UpstreamPool) (e : String) (now : ℕ) (u : String)
    → s.breaker_enabled ≡ true
    → Any (λ v. is_candidate p.breakers (some e) v ≡ true) p.urls
    → (pick s p (some e) now).0 ≡ ok u
    → u ≢ e
pick-ne-exclude s p e now u on other chosen =
    answer-ok (λ v. v ≢ e) p now s.breaker_open_sec (eligible p (some e)) u
      (rw (prefer_first _ _ (select-ne-nil _ p.urls other)) (
        select-All_of (λ v. member v p.urls ≡ true) (λ v. v ≢ e) _ p.urls
          (λ v k h same. ground (arith, eq_iff v e)) (All-member p.urls)))
      (sym (pick-eq-answer s p (some e) now on) ∙ chosen)
  where
    prefer_first : (xs ys : List String) → xs ≢ [] → prefer xs ys ≡ xs
    prefer_first [] ys h = absurd (h refl)
    prefer_first (x ∷ xs) ys h = refl
