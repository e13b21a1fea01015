-- ===== src/Client/Reachability.antt =====
-- UpstreamPool.health and UpstreamPool.probe of gateway/upstream/client.py, and the readiness route
-- of gateway/routes/health.py over them. What a GET of a URL comes back with is an argument: a
-- status, or nothing when it raises.
use inference_box.Prelude.{
  ℕ, ◌≡◌, refl, ◌∙◌, ◌↔◌, ◌⊎◌, sym, ap, String, List, [], ◌∷◌, Bool, true, false, ◌||◌, Option,
  none, some, ltb, str_eq, eq_iff, arith, if◌then◌else◌, Any, inl, inr, Bool-cases,
}
use inference_box.Prelude.Text.{rstrip_slash}
use Prim.Native.String
use inference_box.Dict.{Dict, get?, set, values, member}
use inference_box.Dict.Laws.{get?-set}
use inference_box.Breaker.Registry.{snapshot}
use inference_box.Client.{UpstreamPool}

answers_well : Option ℕ → Bool
answers_well none = false
answers_well (some status_code) = ltb status_code 400

-- What `readyz` answers; `pool.health` catches whatever a GET raises, so the route's own handler
-- has nothing to catch.
pub record Readiness : Type 0 where
  pub status : ℕ
  pub verdict : String
  pub upstreams : Dict Bool
  pub breaker_states : Dict String

abbrev any_true : List Bool → Bool
any_true [] = false
any_true (b ∷ bs) = b || any_true bs

or_again : (a b : Bool) → (a || b) ≡ (a || (a || b))
or_again a b = ground arith

or_swap : (a b c : Bool) → (a || (b || c)) ≡ (b || (a || c))
or_swap a b c = ground arith

or_move : (a b c : Bool) → ((a || b) || c) ≡ (b || (a || c))
or_move a b c = ground arith

or_none : (a : Bool) → a ≡ (a || false)
or_none a = ground arith

abbrev ready_status : Bool → ℕ
ready_status b = if b then 200 else 503

status_200 : (b : Bool) → ready_status b ≡ 200 → b ≡ true
status_200 b e = ground arith

status_cases : (b : Bool) → (ready_status b ≡ 200) ⊎ (ready_status b ≡ 503)
status_cases true = inl refl
status_cases false = inr refl

module _ (fetch : String → Option ℕ) where
  unfoldable pub probe : String → Bool
  unfolding answers_well
  probe url = answers_well (fetch (String.◌++◌ (rstrip_slash url) "/models"))

  -- The loop of `health`.
  health_onto : Dict Bool → List String → Dict Bool
  unfolding probe
  health_onto out [] = out
  health_onto out (url ∷ urls) = health_onto (set url (probe url) out) urls

  unfoldable pub health : UpstreamPool → Dict Bool
  unfolding health_onto
  health p = health_onto [] p.urls

  unfoldable pub readyz : UpstreamPool → Readiness
  unfolding health
  readyz p =
      let replicas = health p in
      let ready = any_true (values replicas) in
      record {
        status = ready_status ready;
        verdict = if ready then "ok" else "unavailable";
        upstreams = replicas;
        breaker_states = snapshot p.breakers;
      }

  -- Every entry says what a probe of its key says.
  abbrev IsProbed : Dict Bool → Type 0
  IsProbed [] = Unit {0}
  IsProbed ((k, c) ∷ out) = (c ≡ probe k) × IsProbed out

  set-IsProbed :
      (url : String) (out : Dict Bool) → IsProbed out → IsProbed (set url (probe url) out)
  unfolding set
  set-IsProbed url [] h = (refl, tt)
  set-IsProbed url ((k, c) ∷ out) (e, h) = elim (Bool-cases (str_eq k url)) [
    | inl q ↦ (let same : k ≡ url = ground (arith, eq_iff k url) in rw q (ap probe (sym same), h))
    | inr q ↦ rw q (e, set-IsProbed url out h)
  ]

  any_true-set :
      (url : String) (out : Dict Bool)
      → IsProbed out
      → any_true (values (set url (probe url) out)) ≡ (probe url || any_true (values out))
  unfolding set
  any_true-set url [] h = refl
  any_true-set url ((k, c) ∷ out) (e, h) = elim (Bool-cases (str_eq k url)) [
    | inl q ↦
        (let same : k ≡ url = ground (arith, eq_iff k url) in
          let own : c ≡ probe url = e ∙ ap probe same in
          rw (q, own) (or_again (probe url) (any_true (values out))))
    | inr q ↦
        rw q (
          ap (λ x. c || x) (any_true-set url out h) ∙ or_swap c (probe url) (any_true (values out)))
  ]

  abbrev pub any_probe : List String → Bool
  any_probe [] = false
  any_probe (u ∷ us) = probe u || any_probe us

  any_true-health_onto :
      (out : Dict Bool) (urls : List String)
      → IsProbed out
      → any_true (values (health_onto out urls)) ≡ (any_true (values out) || any_probe urls)
  unfolding health_onto
  any_true-health_onto out [] h = or_none (any_true (values out))
  any_true-health_onto out (u ∷ us) h =
      any_true-health_onto (set u (probe u) out) us (set-IsProbed u out h)
      ∙ ap (λ x. x || any_probe us) (any_true-set u out h)
      ∙ or_move (probe u) (any_true (values out)) (any_probe us)

  get?-health_onto :
      (out : Dict Bool) (urls : List String) (url : String)
      → get? url (health_onto out urls)
        ≡ (if member url urls then some (probe url) else get? url out)
  unfolding health_onto
  get?-health_onto out [] url = refl
  get?-health_onto out (u ∷ us) url =
      get?-health_onto (set u (probe u) out) us url ∙ elim (Bool-cases (str_eq u url)) [
        | inl q ↦
            (let same : u ≡ url = ground (arith, eq_iff u url) in
              rw (q, get?-set u url (probe u) out, q) (kept same (member url us)))
        | inr q ↦ rw (get?-set u url (probe u) out, q) refl
      ]
    where
      kept :
          u ≡ url → (b : Bool) → (if b then some (probe url) else some (probe u)) ≡ some (probe url)
      kept e true = refl
      kept e false = ap (λ x. some (probe x)) e

  any_probe_iff :
      (urls : List String) → (any_probe urls ≡ true) ↔ Any (λ (u : String). probe u ≡ true) urls
  any_probe_iff [] = (λ e. cc, λ h. absurd h)
  any_probe_iff (u ∷ us) = ground (arith, any_probe_iff us)

  -- The gateway is ready, with status 200, exactly when a probe of some replica succeeds, whatever
  -- the breakers say, and it is answered 503 otherwise; and it reports for each replica of the pool
  -- what a probe of it says, with the states of all breakers.
  pub readyz_iff :
      (p : UpstreamPool)
      → (((readyz p).status ≡ 200) ↔ Any (λ (u : String). probe u ≡ true) p.urls)
        × (((readyz p).status ≡ 200) ⊎ ((readyz p).status ≡ 503))
        × ((url : String)
            → member url p.urls ≡ true
            → get? url (readyz p).upstreams ≡ some (probe url))
        × ((readyz p).breaker_states ≡ snapshot p.breakers)
  unfolding readyz health
  readyz_iff p =
      let ready = any_true-health_onto [] p.urls tt in
      let seen = any_probe_iff p.urls in
      (
        (
          λ e. seen.0 (sym ready ∙ status_200 (any_true (values (health_onto [] p.urls))) e),
          λ h. ap ready_status (ready ∙ seen.1 h),
        ),
        status_cases (any_true (values (health_onto [] p.urls))),
        λ url m.
            get?-health_onto [] p.urls url
            ∙ ap (λ b. if b then some (probe url) else get? url []) m,
        refl,
      )
