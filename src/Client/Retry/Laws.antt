-- ===== src/Client/Retry/Laws.antt =====
-- What a run of `_with_retry` can do, whatever the upstream answers and the other tasks do.
use inference_box.Prelude.{
  ℕ, zero, suc, ◌+◌, ◌≤◌, ◌<◌, ◌≡◌, refl, ◌≢◌, ◌⊎◌, inl, inr, String, List, [], ◌∷◌, ◌++◌, Bool,
  true, false, ◌||◌, ◌&&◌, not, leb, Option, none, some, arith, Bool-cases, Result, ok, raises,
}
use inference_box.Client.{UpstreamPool, Settings, PoolError, pick}
use inference_box.Client.Outcomes.{Response, Outcome, response, exception, should_retry}
use inference_box.Client.Retry.{
  max_attempts, Attempt, Effect, sent, counted, closed_unread, slept, Ending, responded, refused,
  unreachable, closing_failed, no_attempt, Run, is_success, is_discarded, conclude, discarded,
  prepend, attempt_with, attempt_picked, attempts, with_retry, url_of,
}

abbrev pub count_sent : List Effect → ℕ
count_sent [] = 0
count_sent (sent u o ∷ es) = suc (count_sent es)
count_sent (_ ∷ es) = count_sent es

-- The responses received, and those closed unread.
abbrev pub count_responses : List Effect → ℕ
count_responses [] = 0
count_responses (sent u (response r) ∷ es) = suc (count_responses es)
count_responses (_ ∷ es) = count_responses es

abbrev pub count_closed : List Effect → ℕ
count_closed [] = 0
count_closed (closed_unread r ∷ es) = suc (count_closed es)
count_closed (_ ∷ es) = count_closed es

abbrev pub count_returned : Ending → ℕ
count_returned (responded u r) = 1
count_returned _ = 0

-- Each attempt but the last came to an outcome that is safe to retry.
abbrev pub RetriesSafely : List Effect → Type 0
RetriesSafely [] = Unit {0}
RetriesSafely (sent u o ∷ es) = ((count_sent es ≡ 0) ⊎ (should_retry o ≡ true)) × RetriesSafely es
RetriesSafely (_ ∷ es) = RetriesSafely es

-- The last attempt was sent to this replica, with this outcome.
abbrev pub EndsWith : String → Outcome → List Effect → Type 0
EndsWith u o [] = ⊥
EndsWith u o (sent v q ∷ es) = EndsWith u o es ⊎ ((count_sent es ≡ 0) × (v ≡ u) × (q ≡ o))
EndsWith u o (_ ∷ es) = EndsWith u o es

abbrev no_response : Response
no_response = record { status_code = 0; retry_after = none }

-- What the ending owes to the effects, and a refusal to a `pick` that left the pool as it is.
abbrev pub Explains : Settings → UpstreamPool → Ending → List Effect → Type 0
Explains s p (responded u r) es = EndsWith u (response r) es
Explains s p (unreachable e u) es = EndsWith u (exception e) es
Explains s p (refused e) es =
    (q : UpstreamPool) × (exclude : Option String) × (now : ℕ) × (pick s q exclude now
      ≡ (raises e, p))
Explains s p closing_failed es =
    (u : String) × (r : Response) × EndsWith u (response r) es × (should_retry (response r) ≡ true)
Explains s p no_attempt es = Unit {0}

pub record IsSound (s : Settings) (stream : Bool) (rounds : ℕ) (r : Run) : Type 0 where
  pub bounded : count_sent r.effects ≤ rounds
  pub safe : RetriesSafely r.effects
  pub explained : Explains s r.pool r.ending r.effects
  pub kept_open : stream ≡ false → count_closed r.effects ≡ 0
  pub closed_all :
      stream ≡ true → count_closed r.effects + count_returned r.ending ≡ count_responses r.effects

module _ (s : Settings) (p : UpstreamPool) where
  Explains-sent :
      (e : Ending) (u : String) (o : Outcome) (es : List Effect)
      → Explains s p e es
      → Explains s p e (sent u o ∷ es)
  Explains-sent (responded v r) u o es h = inl h
  Explains-sent (unreachable x v) u o es h = inl h
  Explains-sent (refused e) u o es h = h
  Explains-sent closing_failed u o es (v, r, h, k) = (v, r, inl h, k)
  Explains-sent no_attempt u o es h = tt

  Explains-other :
      (e : Ending) (es : List Effect) (label text : String) (r : Response) (ms : ℕ)
      → Explains s p e es
      → Explains s p e (counted label text ∷ slept ms ∷ es)
        × Explains s p e (counted label text ∷ closed_unread r ∷ slept ms ∷ es)
  Explains-other (responded v q) es label text r ms h = (h, h)
  Explains-other (unreachable x v) es label text r ms h = (h, h)
  Explains-other (refused e) es label text r ms h = (h, h)
  Explains-other closing_failed es label text r ms h = (h, h)
  Explains-other no_attempt es label text r ms h = (tt, tt)

-- A round that is given up for the next one.
retried-IsSound :
    (s : Settings) (stream : Bool) (rounds : ℕ) (u label text : String) (o : Outcome) (ms : ℕ)
    (run : Run)
    → should_retry o ≡ true
    → IsSound s stream rounds run
    → IsSound s stream
        (suc rounds)
        (prepend ((sent u o ∷ counted label text ∷ []) ++ discarded stream o ++ slept ms ∷ []) run)
retried-IsSound s true rounds u label text (response r) ms run h v = record {
  bounded = omega (arith, v.bounded);
  safe = (inr h, v.safe);
  explained =
      Explains-sent s run.pool run.ending u _ _
        (Explains-other s run.pool run.ending _ label text r ms v.explained).1;
  kept_open = λ e. cc;
  closed_all = λ e. omega (arith, v.closed_all refl);
}
retried-IsSound s true rounds u label text (exception e) ms run h v = record {
  bounded = omega (arith, v.bounded);
  safe = (inr h, v.safe);
  explained =
      Explains-sent s run.pool run.ending u _ _
        (Explains-other s run.pool run.ending _ label text no_response ms v.explained).0;
  kept_open = λ e. cc;
  closed_all = λ e. v.closed_all refl;
}
retried-IsSound s false rounds u label text o ms run h v = record {
  bounded = omega (arith, v.bounded);
  safe = (inr h, v.safe);
  explained =
      Explains-sent s run.pool run.ending u _ _
        (Explains-other s run.pool run.ending _ label text no_response ms v.explained).0;
  kept_open = λ e. v.kept_open refl;
  closed_all = λ e. cc;
}

-- A round that ends the run.
concluded-IsSound :
    (s : Settings) (stream : Bool) (rounds : ℕ) (u label text : String) (o : Outcome)
    (p : UpstreamPool)
    → IsSound s stream
        (suc rounds)
        (record { ending = conclude u o; pool = p; effects = sent u o ∷ counted label text ∷ [] })
concluded-IsSound s stream rounds u label text (response r) p = record {
  bounded = omega arith;
  safe = (inl refl, tt);
  explained = inr (refl, refl, refl);
  kept_open = λ e. refl;
  closed_all = λ e. refl;
}
concluded-IsSound s stream rounds u label text (exception e) p = record {
  bounded = omega arith;
  safe = (inl refl, tt);
  explained = inr (refl, refl, refl);
  kept_open = λ e. refl;
  closed_all = λ e. refl;
}

-- A round whose response is given up, and cannot be closed.
unclosed-IsSound :
    (s : Settings) (stream : Bool) (rounds : ℕ) (u label text : String) (o : Outcome)
    (p : UpstreamPool)
    → is_discarded stream o ≡ true
    → should_retry o ≡ true
    → IsSound s stream (suc rounds) (record {
      ending = closing_failed;
      pool = p;
      effects = (sent u o ∷ counted label text ∷ []) ++ discarded stream o;
    })
unclosed-IsSound s true rounds u label text (response r) p h k = record {
  bounded = omega arith;
  safe = (inl refl, tt);
  explained = (u, r, inr (refl, refl, refl), k);
  kept_open = λ e. cc;
  closed_all = λ e. refl;
}
unclosed-IsSound s true rounds u label text (exception e) p h k = cc
unclosed-IsSound s false rounds u label text o p h k = cc

concludes : (u : String) (o : Outcome) → conclude u o ≢ no_attempt
concludes u (response r) = λ e. cc
concludes u (exception x) = λ e. cc

module _ (s : Settings) (path : String) (stream : Bool) (meets : ℕ → Attempt) where
  attempt_with-IsSound :
      (again : UpstreamPool → Option String → Run) (rounds attempt : ℕ) (p : UpstreamPool)
      (u : String) (o : Outcome)
      → ((q : UpstreamPool) (x : Option String) → IsSound s stream rounds (again q x))
      → IsSound s stream (suc rounds) (attempt_with s path stream meets again attempt p u o)
  unfolding attempt_with
  attempt_with-IsSound again rounds attempt p u o ih =
      elim (Bool-cases (is_success o || leb max_attempts (attempt + 1) || not (should_retry o))) [
        | inl stop ↦ rw (stop, attempt_with) (concluded-IsSound s stream rounds u _ _ o _)
        | inr go ↦
            (let again_is_safe : should_retry o ≡ true = ground arith in
              elim (Bool-cases (is_discarded stream o && (meets attempt).closing_raises)) [
                | inl stuck ↦
                    rw (go, stuck, attempt_with)
                      (unclosed-IsSound s stream rounds u _ _ o _ (ground arith) again_is_safe)
                | inr shut ↦
                    rw (go, shut, attempt_with)
                      (retried-IsSound s stream rounds u _ _ o _ _ again_is_safe (ih _ (some u)))
              ])
      ]

  attempt_picked-IsSound :
      (again : UpstreamPool → Option String → Run) (rounds attempt : ℕ)
      (picked : Result PoolError String × UpstreamPool) (before : UpstreamPool)
      (exclude : Option String) (now : ℕ)
      → pick s before exclude now ≡ picked
      → ((q : UpstreamPool) (x : Option String) → IsSound s stream rounds (again q x))
      → IsSound s stream (suc rounds) (attempt_picked s path stream meets again attempt picked)
  unfolding attempt_picked
  attempt_picked-IsSound again rounds attempt (raises e, p) before exclude now h ih = record {
    bounded = omega arith;
    safe = tt;
    explained = (before, exclude, now, h);
    kept_open = λ e. refl;
    closed_all = λ e. refl;
  }
  attempt_picked-IsSound again rounds attempt (ok u, p) before exclude now h ih =
      attempt_with-IsSound again rounds attempt p u ((meets attempt).reply (url_of u path)) ih

  attempts-IsSound :
      (rounds attempt : ℕ) (p : UpstreamPool) (x : Option String)
      → IsSound s stream rounds (attempts s path stream meets rounds attempt p x)
  unfolding attempts
  attempts-IsSound zero attempt p x = record {
    bounded = omega arith;
    safe = tt;
    explained = tt;
    kept_open = λ e. refl;
    closed_all = λ e. refl;
  }
  attempts-IsSound (suc rounds) attempt p x =
      attempt_picked-IsSound _ rounds attempt (pick s p x (meets attempt).picked_at) p x
        (meets attempt).picked_at refl (attempts-IsSound rounds (attempt + 1))

  -- Whatever the replicas answer and the other tasks do to the pool, a run sends at most two
  -- requests, and a second one only after an outcome that is safe to retry. The response that it
  -- returns, or the connection error that it raises, is that of the last request; a refusal that it
  -- raises is that of a `pick` on the pool that it leaves; and the exception of a closing is raised
  -- only after a last request whose response was safe to retry. Of the responses of a streamed
  -- request all but the returned one have their closing called, and of others none.
  pub with_retry-IsSound :
      (p : UpstreamPool) → IsSound s stream max_attempts (with_retry s path stream meets p)
  unfolding with_retry
  with_retry-IsSound p = attempts-IsSound max_attempts 0 p none

  attempt_with-concludes :
      (again : UpstreamPool → Option String → Run) (attempt : ℕ) (p : UpstreamPool) (u : String)
      (o : Outcome)
      → ((q : UpstreamPool) (x : Option String)
          → attempt + 1 < max_attempts
          → (again q x).ending ≢ no_attempt)
      → (attempt_with s path stream meets again attempt p u o).ending ≢ no_attempt
  unfolding attempt_with
  attempt_with-concludes again attempt p u o ih =
      elim (Bool-cases (is_success o || leb max_attempts (attempt + 1) || not (should_retry o))) [
        | inl stop ↦ rw (stop, attempt_with) (concludes u o)
        | inr go ↦ elim (Bool-cases (is_discarded stream o && (meets attempt).closing_raises)) [
          | inl stuck ↦ rw (go, stuck, attempt_with) (λ e. cc)
          | inr shut ↦ rw (go, shut, attempt_with) (ih _ (some u) (ground arith))
        ]
      ]

  attempt_picked-concludes :
      (again : UpstreamPool → Option String → Run) (attempt : ℕ)
      (picked : Result PoolError String × UpstreamPool)
      → ((q : UpstreamPool) (x : Option String)
          → attempt + 1 < max_attempts
          → (again q x).ending ≢ no_attempt)
      → (attempt_picked s path stream meets again attempt picked).ending ≢ no_attempt
  unfolding attempt_picked
  attempt_picked-concludes again attempt (raises e, p) ih = λ r. cc
  attempt_picked-concludes again attempt (ok u, p) ih =
      attempt_with-concludes again attempt p u ((meets attempt).reply (url_of u path)) ih

  attempts-concludes :
      (rounds attempt : ℕ) (p : UpstreamPool) (x : Option String)
      → rounds + attempt ≡ max_attempts
      → attempt < max_attempts
      → (attempts s path stream meets rounds attempt p x).ending ≢ no_attempt
  unfolding attempts
  attempts-concludes zero attempt p x e h = absurd (omega arith)
  attempts-concludes (suc rounds) attempt p x e h =
      attempt_picked-concludes (attempts s path stream meets rounds (attempt + 1)) attempt
        (pick s p x (meets attempt).picked_at)
        (λ q y l. attempts-concludes rounds (attempt + 1) q y (omega arith) l)

  -- The loop always ends by a response or an exception of its own, never by running out of rounds.
  pub with_retry-concludes :
      (p : UpstreamPool) → (with_retry s path stream meets p).ending ≢ no_attempt
  unfolding with_retry
  with_retry-concludes p = attempts-concludes max_attempts 0 p none refl (omega arith)
