-- ===== src/Stub/Completions/Slots/Agreement.antt =====
-- Every run of the stub is a run of the abstract machine.
use inference_box.Prelude.{
  ℕ, zero, suc, ◌+◌, ◌-◌, ◌<◌, ◌≡◌, refl, ◌∙◌, subst, String, Bool, true, false, Option, none, some,
  Result, arith, if◌then◌else◌, str_eq,
}
use inference_box.Chat.Values.{Json, Fields, ℤ, lookup, truthy_field, Raised}
use inference_box.Stub.{
  StubState, capacity, permits, permits_in, Control, control, switched, set_failing, surface,
  health, healed,
}
use inference_box.Stub.Completions.{
  Job, Arrival, wedged, queued, arrive, admitted, take_permit, decoded,
}
use inference_box.Stub.Completions.Counters.{Keeps, waits, arrive-Arrives, healed-Keeps, Arrives}
use inference_box.Stub.Replies.{answered, Reply}
use inference_box.Stub.Completions.Slots.{
  Load, no_load, Moves, stays, queues, sticks, decodes, finishes, streams, leaves, ends, MovesOn,
  still, moved, Agrees, Step, is_queued, is_wedged, is_turned_away, takes_permit, has_decoded,
  is_answered, begins_stream, sends_word, ends_stream, is_switched, is_asked, Run, idle, on,
}

same_capacity : (s s' : StubState) → s'.max_concurrent ≡ s.max_concurrent → capacity s' ≡ capacity s
unfolding capacity
same_capacity s s' e = rw e refl

same_permits :
    (s s' : StubState)
    → s'.max_concurrent ≡ s.max_concurrent
    → s'.sem ≡ s.sem
    → permits s' ≡ permits s
unfolding permits
same_permits s s' e f = rw (f, same_capacity s s' e) refl

module _ (cap : ℕ) where
  -- A change of no counter but the number of the waiting.
  Agrees-Keeps :
      (s s' : StubState) (l l' : Load) (more : ℕ)
      → Keeps s s' more
      → l'.queueing + l'.stuck ≡ l.queueing + l.stuck + more
      → l'.decoding ≡ l.decoding
      → l'.streaming ≡ l.streaming
      → Agrees s l cap
      → Agrees s' l' cap
  Agrees-Keeps s s' l l' more k w d t a = record {
    waiting = omega (arith, k.waiting, a.waiting, w);
    running = omega (arith, k.running, a.running, d, t);
    capped = same_capacity s s' k.max_concurrent ∙ a.capped;
    held = omega (arith, same_permits s s' k.max_concurrent k.sem, a.held, d);
  }

  Agrees-admitted :
      (s s' : StubState) (l : Load) (q n : ℕ)
      → permits s ≡ n
      → take_permit s n ≡ some s'
      → l.queueing ≡ suc q
      → Agrees s l cap
      → (l.decoding < cap) × Agrees s' (record l { queueing = q; decoding = l.decoding + 1 }) cap
  unfolding take_permit permits permits_in capacity
  Agrees-admitted s s' l q zero e h u a = cc
  Agrees-admitted s s' l q (suc n) e h u a =
      let t : StubState = record s {
        waiting = s.waiting - 1;
        running = s.running + 1;
        sem = some n;
      } in
      let r : t ≡ s' = cc in
      (
        omega (arith, e, a.held),
        subst (λ z. Agrees z (record l { queueing = q; decoding = l.decoding + 1 }) cap) r
            (record {
              waiting = omega (arith, a.waiting, u);
              running = omega (arith, a.running);
              capped = a.capped;
              held = omega (arith, e, a.held);
            }),
      )

  Agrees-decoded :
      (s : StubState) (l : Load) (d : ℕ)
      → l.decoding ≡ suc d
      → Agrees s l cap
      → Agrees (decoded s) (record l { decoding = d; finishing = l.finishing + 1 }) cap
  unfolding decoded permits permits_in capacity
  Agrees-decoded s l d u a = record {
    waiting = a.waiting;
    running = omega (arith, a.running, u);
    capped = a.capped;
    held = omega (arith, a.held, u);
  }

  -- A change of no counter but the tokens and the running.
  Agrees-running :
      (s s' : StubState) (l l' : Load)
      → s'.waiting ≡ s.waiting
      → s'.max_concurrent ≡ s.max_concurrent
      → s'.sem ≡ s.sem
      → l'.queueing + l'.stuck ≡ l.queueing + l.stuck
      → l'.decoding ≡ l.decoding
      → s'.running ≡ l'.decoding + l'.streaming
      → Agrees s l cap
      → Agrees s' l' cap
  Agrees-running s s' l l' w m p q d r a = record {
    waiting = omega (arith, w, a.waiting, q);
    running = r;
    capped = same_capacity s s' m ∙ a.capped;
    held = omega (arith, same_permits s s' m p, a.held, d);
  }

same-Keeps : (s : StubState) → Keeps s s 0
same-Keeps s = record {
  waiting = omega arith;
  running = refl;
  generated_tokens = refl;
  sem = refl;
  max_concurrent = refl;
}

either-Keeps :
    {A : Type 0} (s : StubState) (b : Bool) (r r' : A × StubState)
    → Keeps s r.1 0
    → Keeps s r'.1 0
    → Keeps s (if b then r else r').1 0
either-Keeps s true r r' h h' = h
either-Keeps s false r r' h h' = h'

set_failing-Keeps : (o : Option Bool) (s : StubState) → Keeps s (set_failing o s) 0
unfolding set_failing
set_failing-Keeps none s = same-Keeps s
set_failing-Keeps (some true) s = record {
  waiting = omega arith;
  running = refl;
  generated_tokens = refl;
  sem = refl;
  max_concurrent = refl;
}
set_failing-Keeps (some false) s = record {
  waiting = omega arith;
  running = refl;
  generated_tokens = refl;
  sem = refl;
  max_concurrent = refl;
}

switched-Keeps : (c : Control) (s : StubState) → Keeps s (switched c s) 0
unfolding switched
switched-Keeps c s =
    let k = set_failing-Keeps c.fail s in
    record {
      waiting = k.waiting;
      running = k.running;
      generated_tokens = k.generated_tokens;
      sem = k.sem;
      max_concurrent = k.max_concurrent;
    }

control-Keeps : (c : Control) (s : StubState) → Keeps s (control c s).1 0
unfolding control
control-Keeps c s =
    either-Keeps s s.control_enabled (_, switched c s) (_, s) (switched-Keeps c s) (same-Keeps s)

health-Keeps : (s : StubState) (now : ℕ) → Keeps s (health s now).1 0
unfolding health surface
health-Keeps s now =
    either-Keeps s (str_eq s.fail_mode "all") (_, healed s now) (_, s) (healed-Keeps s now)
      (same-Keeps s)

module _ (cap : ℕ) (digest : String → ℕ → ℕ) (printed : Json → String)
    (int_of_text : String → Option ℤ) (dumped : Json → String) where
  either-Agrees :
      {A : Type 0} (l : Load) (b : Bool) (r r' : A × StubState)
      → Agrees r.1 l cap
      → Agrees r'.1 l cap
      → Agrees (if b then r else r').1 l cap
  either-Agrees l true r r' h h' = h
  either-Agrees l false r r' h h' = h'

  abbrev Stepped : StubState → Load → StubState → Load → Type 0
  Stepped = Step digest printed int_of_text dumped

  arrival-Keeps :
      (s s' : StubState) (body : Fields) (now : ℕ) (a : Arrival)
      → arrive digest printed int_of_text dumped body now s ≡ (a, s')
      → Keeps s s' (waits a)
  arrival-Keeps s s' body now a e =
      subst (Arrives s) e (arrive-Arrives digest printed int_of_text dumped body now s)

  answered-Agrees :
      (s s' : StubState) (l : Load) (f : ℕ) (body : Fields) (job : Job) (cid : String) (created : ℕ)
      (r : Result Raised Reply)
      → answered body job cid created s ≡ (r, s')
      → Agrees s l cap
      → Agrees s' (record l { finishing = f }) cap
  unfolding answered
  answered-Agrees s s' l f body job cid created r e a =
      subst (λ z. Agrees z.1 (record l { finishing = f }) cap) e
        (either-Agrees (record l { finishing = f }) (truthy_field (lookup "stream" body)) (_, s)
          (_, record s { generated_tokens = s.generated_tokens + job.completion_tokens })
          (Agrees-running cap s s l (record l { finishing = f }) refl refl refl refl refl a.running
            a)
          (Agrees-running cap s _ l (record l { finishing = f }) refl refl refl refl refl a.running
            a))

  step-refines :
      (s s' : StubState) (l l' : Load)
      → Stepped s l s' l'
      → Agrees s l cap
      → Moves cap l l' × Agrees s' l' cap
  unfolding admitted
  step-refines s s' l l' (is_queued body now job e) a = (
    queues,
    Agrees-Keeps cap s s' l l' 1 (arrival-Keeps s s' body now (queued job) e) (omega arith) refl
        refl a,
  )
  step-refines s s' l l' (is_wedged body now e) a = (
    sticks,
    Agrees-Keeps cap s s' l l' 1 (arrival-Keeps s s' body now wedged e) (omega arith) refl refl a,
  )
  step-refines s s' l l' (is_turned_away body now o e w) a = (
    stays,
    Agrees-Keeps cap s s' l l' (waits o) (arrival-Keeps s s' body now o e) (omega (arith, w)) refl
        refl a,
  )
  step-refines s s' l l' (takes_permit {q = q} h u) a =
      let (below, after) = Agrees-admitted cap s s' l q (permits s) refl h u a in
      (decodes u below, after)
  step-refines s s' l l' (has_decoded {d = d} u) a = (finishes u, Agrees-decoded cap s l d u a)
  step-refines s s' l l' (is_answered {f = f} body job cid created r e u) a =
      (leaves u, answered-Agrees s s' l f body job cid created r e a)
  step-refines s s' l l' (begins_stream {f = f} u) a = (
    streams u,
    Agrees-running cap s s' l l' refl refl refl refl refl (omega (arith, a.running)) a,
  )
  step-refines s s' l l' (sends_word n u) a =
      (stays, Agrees-running cap s s' l l' refl refl refl refl refl a.running a)
  step-refines s s' l l' (ends_stream {n = n} u) a = (
    ends u,
    Agrees-running cap s s' l l' refl refl refl refl refl (omega (arith, a.running, u)) a,
  )
  step-refines s s' l l' (is_switched c) a =
      (stays, Agrees-Keeps cap s s' l l 0 (control-Keeps c s) (omega arith) refl refl a)
  step-refines s s' l l' (is_asked now) a =
      (stays, Agrees-Keeps cap s s' l l 0 (health-Keeps s now) (omega arith) refl refl a)

  pub run-refines_from :
      (s s' : StubState) (l l' : Load)
      → Run digest printed int_of_text dumped s l s' l'
      → Agrees s l cap
      → MovesOn cap l l' × Agrees s' l' cap
  run-refines_from s s' l l' idle a = (still, a)
  run-refines_from s s' l l' (on {s' = m} {l' = k} run step) a =
      let (moves, b) = run-refines_from s m l k run a in
      let (move, c) = step-refines m s' k l' step b in (moved moves move, c)

module _ (digest : String → ℕ → ℕ) (printed : Json → String) (int_of_text : String → Option ℤ)
    (dumped : Json → String) where
  -- Whatever requests arrive at a stub that is idle, however their steps are interleaved, and
  -- whatever the other routes are asked in between, the requests in their phases move as the
  -- abstract machine lets them, so that no more decode at once than the cap allows; the waiting
  -- counter is the number of those that wait and of those that are wedged, the running counter the
  -- number of those that decode or stream, and the semaphore has a permit for each decoding request
  -- that the cap still allows.
  pub run-refines :
      (s s' : StubState) (l : Load)
      → s.waiting ≡ 0
      → s.running ≡ 0
      → s.sem ≡ none
      → Run digest printed int_of_text dumped s no_load s' l
      → MovesOn (capacity s) no_load l × Agrees s' l (capacity s)
  unfolding permits permits_in
  run-refines s s' l w r p run =
      run-refines_from (capacity s) digest printed int_of_text dumped s s' no_load l run
        (record { waiting = w; running = r; capped = refl; held = rw p (omega arith) })
