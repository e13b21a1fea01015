-- ===== src/Stub/Completions/Counters.antt =====
-- What an arrival changes in the counters of the stub.
use inference_box.Prelude.{
  ℕ, ◌+◌, ◌≡◌, refl, ◌∙◌, String, Bool, true, false, Option, none, some, if◌then◌else◌, Result, ok,
  raises, arith,
}
use inference_box.Chat.Values.{Json, Fields, lookup, ℤ, truthy_value, Raised}
use inference_box.Stub.{StubState, healed, has_come, should_fail}
use inference_box.Stub.Completions.{
  Job, Arrival, refused, crashed, wedged, queued, enqueued, with_messages, counted, arrive,
}

-- The counters that an arrival leaves alone, and how many more wait.
pub record Keeps (s s' : StubState) (more : ℕ) : Type 0 where
  pub waiting : s'.waiting ≡ s.waiting + more
  pub running : s'.running ≡ s.running
  pub generated_tokens : s'.generated_tokens ≡ s.generated_tokens
  pub sem : s'.sem ≡ s.sem
  pub max_concurrent : s'.max_concurrent ≡ s.max_concurrent

abbrev pub waits : Arrival → ℕ
waits (refused status) = 0
waits (crashed e) = 0
waits wedged = 1
waits (queued job) = 1

-- An outcome and the state after it.
abbrev pub Arrives : StubState → Arrival × StubState → Type 0
Arrives s (a, s') = Keeps s s' (waits a)

refused-Arrives : (s : StubState) (status : ℕ) → Arrives s (refused status, s)
refused-Arrives s status = record {
  waiting = omega arith;
  running = refl;
  generated_tokens = refl;
  sem = refl;
  max_concurrent = refl;
}

-- One more waits, whatever for.
one_more-Keeps : (s : StubState) → Keeps s (record s { waiting = s.waiting + 1 }) 1
one_more-Keeps s = record {
  waiting = refl;
  running = refl;
  generated_tokens = refl;
  sem = refl;
  max_concurrent = refl;
}

healed_by-Keeps :
    (s : StubState) (b : Bool)
    → Keeps s (if b then record s { fail_after = none; fail_until = none } else s) 0
healed_by-Keeps s true = record {
  waiting = omega arith;
  running = refl;
  generated_tokens = refl;
  sem = refl;
  max_concurrent = refl;
}
healed_by-Keeps s false = record {
  waiting = omega arith;
  running = refl;
  generated_tokens = refl;
  sem = refl;
  max_concurrent = refl;
}

pub healed-Keeps : (s : StubState) (now : ℕ) → Keeps s (healed s now) 0
unfolding healed
healed-Keeps s now = healed_by-Keeps s (has_come s.fail_until now)

module _ (digest : String → ℕ → ℕ) (printed : Json → String) (int_of_text : String → Option ℤ)
    (dumped : Json → String) where
  counted-Keeps :
      (s : StubState) (now : ℕ) → Keeps s (counted digest printed int_of_text dumped s now) 0
  unfolding counted
  counted-Keeps s now =
      let k = healed-Keeps (record s { requests = s.requests + 1 }) now in
      record {
        waiting = k.waiting;
        running = k.running;
        generated_tokens = k.generated_tokens;
        sem = k.sem;
        max_concurrent = k.max_concurrent;
      }

  enqueued-Arrives :
      (s : StubState) (r : Result Raised Job)
      → Arrives s (enqueued digest printed int_of_text dumped s r)
  unfolding enqueued
  enqueued-Arrives s (raises e) = refused-Arrives s 0
  enqueued-Arrives s (ok job) = one_more-Keeps s

  either-Arrives :
      (s : StubState) (b : Bool) (r r' : Arrival × StubState)
      → Arrives s r
      → Arrives s r'
      → Arrives s (if b then r else r')
  either-Arrives s true r r' h h' = h
  either-Arrives s false r r' h h' = h'

  with_messages-Arrives :
      (s : StubState) (body : Fields) (messages : Option Json)
      → Arrives s (with_messages digest printed int_of_text dumped s body messages)
  unfolding with_messages
  with_messages-Arrives s body none = refused-Arrives s 400
  with_messages-Arrives s body (some messages) =
      either-Arrives s (truthy_value messages) _ _
        (either-Arrives s s.wedge (wedged, record s { waiting = s.waiting + 1 }) _
          (one_more-Keeps s) (enqueued-Arrives s _))
        (refused-Arrives s 400)

  Arrives-from :
      (s t : StubState) (r : Arrival × StubState) → Keeps s t 0 → Arrives t r → Arrives s r
  Arrives-from s t r k h = record {
    waiting = omega (arith, k.waiting, h.waiting);
    running = h.running ∙ k.running;
    generated_tokens = h.generated_tokens ∙ k.generated_tokens;
    sem = h.sem ∙ k.sem;
    max_concurrent = h.max_concurrent ∙ k.max_concurrent;
  }

  -- A request that arrives makes one more wait if it is queued or wedged, and none otherwise, and
  -- changes no other counter.
  pub arrive-Arrives :
      (body : Fields) (now : ℕ) (s : StubState)
      → Arrives s (arrive digest printed int_of_text dumped body now s)
  unfolding arrive
  arrive-Arrives body now s =
      let t = counted digest printed int_of_text dumped s now in
      Arrives-from s t _ (counted-Keeps s now) (
        either-Arrives t (should_fail t) (refused s.fail_status, t) _
          (refused-Arrives t s.fail_status) (with_messages-Arrives t body (lookup "messages" body)))
