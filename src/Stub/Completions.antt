-- ===== src/Stub/Completions.antt =====
-- stub/server.py: `chat_completions` up to the answer. A request arrives, waits for a permit and
-- decodes; each of these is a step, between which other requests take theirs. The digest, `str` of a value that is no text, `int` of a text and the text that
-- `json.dumps` makes of the messages are parameters, and so is the clock.

pub mod Counters
pub mod Slots
use inference_box.Prelude.{
  ℕ, zero, suc, ◌+◌, ◌-◌, String, Option, none, some, length, if◌then◌else◌, Result, ok, raises,
  ◌>>=◌,
}
use inference_box.Prelude.Text.Cutting.{words}
use inference_box.Chat.{estimate_prompt_tokens}
use inference_box.Chat.Values.{
  Json, text, array, object, Fields, lookup, ℤ, pos, negsuc, whole_number, int_of, truthy_value,
  Raised, type_error, attribute_error,
}
use inference_box.Stub.{StubState, healed, should_fail, permits}
use inference_box.Stub.Filler.{completion_text}

-- A request that waits for a permit, with what it will be answered.
pub record Job : Type 0 where
  pub answer : String
  pub prompt_tokens : ℕ
  pub completion_tokens : ℕ

pub data Arrival : Type 0 where
  refused : ℕ → Arrival
  crashed : Raised → Arrival
  -- It waits for an event that nothing sets.
  wedged : Arrival
  queued : Job → Arrival

-- `body.get("max_tokens") or 64`
wanted_tokens : Option Json → Json
wanted_tokens none = whole_number 64
wanted_tokens (some v) = if truthy_value v then v else whole_number 64

-- A negative count is one word like 0, as the filler has at least one.
abbrev at_least_none : ℤ → ℕ
at_least_none (pos n) = n
at_least_none (negsuc n) = 0

-- What a request finds in the stub.
module _ (digest : String → ℕ → ℕ) (printed : Json → String) (int_of_text : String → Option ℤ)
    (dumped : Json → String) where
  -- The words of all the messages: a value that is no list of objects raises, by its kind.
  prompt_tokens_of : Json → Result Raised ℕ
  prompt_tokens_of (array ms) = estimate_prompt_tokens printed int_of_text ms
  prompt_tokens_of (text s) = raises attribute_error
  prompt_tokens_of (object d) = raises attribute_error
  prompt_tokens_of v = raises type_error

  job_for : StubState → Json → ℤ → Result Raised Job
  unfolding prompt_tokens_of
  job_for s messages wanted =
      let answer = completion_text digest s.think (dumped messages) (at_least_none wanted) in
      prompt_tokens_of messages >>= λ n.
      ok (record { answer = answer; prompt_tokens = n; completion_tokens = length (words answer) })

  -- A job waits for its permit.
  enqueued : StubState → Result Raised Job → Arrival × StubState
  enqueued s (raises e) = (crashed e, s)
  enqueued s (ok job) = (queued job, record s { waiting = s.waiting + 1 })

  with_messages : StubState → Fields → Option Json → Arrival × StubState
  unfolding enqueued job_for wanted_tokens
  with_messages s body none = (refused 400, s)
  with_messages s body (some messages) =
      if truthy_value messages
      then (if s.wedge
          then (wedged, record s { waiting = s.waiting + 1 })
          else enqueued s (
              int_of int_of_text (wanted_tokens (lookup "max_tokens" body)) >>= λ wanted.
              job_for s messages wanted))
      else (refused 400, s)

  counted : StubState → ℕ → StubState
  counted s now = healed (record s { requests = s.requests + 1 }) now

  -- `chat_completions` up to the semaphore, of a body that is an object.
  unfoldable pub arrive : Fields → ℕ → StubState → Arrival × StubState
  unfolding counted with_messages
  arrive body now s =
      if should_fail (counted s now)
      then (refused s.fail_status, counted s now)
      else with_messages (counted s now) body (lookup "messages" body)

-- A permit is taken, if there is one: the request no longer waits, and runs.
take_permit : StubState → ℕ → Option StubState
take_permit s zero = none
take_permit s (suc free) =
    some (record s { waiting = s.waiting - 1; running = s.running + 1; sem = some free })

unfoldable pub admitted : StubState → Option StubState
unfolding take_permit
admitted s = take_permit s (permits s)

-- The permit is given back, after the latency.
unfoldable pub decoded : StubState → StubState
decoded s = record s { running = s.running - 1; sem = some (permits s + 1) }
