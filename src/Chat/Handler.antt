-- ===== src/Chat/Handler.antt =====
-- The whole handler of gateway/routes/chat.py, from the raw body to what it replies and leaves.
pub mod Reasons
use inference_box.Prelude.{ℕ, ◌≡◌, ◌≢◌, refl, String, Bool, true, false, Option, Result, ok, raises}
use inference_box.Auth.{Principal}
use inference_box.Quota.{QuotaTracker, in_flight}
use inference_box.Client.Outcomes.{Response}
use inference_box.Chat.{ChatSettings, Refusal, rejected, crashed, admit}
use inference_box.Chat.Values.{Json, ℤ, Fields, lookup, truthy_field}
use inference_box.Chat.Quotas.{Passed, gates}
use inference_box.Chat.Serving.{Books, Reply, Call, cancelled_call, refuse, reject, serve}
use inference_box.Chat.Serving.Accounting.{serve-in_flight}
use inference_box.Chat.Serving.Relay.{
  closed, closing_cancelled, StreamWorld, with_usage_asked, serve_stream,
}
use inference_box.Chat.Serving.Relay.Settling.{serve_stream-in_flight}

-- What surrounds a request: the upstream call of a body, streamed or not, what its stream meets, the
-- JSON of a response, and what the libraries make of bodies and texts.
pub record World : Type 0 where
  pub call : Bool → Fields → Call
  pub streaming : StreamWorld
  pub payload : Response → Option Json
  pub printed : Json → String
  pub int_of_text : String → Option ℤ

module _ (w : World) (p : Principal) where
  -- Past the gates: `streaming` is `bool(body.get("stream"))`.
  forward : Bool → Fields → Passed → Books → Reply × Books
  unfolding serve serve_stream with_usage_asked
  forward true body g b =
      serve_stream w.streaming p (lookup "model" body) g.release_keyid
        (w.call true (with_usage_asked body)) (record b { tracker = g.tracker })
  forward false body g b =
      serve w.payload w.streaming.inc w.streaming.meanwhile p (lookup "model" body) g.release_keyid
        (w.call false body) (record b { tracker = g.tracker })

  after_gates : Fields → Result Refusal Passed → Books → Reply × Books
  unfolding forward refuse
  after_gates body (raises r) b = refuse p r b
  after_gates body (ok g) b = forward (truthy_field (lookup "stream" body)) body g b

  after_admission : Result Refusal Fields → Books → Reply × Books
  unfolding after_gates gates
  after_admission (raises r) b = refuse p r b
  after_admission (ok body) b = after_gates body (gates b.tracker p (lookup "model" body)) b

  -- `chat_completions`
  unfoldable pub chat_completions : ChatSettings → ℕ → Option Json → Books → Reply × Books
  unfolding after_admission admit
  chat_completions s size parsed b =
      after_admission (admit w.printed w.int_of_text s p size parsed) b

  refuse-in_flight :
      (r : Refusal) (b : Books) (k : String)
      → in_flight (refuse p r b).1.tracker k ≡ in_flight b.tracker k
  unfolding refuse reject
  refuse-in_flight (rejected status reason model) b k = refl
  refuse-in_flight (crashed e) b k = refl

  module _ (shuts : w.streaming.close_end ≡ closed)
      (drains : w.streaming.drain_end ≢ closing_cancelled)
      (opens : (body : Fields) → w.call true body ≢ cancelled_call)
      (quiet : (t : QuotaTracker) (k : String)
        → in_flight (w.streaming.meanwhile t) k ≡ in_flight t k) where
    forward-in_flight :
        (streaming : Bool) (body : Fields) (g : Passed) (b : Books) (k : String)
        → gates b.tracker p (lookup "model" body) ≡ ok g
        → in_flight (forward streaming body g b).1.tracker k ≡ in_flight b.tracker k
    unfolding forward
    forward-in_flight true body g b k h =
        serve_stream-in_flight w.streaming p (lookup "model" body)
          (w.call true (with_usage_asked body)) b g k shuts drains (opens (with_usage_asked body)) h
          (quiet g.tracker k)
    forward-in_flight false body g b k h =
        serve-in_flight w.payload w.streaming.inc w.streaming.meanwhile p (lookup "model" body)
          (w.call false body) b g k h (quiet g.tracker k)

    after_gates-in_flight :
        (body : Fields) (r : Result Refusal Passed) (b : Books) (k : String)
        → gates b.tracker p (lookup "model" body) ≡ r
        → in_flight (after_gates body r b).1.tracker k ≡ in_flight b.tracker k
    unfolding after_gates
    after_gates-in_flight body (raises r) b k h = refuse-in_flight r b k
    after_gates-in_flight body (ok g) b k h =
        forward-in_flight (truthy_field (lookup "stream" body)) body g b k h

    after_admission-in_flight :
        (r : Result Refusal Fields) (b : Books) (k : String)
        → in_flight (after_admission r b).1.tracker k ≡ in_flight b.tracker k
    unfolding after_admission
    after_admission-in_flight (raises r) b k = refuse-in_flight r b k
    after_admission-in_flight (ok body) b k =
        after_gates-in_flight body (gates b.tracker p (lookup "model" body)) b k refl

    -- A request takes no slot for good, where the closing of a stream returns, no task is cancelled
    -- before the response of a streamed call is there, and none while an error response is read and
    -- closed: if the other requests leave every key's count of slots as they find it while this one
    -- is served, then once it is over every key's count is what it was before, whether the request
    -- was refused, failed, was answered, or its stream completed, broke or was left by the caller,
    -- and whether or not its token counts could be booked.
    pub chat_completions-in_flight :
        (s : ChatSettings) (size : ℕ) (parsed : Option Json) (b : Books) (k : String)
        → in_flight (chat_completions s size parsed b).1.tracker k ≡ in_flight b.tracker k
    unfolding chat_completions
    chat_completions-in_flight s size parsed b k =
        after_admission-in_flight (admit w.printed w.int_of_text s p size parsed) b k
