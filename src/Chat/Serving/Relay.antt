-- ===== src/Chat/Serving/Relay.antt =====
-- `_stream` of gateway/routes/chat.py: the options of a streamed request, and the relay of the
-- chunks. How a stream ends is an argument, as are the chunks that arrive before it does and the end
-- of each `await resp.aclose()`.
pub mod Streaming
pub mod Settling
pub mod Reasons
use inference_box.Prelude.{
  ℕ, String, List, [], ◌∷◌, Bool, true, false, Option, none, some, ltb, if◌then◌else◌, Result, ok,
  raises,
}
use inference_box.Auth.{Principal}
use inference_box.Quota.{QuotaTracker}
use inference_box.Client.Outcomes.{Response}
use inference_box.Client.Retry.{Ending, responded}
use inference_box.Chat.Values.{Json, boolean, object, Fields, no_fields, lookup, put}
use inference_box.Chat.Frames.{Bytes, consume}
use inference_box.Chat.Quotas.{release_slot}
use inference_box.Chat.Serving.{
  Books, Reply, streamed, cut_short, uncaught, cancelled, Call, came_back, cancelled_call, Sent,
  passed, broken_notice, book_usage, reject, served_record, failed_call, slot_returned,
  or_falsy_zero,
}

-- `stream_options`, and an empty object for a value that is none or is missing.
unfoldable pub options_of : Option Json → Fields
options_of (some (object options)) = options
options_of _ = no_fields

-- `setdefault`
set_default : Option Json → String → Json → Fields → Fields
set_default none k v d = put k v d
set_default (some w) k v d = d

-- The body that is forwarded: its options ask for the usage unless the caller has said otherwise.
unfoldable pub with_usage_asked : Fields → Fields
unfolding options_of set_default
with_usage_asked body =
    let options = options_of (lookup "stream_options" body) in
    put "stream_options"
      (object (set_default (lookup "include_usage" options) "include_usage" (boolean true) options))
      body

-- The upstream is done, or fails, or the caller has gone.
pub data StreamEnd : Type 0 where
  completed upstream_failed client_left : StreamEnd

pub record Relayed : Type 0 where
  pub sent : List Sent
  pub broken : Bool
  pub usage : Fields

broken_off : Fields → Relayed
broken_off usage = record { sent = broken_notice ∷ []; broken = true; usage = usage }

at_end : StreamEnd → Fields → Relayed
unfolding broken_off
at_end completed usage = record { sent = []; broken = false; usage = usage }
at_end upstream_failed usage = broken_off usage
at_end client_left usage = record { sent = []; broken = false; usage = usage }

-- One chunk: it is passed on once the events that it completes have been read.
pass_on : Bytes → (Fields → Bytes → Relayed) → Result Fields (Fields × Bytes) → Relayed
unfolding broken_off
pass_on chunk again (raises usage) = broken_off usage
pass_on chunk again (ok (usage, buf)) =
    let rest = again usage buf in record rest { sent = passed chunk ∷ rest.sent }

module _ (loads : Bytes → Option Json) where
  -- The loop of `relay`.
  unfoldable pub relay_from : StreamEnd → List Bytes → Fields → Bytes → Relayed
  unfolding at_end pass_on consume
  relay_from end [] usage buf = at_end end usage
  relay_from end (chunk ∷ chunks) usage buf =
      pass_on chunk (relay_from end chunks) (consume loads usage buf chunk)

  abbrev pub relay : StreamEnd → List Bytes → Relayed
  relay end chunks = relay_from end chunks no_fields []

abbrev broken_rejection : Bool → List String → List String
broken_rejection true rejections = "upstream_stream_broken" ∷ rejections
broken_rejection false rejections = rejections

abbrev broken_reason : Bool → Option String
broken_reason true = some "upstream_stream_broken"
broken_reason false = none

-- How `await resp.aclose()` ends; before an error is reported, the reading of its body is part of it.
pub data Closing : Type 0 where
  closed closing_raised closing_cancelled : Closing

-- What a relay leaves besides the quotas, and what other requests did to them.
abbrev pub relayed_books : (QuotaTracker → QuotaTracker) → Relayed → Books → Books
relayed_books meanwhile r b = record b {
  rejections = broken_rejection r.broken b.rejections;
  tracker = meanwhile b.tracker;
}

-- `b`, with what others did in the meantime and nothing given back.
abbrev pub slot_kept : (QuotaTracker → QuotaTracker) → Books → Books
slot_kept meanwhile b = record b { tracker = meanwhile b.tracker }

module _ (p : Principal) (model : Option Json) (upstream : String) (status : ℕ) (r : Relayed) where
  pub stream_booked : Result Books Books → Reply × Books
  unfolding served_record
  stream_booked (raises b) = (cut_short status r.sent, b)
  stream_booked (ok booked) = (
    streamed status r.sent,
    record booked {
      audits =
          served_record p model status (or_falsy_zero (lookup "prompt_tokens" r.usage))
            (or_falsy_zero (lookup "completion_tokens" r.usage)) upstream (broken_reason r.broken)
            true
          ∷ booked.audits;
    },
  )

  -- The `finally` of `relay`. An exception of the closing passes over all that stands behind it.
  pub close_stream :
      (Json → Option ℕ)
      → Closing
      → (QuotaTracker → QuotaTracker)
      → Option String
      → Books
      → Reply × Books
  unfolding stream_booked book_usage
  close_stream inc closed meanwhile release_keyid b = stream_booked (
      book_usage inc p.keyid r.usage (record b {
        rejections = broken_rejection r.broken b.rejections;
        tracker = release_slot release_keyid (meanwhile b.tracker);
      }))
  close_stream inc _ meanwhile release_keyid b =
      (cut_short status r.sent, relayed_books meanwhile r b)

-- `_drain_error` and what follows it: `except Exception` gives the slot back, and a cancellation
-- passes it.
pub drained :
    Principal
    → Option Json
    → ℕ
    → Closing
    → (QuotaTracker → QuotaTracker)
    → Option String
    → Books
    → Reply × Books
unfolding reject
drained p model status closed meanwhile release_keyid b =
    reject p model status "upstream_error" (slot_returned meanwhile release_keyid b)
drained p model status closing_raised meanwhile release_keyid b =
    (uncaught, slot_returned meanwhile release_keyid b)
drained p model status closing_cancelled meanwhile release_keyid b =
    (cancelled, slot_kept meanwhile b)

-- What the streaming branch meets.
pub record StreamWorld : Type 0 where
  pub loads : Bytes → Option Json
  pub inc : Json → Option ℕ
  pub stream_end : StreamEnd
  pub chunks : List Bytes
  pub close_end : Closing
  pub drain_end : Closing
  pub meanwhile : QuotaTracker → QuotaTracker

pub after_open :
    StreamWorld
    → Principal
    → Option Json
    → Option String
    → String
    → Response
    → Books
    → Reply × Books
unfolding close_stream drained
after_open s p model release_keyid upstream r b =
    if ltb r.status_code 400
    then close_stream p model upstream r.status_code (relay s.loads s.stream_end s.chunks) s.inc
        s.close_end s.meanwhile release_keyid b
    else drained p model r.status_code s.drain_end s.meanwhile release_keyid b

-- The streaming branch. The slot is given back in the `except` of `_stream` or in the `finally` of
-- `relay`, in either case after what other requests did until then; a cancellation before the
-- response is there passes the `except`.
unfoldable pub serve_stream :
    StreamWorld → Principal → Option Json → Option String → Call → Books → Reply × Books
unfolding after_open failed_call
serve_stream s p model release_keyid cancelled_call b = (cancelled, slot_kept s.meanwhile b)
serve_stream s p model release_keyid (came_back (responded upstream r)) b =
    after_open s p model release_keyid upstream r b
serve_stream s p model release_keyid (came_back ending) b =
    failed_call p model ending (slot_returned s.meanwhile release_keyid b)
