-- ===== src/Chat/Serving/Relay/Reasons.antt =====
-- The reasons counted for a streamed request.
use inference_box.Prelude.{
  ℕ, String, List, Bool, true, false, Bool-cases, inl, inr, Option, ltb, All, refl, Result, ok,
  raises,
}
use inference_box.Auth.{Principal}
use inference_box.Quota.{QuotaTracker}
use inference_box.Client.Outcomes.{Response}
use inference_box.Client.Retry.{responded, refused, unreachable, closing_failed, no_attempt}
use inference_box.Chat.Values.{Json}
use inference_box.Chat.Vocabulary.{IsKnown}
use inference_box.Chat.Quotas.{release_slot}
use inference_box.Chat.Serving.{Books, book_usage, slot_returned, Call, came_back, cancelled_call}
use inference_box.Chat.Serving.Booking.{books_of}
use inference_box.Chat.Serving.Reasons.{
  AllKnown, reject-AllKnown, failed_call-AllKnown, book_usage-AllKnown,
}
use inference_box.Chat.Serving.Relay.{
  Relayed, relay, broken_rejection, Closing, closed, closing_raised, closing_cancelled, StreamWorld,
  stream_booked, close_stream, drained, after_open, serve_stream,
}

broken_rejection-IsKnown :
    (broken : Bool) (reasons : List String)
    → All IsKnown reasons
    → All IsKnown (broken_rejection broken reasons)
broken_rejection-IsKnown true reasons k = (refl, k)
broken_rejection-IsKnown false reasons k = k

module _ (p : Principal) (model : Option Json) (upstream : String) (status : ℕ) (r : Relayed) where
  stream_booked-AllKnown :
      (booked : Result Books Books)
      → AllKnown (books_of booked)
      → AllKnown (stream_booked p model upstream status r booked).1
  unfolding stream_booked
  stream_booked-AllKnown (raises b) k = k
  stream_booked-AllKnown (ok b) k = k

  close_stream-AllKnown :
      (inc : Json → Option ℕ) (c : Closing) (meanwhile : QuotaTracker → QuotaTracker)
      (rk : Option String) (b : Books)
      → AllKnown b
      → AllKnown (close_stream p model upstream status r inc c meanwhile rk b).1
  unfolding close_stream
  close_stream-AllKnown inc closed meanwhile rk b k =
      let left = record b {
        rejections = broken_rejection r.broken b.rejections;
        tracker = release_slot rk (meanwhile b.tracker);
      } in
      stream_booked-AllKnown (book_usage inc p.keyid r.usage left) (
        book_usage-AllKnown inc p.keyid r.usage left
          (broken_rejection-IsKnown r.broken b.rejections k))
  close_stream-AllKnown inc closing_raised meanwhile rk b k =
      broken_rejection-IsKnown r.broken b.rejections k
  close_stream-AllKnown inc closing_cancelled meanwhile rk b k =
      broken_rejection-IsKnown r.broken b.rejections k

drained-AllKnown :
    (p : Principal) (model : Option Json) (status : ℕ) (c : Closing)
    (meanwhile : QuotaTracker → QuotaTracker) (rk : Option String) (b : Books)
    → AllKnown b
    → AllKnown (drained p model status c meanwhile rk b).1
unfolding drained
drained-AllKnown p model status closed meanwhile rk b k =
    reject-AllKnown p model status "upstream_error" (slot_returned meanwhile rk b) refl k
drained-AllKnown p model status closing_raised meanwhile rk b k = k
drained-AllKnown p model status closing_cancelled meanwhile rk b k = k

module _ (s : StreamWorld) (p : Principal) (model : Option Json) (rk : Option String) where
  after_open-AllKnown :
      (upstream : String) (r : Response) (b : Books)
      → AllKnown b
      → AllKnown (after_open s p model rk upstream r b).1
  unfolding after_open
  after_open-AllKnown upstream r b k = elim (Bool-cases (ltb r.status_code 400)) [
    | inl e ↦
        rw (after_open, e)
          (close_stream-AllKnown p model upstream r.status_code
            (relay s.loads s.stream_end s.chunks) s.inc s.close_end s.meanwhile rk b k)
    | inr e ↦
        rw (after_open, e) (drained-AllKnown p model r.status_code s.drain_end s.meanwhile rk b k)
  ]

  pub serve_stream-AllKnown :
      (call : Call) (b : Books) → AllKnown b → AllKnown (serve_stream s p model rk call b).1
  unfolding serve_stream
  serve_stream-AllKnown cancelled_call b k = k
  serve_stream-AllKnown (came_back (responded upstream r)) b k = after_open-AllKnown upstream r b k
  serve_stream-AllKnown (came_back (refused e)) b k =
      failed_call-AllKnown p model (refused e) (slot_returned s.meanwhile rk b) k
  serve_stream-AllKnown (came_back (unreachable e upstream)) b k =
      failed_call-AllKnown p model (unreachable e upstream) (slot_returned s.meanwhile rk b) k
  serve_stream-AllKnown (came_back closing_failed) b k =
      failed_call-AllKnown p model closing_failed (slot_returned s.meanwhile rk b) k
  serve_stream-AllKnown (came_back no_attempt) b k =
      failed_call-AllKnown p model no_attempt (slot_returned s.meanwhile rk b) k
