-- ===== src/Chat/Serving/Relay/Settling.antt =====
-- What a streamed request leaves in the audit log and in the quotas.
use inference_box.Prelude.{
  ℕ, ◌≡◌, refl, ◌∙◌, String, Bool-cases, inl, inr, Option, ltb, ok, raises, Result, ◌⊎◌, ◌≢◌,
}
use inference_box.Auth.{Principal}
use inference_box.Quota.{QuotaTracker, in_flight}
use inference_box.Client.Outcomes.{Response}
use inference_box.Client.Retry.{responded, refused, unreachable, closing_failed, no_attempt}
use inference_box.Chat.Values.{Json}
use inference_box.Chat.Quotas.{Passed, gates, release_slot}
use inference_box.Chat.Quotas.Passing.{gates-IsGranted}
use inference_box.Chat.Serving.{
  Books, book_usage, reject, served_record, slot_returned, Call, came_back, cancelled_call,
}
use inference_box.Chat.Serving.Accounting.{
  IsAudited, Keeps-AddsRecord, reject-IsAudited, failed_call-IsAudited, failed_call-in_flight,
  release_slot-in_flight,
}
use inference_box.Chat.Serving.Booking.{
  Keeps, books_of, book_usage-Keeps, Refuses, book_usage-Refuses,
}
use inference_box.Chat.Serving.Relay.{
  Relayed, relay, Closing, closed, closing_raised, closing_cancelled, StreamWorld, stream_booked,
  close_stream, drained, after_open, serve_stream, broken_rejection,
}

-- What can cut a stream short: a closing that does not return, or a count that the counter refuses.
abbrev pub Interrupts : StreamWorld → Type 0
Interrupts s = (s.close_end ≢ closed) ⊎ Refuses s.inc

module _ (p : Principal) (model : Option Json) (upstream : String) (status : ℕ) (r : Relayed) where
  stream_booked-IsAudited :
      (Cause : Type 0) (before : Books) (booked : Result Books Books)
      → Keeps before (books_of booked)
      → ((b : Books) → booked ≡ raises b → Cause)
      → IsAudited Cause p before (stream_booked p model upstream status r booked)
  unfolding stream_booked served_record
  stream_booked-IsAudited Cause before (raises b) v c = (v.same_audits, c b refl)
  stream_booked-IsAudited Cause before (ok b) v c = Keeps-AddsRecord p status before b _ v refl refl

  stream_booked-in_flight :
      (booked : Result Books Books) (k : String)
      → in_flight (stream_booked p model upstream status r booked).1.tracker k
        ≡ in_flight (books_of booked).tracker k
  unfolding stream_booked
  stream_booked-in_flight (raises b) k = refl
  stream_booked-in_flight (ok b) k = refl

  close_stream-IsAudited :
      (s : StreamWorld) (rk : Option String) (b : Books) (c : Closing)
      → s.close_end ≡ c
      → IsAudited
          (Interrupts s)
          p
          (slot_returned s.meanwhile rk b)
          (close_stream p model upstream status r s.inc c s.meanwhile rk b)
  unfolding close_stream
  close_stream-IsAudited s rk b closed e =
      let left = record b {
        rejections = broken_rejection r.broken b.rejections;
        tracker = release_slot rk (s.meanwhile b.tracker);
      } in
      stream_booked-IsAudited (Interrupts s) left (book_usage s.inc p.keyid r.usage left)
        (book_usage-Keeps s.inc p.keyid r.usage left)
        (λ b' h. inr (book_usage-Refuses s.inc p.keyid r.usage left b' h))
  close_stream-IsAudited s rk b closing_raised e = (refl, inl (λ h. cc))
  close_stream-IsAudited s rk b closing_cancelled e = (refl, inl (λ h. cc))

drained-IsAudited :
    (Cause : Type 0) (p : Principal) (model : Option Json) (status : ℕ) (c : Closing)
    (meanwhile : QuotaTracker → QuotaTracker) (rk : Option String) (b : Books)
    → IsAudited Cause p (slot_returned meanwhile rk b) (drained p model status c meanwhile rk b)
unfolding drained
drained-IsAudited Cause p model status closed meanwhile rk b =
    reject-IsAudited Cause p model status "upstream_error" (slot_returned meanwhile rk b)
drained-IsAudited Cause p model status closing_raised meanwhile rk b = refl
drained-IsAudited Cause p model status closing_cancelled meanwhile rk b = refl

module _ (s : StreamWorld) (p : Principal) (model : Option Json) (rk : Option String) where
  after_open-IsAudited :
      (upstream : String) (r : Response) (b : Books)
      → IsAudited
          (Interrupts s)
          p
          (slot_returned s.meanwhile rk b)
          (after_open s p model rk upstream r b)
  unfolding after_open
  after_open-IsAudited upstream r b = elim (Bool-cases (ltb r.status_code 400)) [
    | inl e ↦
        rw (after_open, e)
          (close_stream-IsAudited p model upstream r.status_code
            (relay s.loads s.stream_end s.chunks) s rk b s.close_end refl)
    | inr e ↦
        rw (after_open, e)
          (drained-IsAudited (Interrupts s) p model r.status_code s.drain_end s.meanwhile rk b)
  ]

  pub serve_stream-IsAudited :
      (call : Call) (b : Books)
      → IsAudited
          (Interrupts s)
          p
          (slot_returned s.meanwhile rk b)
          (serve_stream s p model rk call b)
  unfolding serve_stream
  serve_stream-IsAudited cancelled_call b = refl
  serve_stream-IsAudited (came_back (responded upstream r)) b = after_open-IsAudited upstream r b
  serve_stream-IsAudited (came_back (refused e)) b =
      failed_call-IsAudited (Interrupts s) p model (refused e) (slot_returned s.meanwhile rk b)
  serve_stream-IsAudited (came_back (unreachable e upstream)) b =
      failed_call-IsAudited (Interrupts s) p model (unreachable e upstream)
        (slot_returned s.meanwhile rk b)
  serve_stream-IsAudited (came_back closing_failed) b =
      failed_call-IsAudited (Interrupts s) p model closing_failed (slot_returned s.meanwhile rk b)
  serve_stream-IsAudited (came_back no_attempt) b =
      failed_call-IsAudited (Interrupts s) p model no_attempt (slot_returned s.meanwhile rk b)

  close_stream-in_flight :
      (upstream : String) (status : ℕ) (r : Relayed) (b : Books) (k : String) (c : Closing)
      → c ≡ closed
      → in_flight (close_stream p model upstream status r s.inc c s.meanwhile rk b).1.tracker k
        ≡ in_flight (slot_returned s.meanwhile rk b).tracker k
  unfolding close_stream
  close_stream-in_flight upstream status r b k closed e =
      let left = record b {
        rejections = broken_rejection r.broken b.rejections;
        tracker = release_slot rk (s.meanwhile b.tracker);
      } in
      stream_booked-in_flight p model upstream status r (book_usage s.inc p.keyid r.usage left) k
      ∙ Keeps.same_slots (book_usage-Keeps s.inc p.keyid r.usage left) k
  close_stream-in_flight upstream status r b k closing_raised e = cc
  close_stream-in_flight upstream status r b k closing_cancelled e = cc

  drained-in_flight :
      (status : ℕ) (b : Books) (k : String) (c : Closing)
      → c ≢ closing_cancelled
      → in_flight (drained p model status c s.meanwhile rk b).1.tracker k
        ≡ in_flight (slot_returned s.meanwhile rk b).tracker k
  unfolding drained reject
  drained-in_flight status b k closed e = refl
  drained-in_flight status b k closing_raised e = refl
  drained-in_flight status b k closing_cancelled e = absurd (e refl)

  module _ (shuts : s.close_end ≡ closed) (drains : s.drain_end ≢ closing_cancelled) where
    after_open-in_flight :
        (upstream : String) (r : Response) (b : Books) (k : String)
        → in_flight (after_open s p model rk upstream r b).1.tracker k
          ≡ in_flight (slot_returned s.meanwhile rk b).tracker k
    unfolding after_open
    after_open-in_flight upstream r b k = elim (Bool-cases (ltb r.status_code 400)) [
      | inl e ↦
          rw (after_open, e)
            (close_stream-in_flight upstream r.status_code (relay s.loads s.stream_end s.chunks) b k
              s.close_end shuts)
      | inr e ↦ rw (after_open, e) (drained-in_flight r.status_code b k s.drain_end drains)
    ]

    serve_stream-in_flight_from :
        (call : Call) (b : Books) (k : String)
        → call ≢ cancelled_call
        → in_flight (serve_stream s p model rk call b).1.tracker k
          ≡ in_flight (slot_returned s.meanwhile rk b).tracker k
    unfolding serve_stream
    serve_stream-in_flight_from cancelled_call b k h = absurd (h refl)
    serve_stream-in_flight_from (came_back (responded upstream r)) b k h =
        after_open-in_flight upstream r b k
    serve_stream-in_flight_from (came_back (refused e)) b k h =
        failed_call-in_flight p model (refused e) (slot_returned s.meanwhile rk b) k
    serve_stream-in_flight_from (came_back (unreachable e upstream)) b k h =
        failed_call-in_flight p model (unreachable e upstream) (slot_returned s.meanwhile rk b) k
    serve_stream-in_flight_from (came_back closing_failed) b k h =
        failed_call-in_flight p model closing_failed (slot_returned s.meanwhile rk b) k
    serve_stream-in_flight_from (came_back no_attempt) b k h =
        failed_call-in_flight p model no_attempt (slot_returned s.meanwhile rk b) k

-- A streamed request that has passed the gates gives back what it took, if its task is not cancelled
-- before the response is there or while an error response is read and closed, and if the closing of
-- its stream returns: when the other requests leave a key's count of slots as it was until then, the
-- count is in the end what it was before the gates.
pub serve_stream-in_flight :
    (s : StreamWorld) (p : Principal) (model : Option Json) (call : Call) (b : Books) (g : Passed)
    (k : String)
    → s.close_end ≡ closed
    → s.drain_end ≢ closing_cancelled
    → call ≢ cancelled_call
    → gates b.tracker p model ≡ ok g
    → in_flight (s.meanwhile g.tracker) k ≡ in_flight g.tracker k
    → in_flight
        (serve_stream s p model g.release_keyid call (record b { tracker = g.tracker })).1.tracker
        k
      ≡ in_flight b.tracker k
serve_stream-in_flight s p model call b g k shuts drains opens h e =
    let (below, granted) = gates-IsGranted b.tracker p model g h in
    serve_stream-in_flight_from s p model g.release_keyid shuts drains call
      (record b { tracker = g.tracker }) k opens
    ∙ release_slot-in_flight g.release_keyid (s.meanwhile g.tracker) g.tracker k e
    ∙ (granted.1 k).0
