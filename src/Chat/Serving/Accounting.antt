-- ===== src/Chat/Serving/Accounting.antt =====
-- What a request that is not streamed is audited as, and that it gives its slot back.
use inference_box.Prelude.{
  ℕ, ◌≡◌, refl, ◌∙◌, sym, ap, String, ◌∷◌, Option, none, some, Result, ok, raises, str_eq,
  Bool-cases, ltb, inl, inr, if◌then◌else◌, ◌-◌,
}
use inference_box.Auth.{Principal}
use inference_box.Quota.{QuotaTracker, in_flight}
use inference_box.Quota.Slots.{in_flight-release}
use inference_box.Client.{all_replicas_open, no_urls, index_error}
use inference_box.Client.Outcomes.{Response}
use inference_box.Client.Retry.{Ending, responded, refused, unreachable, closing_failed, no_attempt}
use inference_box.Chat.Values.{Json, Fields, object, no_fields, Raised}
use inference_box.Chat.Quotas.{Passed, gates, release_slot}
use inference_box.Chat.Quotas.Passing.{gates-IsGranted}
use inference_box.Chat.Serving.{
  AuditRecord, Books, Reply, answered, http_error, streamed, cut_short, uncaught, cancelled, Call,
  came_back, cancelled_call, book_usage, reject, failed_call, usage_of, answer_booked, answer_usage,
  answer_payload, after_response, after_call, slot_returned, serve, served_record,
}
use inference_box.Chat.Serving.Booking.{Keeps, books_of, book_usage-Keeps}

-- One record has been added, of the caller's key and with the status that is replied.
abbrev pub AddsRecord : Principal → ℕ → Books → Books → Type 0
AddsRecord p status before b =
    (a : AuditRecord) × (b.audits ≡ a ∷ before.audits)
    × (a.audit_status ≡ status)
    × (a.audit_keyid ≡ p.keyid)

-- `Cause` is what can have cut a stream short.
abbrev pub IsAudited : Type 0 → Principal → Books → Reply × Books → Type 0
IsAudited Cause p before (answered status, b) = AddsRecord p status before b
IsAudited Cause p before (http_error status detail, b) = AddsRecord p status before b
IsAudited Cause p before (streamed status sent, b) = AddsRecord p status before b
IsAudited Cause p before (cut_short status sent, b) = (b.audits ≡ before.audits) × Cause
IsAudited Cause p before (uncaught, b) = b.audits ≡ before.audits
IsAudited Cause p before (cancelled, b) = b.audits ≡ before.audits

pub release_slot-in_flight :
    (release_keyid : Option String) (t t' : QuotaTracker) (k : String)
    → in_flight t k ≡ in_flight t' k
    → in_flight (release_slot release_keyid t) k ≡ in_flight (release_slot release_keyid t') k
unfolding release_slot
release_slot-in_flight none t t' k h = h
release_slot-in_flight (some keyid) t t' k h =
    in_flight-release t keyid k
    ∙ ap (λ n. n - (if str_eq keyid k then 1 else 0)) h
    ∙ sym (in_flight-release t' keyid k)

-- A record on top of books that have the audits of those before.
pub Keeps-AddsRecord :
    (p : Principal) (status : ℕ) (before b : Books) (a : AuditRecord)
    → Keeps before b
    → a.audit_status ≡ status
    → a.audit_keyid ≡ p.keyid
    → AddsRecord p status before (record b { audits = a ∷ b.audits })
Keeps-AddsRecord p status before b a v h k = (a, ap (λ rs. a ∷ rs) v.same_audits, h, k)

pub failed_call-in_flight :
    (p : Principal) (model : Option Json) (ending : Ending) (b : Books) (k : String)
    → in_flight (failed_call p model ending b).1.tracker k ≡ in_flight b.tracker k
unfolding failed_call reject
failed_call-in_flight p model (responded upstream r) b k = refl
failed_call-in_flight p model (refused (all_replicas_open wait)) b k = refl
failed_call-in_flight p model (refused no_urls) b k = refl
failed_call-in_flight p model (refused index_error) b k = refl
failed_call-in_flight p model (unreachable e upstream) b k = refl
failed_call-in_flight p model closing_failed b k = refl
failed_call-in_flight p model no_attempt b k = refl

module _ (Cause : Type 0) where
  pub reject-IsAudited :
      (p : Principal) (model : Option Json) (status : ℕ) (reason : String) (b : Books)
      → IsAudited Cause p b (reject p model status reason b)
  unfolding reject
  reject-IsAudited p model status reason b = (_, refl, refl, refl)

  pub failed_call-IsAudited :
      (p : Principal) (model : Option Json) (ending : Ending) (b : Books)
      → IsAudited Cause p b (failed_call p model ending b)
  unfolding failed_call
  failed_call-IsAudited p model (responded upstream r) b = refl
  failed_call-IsAudited p model (refused (all_replicas_open wait)) b =
      reject-IsAudited p model 503 "all_replicas_open" b
  failed_call-IsAudited p model (refused no_urls) b = refl
  failed_call-IsAudited p model (refused index_error) b = refl
  failed_call-IsAudited p model (unreachable e upstream) b =
      reject-IsAudited p model 502 "upstream_unreachable" b
  failed_call-IsAudited p model closing_failed b = refl
  failed_call-IsAudited p model no_attempt b = refl

  module _ (p : Principal) (model : Option Json) (upstream : String) (status : ℕ)
      (inc : Json → Option ℕ) where
    answer_booked-IsAudited :
        (u : Fields) (b : Books) (r : Result Books Books)
        → Keeps b (books_of r)
        → IsAudited Cause p b (answer_booked p model upstream status u r)
    unfolding answer_booked served_record
    answer_booked-IsAudited u b (raises b') v = v.same_audits
    answer_booked-IsAudited u b (ok booked) v = elim (Bool-cases (ltb status 400)) [
      | inl e ↦ rw e (Keeps-AddsRecord p status b booked _ v refl refl)
      | inr e ↦ rw e (Keeps-AddsRecord p status b booked _ v refl refl)
    ]

    answer_usage-IsAudited :
        (r : Result Raised Fields) (b : Books)
        → IsAudited Cause p b (answer_usage p model upstream status inc r b)
    unfolding answer_usage
    answer_usage-IsAudited (raises e) b = refl
    answer_usage-IsAudited (ok u) b =
        answer_booked-IsAudited u b (book_usage inc p.keyid u b) (book_usage-Keeps inc p.keyid u b)

    answer_payload-IsAudited :
        (o : Option Json) (b : Books)
        → IsAudited Cause p b (answer_payload p model upstream status inc o b)
    unfolding answer_payload
    answer_payload-IsAudited none b = reject-IsAudited p model 502 "upstream_bad_response" b
    answer_payload-IsAudited (some v) b = answer_usage-IsAudited (usage_of v) b

module _ (p : Principal) (model : Option Json) (upstream : String) (status : ℕ)
    (inc : Json → Option ℕ) where
  answer_booked-in_flight :
      (u : Fields) (r : Result Books Books) (k : String)
      → in_flight (answer_booked p model upstream status u r).1.tracker k
        ≡ in_flight (books_of r).tracker k
  unfolding answer_booked
  answer_booked-in_flight u (raises b) k = refl
  answer_booked-in_flight u (ok b) k = refl

  answer_usage-in_flight :
      (r : Result Raised Fields) (b : Books) (k : String)
      → in_flight (answer_usage p model upstream status inc r b).1.tracker k ≡ in_flight b.tracker k
  unfolding answer_usage
  answer_usage-in_flight (raises e) b k = refl
  answer_usage-in_flight (ok u) b k =
      answer_booked-in_flight u (book_usage inc p.keyid u b) k
      ∙ Keeps.same_slots (book_usage-Keeps inc p.keyid u b) k

  answer_payload-in_flight :
      (o : Option Json) (b : Books) (k : String)
      → in_flight (answer_payload p model upstream status inc o b).1.tracker k
        ≡ in_flight b.tracker k
  unfolding answer_payload reject
  answer_payload-in_flight none b k = refl
  answer_payload-in_flight (some v) b k = answer_usage-in_flight (usage_of v) b k

module _ (payload : Response → Option Json) (inc : Json → Option ℕ) where
  after_call-IsAudited :
      (Cause : Type 0) (p : Principal) (model : Option Json) (call : Call) (b : Books)
      → IsAudited Cause p b (after_call payload inc p model call b)
  unfolding after_call after_response
  after_call-IsAudited Cause p model cancelled_call b = refl
  after_call-IsAudited Cause p model (came_back (responded upstream r)) b =
      answer_payload-IsAudited Cause p model upstream r.status_code inc
        (if ltb r.status_code 400 then payload r else some (object no_fields)) b
  after_call-IsAudited Cause p model (came_back (refused e)) b =
      failed_call-IsAudited Cause p model (refused e) b
  after_call-IsAudited Cause p model (came_back (unreachable e upstream)) b =
      failed_call-IsAudited Cause p model (unreachable e upstream) b
  after_call-IsAudited Cause p model (came_back closing_failed) b =
      failed_call-IsAudited Cause p model closing_failed b
  after_call-IsAudited Cause p model (came_back no_attempt) b =
      failed_call-IsAudited Cause p model no_attempt b

  pub serve-IsAudited :
      (Cause : Type 0) (meanwhile : QuotaTracker → QuotaTracker) (p : Principal)
      (model : Option Json) (release_keyid : Option String) (call : Call) (b : Books)
      → IsAudited Cause p
          (slot_returned meanwhile release_keyid b)
          (serve payload inc meanwhile p model release_keyid call b)
  unfolding serve
  serve-IsAudited Cause meanwhile p model rk call b =
      after_call-IsAudited Cause p model call (slot_returned meanwhile rk b)

  after_call-in_flight :
      (p : Principal) (model : Option Json) (call : Call) (b : Books) (k : String)
      → in_flight (after_call payload inc p model call b).1.tracker k ≡ in_flight b.tracker k
  unfolding after_call after_response
  after_call-in_flight p model cancelled_call b k = refl
  after_call-in_flight p model (came_back (responded upstream r)) b k =
      answer_payload-in_flight p model upstream r.status_code inc
        (if ltb r.status_code 400 then payload r else some (object no_fields)) b k
  after_call-in_flight p model (came_back (refused e)) b k =
      failed_call-in_flight p model (refused e) b k
  after_call-in_flight p model (came_back (unreachable e upstream)) b k =
      failed_call-in_flight p model (unreachable e upstream) b k
  after_call-in_flight p model (came_back closing_failed) b k =
      failed_call-in_flight p model closing_failed b k
  after_call-in_flight p model (came_back no_attempt) b k =
      failed_call-in_flight p model no_attempt b k

  -- A request that is not streamed and has passed the gates gives back what it took, however its
  -- upstream call ends, a cancellation included: if the other requests leave a key's count of slots
  -- as it was while this one waits, the count is in the end what it was before the gates.
  pub serve-in_flight :
      (meanwhile : QuotaTracker → QuotaTracker) (p : Principal) (model : Option Json) (call : Call)
      (b : Books) (g : Passed) (k : String)
      → gates b.tracker p model ≡ ok g
      → in_flight (meanwhile g.tracker) k ≡ in_flight g.tracker k
      → in_flight
          (serve payload inc meanwhile p model g.release_keyid call
            (record b { tracker = g.tracker })).1.tracker
          k
        ≡ in_flight b.tracker k
  unfolding serve
  serve-in_flight meanwhile p model call b g k h e =
      let (below, granted) = gates-IsGranted b.tracker p model g h in
      after_call-in_flight p model call
        (slot_returned meanwhile g.release_keyid (record b { tracker = g.tracker })) k
      ∙ release_slot-in_flight g.release_keyid (meanwhile g.tracker) g.tracker k e
      ∙ (granted.1 k).0
