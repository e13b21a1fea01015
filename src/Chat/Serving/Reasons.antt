-- ===== src/Chat/Serving/Reasons.antt =====
-- The reasons counted for a request that is not streamed.
use inference_box.Prelude.{
  ℕ, String, Option, none, some, ltb, All, ◌≡◌, refl, sym, subst, Result, ok, raises, if◌then◌else◌,
}
use inference_box.Auth.{Principal}
use inference_box.Quota.{QuotaTracker}
use inference_box.Client.{all_replicas_open, no_urls, index_error}
use inference_box.Client.Outcomes.{Response}
use inference_box.Client.Retry.{Ending, responded, refused, unreachable, closing_failed, no_attempt}
use inference_box.Chat.{Refusal, rejected, crashed}
use inference_box.Chat.Values.{Json, Fields, object, no_fields, Raised}
use inference_box.Chat.Vocabulary.{IsKnown, IsKnownRefusal}
use inference_box.Chat.Serving.{
  Books, Call, came_back, cancelled_call, book_usage, reject, refuse, failed_call, usage_of,
  answer_booked, answer_usage, answer_payload, after_response, after_call, slot_returned, serve,
}
use inference_box.Chat.Serving.Booking.{Keeps, books_of, book_usage-Keeps}

-- Every refusal counted so far is one that the metrics know.
abbrev pub AllKnown : Books → Type 0
AllKnown b = All IsKnown b.rejections

pub reject-AllKnown :
    (p : Principal) (model : Option Json) (status : ℕ) (reason : String) (b : Books)
    → IsKnown reason
    → AllKnown b
    → AllKnown (reject p model status reason b).1
unfolding reject
reject-AllKnown p model status reason b h k = (h, k)

pub refuse-AllKnown :
    (p : Principal) (r : Refusal) (b : Books)
    → IsKnownRefusal r
    → AllKnown b
    → AllKnown (refuse p r b).1
unfolding refuse
refuse-AllKnown p (rejected status reason model) b h k = reject-AllKnown p model status reason b h k
refuse-AllKnown p (crashed e) b h k = k

pub failed_call-AllKnown :
    (p : Principal) (model : Option Json) (ending : Ending) (b : Books)
    → AllKnown b
    → AllKnown (failed_call p model ending b).1
unfolding failed_call
failed_call-AllKnown p model (responded upstream r) b k = k
failed_call-AllKnown p model (refused (all_replicas_open wait)) b k =
    reject-AllKnown p model 503 "all_replicas_open" b refl k
failed_call-AllKnown p model (refused no_urls) b k = k
failed_call-AllKnown p model (refused index_error) b k = k
failed_call-AllKnown p model (unreachable e upstream) b k =
    reject-AllKnown p model 502 "upstream_unreachable" b refl k
failed_call-AllKnown p model closing_failed b k = k
failed_call-AllKnown p model no_attempt b k = k

same_rejections-AllKnown :
    (before b : Books) → b.rejections ≡ before.rejections → AllKnown before → AllKnown b
same_rejections-AllKnown before b e k = subst (λ reasons. All IsKnown reasons) (sym e) k

pub book_usage-AllKnown :
    (inc : Json → Option ℕ) (keyid : Option String) (u : Fields) (b : Books)
    → AllKnown b
    → AllKnown (books_of (book_usage inc keyid u b))
book_usage-AllKnown inc keyid u b k =
    same_rejections-AllKnown b (books_of (book_usage inc keyid u b))
      (Keeps.same_rejections (book_usage-Keeps inc keyid u b)) k

module _ (p : Principal) (model : Option Json) (upstream : String) (status : ℕ)
    (inc : Json → Option ℕ) where
  answer_booked-AllKnown :
      (u : Fields) (r : Result Books Books)
      → AllKnown (books_of r)
      → AllKnown (answer_booked p model upstream status u r).1
  unfolding answer_booked
  answer_booked-AllKnown u (raises b) k = k
  answer_booked-AllKnown u (ok b) k = k

  answer_usage-AllKnown :
      (r : Result Raised Fields) (b : Books)
      → AllKnown b
      → AllKnown (answer_usage p model upstream status inc r b).1
  unfolding answer_usage
  answer_usage-AllKnown (raises e) b k = k
  answer_usage-AllKnown (ok u) b k =
      answer_booked-AllKnown u (book_usage inc p.keyid u b) (book_usage-AllKnown inc p.keyid u b k)

  answer_payload-AllKnown :
      (o : Option Json) (b : Books)
      → AllKnown b
      → AllKnown (answer_payload p model upstream status inc o b).1
  unfolding answer_payload
  answer_payload-AllKnown none b k = reject-AllKnown p model 502 "upstream_bad_response" b refl k
  answer_payload-AllKnown (some v) b k = answer_usage-AllKnown (usage_of v) b k

module _ (payload : Response → Option Json) (inc : Json → Option ℕ) where
  pub serve-AllKnown :
      (meanwhile : QuotaTracker → QuotaTracker) (p : Principal) (model : Option Json)
      (release_keyid : Option String) (call : Call) (b : Books)
      → AllKnown b
      → AllKnown (serve payload inc meanwhile p model release_keyid call b).1
  unfolding serve after_call after_response
  serve-AllKnown meanwhile p model rk cancelled_call b k = k
  serve-AllKnown meanwhile p model rk (came_back (responded upstream r)) b k =
      answer_payload-AllKnown p model upstream r.status_code inc
        (if ltb r.status_code 400 then payload r else some (object no_fields))
        (slot_returned meanwhile rk b) k
  serve-AllKnown meanwhile p model rk (came_back (refused e)) b k =
      failed_call-AllKnown p model (refused e) (slot_returned meanwhile rk b) k
  serve-AllKnown meanwhile p model rk (came_back (unreachable e upstream)) b k =
      failed_call-AllKnown p model (unreachable e upstream) (slot_returned meanwhile rk b) k
  serve-AllKnown meanwhile p model rk (came_back closing_failed) b k =
      failed_call-AllKnown p model closing_failed (slot_returned meanwhile rk b) k
  serve-AllKnown meanwhile p model rk (came_back no_attempt) b k =
      failed_call-AllKnown p model no_attempt (slot_returned meanwhile rk b) k
