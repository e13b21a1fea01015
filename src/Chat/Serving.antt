-- ===== src/Chat/Serving.antt =====
-- The rest of gateway/routes/chat.py: what becomes of a request that has passed the gates, streamed
-- or not. The upstream call is a run of Client.Retry, or one in which the task is cancelled; what
-- other requests do to the quotas while this one waits is a function. `inc v` is what prometheus_client
-- and the addition of a charge take `v` as, in tokens, and `none` where `Counter.inc(v)` raises.
pub mod Accounting
pub mod Booking
pub mod Reasons
pub mod Relay
use inference_box.Prelude.{
  ℕ, suc, ◌+◌, String, List, [], ◌∷◌, ◌++◌, Bool, true, false, Option, none, some, ltb,
  if◌then◌else◌, Result, ok, raises,
}
use inference_box.Auth.{Principal}
use inference_box.Quota.{QuotaTracker, record_usage}
use inference_box.Client.{PoolError, all_replicas_open, no_urls, index_error}
use inference_box.Client.Outcomes.{Response}
use inference_box.Client.Retry.{Ending, responded, refused, unreachable, no_attempt}
use inference_box.Chat.{Refusal, rejected, crashed}
use inference_box.Chat.Values.{
  Json, null, object, Fields, no_fields, lookup, whole_number, truthy_value, Raised,
  attribute_error,
}
use inference_box.Chat.Quotas.{Passed, release_slot}
use inference_box.Chat.Frames.{Bytes}

-- The fields of an audit record that the route computes.
pub record AuditRecord : Type 0 where
  pub audit_keyid : Option String
  pub audit_model : Option Json
  pub audit_status : ℕ
  pub audit_prompt_tokens : Json
  pub audit_completion_tokens : Json
  pub audit_upstream : Option String
  pub audit_reason : Option String
  pub audit_streamed : Bool

-- What the route changes: the quotas, the audit log (the latest record first), the counters of
-- refusals, of requests without usage and of tokens.
pub record Books : Type 0 where
  pub tracker : QuotaTracker
  pub audits : List AuditRecord
  pub rejections : List String
  pub missing_usage : ℕ
  pub prompt_total : ℕ
  pub completion_total : ℕ

-- What a stream sends: a chunk as it came, or the two pieces of the notice that it has broken.
pub data Sent : Type 0 where
  passed : Bytes → Sent
  broken_notice : Sent

-- What the caller gets: a payload or an error with a status, a stream with the
-- upstream's status and what is sent, such a stream whose end raises, a 500 for an
-- exception that nothing catches, or nothing from a task that is cancelled.
pub data Reply : Type 0 where
  answered : ℕ → Reply
  http_error : ℕ → String → Reply
  streamed : ℕ → List Sent → Reply
  cut_short : ℕ → List Sent → Reply
  uncaught : Reply
  cancelled : Reply

-- How `pool.request` or `pool.open_stream` ends.
pub data Call : Type 0 where
  came_back : Ending → Call
  cancelled_call : Call

-- `_record_usage`: a count that is missing or null is none.
abbrev pub stated : Option Json → Option Json
stated none = none
stated (some null) = none
stated (some v) = some v

abbrev pub charged : Option String → ℕ → QuotaTracker → QuotaTracker
charged none n t = t
charged (some keyid) n t = record_usage t keyid n

module _ (inc : Json → Option ℕ) where
  -- What a count adds to the counter and to the charge; `if prompt:` passes over what is not truthy.
  abbrev pub amount : Option Json → Option ℕ
  amount none = some 0
  amount (some v) = if truthy_value v then inc v else some 0

  abbrev pub completion_counted : Option String → ℕ → Option ℕ → Books → Result Books Books
  completion_counted keyid n none b = raises b
  completion_counted keyid n (some m) b = ok (record b {
    completion_total = b.completion_total + m;
    tracker = charged keyid (n + m) b.tracker;
  })

  abbrev pub prompt_counted : Option String → Option Json → Option ℕ → Books → Result Books Books
  prompt_counted keyid completion none b = raises b
  prompt_counted keyid completion (some n) b =
      completion_counted keyid n (amount completion)
        (record b { prompt_total = b.prompt_total + n })

  abbrev pub usage_recorded : Option String → Option Json → Option Json → Books → Result Books Books
  usage_recorded keyid none none b = ok (record b { missing_usage = suc b.missing_usage })
  usage_recorded keyid none (some v) b = prompt_counted keyid (some v) (amount none) b
  usage_recorded keyid (some v) completion b = prompt_counted keyid completion (amount (some v)) b

  -- The books that an exception leaves are those up to the count that raised.
  unfoldable pub book_usage : Option String → Fields → Books → Result Books Books
  book_usage keyid u b =
      usage_recorded keyid (stated (lookup "prompt_tokens" u))
        (stated (lookup "completion_tokens" u)) b

-- `_reject`
unfoldable pub reject : Principal → Option Json → ℕ → String → Books → Reply × Books
reject p model status reason b = (
  http_error status reason,
  record b {
    rejections = reason ∷ b.rejections;
    audits =
        record {
          audit_keyid = p.keyid;
          audit_model = model;
          audit_status = status;
          audit_prompt_tokens = whole_number 0;
          audit_completion_tokens = whole_number 0;
          audit_upstream = none;
          audit_reason = some reason;
          audit_streamed = false;
        }
        ∷ b.audits;
  },
)

-- A refusal before the request is forwarded.
unfoldable pub refuse : Principal → Refusal → Books → Reply × Books
unfolding reject
refuse p (rejected status reason model) b = reject p model status reason b
refuse p (crashed e) b = (uncaught, b)

-- `usage.get(k, 0)`
abbrev pub or_zero : Option Json → Json
or_zero none = whole_number 0
or_zero (some v) = v

-- `usage.get(k, 0) or 0`
abbrev pub or_falsy_zero : Option Json → Json
or_falsy_zero none = whole_number 0
or_falsy_zero (some v) = if truthy_value v then v else whole_number 0

-- The record of a request that a replica has answered, with the counts as they are logged.
pub served_record :
    Principal → Option Json → ℕ → Json → Json → String → Option String → Bool → AuditRecord
served_record p model status prompt completion upstream reason is_stream = record {
  audit_keyid = p.keyid;
  audit_model = model;
  audit_status = status;
  audit_prompt_tokens = prompt;
  audit_completion_tokens = completion;
  audit_upstream = some upstream;
  audit_reason = reason;
  audit_streamed = is_stream;
}

-- What ends a request whose upstream call raised. `pick` raises nothing but `AllReplicasOpen` on a
-- pool with URLs, and the loop makes at least one attempt.
pub failed_call : Principal → Option Json → Ending → Books → Reply × Books
unfolding reject
failed_call p model (refused (all_replicas_open wait)) b = reject p model 503 "all_replicas_open" b
failed_call p model (unreachable e upstream) b = reject p model 502 "upstream_unreachable" b
failed_call p model _ b = (uncaught, b)

-- `payload.get("usage") or {}`, on which `get` is called next.
abbrev usage_or_empty : Option Json → Result Raised Fields
usage_or_empty none = ok no_fields
usage_or_empty (some (object u)) = ok u
usage_or_empty (some v) = if truthy_value v then raises attribute_error else ok no_fields

unfoldable pub usage_of : Json → Result Raised Fields
usage_of (object d) = usage_or_empty (lookup "usage" d)
usage_of _ = raises attribute_error

-- `b`, with the slot given back after what others did in the meantime.
abbrev pub slot_returned : (QuotaTracker → QuotaTracker) → Option String → Books → Books
slot_returned meanwhile release_keyid b = record b {
  tracker = release_slot release_keyid (meanwhile b.tracker);
}

-- After a response that has been read: its usage is booked, an audit record is written, and an
-- error status becomes an error.
module _ (p : Principal) (model : Option Json) (upstream : String) (status : ℕ) where
  pub answer_booked : Fields → Result Books Books → Reply × Books
  unfolding served_record
  answer_booked u (raises b) = (uncaught, b)
  answer_booked u (ok booked) =
      let reason = if ltb status 400 then none else some "upstream_error" in
      (
        if ltb status 400 then answered status else http_error status "upstream error",
        record booked {
          audits =
              served_record p model status (or_zero (lookup "prompt_tokens" u))
                (or_zero (lookup "completion_tokens" u)) upstream reason false
              ∷ booked.audits;
        },
      )

  pub answer_usage : (Json → Option ℕ) → Result Raised Fields → Books → Reply × Books
  unfolding answer_booked book_usage
  answer_usage inc (raises e) b = (uncaught, b)
  answer_usage inc (ok u) b = answer_booked u (book_usage inc p.keyid u b)

  pub answer_payload : (Json → Option ℕ) → Option Json → Books → Reply × Books
  unfolding answer_usage reject usage_of
  answer_payload inc none b = reject p model 502 "upstream_bad_response" b
  answer_payload inc (some v) b = answer_usage inc (usage_of v) b

-- `payload` is `resp.json()`, and `none` for a body that is no JSON.
module _ (payload : Response → Option Json) (inc : Json → Option ℕ) where
  pub after_response : Principal → Option Json → String → Response → Books → Reply × Books
  unfolding answer_payload
  after_response p model upstream r b =
      answer_payload p model upstream r.status_code inc
        (if ltb r.status_code 400 then payload r else some (object no_fields)) b

  pub after_call : Principal → Option Json → Call → Books → Reply × Books
  unfolding after_response failed_call
  after_call p model cancelled_call b = (cancelled, b)
  after_call p model (came_back (responded upstream r)) b = after_response p model upstream r b
  after_call p model (came_back ending) b = failed_call p model ending b

  -- The non-streaming branch, the slot being given back in its `finally`.
  unfoldable pub serve :
      (QuotaTracker → QuotaTracker)
      → Principal
      → Option Json
      → Option String
      → Call
      → Books
      → Reply × Books
  unfolding after_call
  serve meanwhile p model release_keyid call b =
      after_call p model call (slot_returned meanwhile release_keyid b)
