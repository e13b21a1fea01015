-- ===== src/Chat/Examples.antt =====
-- Requests of the chat route on concrete bodies.
use inference_box.Prelude.{
  true, ℕ, List, ◌≤◌, ◌≡◌, refl, String, [], ◌∷◌, Option, none, some, ok, raises, arith,
}
use inference_box.Prelude.Text.Cutting.{words}
use inference_box.Auth.{Principal, apikey}
use inference_box.Quota.{
  release, record_usage, QuotaTracker, tokens_used, in_flight, check_budget, acquire,
}
use inference_box.Dict.{get_or, get?, set}
use inference_box.Chat.{ChatSettings, admit, estimate_prompt_tokens, crashed}
use inference_box.Chat.Values.{
  boolean, truthy_value, Json, text, array, object, number, integer, pos, infinite, item, no_items,
  Fields, field, no_fields, whole_number, ℤ, overflow_error, attribute_error, lookup, put, int_of,
}
use inference_box.Chat.Admission.{IsFit, admit-IsFit}
use inference_box.Chat.Quotas.{release_slot, Passed, gates}
use inference_box.Chat.Quotas.Passing.{IsBelow, IsGranted, gates-IsGranted}
use inference_box.Client.Outcomes.{Response}
use inference_box.Client.Retry.{responded}
use inference_box.Chat.Frames.{
  Bytes, consume, consume_all, parse_usage_frame, cut_event, lines, after_data, lstrip, rstrip,
  is_done, note,
}
use inference_box.Chat.Frames.Chunks.{joined, consume_all-joined}
use inference_box.Chat.Serving.{
  streamed, cut_short, broken_notice, book_usage, Books, Call, came_back,
}
use inference_box.Chat.Handler.{World, chat_completions, chat_completions-in_flight}
use inference_box.Chat.Serving.Relay.{
  closed, closing_raised, StreamWorld, relay_from, client_left, upstream_failed, relay,
  serve_stream, with_usage_asked,
}
use inference_box.Chat.Serving.Relay.Streaming.{all_passed, closing, relay-passes}

abbrev printed : Json → String
printed v = ""

abbrev no_int : String → Option ℤ
no_int s = none

abbrev settings : ChatSettings
settings = record {
  max_body_bytes = 1000;
  allowed_models = "qwen" ∷ [];
  max_prompt_tokens = 100;
  max_completion_tokens = 64;
}

abbrev job : Principal
job = record {
  subject = "key:k1";
  scopes = "chat" ∷ [];
  method = apikey;
  keyid = some "k1";
  token_budget = some 100;
  max_concurrency = some 2;
}

abbrev hello : Json
hello = object (field "content" (text "hello there") no_fields)

abbrev asking : Json → Fields
asking wanted =
    field "model" (text "qwen")
      (field "messages" (array (item hello no_items)) (field "max_tokens" wanted no_fields))

chat : Unit {0}
unfolding admit estimate_prompt_tokens lookup put int_of words
chat = tt

admitted :
    admit printed no_int settings job 90 (some (object (asking (whole_number 500))))
    ≡ ok (asking (whole_number 64))
unfolding chat
admitted = refl

admit-IsFit_example :
    (90 ≤ settings.max_body_bytes)
    × IsFit printed no_int settings job
        (some (object (asking (whole_number 500))))
        (asking (whole_number 64))
admit-IsFit_example =
    admit-IsFit printed no_int settings job 90 (some (object (asking (whole_number 500))))
      (asking (whole_number 64)) (omega arith) admitted

-- An infinite `max_tokens` raises what the handler does not catch.
infinite_crashes :
    admit printed no_int settings job 90 (some (object (asking (number infinite))))
    ≡ raises (crashed overflow_error)
unfolding chat
infinite_crashes = refl

abbrev busy : QuotaTracker
busy = record { inflight = ("k1", 1) ∷ []; consumed = ("k1", 99) ∷ [] }

abbrev passed : Passed
passed = record {
  tracker = record { inflight = ("k1", 2) ∷ []; consumed = ("k1", 99) ∷ [] };
  release_keyid = some "k1";
}

passes : gates busy job none ≡ ok passed
unfolding gates check_budget acquire tokens_used in_flight get_or get? set
passes = refl

gates-IsGranted_example :
    IsBelow (some "k1") (some 100) (tokens_used busy) × IsGranted busy (some "k1") (some 2) passed
gates-IsGranted_example = gates-IsGranted busy job none passed passes

abbrev books : Books
books = record {
  tracker = busy;
  audits = [];
  rejections = [];
  missing_usage = 0;
  prompt_total = 0;
  completion_total = 0;
}

abbrev usage_object : Fields
usage_object =
    field "prompt_tokens" (whole_number 5) (field "completion_tokens" (whole_number 7) no_fields)

abbrev payload : Response → Option Json
payload r = some (object (field "usage" (object usage_object) no_fields))

-- What `Counter.inc` takes a value as: a number that is not negative, whole ones only being tried.
abbrev inc : Json → Option ℕ
inc (number (integer (pos n))) = some n
inc _ = none

abbrev fine : Call
fine = came_back (responded "http://a" (record { status_code = 200; retry_after = none }))

abbrev nobody : QuotaTracker → QuotaTracker
nobody t = t

-- Bytes whose JSON holds a usage object, whatever they are.
abbrev loads : Bytes → Option Json
loads bs = some (object (field "usage" (object usage_object) no_fields))

-- `data:1`, a blank line and `x`, in two chunks that part the blank line.
abbrev chunks : List Bytes
chunks = (100 ∷ 97 ∷ 116 ∷ 97 ∷ 58 ∷ 49 ∷ 10 ∷ []) ∷ (10 ∷ 120 ∷ []) ∷ []

frames : Unit {0}
unfolding consume parse_usage_frame cut_event lines after_data lstrip rstrip is_done note lookup
frames = tt

at_once : consume loads no_fields [] (joined chunks) ≡ ok (usage_object, 120 ∷ [])
unfolding frames
at_once = refl

relay-passes_example :
    ((relay loads client_left chunks).sent ≡ all_passed chunks (closing client_left))
    × ((relay loads client_left chunks).usage ≡ usage_object)
relay-passes_example = relay-passes loads client_left chunks usage_object (120 ∷ []) at_once

consume_all-joined_example :
    consume_all loads no_fields [] chunks ≡ consume loads no_fields [] (joined chunks)
consume_all-joined_example = consume_all-joined loads no_fields chunks

-- A frame whose JSON is no object raises.
list_frame :
    parse_usage_frame (λ bs. some (array no_items)) (100 ∷ 97 ∷ 116 ∷ 97 ∷ 58 ∷ 49 ∷ [])
    ≡ raises attribute_error
unfolding frames
list_frame = refl

abbrev streaming : StreamWorld
streaming = record {
  loads = loads;
  inc = inc;
  stream_end = upstream_failed;
  chunks = chunks;
  close_end = closed;
  drain_end = closed;
  meanwhile = nobody;
}

abbrev world : World
world = record {
  call = λ streaming body. fine;
  streaming = streaming;
  payload = payload;
  printed = printed;
  int_of_text = no_int;
}

-- A world in which the closing of the stream's response raises.
abbrev unclosed : World
unclosed = record world { streaming = record streaming { close_end = closing_raised } }

abbrev streaming_request : Option Json
streaming_request = some (object (field "stream" (boolean true) (asking (whole_number 500))))

chat_completions-in_flight_example :
    in_flight (chat_completions world job settings 90 streaming_request books).1.tracker "k1"
    ≡ in_flight books.tracker "k1"
chat_completions-in_flight_example =
    chat_completions-in_flight world job refl (λ h. cc) (λ body h. cc) (λ t k. refl) settings 90
      streaming_request books "k1"

-- The request is streamed, its stream breaks, and its tokens are charged.
streamed_test :
    let (reply, after) = chat_completions world job settings 90 streaming_request books in
    (reply ≡ streamed 200 (all_passed chunks (broken_notice ∷ [])))
    × (after.rejections ≡ "upstream_stream_broken" ∷ [])
    × (tokens_used after.tracker "k1" ≡ 111)
unfolding chat frames chat_completions gates check_budget acquire tokens_used in_flight get_or get?
    set serve_stream relay_from book_usage release_slot release record_usage truthy_value
    with_usage_asked
streamed_test = (refl, refl, refl)

-- Where the closing raises, the slot stays taken, and nothing is audited or charged.
unclosed_test :
    let (reply, after) = chat_completions unclosed job settings 90 streaming_request books in
    (reply ≡ cut_short 200 (all_passed chunks (broken_notice ∷ [])))
    × (after.audits ≡ [])
    × (in_flight after.tracker "k1" ≡ 2)
    × (tokens_used after.tracker "k1" ≡ 99)
unfolding streamed_test
unclosed_test = (refl, refl, refl, refl)
