-- ===== src/Stub/Replies.antt =====
-- stub/server.py: the answers of `chat_completions`, as a whole or through `_stream`. The identifier
-- and the time of a completion are parameters.
pub mod Streams
use Prim.Native.String
use inference_box.Prelude.{
  ℕ, ◌+◌, ◌-◌, String, Bool, false, Option, none, some, List, [], ◌∷◌, ◌++◌, if◌then◌else◌, Result,
  ok, raises, ◌>>=◌,
}
use inference_box.Prelude.Text.Cutting.{words}
use inference_box.Chat.Values.{
  Json, null, text, array, object, item, no_items, Fields, field, no_fields, lookup, whole_number,
  truthy_value, truthy_field, Raised, attribute_error,
}
use inference_box.Chat.Frames.{Bytes}
use inference_box.Chat.Frames.Events.{event, done_text}
use inference_box.Stub.{StubState, stub_model}
use inference_box.Stub.Completions.{Job}

-- `usage`
abbrev pub usage_of : Job → Fields
usage_of job = field "prompt_tokens" (whole_number job.prompt_tokens) (
    field "completion_tokens" (whole_number job.completion_tokens)
      (field "total_tokens" (whole_number (job.prompt_tokens + job.completion_tokens)) no_fields))

-- The last of the fields that name a completion, in front of the others.
abbrev named : String → String → ℕ → Json → Fields → Fields
named cid kind created model rest =
    field "id" (text cid) (
      field "object" (text kind)
        (field "created" (whole_number created) (field "model" model rest)))

-- The payload of `frame`.
unfoldable pub frame : String → ℕ → Json → Fields → Json → Fields
frame cid created model delta finish = named cid "chat.completion.chunk" created model (
    field "choices"
      (array (
        item
          (object (
            field "index" (whole_number 0)
              (field "delta" (object delta) (field "finish_reason" finish no_fields))))
          no_items))
      no_fields)

-- The frames of the words, each with a space behind it.
unfoldable pub word_frames : String → ℕ → Json → List String → List Fields
unfolding frame
word_frames cid created model [] = []
word_frames cid created model (w ∷ ws) =
    frame cid created model (field "content" (text (String.◌++◌ w " ")) no_fields) null
    ∷ word_frames cid created model ws

-- The frame of the usage, which has no choices.
unfoldable pub usage_frame : String → ℕ → Json → Fields → Fields
usage_frame cid created model usage =
    named cid "chat.completion.chunk" created model
      (field "choices" (array no_items) (field "usage" (object usage) no_fields))

unfoldable pub usage_frames : String → ℕ → Json → Option Fields → List Fields
unfolding usage_frame
usage_frames cid created model none = []
usage_frames cid created model (some usage) = usage_frame cid created model usage ∷ []

-- The payloads of `_stream`, in front of the text that ends it.
unfoldable pub stream : String → ℕ → Json → String → Option Fields → List Fields
unfolding word_frames usage_frames frame
stream cid created model answer usage =
    frame cid created model (field "role" (text "assistant") (field "content" (text "") no_fields))
      null
    ∷ (word_frames cid created model (words answer)
        ++ (frame cid created model no_fields (text "stop") ∷ usage_frames cid created model usage))

-- The bytes of `_stream`, with what `json.dumps` makes of a payload.
unfoldable pub sent : (Fields → Bytes) → List Fields → Bytes
sent dumps [] = event done_text []
sent dumps (d ∷ ds) = event (dumps d) (sent dumps ds)

-- The state when a stream has begun, when it has sent one more word, and when it has ended or its
-- client has left.
abbrev pub begun : StubState → StubState
begun s = record s { running = s.running + 1 }

abbrev pub word_sent : StubState → StubState
word_sent s = record s { generated_tokens = s.generated_tokens + 1 }

abbrev pub stream_ended : StubState → StubState
stream_ended s = record s { running = s.running - 1 }

pub data Reply : Type 0 where
  whole : Json → Reply
  events : List Fields → Reply

-- `(body.get("stream_options") or {}).get("include_usage")`
unfoldable pub usage_asked_in : Option Json → Result Raised Bool
usage_asked_in none = ok false
usage_asked_in (some (object options)) = ok (truthy_field (lookup "include_usage" options))
usage_asked_in (some v) = if truthy_value v then raises attribute_error else ok false

abbrev model_or_stub : Option Json → Json
model_or_stub none = text stub_model
model_or_stub (some model) = model

completion : Fields → Job → String → ℕ → Json
completion body job cid created = object (
    named cid "chat.completion" created (model_or_stub (lookup "model" body)) (
      field "choices"
        (array (
          item
            (object (
              field "index" (whole_number 0) (
                field "message"
                  (object
                    (field "role" (text "assistant") (field "content" (text job.answer) no_fields)))
                  (field "finish_reason" (text "stop") no_fields))))
            no_items))
        (field "usage" (object (usage_of job)) no_fields)))

-- What is streamed, by whether the usage was asked for.
unfoldable pub streamed : Fields → Job → String → ℕ → Bool → Reply
unfolding stream
streamed body job cid created asked = events (
    stream cid created (model_or_stub (lookup "model" body)) job.answer
      (if asked then some (usage_of job) else none))

-- The rest of `chat_completions`, once the request has decoded.
unfoldable pub answered : Fields → Job → String → ℕ → StubState → Result Raised Reply × StubState
unfolding streamed completion usage_asked_in
answered body job cid created s =
    if truthy_field (lookup "stream" body)
    then (
      (usage_asked_in (lookup "stream_options" body) >>= λ asked.
          ok (streamed body job cid created asked)),
      s,
    )
    else (
      ok (whole (completion body job cid created)),
      record s { generated_tokens = s.generated_tokens + job.completion_tokens },
    )
