-- ===== src/Chat/Serving/Relay/Streaming.antt =====
-- What a streamed request sends, and what it asks the upstream for.
use inference_box.Prelude.{◌≡◌, refl, ◌∙◌, ap, List, [], ◌∷◌, true, Option, none, some, ok, bind-ok}
use inference_box.Chat.Values.{Json, boolean, object, Fields, no_fields, lookup, lookup-put}
use inference_box.Chat.Frames.{Bytes, consume, consume_all}
use inference_box.Chat.Frames.Chunks.{joined, consume_all-joined}
use inference_box.Chat.Serving.{Sent, passed, broken_notice}
use inference_box.Chat.Serving.Relay.{
  StreamEnd, completed, upstream_failed, client_left, at_end, pass_on, relay_from, relay,
  with_usage_asked, options_of, set_default,
}

abbrev pub all_passed : List Bytes → List Sent → List Sent
all_passed [] rest = rest
all_passed (chunk ∷ chunks) rest = passed chunk ∷ all_passed chunks rest

-- What follows the chunks of a stream.
abbrev pub closing : StreamEnd → List Sent
closing completed = []
closing upstream_failed = broken_notice ∷ []
closing client_left = []

module _ (loads : Bytes → Option Json) where
  relay_from-passes :
      (end : StreamEnd) (chunks : List Bytes) (usage u : Fields) (buf r : Bytes)
      → consume_all loads usage buf chunks ≡ ok (u, r)
      → ((relay_from loads end chunks usage buf).sent ≡ all_passed chunks (closing end))
        × ((relay_from loads end chunks usage buf).usage ≡ u)
  unfolding relay_from consume_all at_end pass_on
  relay_from-passes completed [] usage u buf r h = (refl, cc)
  relay_from-passes upstream_failed [] usage u buf r h = (refl, cc)
  relay_from-passes client_left [] usage u buf r h = (refl, cc)
  relay_from-passes end (chunk ∷ chunks) usage u buf r h =
      let ((v, b), e, q) =
        bind-ok (consume loads usage buf chunk) (λ s. consume_all loads s.0 s.1 chunks) (u, r) h in
      let (sent_rest, usage_rest) = relay_from-passes end chunks v u b r q in
      (
        ap (λ x. (pass_on chunk (relay_from loads end chunks) x).sent) e
            ∙ ap (λ z. passed chunk ∷ z) sent_rest,
        ap (λ x. (pass_on chunk (relay_from loads end chunks) x).usage) e ∙ usage_rest,
      )

  -- A stream in none of whose frames the reading of the usage raises is passed on chunk by chunk,
  -- unchanged and in order, with the notice at the end exactly if the upstream has failed; and the
  -- usage that is booked is what all the bytes hold, however they were cut into chunks.
  pub relay-passes :
      (end : StreamEnd) (chunks : List Bytes) (usage : Fields) (rest : Bytes)
      → consume loads no_fields [] (joined chunks) ≡ ok (usage, rest)
      → ((relay loads end chunks).sent ≡ all_passed chunks (closing end))
        × ((relay loads end chunks).usage ≡ usage)
  relay-passes end chunks usage rest h =
      relay_from-passes end chunks no_fields usage [] rest
        (consume_all-joined loads no_fields chunks ∙ h)

-- What the caller has said of the usage, and `true` where it has said nothing.
abbrev pub or_asked : Option Json → Json
or_asked none = boolean true
or_asked (some v) = v

set_default-or_asked :
    (o : Option Json) (options : Fields)
    → lookup "include_usage" options ≡ o
    → lookup "include_usage" (set_default o "include_usage" (boolean true) options)
      ≡ some (or_asked o)
unfolding set_default
set_default-or_asked none options e =
    lookup-put "include_usage" "include_usage" (boolean true) options
set_default-or_asked (some v) options e = e

-- The body that is forwarded for a stream asks for the usage, unless the caller's own options say
-- something else about it, which is then kept.
pub with_usage_asked-or_asked :
    (body : Fields)
    → (options : Fields) × (lookup "stream_options" (with_usage_asked body) ≡ some (object options))
      × (lookup "include_usage" options
          ≡ some (or_asked (lookup "include_usage" (options_of (lookup "stream_options" body)))))
unfolding with_usage_asked
with_usage_asked-or_asked body =
    let options = options_of (lookup "stream_options" body) in
    let said = lookup "include_usage" options in
    let asked = set_default said "include_usage" (boolean true) options in
    (
      asked,
      lookup-put "stream_options" "stream_options" (object asked) body,
      set_default-or_asked said options refl,
    )
