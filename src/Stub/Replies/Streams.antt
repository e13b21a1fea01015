-- ===== src/Stub/Replies/Streams.antt =====
-- The stream of the stub, as the relay of the gateway reads it.
use inference_box.Prelude.{
  ℕ, ◌≡◌, refl, sym, ap, ◌∙◌, String, true, false, List, [], ◌∷◌, ◌++◌, All, Option, some, length,
  ok, str_eq, if◌then◌else◌, arith,
}
use inference_box.Prelude.Text.Cutting.{words}
use inference_box.Chat.Values.{
  Json, object, text, Fields, no_fields, lookup, put, lookup-put, truthy_field, truthy_value,
}
use inference_box.Chat.Frames.{Bytes, consume_all, consume}
use inference_box.Chat.Frames.Chunks.{joined, consume_all-joined}
use inference_box.Chat.Frames.Events.{IsBraced, Written, done, one_more, last_usage, drain-Written}
use inference_box.Chat.Serving.Relay.{with_usage_asked, options_of}
use inference_box.Chat.Serving.Relay.Streaming.{or_asked, with_usage_asked-or_asked}
use inference_box.Stub.{StubState}
use inference_box.Stub.Completions.{Job}
use inference_box.Stub.Replies.{
  usage_of, frame, word_frames, usage_frames, usage_frame, stream, sent, events, streamed,
  usage_asked_in, answered, model_or_stub,
}

lookup-put_beside :
    (k j : String) (v : Json) (d : Fields) → str_eq k j ≡ false → lookup j (put k v d) ≡ lookup j d
lookup-put_beside k j v d n = lookup-put k j v d ∙ ap (λ b. if b then some v else lookup j d) n

module _ (loads : Bytes → Option Json) (dumps : Fields → Bytes) where
  -- What `json.dumps` makes of a dict is an object in braces on one line, that `json.loads` reads
  -- as the dict.
  pub record IsDumped (d : Fields) : Type 0 where
    pub braced : IsBraced (dumps d)
    pub loaded : loads (dumps d) ≡ some (object d)

  sent-Written : (ds : List Fields) → All IsDumped ds → Written loads ds (sent dumps ds)
  unfolding sent
  sent-Written [] h = done
  sent-Written (d ∷ ds) (h, hs) = one_more h.braced h.loaded (sent-Written ds hs)

  consume_all-sent :
      (ds : List Fields) (chunks : List Bytes) (so_far : Fields)
      → All IsDumped ds
      → joined chunks ≡ sent dumps ds
      → consume_all loads so_far [] chunks ≡ ok (last_usage loads so_far ds, [])
  unfolding consume
  consume_all-sent ds chunks so_far h e =
      consume_all-joined loads so_far chunks
      ∙ ap (consume loads so_far []) e
      ∙ drain-Written loads ds (sent dumps ds) (length (sent dumps ds)) so_far (sent-Written ds h)
          (omega arith)

  -- The frames of words change nothing.
  last_usage-word_frames :
      (cid : String) (created : ℕ) (model : Json) (ws : List String) (so_far : Fields)
      (es : List Fields)
      → last_usage loads so_far (word_frames cid created model ws ++ es)
        ≡ last_usage loads so_far es
  unfolding word_frames frame lookup
  last_usage-word_frames cid created model [] so_far es = refl
  last_usage-word_frames cid created model (w ∷ ws) so_far es =
      last_usage-word_frames cid created model ws so_far es

  last_usage-stream :
      (cid : String) (created : ℕ) (model : Json) (answer : String) (usage so_far : Fields)
      → last_usage loads so_far (stream cid created model answer (some usage)) ≡ usage
  unfolding stream frame usage_frames usage_frame lookup
  last_usage-stream cid created model answer usage so_far =
      last_usage-word_frames cid created model (words answer) so_far
        (frame cid created model no_fields (text "stop") ∷ usage_frame cid created model usage ∷ [])

  answered-streamed :
      (body options : Fields) (job : Job) (cid : String) (created : ℕ) (s : StubState)
      → truthy_field (lookup "stream" body) ≡ true
      → lookup "stream_options" body ≡ some (object options)
      → truthy_field (lookup "include_usage" options) ≡ true
      → (answered body job cid created s).0 ≡ ok (streamed body job cid created true)
  unfolding answered usage_asked_in
  answered-streamed body options job cid created s t e a = rw (t, e, a) refl

  kept_beside :
      (body : Fields) (k : String)
      → str_eq "stream_options" k ≡ false
      → lookup k (with_usage_asked body) ≡ lookup k body
  unfolding with_usage_asked
  kept_beside body k n = lookup-put_beside "stream_options" k _ body n

  streamed-stream :
      (body : Fields) (model : Option Json) (job : Job) (cid : String) (created : ℕ)
      → lookup "model" body ≡ model
      → streamed body job cid created true
        ≡ events (stream cid created (model_or_stub model) job.answer (some (usage_of job)))
  unfolding streamed
  streamed-stream body model job cid created e = rw e refl

  -- A caller asks for a stream and does not refuse the usage. The stub answers what the gateway
  -- forwards for it with a stream that ends in the usage of the request, and however the bytes of
  -- the stream are cut into chunks, the gateway's relay has found exactly that usage in them and
  -- has nothing left over, where `json.loads` reads back what `json.dumps` has written.
  pub answered-usage :
      (body : Fields) (job : Job) (cid : String) (created : ℕ) (s : StubState)
      (frames : List Fields) (chunks : List Bytes) (so_far : Fields)
      → truthy_field (lookup "stream" body) ≡ true
      → truthy_value (or_asked (lookup "include_usage" (options_of (lookup "stream_options" body))))
        ≡ true
      → stream cid created (model_or_stub (lookup "model" body)) job.answer (some (usage_of job))
        ≡ frames
      → All IsDumped frames
      → joined chunks ≡ sent dumps frames
      → ((answered (with_usage_asked body) job cid created s).0 ≡ ok (events frames))
        × (consume_all loads so_far [] chunks ≡ ok (usage_of job, []))
  answered-usage body job cid created s frames chunks so_far t a f h e =
      let (options, o, i) = with_usage_asked-or_asked body in
      (
        answered-streamed (with_usage_asked body) options job cid created s
              (ap truthy_field (kept_beside body "stream" refl) ∙ t) o (ap truthy_field i ∙ a)
            ∙ ap ok (
                streamed-stream (with_usage_asked body) (lookup "model" body) job cid created
                  (kept_beside body "model" refl))
            ∙ ap (λ z. ok (events z)) f,
        consume_all-sent frames chunks so_far h e
            ∙ ap (λ z. ok (last_usage loads so_far z, [])) (sym f)
            ∙ ap (λ z. ok (z, []))
                (last_usage-stream cid created (model_or_stub (lookup "model" body)) job.answer
                  (usage_of job) so_far),
      )
