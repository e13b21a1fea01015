-- ===== src/Loadgen/Requests/Counting.antt =====
-- The load generator against the stream of the stub.
use Prim.Native.String
use Prim.Native.String.append
use Prim.Native.String.compare
use Prim.Native.String.{String, [], ◌∷◌}
use mathlib.Core.List.{List, ◌++◌}
use inference_box.Prelude.{
  ℕ, suc, ◌+◌, ◌≡◌, refl, sym, ap, ◌∙◌, subst, Bool, true, false, All, Option, none, some, length,
  ok, ◌>>=◌, str_eq, if◌then◌else◌, arith,
}
use inference_box.Prelude.Text.Cutting.{
  words, without_prefix, without_prefix-append, strip, lstrip, rstrip,
}
use inference_box.Chat.Values.{
  Json, null, text, object, Fields, field, no_fields, lookup, truthy_value,
}
use inference_box.Stub.Completions.{Job}
use inference_box.Stub.Replies.{usage_of, frame, word_frames, usage_frames, usage_frame, stream}
use inference_box.Loadgen.Requests.{
  Progress, no_progress, complete, onto_times, counted, content_seen, content_in, first_content,
  choices_seen, usage_seen, frame_seen, line_seen, next_round, lines_seen,
}

-- A text with a space behind it is not empty.
not_empty : (w : String) → truthy_value (text (String.◌++◌ w " ")) ≡ true
unfolding truthy_value
not_empty [] = refl
not_empty (c ∷ w) = rw (append.cons c w " ", compare.cons-nil c (String.◌++◌ w " ")) refl

content_frame :
    (p : Progress) (now : ℕ) (cid : String) (created : ℕ) (model : Json) (delta : Fields)
    (finish : Json) (content : Option Json)
    → lookup "content" delta ≡ content
    → frame_seen p now (some (object (frame cid created model delta finish)))
      ≡ ok (content_seen p now content)
unfolding frame_seen choices_seen usage_seen first_content content_in frame lookup truthy_value
content_frame p now cid created model delta finish content e = rw e refl

word_frame :
    (p : Progress) (now : ℕ) (cid : String) (created : ℕ) (model : Json) (w : String)
    → frame_seen p now (
        some (
          object
            (frame cid created model (field "content" (text (String.◌++◌ w " ")) no_fields) null)))
      ≡ ok (counted p now)
unfolding content_seen lookup
word_frame p now cid created model w =
    content_frame p now cid created model (field "content" (text (String.◌++◌ w " ")) no_fields)
      null (some (text (String.◌++◌ w " "))) refl
    ∙ ap (λ b. ok (if b then counted p now else p)) (not_empty w)

last_frame :
    (p : Progress) (now : ℕ) (cid : String) (created : ℕ) (model : Json) (job : Job)
    → frame_seen p now (some (object (usage_frame cid created model (usage_of job))))
      ≡ ok (record p { usage = some (object (usage_of job)) })
unfolding frame_seen choices_seen usage_seen usage_frame lookup truthy_value
last_frame p now cid created model job = refl

abbrev pub usage_if : Bool → Job → Option Fields
usage_if asked job = if asked then some (usage_of job) else none

abbrev pub with_usage_of : Progress → Option Fields → Progress
with_usage_of p none = p
with_usage_of p (some usage) = record p { usage = some (object usage) }

abbrev pub is_timed : Option (ℕ × ℕ) → Bool
is_timed none = false
is_timed (some times) = true

is_timed-onto : (o : Option (ℕ × ℕ)) (now : ℕ) → is_timed (onto_times o now) ≡ true
unfolding onto_times
is_timed-onto none now = refl
is_timed-onto (some (first, last)) now = refl

is_timed-counted : (p : Progress) (now : ℕ) → is_timed (counted p now).timed ≡ true
unfolding counted
is_timed-counted p now = is_timed-onto p.timed now

delta_count-counted : (p : Progress) (now : ℕ) → (counted p now).delta_count ≡ suc p.delta_count
unfolding counted
delta_count-counted p now = refl

module _ (loads : String → Option Json) (dumps : Fields → String) where
  -- What `json.dumps` makes of a dict is no mark of the end, has nothing to strip, and is read back
  -- by `json.loads`.
  pub record IsDumped (d : Fields) : Type 0 where
    pub stripped : strip (dumps d) ≡ dumps d
    pub unfinished : str_eq (dumps d) "[DONE]" ≡ false
    pub loaded : loads (dumps d) ≡ some (object d)

  line_seen-frame :
      (p q : Progress) (now : ℕ) (d : Fields)
      → IsDumped d
      → frame_seen p now (some (object d)) ≡ ok q
      → line_seen loads p now (without_prefix "data: " (String.◌++◌ "data: " (dumps d)))
        ≡ ok (some q)
  unfolding line_seen
  line_seen-frame p q now d h e =
      ap (line_seen loads p now) (without_prefix-append "data: " (dumps d))
      ∙ rw (h.stripped, h.unfinished, h.loaded, e) refl

  module _ (clock : ℕ → ℕ) where
    -- The lines of a stream from the i-th on, with the times they arrive at: each frame has an empty
    -- line behind it, and a mark ends the stream.
    abbrev pub lines_from : ℕ → List Fields → List (String × ℕ)
    lines_from i List.[] = List.◌∷◌ ("data: [DONE]", clock i) List.[]
    lines_from i (List.◌∷◌ d ds) =
        List.◌∷◌ (String.◌++◌ "data: " (dumps d), clock i)
          (List.◌∷◌ ("", clock (i + 1)) (lines_from (i + 2) ds))

    lines_seen-frame :
        (p q : Progress) (i : ℕ) (d : Fields) (ds : List Fields)
        → IsDumped d
        → frame_seen p (clock i) (some (object d)) ≡ ok q
        → lines_seen loads p (lines_from i (List.◌∷◌ d ds)) complete
          ≡ lines_seen loads q (lines_from (i + 2) ds) complete
    unfolding lines_seen next_round line_seen without_prefix
    lines_seen-frame p q i d ds h e =
        ap
          (λ r.
            r
            >>= next_round loads p (λ z.
              lines_seen loads z (List.◌∷◌ ("", clock (i + 1)) (lines_from (i + 2) ds)) complete))
          (line_seen-frame p q (clock i) d h e)

    lines_seen-mark :
        (p : Progress) (i : ℕ) → lines_seen loads p (lines_from i List.[]) complete ≡ ok p
    unfolding lines_seen next_round line_seen without_prefix lstrip rstrip
    lines_seen-mark p i = refl

    -- Some words are counted, and timed.
    lines_seen-words :
        (p : Progress) (i : ℕ) (cid : String) (created : ℕ) (model : Json) (ws : List String)
        (es : List Fields)
        → is_timed p.timed ≡ true
        → All IsDumped (word_frames cid created model ws ++ es)
        → (q : Progress) × (j : ℕ) × (lines_seen loads p
              (lines_from i (word_frames cid created model ws ++ es))
              complete
            ≡ lines_seen loads q (lines_from j es) complete)
          × (q.delta_count ≡ p.delta_count + length ws)
          × (is_timed q.timed ≡ true)
          × (q.usage ≡ p.usage)
    unfolding word_frames counted
    lines_seen-words p i cid created model List.[] es t h = (p, i, refl, omega arith, t, refl)
    lines_seen-words p i cid created model (List.◌∷◌ w ws) es t (h, hs) =
        let (q, j, e, n, t', u) =
          lines_seen-words (counted p (clock i)) (i + 2) cid created model ws es
            (is_timed-counted p (clock i)) hs in
        (
          q,
          j,
          lines_seen-frame p (counted p (clock i)) i _ (word_frames cid created model ws ++ es) h
                (word_frame p (clock i) cid created model w)
              ∙ e,
          omega (arith, n, delta_count-counted p (clock i)),
          t',
          u,
        )

    -- What follows the words: the last frame, and the usage if there is one.
    abbrev tail_frames : String → ℕ → Json → Option Fields → List Fields
    tail_frames cid created model usage =
        List.◌∷◌ (frame cid created model no_fields (text "stop"))
          (usage_frames cid created model usage)

    lines_seen-tail :
        (p : Progress) (i : ℕ) (cid : String) (created : ℕ) (model : Json) (job : Job)
        (asked : Bool)
        → All IsDumped (tail_frames cid created model (usage_if asked job))
        → lines_seen loads p
            (lines_from i (tail_frames cid created model (usage_if asked job)))
            complete
          ≡ ok (with_usage_of p (usage_if asked job))
    unfolding usage_frames content_seen lookup
    lines_seen-tail p i cid created model job true (h, (k, hs)) =
        lines_seen-frame p p i _ (usage_frames cid created model (some (usage_of job))) h
          (content_frame p (clock i) cid created model no_fields (text "stop") none refl)
        ∙ lines_seen-frame p (record p { usage = some (object (usage_of job)) }) (i + 2) _ List.[] k
            (last_frame p (clock (i + 2)) cid created model job)
        ∙ lines_seen-mark (record p { usage = some (object (usage_of job)) }) (i + 2 + 2)
    lines_seen-tail p i cid created model job false (h, hs) =
        lines_seen-frame p p i _ List.[] h
          (content_frame p (clock i) cid created model no_fields (text "stop") none refl)
        ∙ lines_seen-mark p (i + 2)

    -- The part of a list of frames behind another.
    All-behind : (ds es : List Fields) → All IsDumped (ds ++ es) → All IsDumped es
    All-behind List.[] es h = h
    All-behind (List.◌∷◌ d ds) es (h, hs) = All-behind ds es hs

    -- The frames of an answer with these words.
    abbrev frames_of : String → ℕ → Json → List String → Option Fields → List Fields
    frames_of cid created model vs usage =
        List.◌∷◌
          (frame cid created model
            (field "role" (text "assistant") (field "content" (text "") no_fields)) null)
          (word_frames cid created model vs ++ tail_frames cid created model usage)

    -- What a stream with some words leaves behind.
    pub record Outcome (ds : List Fields) (n : ℕ) (usage : Option Fields) : Type 0 where
      pub progress : Progress
      pub seen :
          lines_seen loads no_progress (lines_from 0 ds) complete
          ≡ ok (with_usage_of progress usage)
      pub count : progress.delta_count ≡ n
      pub timed : is_timed progress.timed ≡ true
      pub unreported : progress.usage ≡ none

    lines_seen-frames_of :
        (cid : String) (created : ℕ) (model : Json) (w : String) (ws : List String) (job : Job)
        (asked : Bool)
        → All IsDumped (frames_of cid created model (List.◌∷◌ w ws) (usage_if asked job))
        → Outcome
            (frames_of cid created model (List.◌∷◌ w ws) (usage_if asked job))
            (suc (length ws))
            (usage_if asked job)
    unfolding word_frames content_seen lookup truthy_value counted
    lines_seen-frames_of cid created model w ws job asked (h, (k, hs)) =
        let tail = tail_frames cid created model (usage_if asked job) in
        let p = counted no_progress (clock 2) in
        let (q, j, e, n, t, u) = lines_seen-words p 4 cid created model ws tail refl hs in
        record {
          progress = q;
          seen =
              lines_seen-frame no_progress no_progress 0 _
                (word_frames cid created model (List.◌∷◌ w ws) ++ tail) h
                (content_frame no_progress (clock 0) cid created model
                  (field "role" (text "assistant") (field "content" (text "") no_fields)) null
                  (some (text "")) refl)
              ∙ lines_seen-frame no_progress p 2 _ (word_frames cid created model ws ++ tail) k
                  (word_frame no_progress (clock 2) cid created model w)
              ∙ e
              ∙ lines_seen-tail q j cid created model job asked
                  (All-behind (word_frames cid created model ws) tail hs);
          count = omega (arith, n);
          timed = t;
          unreported = u;
        }

    -- A whole stream, of an answer with a word at least.
    pub lines_seen-stream :
        (cid : String) (created : ℕ) (model : Json) (answer w : String) (ws : List String)
        (job : Job) (asked : Bool)
        → words answer ≡ List.◌∷◌ w ws
        → All IsDumped (stream cid created model answer (usage_if asked job))
        → Outcome
            (stream cid created model answer (usage_if asked job))
            (suc (length ws))
            (usage_if asked job)
    unfolding stream
    lines_seen-stream cid created model answer w ws job asked e h =
        subst
          (λ vs.
            All IsDumped (frames_of cid created model vs (usage_if asked job))
            → Outcome (frames_of cid created model vs (usage_if asked job)) (suc (length ws))
                (usage_if asked job))
          (sym e) (lines_seen-frames_of cid created model w ws job asked) h
