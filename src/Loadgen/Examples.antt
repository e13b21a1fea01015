-- ===== src/Loadgen/Examples.antt =====
-- The load generator on concrete values.
use inference_box.Prelude.{
  ℕ, zero, suc, ◌*◌, ◌≡◌, refl, String, Bool, true, false, List, [], ◌∷◌, Option, none, some, arith,
  str_eq,
}
use inference_box.Prelude.Text.Cutting.{words, lstrip, rstrip}
use inference_box.Chat.Values.{
  Json, text, array, object, item, no_items, Fields, field, no_fields, null, lookup,
}
use inference_box.Stub.Completions.{Job}
use inference_box.Stub.Replies.{stream, frame, word_frames, usage_frames, usage_frame, usage_of}
use inference_box.Loadgen.Percentile.{pct, sorted, pct_of, interpolated, round_div, at}
use inference_box.Loadgen.Requests.{RequestResult, new_result, one_request, complete, responded}
use inference_box.Loadgen.Requests.Counting.{lines_from, usage_if}
use inference_box.Loadgen.Requests.Agreement.{Reports, one_request-stream}
use inference_box.Loadgen.Levels.Accounts.{Ran}

-- Between 2.00 and 4.00 the median is 3.00.
median : pct (4000000 ∷ 2000000 ∷ []) 50 ≡ some 300
unfolding pct sorted pct_of interpolated round_div at
median = refl

-- A value that is finer than what is kept is rounded.
alone : pct (1234000 ∷ []) 50 ≡ some 123
unfolding pct sorted round_div
alone = refl

abbrev good : RequestResult
good = record new_result { is_ok = true; completion_tokens = some 7 }

abbrev bad : RequestResult
bad = record new_result { error = some "ReadTimeout" }

abbrev runs : List Ran
runs = (1, 1000, good ∷ bad ∷ []) ∷ []

abbrev job : Job
job = record { answer = "Hi."; prompt_tokens = 2; completion_tokens = 1 }

abbrev model : Json
model = text "m"

abbrev fields_in : Fields → ℕ
fields_in no_fields = 0
fields_in (field k v d) = suc (fields_in d)

-- A text for each frame of the answer, by the fields of its delta.
abbrev text_of : ℕ → String
text_of zero = "{finish}"
text_of (suc zero) = "{word}"
text_of (suc (suc n)) = "{opening}"

abbrev text_for : Option Json → Option Json → String
text_for (some usage) choices = "{usage}"
text_for none (some (array (item (object (field i n (field k (object delta) f))) no_items))) =
    text_of (fields_in delta)
text_for none o = ""

abbrev dumps : Fields → String
unfolding lookup
dumps d = text_for (lookup "usage" d) (lookup "choices" d)

abbrev if_text : Bool → Json → Option Json → Option Json
if_text true v rest = some v
if_text false v rest = rest

abbrev loads : String → Option Json
unfolding frame usage_frame
loads s =
    if_text (str_eq s "{opening}")
      (object (
        frame "c" 0 model (field "role" (text "assistant") (field "content" (text "") no_fields))
          null))
      (if_text (str_eq s "{word}")
        (object (frame "c" 0 model (field "content" (text "Hi. ") no_fields) null))
        (if_text (str_eq s "{finish}") (object (frame "c" 0 model no_fields (text "stop")))
          (if_text (str_eq s "{usage}") (object (usage_frame "c" 0 model (usage_of job))) none)))

abbrev count_in : Json → String → Option ℕ
count_in usage name = some 1

one_request-stream_example :
    Reports
      (one_request count_in loads 0 100 (
        responded 200
          (lines_from loads dumps (λ i. i * 10) 0 (stream "c" 0 model "Hi." (usage_if true job)))
          complete))
      1
      true
unfolding stream word_frames usage_frames words frame usage_frame dumps loads lookup lstrip rstrip
one_request-stream_example =
    one_request-stream count_in loads dumps (λ i. i * 10) 0 100 "c" 0 model job true refl
      (omega arith)
      (
        record { stripped = refl; unfinished = refl; loaded = refl },
        (
          record { stripped = refl; unfinished = refl; loaded = refl },
          (
            record { stripped = refl; unfinished = refl; loaded = refl },
            (record { stripped = refl; unfinished = refl; loaded = refl }, tt),
          ),
        ),
      )
      refl
