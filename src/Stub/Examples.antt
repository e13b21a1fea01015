-- ===== src/Stub/Examples.antt =====
-- The stub on concrete requests.
use inference_box.Prelude.{
  ℕ, zero, suc, ◌≡◌, refl, String, true, [], ◌∷◌, Option, none, some, All, ok, arith,
}
use inference_box.Prelude.Text.Cutting.{words}
use inference_box.Chat.Values.{
  Json, null, text, array, object, item, no_items, Fields, field, no_fields, lookup, ℤ, boolean,
  truthy_value,
}
use inference_box.Chat.Frames.{Bytes, consume_all}
use inference_box.Chat.Serving.Relay.{with_usage_asked, options_of}
use inference_box.Scraper.{suspected}
use inference_box.Stub.{StubState, new_state, capacity, healed, should_fail}
use inference_box.Stub.Completions.{Job, refused, wedged, arrive}
use inference_box.Stub.Completions.Slots.{Load, no_load, MovesOn, Agrees, is_wedged, Run, idle, on}
use inference_box.Stub.Completions.Slots.Agreement.{run-refines}
use inference_box.Stub.Replies.{
  usage_of, frame, word_frames, usage_frames, usage_frame, stream, sent, events, answered,
}
use inference_box.Stub.Replies.Streams.{IsDumped, answered-usage}
use inference_box.Stub.Wedged.{Visit, scraped, wedged-suspected}

abbrev digest : String → ℕ → ℕ
digest seed i = i

abbrev printed : Json → String
printed v = ""

abbrev no_int : String → Option ℤ
no_int s = none

abbrev asking : Fields
asking =
    field "messages" (array (item (object (field "content" (text "hi there") no_fields)) no_items))
      (field "stream" (boolean true) no_fields)

abbrev wedging : StubState
wedging = record new_state { wedge = true }

abbrev stuck_state : StubState
stuck_state = record wedging { requests = 1; waiting = 1 }

arrives_wedged : arrive digest printed no_int printed asking 0 wedging ≡ (wedged, stuck_state)
unfolding arrive healed should_fail lookup truthy_value
arrives_wedged = refl

first_fails :
    (arrive digest printed no_int printed asking 0 (record new_state { fail_first_n = 1 })).0
    ≡ refused 503
unfolding arrive healed should_fail
first_fails = refl

abbrev one_stuck : Load
one_stuck = record no_load { stuck = 1 }

sticks : Run digest printed no_int printed wedging no_load stuck_state one_stuck
sticks = on idle (is_wedged asking 0 arrives_wedged)

run-refines_example : MovesOn 1024 no_load one_stuck × Agrees stuck_state one_stuck 1024
unfolding capacity
run-refines_example =
    run-refines digest printed no_int printed wedging stuck_state one_stuck refl refl refl sticks

abbrev visit_at : ℕ → Visit
visit_at t = record { time = t; state = stuck_state }

wedged-suspected_example :
    suspected (scraped 120000 (visit_at 125000 ∷ visit_at 5000 ∷ visit_at 0 ∷ [])) 125000 ≡ true
wedged-suspected_example =
    wedged-suspected digest printed no_int printed wedging stuck_state one_stuck 120000 125000
      (visit_at 125000 ∷ []) (visit_at 5000) (visit_at 0) (refl, refl, refl) sticks (omega arith)
      (
        record { load = one_stuck; run = idle; flat = refl },
        (
          record { load = one_stuck; run = idle; flat = refl },
          (record { load = one_stuck; run = idle; flat = refl }, tt),
        ),
      )
      (((omega arith), ((omega arith), tt)), (((omega arith), tt), (tt, tt))) (omega arith)
      (omega arith)

abbrev job : Job
job = record { answer = "Hi."; prompt_tokens = 2; completion_tokens = 1 }

abbrev model : Json
model = text "Qwen/Qwen3-8B-AWQ"

abbrev opening : Fields
unfolding frame
opening =
    frame "c" 0 model (field "role" (text "assistant") (field "content" (text "") no_fields)) null

abbrev word : Fields
unfolding frame
word = frame "c" 0 model (field "content" (text "Hi. ") no_fields) null

abbrev finish : Fields
unfolding frame
finish = frame "c" 0 model no_fields (text "stop")

abbrev total : Fields
unfolding usage_frame
total = usage_frame "c" 0 model (usage_of job)

abbrev fields_in : Fields → ℕ
fields_in no_fields = 0
fields_in (field k v d) = suc (fields_in d)

-- A number for each of the four frames, by the fields of its delta.
abbrev tag_of : Option Json → Option Json → ℕ
tag_of (some usage) choices = 3
tag_of none (some (array (item (object (field i n (field k (object delta) f))) no_items))) =
    fields_in delta
tag_of none o = 4

abbrev dumps : Fields → Bytes
unfolding lookup
dumps d = b'{' ∷ tag_of (lookup "usage" d) (lookup "choices" d) ∷ b'}' ∷ []

stream_frames :
    stream "c" 0 model "Hi." (some (usage_of job)) ≡ opening ∷ word ∷ finish ∷ total ∷ []
unfolding stream word_frames usage_frames words opening word finish total
stream_frames = refl

abbrev frame_of : ℕ → Option Json
unfolding opening word finish total
frame_of zero = some (object finish)
frame_of (suc zero) = some (object word)
frame_of (suc (suc zero)) = some (object opening)
frame_of (suc (suc (suc zero))) = some (object total)
frame_of _ = none

abbrev loads : Bytes → Option Json
unfolding frame_of
loads (a ∷ t ∷ b ∷ []) = frame_of t
loads _ = none

frames-IsDumped : All (IsDumped loads dumps) (opening ∷ word ∷ finish ∷ total ∷ [])
unfolding loads dumps opening word finish total frame usage_frame lookup
frames-IsDumped = (
  record {
    braced = record { middle = 2 ∷ []; braces = refl; one_line = (refl, (refl, (refl, tt))) };
    loaded = refl;
  },
  (
    record {
      braced = record { middle = 1 ∷ []; braces = refl; one_line = (refl, (refl, (refl, tt))) };
      loaded = refl;
    },
    (
      record {
        braced = record { middle = 0 ∷ []; braces = refl; one_line = (refl, (refl, (refl, tt))) };
        loaded = refl;
      },
      (
        record {
          braced = record { middle = 3 ∷ []; braces = refl; one_line = (refl, (refl, (refl, tt))) };
          loaded = refl;
        },
        tt,
      ),
    ),
  ),
)

answered-usage_example :
    ((answered (with_usage_asked asking) job "c" 0 stuck_state).0
      ≡ ok (events (opening ∷ word ∷ finish ∷ total ∷ [])))
    × (consume_all loads no_fields [] (sent dumps (opening ∷ word ∷ finish ∷ total ∷ []) ∷ [])
        ≡ ok (usage_of job, []))
unfolding lookup truthy_value options_of sent
answered-usage_example =
    answered-usage loads dumps asking job "c" 0 stuck_state (opening ∷ word ∷ finish ∷ total ∷ [])
      (sent dumps (opening ∷ word ∷ finish ∷ total ∷ []) ∷ []) no_fields refl refl stream_frames
      frames-IsDumped refl
