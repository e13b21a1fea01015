-- ===== src/Loadgen/Requests.antt =====
-- scripts/loadgen.py: `one_request`, which times a streamed completion. Times are milliseconds. The
-- response is what the HTTP client gives: its status, the lines with the times they arrive at, and
-- the way it ends; `json.loads` and the counts of a usage object are parameters.
pub mod Counting
pub mod Agreement
use inference_box.Prelude.{
  ℕ, suc, ◌+◌, ◌-◌, ◌*◌, String, Bool, true, false, ◌&&◌, List, [], ◌∷◌, Option, none, some, leb,
  ltb, str_eq, if◌then◌else◌, Result, ok, raises, ◌>>=◌,
}
use Prim.Native.String
use inference_box.Prelude.Text.{str_of_ℕ}
use inference_box.Prelude.Text.Cutting.{without_prefix, strip, lstrip, rstrip}
use inference_box.Chat.Values.{
  Json, null, boolean, number, text, array, object, Items, item, no_items, Fields, lookup,
  truthy_value,
}
use inference_box.Loadgen.Percentile.{round_div}

pub record RequestResult : Type 0 where
  pub is_ok : Bool
  pub status : Option ℕ
  pub error : Option String
  pub ttft_ms : Option ℕ
  pub decode_ms : Option ℕ
  pub total_ms : Option ℕ
  pub prompt_tokens : Option ℕ
  pub completion_tokens : Option ℕ
  -- In hundredths.
  pub decode_tok_s : Option ℕ
  pub usage_reported : Bool

abbrev pub new_result : RequestResult
new_result = record {
  is_ok = false;
  status = none;
  error = none;
  ttft_ms = none;
  decode_ms = none;
  total_ms = none;
  prompt_tokens = none;
  completion_tokens = none;
  decode_tok_s = none;
  usage_reported = false;
}

-- What the loop over the lines has so far. The first and the last time are set together.
pub record Progress : Type 0 where
  pub timed : Option (ℕ × ℕ)
  pub delta_count : ℕ
  pub usage : Option Json

abbrev pub no_progress : Progress
no_progress = record { timed = none; delta_count = 0; usage = none }

-- How the lines end: the stream is complete, or the client raises.
pub data Ending : Type 0 where
  complete : Ending
  broken : String → Ending

-- What the call of the client comes to.
pub data Response : Type 0 where
  failed : String → Response
  responded : ℕ → List (String × ℕ) → Ending → Response

onto_times : Option (ℕ × ℕ) → ℕ → Option (ℕ × ℕ)
onto_times none now = some (now, now)
onto_times (some (first, last)) now = some (first, now)

-- A frame that carries content.
unfoldable pub counted : Progress → ℕ → Progress
unfolding onto_times
counted p now = record p { timed = onto_times p.timed now; delta_count = suc p.delta_count }

content_seen : Progress → ℕ → Option Json → Progress
unfolding counted
content_seen p now none = p
content_seen p now (some v) = if truthy_value v then counted p now else p

-- `(choices[0].get("delta") or {}).get("content")`, with the name of the exception.
content_in : Option Json → Result String (Option Json)
content_in none = ok none
content_in (some (object delta)) = ok (lookup "content" delta)
content_in (some v) = if truthy_value v then raises "AttributeError" else ok none

first_content : Json → Result String (Option Json)
unfolding content_in
first_content (array (item (object choice) more)) = content_in (lookup "delta" choice)
first_content (array (item choice more)) = raises "AttributeError"
first_content (text s) = raises "AttributeError"
first_content (object d) = raises "KeyError"
first_content v = raises "TypeError"

choices_seen : Progress → ℕ → Option Json → Result String Progress
unfolding content_seen first_content
choices_seen p now none = ok p
choices_seen p now (some choices) =
    if truthy_value choices
    then (first_content choices >>= λ content. ok (content_seen p now content))
    else ok p

usage_seen : Progress → Option Json → Progress
usage_seen p none = p
usage_seen p (some usage) = if truthy_value usage then record p { usage = some usage } else p

-- A frame that is read as JSON, or is not and is skipped.
unfoldable pub frame_seen : Progress → ℕ → Option Json → Result String Progress
unfolding choices_seen usage_seen
frame_seen p now none = ok p
frame_seen p now (some (object frame)) =
    choices_seen (usage_seen p (lookup "usage" frame)) now (lookup "choices" frame)
frame_seen p now (some v) = raises "AttributeError"

module _ (loads : String → Option Json) where
  -- A line: `ok none` when it ends the loop.
  line_seen : Progress → ℕ → Option String → Result String (Option Progress)
  line_seen p now none = ok (some p)
  line_seen p now (some payload) =
      if str_eq (strip payload) "[DONE]"
      then ok none
      else frame_seen p now (loads (strip payload)) >>= λ q. ok (some q)

  ended : Progress → Ending → Result String Progress
  ended p complete = ok p
  ended p (broken error) = raises error

  -- The rounds after one, given what its line came to.
  next_round :
      Progress → (Progress → Result String Progress) → Option Progress → Result String Progress
  next_round p again none = ok p
  next_round p again (some q) = again q

  -- The loop over the lines.
  unfoldable pub lines_seen : Progress → List (String × ℕ) → Ending → Result String Progress
  unfolding line_seen ended next_round
  lines_seen p [] end = ended p end
  lines_seen p ((line, now) ∷ lines) end =
      line_seen p now (without_prefix "data: " line) >>= next_round p (λ q. lines_seen q lines end)

-- A rate in hundredths of a token a second.
rate : ℕ → Option ℕ → Option ℕ
rate n none = none
rate n (some ms) = if ltb 1 n && ltb 0 ms then some (round_div ((n - 1) * 100000) ms) else none

abbrev pub or_zero : Option ℕ → ℕ
or_zero none = 0
or_zero (some n) = n

unfoldable pub with_rate : RequestResult → RequestResult
unfolding rate
with_rate r = record r { decode_tok_s = rate (or_zero r.completion_tokens) r.decode_ms }

abbrev or_counted : Option ℕ → ℕ → Option ℕ
or_counted none deltas = some deltas
or_counted (some n) deltas = some n

module _ (count_in : Json → String → Option ℕ) where
  -- `usage.get`, as far as it gives a count, is `count_in`. What the server's usage sets, and the count of frames where it sets no count.
  with_usage : RequestResult → Option Json → ℕ → RequestResult
  with_usage r none deltas = record r { completion_tokens = some deltas }
  with_usage r (some usage) deltas = record r {
    usage_reported = true;
    prompt_tokens = count_in usage "prompt_tokens";
    completion_tokens = or_counted (count_in usage "completion_tokens") deltas;
  }

  timed_result : RequestResult → ℕ → Progress → Option (ℕ × ℕ) → RequestResult
  unfolding with_usage with_rate
  timed_result r t0 p none = record r { error = some "empty_completion" }
  timed_result r t0 p (some (t_first, t_last)) = with_rate (
      with_usage
        (record r {
          is_ok = true;
          ttft_ms = some (t_first - t0);
          decode_ms = some (t_last - t_first);
        })
        p.usage p.delta_count)

  after_lines : RequestResult → ℕ → ℕ → Result String Progress → RequestResult
  unfolding timed_result
  after_lines r t0 t_end (raises error) = record r { error = some error }
  after_lines r t0 t_end (ok p) =
      timed_result (record r { total_ms = some (t_end - t0) }) t0 p p.timed

  -- `one_request`, from the time it starts to the time the stream is done with.
  unfoldable pub one_request : (String → Option Json) → ℕ → ℕ → Response → RequestResult
  unfolding after_lines
  one_request loads t0 t_end (failed error) = record new_result { error = some error }
  one_request loads t0 t_end (responded status lines end) =
      let r : RequestResult = record new_result { status = some status } in
      if leb 400 status
      then record r { error = some (String.◌++◌ "http_" (str_of_ℕ status)) }
      else after_lines r t0 t_end (lines_seen loads no_progress lines end)
