-- ===== src/Loadgen/Levels.antt =====
-- scripts/loadgen.py: the prompts, the summary of a level and what the program makes of it. Times are
-- milliseconds; rates, and what `pct` gives, are hundredths. The results of a level are a list, in
-- the order in which the workers have appended them.
pub mod Accounts
use Prim.Native.String
use inference_box.Prelude.{
  ℕ, ◌+◌, ◌-◌, ◌*◌, ◌/◌, min, max, String, Bool, true, false, ◌||◌, List, [], ◌∷◌, ◌++◌, Option,
  none, some, length, select, map, ltb, leb, ◌==◌, if◌then◌else◌,
}
use inference_box.Prelude.Text.{is_empty}
use inference_box.Prelude.Text.Splitting.{join}
use inference_box.Dict.{Dict, get_or, set}
use inference_box.Chat.Values.{
  Json, text, array, object, item, no_items, field, no_fields, Fields, boolean, whole_number,
}
use inference_box.Stub.Filler.{words_from}
use inference_box.Loadgen.Percentile.{pct, round_div}
use inference_box.Loadgen.Requests.{RequestResult, or_zero}

module _ (digest : String → ℕ → ℕ) where
  -- `(seed or "shared-prefix")`
  material : Option String → String
  material none = "shared-prefix"
  material (some seed) = if is_empty seed then "shared-prefix" else seed

  -- `_filler`
  unfoldable pub filler : ℕ → Option String → String
  unfolding material
  filler n_words seed = join " " (words_from digest (material seed) (max 1 n_words) 0)

  message : String → String → Json
  message role content =
      object (field "role" (text role) (field "content" (text content) no_fields))

  -- `build_prompt`, with the nonce it draws. Three quarters of a token make a word.
  unfoldable pub build_prompt : String → ℕ → Bool → String → Json
  unfolding message
  build_prompt shared_prefix ctx_tokens unique_prefix nonce = array (
      item
        (message "system"
          (if unique_prefix then filler (ctx_tokens * 3 / 4) (some nonce) else shared_prefix))
        (item
          (message "user"
            (String.◌++◌ "Summarise position " (String.◌++◌ nonce " in one paragraph.")))
          no_items))

pub record LevelSummary : Type 0 where
  pub concurrency : ℕ
  pub requests : ℕ
  pub failures : ℕ
  pub wall_ms : ℕ
  pub per_user_decode_tok_s_p50 : Option ℕ
  pub per_user_decode_tok_s_min : Option ℕ
  pub aggregate_decode_tok_s : Option ℕ
  pub ttft_ms_p50 : Option ℕ
  pub ttft_ms_p95 : Option ℕ
  pub completion_tokens_total : ℕ
  pub prompt_tokens_total : ℕ
  pub usage_reported_by_server : Bool
  pub errors : Dict ℕ

abbrev pub succeeded : List RequestResult → List RequestResult
succeeded results = select (λ r. r.is_ok) results

-- The values that are there.
onto_present : Option ℕ → List ℕ → List ℕ
onto_present none ns = ns
onto_present (some n) ns = n ∷ ns

unfoldable pub present : List (Option ℕ) → List ℕ
unfolding onto_present
present [] = []
present (o ∷ os) = onto_present o (present os)

abbrev pub sum : List ℕ → ℕ
sum [] = 0
sum (n ∷ ns) = n + sum ns

least_of : ℕ → List ℕ → ℕ
least_of n [] = n
least_of n (m ∷ ms) = least_of (min n m) ms

-- `min(rates)`, if there are any.
least : List ℕ → Option ℕ
unfolding least_of
least [] = none
least (n ∷ ns) = some (least_of n ns)

any_reported : List RequestResult → Bool
any_reported [] = false
any_reported (r ∷ rs) = r.usage_reported || any_reported rs

-- `r.error or "unknown"`
error_name : Option String → String
error_name none = "unknown"
error_name (some error) = if is_empty error then "unknown" else error

abbrev pub one_more : String → Dict ℕ → Dict ℕ
one_more name errors = set name (get_or name 0 errors + 1) errors

-- The loop that counts the errors.
unfoldable pub counted_errors : Dict ℕ → List RequestResult → Dict ℕ
unfolding error_name
counted_errors errors [] = errors
counted_errors errors (r ∷ rs) =
    counted_errors (if r.is_ok then errors else one_more (error_name r.error) errors) rs

-- The end of `run_level`: its summary.
unfoldable pub summarise : ℕ → ℕ → List RequestResult → LevelSummary
unfolding least any_reported counted_errors present
summarise level wall results =
    let good = succeeded results in
    let rates = present (map (λ r. r.decode_tok_s) good) in
    let ttfts = map (λ ms. ms * 1000000) (present (map (λ r. r.ttft_ms) good)) in
    let finer = map (λ rate. rate * 10000) rates in
    let comp = sum (map (λ r. or_zero r.completion_tokens) good) in
    record {
      concurrency = level;
      requests = length results;
      failures = length results - length good;
      wall_ms = wall;
      per_user_decode_tok_s_p50 = pct finer 50;
      per_user_decode_tok_s_min = least rates;
      aggregate_decode_tok_s = if ltb 0 wall then some (round_div (comp * 100000) wall) else none;
      ttft_ms_p50 = pct ttfts 50;
      ttft_ms_p95 = pct ttfts 95;
      completion_tokens_total = comp;
      prompt_tokens_total = sum (map (λ r. or_zero r.prompt_tokens) good);
      usage_reported_by_server = any_reported good;
      errors = counted_errors [] results;
    }

pub data Gate : Type 0 where
  met not_met : Gate

judged : Option ℕ → Option Gate
judged none = none
judged (some p50) = some (if leb 2000 p50 then met else not_met)

-- The verdict on the first level with five at once, if there is one with a rate.
unfoldable pub gate : List LevelSummary → Option Gate
unfolding judged
gate [] = none
gate (s ∷ ss) =
    let rest = gate ss in if s.concurrency == 5 then judged s.per_user_decode_tok_s_p50 else rest

abbrev pub total_failures : List LevelSummary → ℕ
total_failures ss = sum (map (λ s. s.failures) ss)

-- What `amain` returns.
unfoldable pub exit_code : List LevelSummary → ℕ
exit_code summaries = if ltb 0 (total_failures summaries) then 1 else 0

-- `main`, given what `amain` returns: a prompt that cannot fit is turned down first.
unfoldable pub main_code : ℕ → ℕ → ℕ → ℕ → ℕ
main_code ctx_tokens max_tokens model_len ran =
    if ltb model_len (ctx_tokens + max_tokens) then 2 else ran
