-- ===== src/Stub.antt =====
-- stub/server.py: the stand-in for vLLM that the gateway is tested against. This file has its
-- state, the switches, the surfaces that fail, and the samples of its exposition. Times are
-- milliseconds; what a text reads as and how it is printed are left to the places that need it.
pub mod Filler
pub mod Completions
pub mod Replies
pub mod Wedged
mod Examples
use inference_box.Prelude.{
  ℕ, ◌+◌, ◌*◌, String, Bool, true, false, ◌&&◌, ◌||◌, Option, none, some, List, [], ◌∷◌, str_eq,
  ltb, leb, ◌==◌, if◌then◌else◌, Result, ok, raises,
}
use inference_box.Chat.Values.{
  Json, number, integer, pos, text, array, object, item, no_items, field, no_fields, whole_number,
}

pub record StubState : Type 0 where
  pub think : Bool
  pub latency : ℕ
  pub fail_after : Option ℕ
  pub requests : ℕ
  pub running : ℕ
  pub waiting : ℕ
  pub generated_tokens : ℕ
  pub wedge : Bool
  pub fail_until : Option ℕ
  pub control_enabled : Bool
  pub fail_mode : String
  pub fail_status : ℕ
  pub fail_first_n : ℕ
  pub max_concurrent : ℕ
  -- The permits left in the semaphore, once it is built.
  pub sem : Option ℕ

abbrev pub new_state : StubState
new_state = record {
  think = false;
  latency = 0;
  fail_after = none;
  requests = 0;
  running = 0;
  waiting = 0;
  generated_tokens = 0;
  wedge = false;
  fail_until = none;
  control_enabled = false;
  fail_mode = "chat";
  fail_status = 503;
  fail_first_n = 0;
  max_concurrent = 0;
  sem = none;
}

-- `self.max_concurrent or 1024`
unfoldable pub capacity : StubState → ℕ
capacity s = if s.max_concurrent == 0 then 1024 else s.max_concurrent

permits_in : Option ℕ → ℕ → ℕ
permits_in none full = full
permits_in (some free) full = free

-- The permits left in the semaphore, which is built when it is first asked for.
unfoldable pub permits : StubState → ℕ
unfolding permits_in capacity
permits s = permits_in s.sem (capacity s)

pub record Control : Type 0 where
  pub fail : Option Bool
  pub fail_status : Option ℕ
  pub fail_mode : Option String
  pub latency : Option ℕ
  pub wedge : Option Bool

pub record ControlReply : Type 0 where
  pub fail_after : Option ℕ
  pub wedge : Bool
  pub requests : ℕ

-- A field that the body leaves out keeps its value.
abbrev or_kept {ℓ} : {A : Type ℓ} → Option A → A → A
or_kept none old = old
or_kept (some new) old = new

set_failing : Option Bool → StubState → StubState
set_failing none s = s
set_failing (some true) s = record s { fail_after = some 0; fail_until = none }
set_failing (some false) s = record s { fail_after = none; fail_until = none }

switched : Control → StubState → StubState
unfolding set_failing
switched body s =
    let s' = set_failing body.fail s in
    record s' {
      fail_status = or_kept body.fail_status s'.fail_status;
      fail_mode = or_kept body.fail_mode s'.fail_mode;
      latency = or_kept body.latency s'.latency;
      wedge = or_kept body.wedge s'.wedge;
    }

-- `control`: the status of the error, or the reply, with the state.
unfoldable pub control : Control → StubState → Result ℕ ControlReply × StubState
unfolding switched
control body s =
    if s.control_enabled
    then (
      ok (record {
        fail_after = (switched body s).fail_after;
        wedge = (switched body s).wedge;
        requests = (switched body s).requests;
      }),
      switched body s,
    )
    else (raises 404, s)

has_come : Option ℕ → ℕ → Bool
has_come none now = false
has_come (some t) now = leb t now

-- The first two lines of `_should_fail`.
unfoldable pub healed : StubState → ℕ → StubState
unfolding has_come
healed s now =
    if has_come s.fail_until now then record s { fail_after = none; fail_until = none } else s

is_past : Option ℕ → ℕ → Bool
is_past none requests = false
is_past (some n) requests = ltb n requests

-- `_should_fail`, of a state that `healed` has been applied to.
unfoldable pub should_fail : StubState → Bool
unfolding is_past
should_fail s =
    is_past s.fail_after s.requests || (ltb 0 s.fail_first_n && leb s.requests s.fail_first_n)

-- The surfaces that fail in the mode `all` alone, with what they answer otherwise. The state heals
-- only where `_should_fail` is called.
unfoldable pub surface : {A : Type 0} → A → StubState → ℕ → Result ℕ A × StubState
unfolding healed should_fail
surface reply s now =
    if str_eq s.fail_mode "all"
    then ((if should_fail (healed s now) then raises s.fail_status else ok reply), healed s now)
    else (ok reply, s)

unfoldable pub health : StubState → ℕ → Result ℕ Json × StubState
unfolding surface
health = surface (object (field "status" (text "ok") no_fields))

abbrev pub stub_model : String
stub_model = "Qwen/Qwen3-8B-AWQ"

unfoldable pub list_models : ℕ → StubState → ℕ → Result ℕ Json × StubState
unfolding surface
list_models created = surface (
    object (
      field "object" (text "list") (
        field "data"
          (array (
            item
              (object (
                field "id" (text stub_model) (
                  field "object" (text "model") (
                    field "created" (whole_number created)
                      (field "owned_by" (text "stub") no_fields)))))
              no_items))
          no_fields)))

-- A sample's value is a whole number of millionths.
abbrev pub millionths : ℕ → ℕ
millionths n = 1000000 * n

-- The names and values of the samples in `metrics`, in their order. Labels and the comments with
-- the types are left out, and a bucket stands under its sample's name.
unfoldable pub samples : StubState → List (String × ℕ)
samples s =
    ("vllm:num_requests_running", millionths s.running)
    ∷ ("vllm:num_requests_waiting", millionths s.waiting)
    ∷ ("vllm:num_requests_waiting_by_reason", millionths s.waiting)
    ∷ ("vllm:num_requests_waiting_by_reason", 0)
    ∷ ("vllm:kv_cache_usage_perc", 0)
    ∷ ("vllm:generation_tokens_total", millionths s.generated_tokens)
    ∷ ("vllm:generation_tokens_created", 1789056823729462)
    ∷ ("vllm:prompt_tokens_total", 0)
    ∷ ("vllm:num_preemptions_total", 0)
    ∷ ("vllm:prefix_cache_queries_total", 0)
    ∷ ("vllm:prefix_cache_hits_total", 0)
    ∷ ("vllm:time_to_first_token_seconds_bucket", 0)
    ∷ ("vllm:time_to_first_token_seconds_sum", 0)
    ∷ ("vllm:time_to_first_token_seconds_count", 0)
    ∷ []
