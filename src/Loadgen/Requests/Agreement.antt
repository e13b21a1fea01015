-- ===== src/Loadgen/Requests/Agreement.antt =====
-- The completion tokens that the load generator reports of a stream of the stub.
use mathlib.Core.List.{List}
use inference_box.Prelude.{
  ℕ, ◌-◌, ◌<◌, ◌≡◌, refl, sym, ap, ◌∙◌, subst, String, Bool, true, false, All, Option, none, some,
  length, ok, arith,
}
use inference_box.Prelude.Text.Cutting.{words}
use inference_box.Chat.Values.{Json, object, Fields}
use inference_box.Stub.Completions.{Job}
use inference_box.Stub.Replies.{usage_of, stream}
use inference_box.Loadgen.Requests.{
  Progress, complete, responded, RequestResult, new_result, one_request, after_lines, timed_result,
  with_usage, with_rate,
}
use inference_box.Loadgen.Requests.Counting.{
  IsDumped, lines_from, usage_if, is_timed, with_usage_of, lines_seen-stream,
}

-- What the load generator says of a completion: that it succeeded, with so many tokens, and whether
-- the server has reported them.
pub record Reports (r : RequestResult) (n : ℕ) (reported : Bool) : Type 0 where
  pub succeeded : r.is_ok ≡ true
  pub tokens : r.completion_tokens ≡ some n
  pub by_server : r.usage_reported ≡ reported

some_words :
    (vs : List String) → 0 < length vs → (w : String) × (ws : List String) × (vs ≡ List.◌∷◌ w ws)
some_words List.[] l = absurd (omega arith)
some_words (List.◌∷◌ w ws) l = (w, ws, refl)

module _ (count_in : Json → String → Option ℕ) where
  counts_usage :
      (r : RequestResult) (n : ℕ) (reported : Bool)
      → Reports r n reported
      → Reports (with_rate r) n reported
  unfolding with_rate
  counts_usage r n reported h = record {
    succeeded = h.succeeded;
    tokens = h.tokens;
    by_server = h.by_server;
  }

  timed_result-Reports :
      (r : RequestResult) (t0 : ℕ) (p : Progress) (times : Option (ℕ × ℕ)) (job : Job)
      (asked : Bool)
      → is_timed times ≡ true
      → r.usage_reported ≡ false
      → p.usage ≡ none
      → p.delta_count ≡ job.completion_tokens
      → count_in (object (usage_of job)) "completion_tokens" ≡ some job.completion_tokens
      → Reports
          (timed_result count_in r t0 (with_usage_of p (usage_if asked job)) times)
          job.completion_tokens
          asked
  unfolding timed_result with_usage with_rate
  timed_result-Reports r t0 p none job asked t v u n c = cc
  timed_result-Reports r t0 p (some (f, l)) job true t v u n c = record {
    succeeded = refl;
    tokens = rw c refl;
    by_server = refl;
  }
  timed_result-Reports r t0 p (some (f, l)) job false t v u n c =
      rw u (record { succeeded = refl; tokens = ap some n; by_server = v })

  ok_lines-Reports :
      (r : RequestResult) (t0 t_end : ℕ) (q : Progress) (job : Job) (asked : Bool)
      → is_timed q.timed ≡ true
      → r.usage_reported ≡ false
      → q.usage ≡ none
      → q.delta_count ≡ job.completion_tokens
      → count_in (object (usage_of job)) "completion_tokens" ≡ some job.completion_tokens
      → Reports
          (after_lines count_in r t0 t_end (ok (with_usage_of q (usage_if asked job))))
          job.completion_tokens
          asked
  unfolding after_lines
  ok_lines-Reports r t0 t_end q job true t v u n c =
      timed_result-Reports (record r { total_ms = some (t_end - t0) }) t0 q q.timed job true t v u n
        c
  ok_lines-Reports r t0 t_end q job false t v u n c =
      timed_result-Reports (record r { total_ms = some (t_end - t0) }) t0 q q.timed job false t v u
        n c

  -- The load generator, given the stream of an answer with at least one word, reports a success with
  -- as many completion tokens as the stub counts words in the answer, whether the stream ends in a
  -- usage that it reads the count from, or has none and it counts the frames.
  pub one_request-stream :
      (loads : String → Option Json) (dumps : Fields → String) (clock : ℕ → ℕ) (t0 t_end : ℕ)
      (cid : String) (created : ℕ) (model : Json) (job : Job) (asked : Bool)
      → job.completion_tokens ≡ length (words job.answer)
      → 0 < job.completion_tokens
      → All (IsDumped loads dumps) (stream cid created model job.answer (usage_if asked job))
      → count_in (object (usage_of job)) "completion_tokens" ≡ some job.completion_tokens
      → Reports
          (one_request count_in loads t0 t_end (
            responded 200
              (lines_from loads dumps clock 0
                (stream cid created model job.answer (usage_if asked job)))
              complete))
          job.completion_tokens
          asked
  unfolding one_request
  one_request-stream loads dumps clock t0 t_end cid created model job asked n pos h c =
      let (w, ws, e) = some_words (words job.answer) (omega (arith, n, pos)) in
      let o = lines_seen-stream loads dumps clock cid created model job.answer w ws job asked e h in
      subst
        (λ z.
          Reports (after_lines count_in (record new_result { status = some 200 }) t0 t_end z)
            job.completion_tokens asked)
        (sym o.seen)
        (ok_lines-Reports (record new_result { status = some 200 }) t0 t_end o.progress job asked
          o.timed refl o.unreported (o.count ∙ sym (ap length e) ∙ sym n) c)
