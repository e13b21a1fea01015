-- ===== src/Stub/Wedged.antt =====
-- What the gateway's scraper makes of the stub's exposition, and of a stub with a wedged request.
use inference_box.Prelude.{
  Option, All-mono, ℕ, ◌+◌, ◌≤◌, ◌<◌, ◌≡◌, refl, sym, ap, ◌∙◌, subst, String, true, List, [], ◌∷◌,
  ◌++◌, All, none, some, arith, inl, inr,
}
use inference_box.Chat.Values.{Json, ℤ}
use inference_box.Dict.{get?, get_or}
use inference_box.Scraper.{WedgeDetector, new_detector, parse, observe, observe_counter, suspected}
use inference_box.Scraper.Series.{get?-parse}
use inference_box.Scraper.Stalls.{Reading, after, StalledFrom, InOrder, suspected_iff}
use inference_box.Stub.{StubState, samples, millionths, capacity}
use inference_box.Stub.Completions.Slots.{
  Load, no_load, Moves, stays, queues, sticks, decodes, finishes, streams, leaves, ends, MovesOn,
  still, moved, Run,
}
use inference_box.Stub.Completions.Slots.Agreement.{run-refines, run-refines_from}

-- Of the stub's samples, the scraper keeps the running, the waiting and the generated tokens as the
-- state has them: neither the waiting by reason nor the time of creation is mixed in.
pub get?-parse-samples :
    (s : StubState)
    → (get? "vllm:num_requests_running" (parse (samples s)) ≡ some (millionths s.running))
      × (get? "vllm:num_requests_waiting" (parse (samples s)) ≡ some (millionths s.waiting))
      × (get? "vllm:generation_tokens_total" (parse (samples s))
          ≡ some (millionths s.generated_tokens))
      × (get? "vllm:generation_tokens_created" (parse (samples s)) ≡ none)
unfolding samples get?
get?-parse-samples s = (
  get?-parse (samples s) "vllm:num_requests_running" ∙ ap some (omega arith),
  get?-parse (samples s) "vllm:num_requests_waiting" ∙ ap some (omega arith),
  get?-parse (samples s) "vllm:generation_tokens_total" ∙ ap some (omega arith),
  get?-parse (samples s) "vllm:generation_tokens_created",
)

observe-samples :
    (d : WedgeDetector) (s : StubState) (now : ℕ)
    → observe d (parse (samples s)) now
      ≡ observe_counter d (millionths s.waiting) (millionths s.generated_tokens) now
unfolding observe get_or
observe-samples d s now = let (r, w, g, c) = get?-parse-samples s in rw (observe, g, get_or, w) refl

-- A scrape of the stub, at a time.
pub record Visit : Type 0 where
  pub time : ℕ
  pub state : StubState

abbrev pub reading_of : Visit → Reading
reading_of v = record {
  time = v.time;
  waiting = millionths v.state.waiting;
  gen = millionths v.state.generated_tokens;
}

abbrev pub readings : List Visit → List Reading
readings [] = []
readings (v ∷ vs) = reading_of v ∷ readings vs

-- The detector after some scrapes, the latest first.
abbrev pub scraped : ℕ → List Visit → WedgeDetector
scraped window [] = new_detector window
scraped window (v ∷ vs) = observe (scraped window vs) (parse (samples v.state)) v.time

scraped-after : (window : ℕ) (vs : List Visit) → scraped window vs ≡ after window (readings vs)
scraped-after window [] = refl
scraped-after window (v ∷ vs) =
    observe-samples (scraped window vs) v.state v.time
    ∙ ap
        (λ d.
          observe_counter d (millionths v.state.waiting) (millionths v.state.generated_tokens)
            v.time)
        (scraped-after window vs)

-- What a scrape finds while requests wait and nothing is generated.
pub record IsStalled (g : ℕ) (v : Visit) : Type 0 where
  pub waits : 0 < v.state.waiting
  pub flat : v.state.generated_tokens ≡ g

readings-StalledFrom :
    (g : ℕ) (vs : List Visit) (second first : Visit)
    → All (IsStalled g) (vs ++ (second ∷ first ∷ []))
    → StalledFrom second.time (millionths g) (readings (vs ++ (second ∷ first ∷ [])))
readings-StalledFrom g [] second first (h, (k, _)) =
    (ap millionths h.flat, (omega (arith, h.waits)), inl (refl, ap millionths k.flat))
readings-StalledFrom g (v ∷ vs) second first (h, hs) = (
  ap millionths h.flat,
  (omega (arith, h.waits)),
  inr (readings-StalledFrom g vs second first hs),
)

stuck_stays : (cap : ℕ) (l l' : Load) → Moves cap l l' → l.stuck ≤ l'.stuck
stuck_stays cap l l' stays = omega arith
stuck_stays cap l l' queues = omega arith
stuck_stays cap l l' sticks = omega arith
stuck_stays cap l l' (decodes u b) = omega arith
stuck_stays cap l l' (finishes u) = omega arith
stuck_stays cap l l' (streams u) = omega arith
stuck_stays cap l l' (leaves u) = omega arith
stuck_stays cap l l' (ends u) = omega arith

all_stuck_stays : (cap : ℕ) (l l' : Load) → MovesOn cap l l' → l.stuck ≤ l'.stuck
all_stuck_stays cap l l' still = omega arith
all_stuck_stays cap l l' (moved {m = m} ms move) =
    omega (arith, all_stuck_stays cap l m ms, stuck_stays cap m l' move)

module _ (digest : String → ℕ → ℕ) (printed : Json → String) (int_of_text : String → Option ℤ)
    (dumped : Json → String) where
  -- A scrape of a stub that has come from a state by some steps, none of which generated a token.
  pub record ComesFrom (s : StubState) (l : Load) (v : Visit) : Type 0 where
    pub load : Load
    pub run : Run digest printed int_of_text dumped s l v.state load
    pub flat : v.state.generated_tokens ≡ s.generated_tokens

  -- Once a request is wedged in a stub that was idle, the gateway's detector suspects the stub a
  -- window after the second of any scrapes between which the stub generates nothing, whatever other
  -- requests come and go, and whatever the control route switches in between.
  pub wedged-suspected :
      (idle s : StubState) (l : Load) (window now : ℕ) (vs : List Visit) (second first : Visit)
      → (idle.waiting ≡ 0) × (idle.running ≡ 0) × (idle.sem ≡ none)
      → Run digest printed int_of_text dumped idle no_load s l
      → 0 < l.stuck
      → All (ComesFrom s l) (vs ++ (second ∷ first ∷ []))
      → InOrder (readings (vs ++ (second ∷ first ∷ [])))
      → 0 < window
      → second.time + window ≤ now
      → suspected (scraped window (vs ++ (second ∷ first ∷ []))) now ≡ true
  wedged-suspected idle s l window now vs second first (w, r, p) run stuck seen order pos long =
      let (moves, a) = run-refines digest printed int_of_text dumped idle s l w r p run in
      let stalled =
        All-mono (ComesFrom s l) (IsStalled s.generated_tokens) (vs ++ (second ∷ first ∷ []))
          (λ v c.
            (let (on, b) =
                run-refines_from (capacity idle) digest printed int_of_text dumped s v.state l
                  c.load c.run a in
              record {
                waits =
                    omega (arith, b.waiting, all_stuck_stays (capacity idle) l c.load on, stuck);
                flat = c.flat;
              }))
          seen in
      subst (λ d. suspected d now ≡ true) (sym (scraped-after window (vs ++ (second ∷ first ∷ []))))
        ((suspected_iff window now (readings (vs ++ (second ∷ first ∷ []))) pos order).1 (
          second.time,
          millionths s.generated_tokens,
          readings-StalledFrom s.generated_tokens vs second first stalled,
          long,
        ))
