-- ===== src/Stub/Completions/Slots.antt =====
-- The requests inside the stub: the counters and the semaphore against an abstract machine that
-- only knows how many requests there are in each phase, and how many may decode at once.
pub mod Agreement
use inference_box.Prelude.{
  ℕ, zero, suc, ◌+◌, ◌-◌, ◌≤◌, ◌<◌, ◌≡◌, refl, sym, ap, ◌∙◌, subst, String, Bool, true, false,
  Option, none, some, Result, arith,
}
use inference_box.Chat.Values.{Json, Fields, ℤ, Raised, lookup, truthy_field}
use inference_box.Stub.{
  StubState, capacity, permits, permits_in, Control, control, switched, set_failing, surface,
  health, healed,
}
use inference_box.Stub.Completions.{
  Job, Arrival, refused, crashed, wedged, queued, arrive, admitted, take_permit, decoded,
}
use inference_box.Stub.Completions.Counters.{Keeps, waits, arrive-Arrives, healed-Keeps}
use inference_box.Stub.Replies.{begun, word_sent, stream_ended, answered, Reply}

-- How many requests wait for a permit, are wedged, decode, have decoded and are not answered yet,
-- and stream.
pub record Load : Type 0 where
  pub queueing : ℕ
  pub stuck : ℕ
  pub decoding : ℕ
  pub finishing : ℕ
  pub streaming : ℕ

abbrev pub no_load : Load
no_load = record { queueing = 0; stuck = 0; decoding = 0; finishing = 0; streaming = 0 }

-- The abstract machine: a request is queued, gets stuck, decodes if fewer than the cap do, finishes,
-- streams and leaves.
pub data Moves (cap : ℕ) : Load → Load → Type 0 where
  stays : {l : Load} → Moves cap l l
  queues : {l : Load} → Moves cap l (record l { queueing = l.queueing + 1 })
  sticks : {l : Load} → Moves cap l (record l { stuck = l.stuck + 1 })
  decodes :
      {l : Load} {q : ℕ}
      → l.queueing ≡ suc q
      → l.decoding < cap
      → Moves cap l (record l { queueing = q; decoding = l.decoding + 1 })
  finishes :
      {l : Load} {d : ℕ}
      → l.decoding ≡ suc d
      → Moves cap l (record l { decoding = d; finishing = l.finishing + 1 })
  streams :
      {l : Load} {f : ℕ}
      → l.finishing ≡ suc f
      → Moves cap l (record l { finishing = f; streaming = l.streaming + 1 })
  leaves : {l : Load} {f : ℕ} → l.finishing ≡ suc f → Moves cap l (record l { finishing = f })
  ends : {l : Load} {n : ℕ} → l.streaming ≡ suc n → Moves cap l (record l { streaming = n })

pub data MovesOn (cap : ℕ) : Load → Load → Type 0 where
  still : {l : Load} → MovesOn cap l l
  moved : {l m n : Load} → MovesOn cap l m → Moves cap m n → MovesOn cap l n

-- The counters are what the requests in each phase make them, and the permits in the semaphore are
-- those that no decoding request holds.
pub record Agrees (s : StubState) (l : Load) (cap : ℕ) : Type 0 where
  pub waiting : s.waiting ≡ l.queueing + l.stuck
  pub running : s.running ≡ l.decoding + l.streaming
  pub capped : capacity s ≡ cap
  pub held : permits s + l.decoding ≡ cap

module _ (digest : String → ℕ → ℕ) (printed : Json → String) (int_of_text : String → Option ℤ)
    (dumped : Json → String) where
  -- A step of the stub: a request that arrives, takes a permit, gives it back, is answered, streams
  -- a word, or has its stream ended; or a call of one of the other routes.
  pub data Step : StubState → Load → StubState → Load → Type 0 where
    is_queued :
        {s s' : StubState} {l : Load} (body : Fields) (now : ℕ) (job : Job)
        → arrive digest printed int_of_text dumped body now s ≡ (queued job, s')
        → Step s l s' (record l { queueing = l.queueing + 1 })
    is_wedged :
        {s s' : StubState} {l : Load} (body : Fields) (now : ℕ)
        → arrive digest printed int_of_text dumped body now s ≡ (wedged, s')
        → Step s l s' (record l { stuck = l.stuck + 1 })
    is_turned_away :
        {s s' : StubState} {l : Load} (body : Fields) (now : ℕ) (a : Arrival)
        → arrive digest printed int_of_text dumped body now s ≡ (a, s')
        → waits a ≡ 0
        → Step s l s' l
    takes_permit :
        {s s' : StubState} {l : Load} {q : ℕ}
        → admitted s ≡ some s'
        → l.queueing ≡ suc q
        → Step s l s' (record l { queueing = q; decoding = l.decoding + 1 })
    has_decoded :
        {s : StubState} {l : Load} {d : ℕ}
        → l.decoding ≡ suc d
        → Step s l (decoded s) (record l { decoding = d; finishing = l.finishing + 1 })
    is_answered :
        {s s' : StubState} {l : Load} {f : ℕ} (body : Fields) (job : Job) (cid : String)
        (created : ℕ) (r : Result Raised Reply)
        → answered body job cid created s ≡ (r, s')
        → l.finishing ≡ suc f
        → Step s l s' (record l { finishing = f })
    begins_stream :
        {s : StubState} {l : Load} {f : ℕ}
        → l.finishing ≡ suc f
        → Step s l (begun s) (record l { finishing = f; streaming = l.streaming + 1 })
    sends_word : {s : StubState} {l : Load} (n : ℕ) → l.streaming ≡ suc n → Step s l (word_sent s) l
    ends_stream :
        {s : StubState} {l : Load} {n : ℕ}
        → l.streaming ≡ suc n
        → Step s l (stream_ended s) (record l { streaming = n })
    is_switched : {s : StubState} {l : Load} (c : Control) → Step s l (control c s).1 l
    is_asked : {s : StubState} {l : Load} (now : ℕ) → Step s l (health s now).1 l

  pub data Run : StubState → Load → StubState → Load → Type 0 where
    idle : {s : StubState} {l : Load} → Run s l s l
    on :
        {s s' s'' : StubState} {l l' l'' : Load}
        → Run s l s' l'
        → Step s' l' s'' l''
        → Run s l s'' l''
