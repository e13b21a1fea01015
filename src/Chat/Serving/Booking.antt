-- ===== src/Chat/Serving/Booking.antt =====
-- What the booking of usage leaves alone, and when it raises.
use inference_box.Prelude.{
  ℕ, ◌≡◌, refl, String, Option, none, some, Result, ok, raises, arith, Bool-cases, inl, inr, ◌+◌,
}
use inference_box.Quota.{QuotaTracker, in_flight, record_usage}
use inference_box.Chat.Values.{Json, Fields, lookup, truthy_value}
use inference_box.Chat.Serving.{
  Books, charged, stated, amount, completion_counted, prompt_counted, usage_recorded, book_usage,
}

-- The books of a booking, whether or not it has raised.
abbrev pub books_of : Result Books Books → Books
books_of (ok b) = b
books_of (raises b) = b

-- What the booking of usage leaves alone.
pub record Keeps (before b : Books) : Type 0 where
  pub same_audits : b.audits ≡ before.audits
  pub same_rejections : b.rejections ≡ before.rejections
  pub same_slots : (k : String) → in_flight b.tracker k ≡ in_flight before.tracker k

record_usage-in_flight :
    (t : QuotaTracker) (keyid k : String) (n : ℕ)
    → in_flight (record_usage t keyid n) k ≡ in_flight t k
unfolding in_flight record_usage
record_usage-in_flight t keyid k n = ground arith

charged-in_flight :
    (keyid : Option String) (n : ℕ) (t : QuotaTracker) (k : String)
    → in_flight (charged keyid n t) k ≡ in_flight t k
charged-in_flight none n t k = refl
charged-in_flight (some keyid) n t k = record_usage-in_flight t keyid k n

module _ (inc : Json → Option ℕ) where
  completion_counted-Keeps :
      (keyid : Option String) (n : ℕ) (o : Option ℕ) (b : Books)
      → Keeps b (books_of (completion_counted inc keyid n o b))
  completion_counted-Keeps keyid n none b = record {
    same_audits = refl;
    same_rejections = refl;
    same_slots = λ k. refl;
  }
  completion_counted-Keeps keyid n (some m) b = record {
    same_audits = refl;
    same_rejections = refl;
    same_slots = λ k. charged-in_flight keyid (n + m) b.tracker k;
  }

  prompt_counted-Keeps :
      (keyid : Option String) (completion : Option Json) (o : Option ℕ) (b : Books)
      → Keeps b (books_of (prompt_counted inc keyid completion o b))
  prompt_counted-Keeps keyid completion none b = record {
    same_audits = refl;
    same_rejections = refl;
    same_slots = λ k. refl;
  }
  prompt_counted-Keeps keyid completion (some n) b =
      let counted = record b { prompt_total = b.prompt_total + n } in
      let v = completion_counted-Keeps keyid n (amount inc completion) counted in
      record {
        same_audits = v.same_audits;
        same_rejections = v.same_rejections;
        same_slots = v.same_slots;
      }

  usage_recorded-Keeps :
      (keyid : Option String) (prompt completion : Option Json) (b : Books)
      → Keeps b (books_of (usage_recorded inc keyid prompt completion b))
  usage_recorded-Keeps keyid none none b = record {
    same_audits = refl;
    same_rejections = refl;
    same_slots = λ k. refl;
  }
  usage_recorded-Keeps keyid none (some v) b =
      prompt_counted-Keeps keyid (some v) (amount inc none) b
  usage_recorded-Keeps keyid (some v) completion b =
      prompt_counted-Keeps keyid completion (amount inc (some v)) b

  pub book_usage-Keeps :
      (keyid : Option String) (u : Fields) (b : Books)
      → Keeps b (books_of (book_usage inc keyid u b))
  unfolding book_usage
  book_usage-Keeps keyid u b =
      usage_recorded-Keeps keyid (stated (lookup "prompt_tokens" u))
        (stated (lookup "completion_tokens" u)) b

  -- Some value is one that the counter refuses.
  abbrev pub Refuses : Type 0
  Refuses = (v : Json) × (inc v ≡ none)

  amount-Refuses : (o : Option Json) → amount inc o ≡ none → Refuses
  amount-Refuses none h = cc
  amount-Refuses (some v) h = elim (Bool-cases (truthy_value v)) [
    | inl e ↦ (v, rw e at h)
    | inr e ↦ (let k : some 0 ≡ none = rw e at h in cc)
  ]

  completion_counted-Refuses :
      (keyid : Option String) (n : ℕ) (o : Option ℕ) (b b' : Books)
      → completion_counted inc keyid n o b ≡ raises b'
      → o ≡ none
  completion_counted-Refuses keyid n none b b' h = refl
  completion_counted-Refuses keyid n (some m) b b' h = cc

  prompt_counted-Refuses :
      (keyid : Option String) (prompt completion : Option Json) (o : Option ℕ) (b b' : Books)
      → amount inc prompt ≡ o
      → prompt_counted inc keyid completion o b ≡ raises b'
      → Refuses
  prompt_counted-Refuses keyid prompt completion none b b' e h = amount-Refuses prompt e
  prompt_counted-Refuses keyid prompt completion (some n) b b' e h = amount-Refuses completion (
      completion_counted-Refuses keyid n (amount inc completion)
        (record b { prompt_total = b.prompt_total + n }) b' h)

  usage_recorded-Refuses :
      (keyid : Option String) (prompt completion : Option Json) (b b' : Books)
      → usage_recorded inc keyid prompt completion b ≡ raises b'
      → Refuses
  usage_recorded-Refuses keyid none none b b' h = cc
  usage_recorded-Refuses keyid none (some v) b b' h =
      prompt_counted-Refuses keyid none (some v) (amount inc none) b b' refl h
  usage_recorded-Refuses keyid (some v) completion b b' h =
      prompt_counted-Refuses keyid (some v) completion (amount inc (some v)) b b' refl h

  -- A booking raises only at a count that the counter refuses.
  pub book_usage-Refuses :
      (keyid : Option String) (u : Fields) (b b' : Books)
      → book_usage inc keyid u b ≡ raises b'
      → Refuses
  unfolding book_usage
  book_usage-Refuses keyid u b b' h =
      usage_recorded-Refuses keyid (stated (lookup "prompt_tokens" u))
        (stated (lookup "completion_tokens" u)) b b' h
