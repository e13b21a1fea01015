-- ===== src/Scraper/Stalls.antt =====
-- What the wedge signal means for the history of a replica's readings.
use inference_box.Prelude.{
  ℕ, ◌+◌, ◌≤◌, ◌<◌, ◌≡◌, refl, sym, ◌∙◌, ◌↔◌, ◌⊎◌, inl, inr, List, [], ◌∷◌, none, some, arith, true,
  Option-cases, ap, All,
}
use inference_box.Scraper.{
  WedgeDetector, new_detector, compared, observe_counter, stalled_for, stall_seconds, suspected,
}

-- What a scrape reads and when: the clock, the number waiting, the tokens generated so far.
pub record Reading : Type 0 where
  pub time : ℕ
  pub waiting : ℕ
  pub gen : ℕ

-- The detector of a replica after a history, the latest reading first.
abbrev pub after : ℕ → List Reading → WedgeDetector
after window [] = new_detector window
after window (r ∷ h) = observe_counter (after window h) r.waiting r.gen r.time

abbrev pub LastGen : ℕ → List Reading → Type 0
LastGen g [] = ⊥
LastGen g (r ∷ h) = r.gen ≡ g

-- At `t` a reading found requests waiting and no token generated since the one before, and so did
-- every reading after it.
abbrev pub StalledFrom : ℕ → ℕ → List Reading → Type 0
StalledFrom t g [] = ⊥
StalledFrom t g (r ∷ h) =
    (r.gen ≡ g) × (0 < r.waiting) × (((r.time ≡ t) × LastGen g h) ⊎ StalledFrom t g h)

-- The readings stand in the order of their times.
abbrev pub InOrder : List Reading → Type 0
InOrder [] = Unit {0}
InOrder (r ∷ h) = All (λ (p : Reading). p.time ≤ r.time) h × InOrder h

after-window_sec : (window : ℕ) (h : List Reading) → (after window h).window_sec ≡ window
unfolding observe_counter compared
after-window_sec window [] = refl
after-window_sec window (r ∷ h) = ground (arith, after-window_sec window h)

after-last_gen_tokens :
    (window g : ℕ) (h : List Reading) → LastGen g h → (after window h).last_gen_tokens ≡ some g
unfolding observe_counter compared
after-last_gen_tokens window g [] e = absurd e
after-last_gen_tokens window g (r ∷ h) e = ground arith

last_gen_tokens-LastGen :
    (window g : ℕ) (h : List Reading) → (after window h).last_gen_tokens ≡ some g → LastGen g h
unfolding observe_counter compared
last_gen_tokens-LastGen window g [] e = cc
last_gen_tokens-LastGen window g (r ∷ h) e = ground arith

-- One reading, from a detector that a stall since `s` is known of or none is.
observe_stalled :
    (d : WedgeDetector) (r : Reading) (s : ℕ)
    → (observe_counter d r.waiting r.gen r.time).stall_since ≡ some s
    → (d.last_gen_tokens ≡ none × d.stall_since ≡ some s)
      ⊎ ((d.last_gen_tokens ≡ some r.gen)
          × (0 < r.waiting)
          × ((d.stall_since ≡ some s) ⊎ (r.time ≡ s)))
unfolding observe_counter compared
observe_stalled d r s e = ground arith

no_stall_at_first :
    (window s : ℕ) (h : List Reading)
    → (after window h).last_gen_tokens ≡ none
    → (after window h).stall_since ≡ some s
    → ⊥
no_stall_at_first window s [] e u = cc
no_stall_at_first window s (r ∷ h) e u =
    let q : (after window (r ∷ h)).last_gen_tokens ≡ some r.gen =
      after-last_gen_tokens window r.gen (r ∷ h) refl in
    cc

stall_since-StalledFrom :
    (window s g : ℕ) (h : List Reading)
    → (after window h).stall_since ≡ some s
    → LastGen g h
    → StalledFrom s g h
stall_since-StalledFrom window s g [] e k = absurd k
stall_since-StalledFrom window s g (r ∷ h) e k = elim (observe_stalled (after window h) r s e) [
  | inl (first, since) ↦ absurd (no_stall_at_first window s h first since)
  | inr (last, waits, inl since) ↦ (
    k,
    waits,
    inr (
        stall_since-StalledFrom window s g h since
          (last_gen_tokens-LastGen window g h (last ∙ ap some k))),
  )
  | inr (last, waits, inr at) ↦
      (k, waits, inl (at, last_gen_tokens-LastGen window g h (last ∙ ap some k)))
]

StalledFrom-LastGen : (t g : ℕ) (h : List Reading) → StalledFrom t g h → LastGen g h
StalledFrom-LastGen t g [] k = absurd k
StalledFrom-LastGen t g (r ∷ h) (e, w, k) = e

-- A reading with requests waiting and no new token begins a stall, or keeps one.
begins :
    (d : WedgeDetector) (r : Reading)
    → d.last_gen_tokens ≡ some r.gen
    → 0 < r.waiting
    → d.stall_since ≡ none
    → (observe_counter d r.waiting r.gen r.time).stall_since ≡ some r.time
unfolding observe_counter compared
begins d r e w u = ground arith

keeps :
    (d : WedgeDetector) (r : Reading) (s : ℕ)
    → d.last_gen_tokens ≡ some r.gen
    → 0 < r.waiting
    → d.stall_since ≡ some s
    → (observe_counter d r.waiting r.gen r.time).stall_since ≡ some s
unfolding observe_counter compared
keeps d r s e w u = ground arith

known_counter :
    (window g : ℕ) (r : Reading) (h : List Reading)
    → r.gen ≡ g
    → LastGen g h
    → (after window h).last_gen_tokens ≡ some r.gen
known_counter window g r h e k = after-last_gen_tokens window g h k ∙ ap some (sym e)

-- A known stall began at the time of some reading.
stall_since-le :
    (window s t : ℕ) (h : List Reading)
    → All (λ (p : Reading). p.time ≤ t) h
    → (after window h).stall_since ≡ some s
    → s ≤ t
stall_since-le window s t [] k e = cc
stall_since-le window s t (r ∷ h) (l, k) e = elim (observe_stalled (after window h) r s e) [
  | inl (first, since) ↦ absurd (no_stall_at_first window s h first since)
  | inr (last, waits, inl since) ↦ stall_since-le window s t h k since
  | inr (last, waits, inr at) ↦ omega arith
]

StalledFrom-stall_since :
    (window t g : ℕ) (h : List Reading)
    → InOrder h
    → StalledFrom t g h
    → (s : ℕ) × ((after window h).stall_since ≡ some s) × (s ≤ t)
StalledFrom-stall_since window t g [] o k = absurd k
StalledFrom-stall_since window t g (r ∷ h) (late, o) (e, w, inl (at, last)) =
    let known = known_counter window g r h e last in
    elim (Option-cases (after window h).stall_since) [
      | inl u ↦ (r.time, begins (after window h) r known w u, omega arith)
      | inr (s, u) ↦ (
        s,
        keeps (after window h) r s known w u,
        (let l = stall_since-le window s r.time h late u in omega arith),
      )
    ]
StalledFrom-stall_since window t g (r ∷ h) (late, o) (e, w, inr k) =
    let (s, u, l) = StalledFrom-stall_since window t g h o k in
    (
      s,
      keeps (after window h) r s (known_counter window g r h e (StalledFrom-LastGen t g h k)) w u,
      l,
    )

suspected-stall_since_iff :
    (d : WedgeDetector) (now : ℕ)
    → 0 < d.window_sec
    → (suspected d now ≡ true) ↔ ((s : ℕ) × (d.stall_since ≡ some s) × (s + d.window_sec ≤ now))
unfolding suspected stall_seconds stalled_for
suspected-stall_since_iff d now pos = (
  λ e. elim (Option-cases d.stall_since) [
    | inl u ↦ absurd (ground arith)
    | inr (s, u) ↦ (s, u, (ground arith))
  ],
  λ (s, u, l). ground arith,
)

last_counter :
    (window s : ℕ) (h : List Reading)
    → (after window h).stall_since ≡ some s
    → (g : ℕ) × LastGen g h
last_counter window s [] e = cc
last_counter window s (r ∷ h) e = (r.gen, refl)

-- For readings in the order of their times and a window that is not 0, a wedge is suspected at a
-- time exactly when a whole window or more earlier some reading found requests waiting and the
-- token counter where the reading before it had left it, and every reading since found the same.
pub suspected_iff :
    (window now : ℕ) (h : List Reading)
    → 0 < window
    → InOrder h
    → (suspected (after window h) now ≡ true)
      ↔ ((t : ℕ) × (g : ℕ) × StalledFrom t g h × (t + window ≤ now))
suspected_iff window now h pos o =
    let w = after-window_sec window h in
    let (here, there) = suspected-stall_since_iff (after window h) now (omega arith) in
    (
      λ e.
          (let (s, u, l) = here e in
            let (g, k) = last_counter window s h u in
            (s, g, stall_since-StalledFrom window s g h u k, omega arith)),
      λ (t, g, k, l).
          (let (s, u, m) = StalledFrom-stall_since window t g h o k in there (s, u, omega arith)),
    )
