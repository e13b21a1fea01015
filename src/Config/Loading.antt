-- ===== src/Config/Loading.antt =====
-- When the settings load, and what a loaded setting says of the environment.
use inference_box.Prelude.{
  ◌≡◌, refl, ◌↔◌, inl, inr, String, List, [], ◌∷◌, All, Option, none, some, Option-cases, ok,
  bind-ok,
}
use inference_box.Dict.{Dict, get?, get_or}
use inference_box.Chat.Values.{ℤ}
use inference_box.Config.{
  Settings, Numbers, env_int, env_float, load_numbers, settings_with, load, read,
}

-- The variables that hold numbers, with their defaults.
abbrev pub ints : List (String × String)
ints =
    ("GATEWAY_PORT", "8080")
    ∷ ("AUTH_VERIFY_CONCURRENCY", "6")
    ∷ ("JWT_LEEWAY_SEC", "30")
    ∷ ("MAX_BODY_BYTES", "1048576")
    ∷ ("MAX_COMPLETION_TOKENS", "2048")
    ∷ ("MAX_PROMPT_TOKENS", "7000")
    ∷ []

abbrev pub floats : List (String × String)
floats =
    ("UPSTREAM_CONNECT_TIMEOUT_SEC", "5.0")
    ∷ ("UPSTREAM_READ_TIMEOUT_SEC", "120.0")
    ∷ ("BREAKER_OPEN_SEC", "15.0")
    ∷ ("UPSTREAM_PROBE_TIMEOUT_SEC", "2.0")
    ∷ ("BREAKER_PROBE_TICK_SEC", "1.0")
    ∷ ("UPSTREAM_METRICS_POLL_SEC", "5.0")
    ∷ ("UPSTREAM_METRICS_TIMEOUT_SEC", "2.0")
    ∷ ("UPSTREAM_WEDGE_WINDOW_SEC", "120.0")
    ∷ []

module _ {A : Type 0} (of_text : String → Option A) where
  abbrev pub IsRead : String → Type 0
  IsRead raw = (a : A) × (of_text raw ≡ some a)

  -- The default of a variable reads as a number.
  abbrev pub DefaultIsRead : String × String → Type 0
  DefaultIsRead (name, default) = IsRead default

module _ {A : Type 0} (of_text : String → Option A) (env : Dict String) where
  -- What the environment sets a variable to, if it sets it, reads as a number.
  abbrev pub SetIsRead : String × String → Type 0
  SetIsRead (name, default) = (raw : String) → get? name env ≡ some raw → IsRead of_text raw

  read_or :
      (name default : String)
      → IsRead of_text default
      → SetIsRead (name, default)
      → (a : A) × (read (get_or name default env) (of_text (get_or name default env)) ≡ ok a)
  unfolding read get_or
  read_or name default (a, d) s = elim (Option-cases (get? name env)) [
    | inl e ↦ (a, rw (get_or, e, d) refl)
    | inr (raw, e) ↦ (let (b, h) = s raw e in (b, rw (get_or, e, h) refl))
  ]

  read-ok : (raw : String) (o : Option A) (a : A) → read raw o ≡ ok a → o ≡ some a
  unfolding read
  read-ok raw none a h = cc
  read-ok raw (some b) a h = cc

  set_is_read :
      (name default : String) (a : A)
      → read (get_or name default env) (of_text (get_or name default env)) ≡ ok a
      → SetIsRead (name, default)
  unfolding get_or
  set_is_read name default a h raw e = (a, read-ok raw (of_text raw) a (rw (get_or, e) at h))

module _ {F : Type 0} (int_of_text : String → Option ℤ) (float_of_text : String → Option F) where
  -- The defaults of the source read as numbers.
  pub record ReadsDefaults : Type 0 where
    pub ints_read : All (DefaultIsRead int_of_text) ints
    pub floats_read : All (DefaultIsRead float_of_text) floats

  -- So do all the numbers that the environment sets.
  pub record ReadsSet (env : Dict String) : Type 0 where
    pub ints_set : All (SetIsRead int_of_text env) ints
    pub floats_set : All (SetIsRead float_of_text env) floats

  load_numbers-ok :
      (env : Dict String)
      → ReadsDefaults
      → ReadsSet env
      → (n : Numbers F) × (load_numbers int_of_text float_of_text env ≡ ok n)
  unfolding load_numbers env_int env_float
  load_numbers-ok env d s =
      let (di0, (di1, (di2, (di3, (di4, (di5, _)))))) = d.ints_read in
      let (df0, (df1, (df2, (df3, (df4, (df5, (df6, (df7, _)))))))) = d.floats_read in
      let (si0, (si1, (si2, (si3, (si4, (si5, _)))))) = s.ints_set in
      let (sf0, (sf1, (sf2, (sf3, (sf4, (sf5, (sf6, (sf7, _)))))))) = s.floats_set in
      let (vi0, ei0) = read_or int_of_text env "GATEWAY_PORT" "8080" di0 si0 in
      let (vf0, ef0) = read_or float_of_text env "UPSTREAM_CONNECT_TIMEOUT_SEC" "5.0" df0 sf0 in
      let (vf1, ef1) = read_or float_of_text env "UPSTREAM_READ_TIMEOUT_SEC" "120.0" df1 sf1 in
      let (vf2, ef2) = read_or float_of_text env "BREAKER_OPEN_SEC" "15.0" df2 sf2 in
      let (vf3, ef3) = read_or float_of_text env "UPSTREAM_PROBE_TIMEOUT_SEC" "2.0" df3 sf3 in
      let (vf4, ef4) = read_or float_of_text env "BREAKER_PROBE_TICK_SEC" "1.0" df4 sf4 in
      let (vi1, ei1) = read_or int_of_text env "AUTH_VERIFY_CONCURRENCY" "6" di1 si1 in
      let (vi2, ei2) = read_or int_of_text env "JWT_LEEWAY_SEC" "30" di2 si2 in
      let (vi3, ei3) = read_or int_of_text env "MAX_BODY_BYTES" "1048576" di3 si3 in
      let (vi4, ei4) = read_or int_of_text env "MAX_COMPLETION_TOKENS" "2048" di4 si4 in
      let (vi5, ei5) = read_or int_of_text env "MAX_PROMPT_TOKENS" "7000" di5 si5 in
      let (vf5, ef5) = read_or float_of_text env "UPSTREAM_METRICS_POLL_SEC" "5.0" df5 sf5 in
      let (vf6, ef6) = read_or float_of_text env "UPSTREAM_METRICS_TIMEOUT_SEC" "2.0" df6 sf6 in
      let (vf7, ef7) = read_or float_of_text env "UPSTREAM_WEDGE_WINDOW_SEC" "120.0" df7 sf7 in
      (
        record {
          port = vi0;
          upstream_connect_timeout_sec = vf0;
          upstream_read_timeout_sec = vf1;
          breaker_open_sec = vf2;
          upstream_probe_timeout_sec = vf3;
          breaker_probe_tick_sec = vf4;
          auth_verify_concurrency = vi1;
          jwt_leeway_sec = vi2;
          max_body_bytes = vi3;
          max_completion_tokens = vi4;
          max_prompt_tokens = vi5;
          upstream_metrics_poll_sec = vf5;
          upstream_metrics_timeout_sec = vf6;
          upstream_wedge_window_sec = vf7;
        },
        rw (ei0, ef0, ef1, ef2, ef3, ef4, ei1, ei2, ei3, ei4, ei5, ef5, ef6, ef7) refl,
      )

  load_numbers-reads :
      (env : Dict String) (n : Numbers F)
      → load_numbers int_of_text float_of_text env ≡ ok n
      → ReadsSet env
  unfolding load_numbers env_int env_float
  load_numbers-reads env n h =
      let (v0, ei0, h0) =
        bind-ok (env_int int_of_text float_of_text env "GATEWAY_PORT" "8080") _ n h in
      let (v1, ef0, h1) =
        bind-ok (env_float int_of_text float_of_text env "UPSTREAM_CONNECT_TIMEOUT_SEC" "5.0") _ n
          h0 in
      let (v2, ef1, h2) =
        bind-ok (env_float int_of_text float_of_text env "UPSTREAM_READ_TIMEOUT_SEC" "120.0") _ n
          h1 in
      let (v3, ef2, h3) =
        bind-ok (env_float int_of_text float_of_text env "BREAKER_OPEN_SEC" "15.0") _ n h2 in
      let (v4, ef3, h4) =
        bind-ok (env_float int_of_text float_of_text env "UPSTREAM_PROBE_TIMEOUT_SEC" "2.0") _ n
          h3 in
      let (v5, ef4, h5) =
        bind-ok (env_float int_of_text float_of_text env "BREAKER_PROBE_TICK_SEC" "1.0") _ n h4 in
      let (v6, ei1, h6) =
        bind-ok (env_int int_of_text float_of_text env "AUTH_VERIFY_CONCURRENCY" "6") _ n h5 in
      let (v7, ei2, h7) =
        bind-ok (env_int int_of_text float_of_text env "JWT_LEEWAY_SEC" "30") _ n h6 in
      let (v8, ei3, h8) =
        bind-ok (env_int int_of_text float_of_text env "MAX_BODY_BYTES" "1048576") _ n h7 in
      let (v9, ei4, h9) =
        bind-ok (env_int int_of_text float_of_text env "MAX_COMPLETION_TOKENS" "2048") _ n h8 in
      let (v10, ei5, h10) =
        bind-ok (env_int int_of_text float_of_text env "MAX_PROMPT_TOKENS" "7000") _ n h9 in
      let (v11, ef5, h11) =
        bind-ok (env_float int_of_text float_of_text env "UPSTREAM_METRICS_POLL_SEC" "5.0") _ n
          h10 in
      let (v12, ef6, h12) =
        bind-ok (env_float int_of_text float_of_text env "UPSTREAM_METRICS_TIMEOUT_SEC" "2.0") _ n
          h11 in
      let (v13, ef7, h13) =
        bind-ok (env_float int_of_text float_of_text env "UPSTREAM_WEDGE_WINDOW_SEC" "120.0") _ n
          h12 in
      record {
        ints_set = (
          set_is_read int_of_text env "GATEWAY_PORT" "8080" _ ei0,
          (
            set_is_read int_of_text env "AUTH_VERIFY_CONCURRENCY" "6" _ ei1,
            (
              set_is_read int_of_text env "JWT_LEEWAY_SEC" "30" _ ei2,
              (
                set_is_read int_of_text env "MAX_BODY_BYTES" "1048576" _ ei3,
                (
                  set_is_read int_of_text env "MAX_COMPLETION_TOKENS" "2048" _ ei4,
                  (set_is_read int_of_text env "MAX_PROMPT_TOKENS" "7000" _ ei5, tt),
                ),
              ),
            ),
          ),
        );
        floats_set = (
          set_is_read float_of_text env "UPSTREAM_CONNECT_TIMEOUT_SEC" "5.0" _ ef0,
          (
            set_is_read float_of_text env "UPSTREAM_READ_TIMEOUT_SEC" "120.0" _ ef1,
            (
              set_is_read float_of_text env "BREAKER_OPEN_SEC" "15.0" _ ef2,
              (
                set_is_read float_of_text env "UPSTREAM_PROBE_TIMEOUT_SEC" "2.0" _ ef3,
                (
                  set_is_read float_of_text env "BREAKER_PROBE_TICK_SEC" "1.0" _ ef4,
                  (
                    set_is_read float_of_text env "UPSTREAM_METRICS_POLL_SEC" "5.0" _ ef5,
                    (
                      set_is_read float_of_text env "UPSTREAM_METRICS_TIMEOUT_SEC" "2.0" _ ef6,
                      (set_is_read float_of_text env "UPSTREAM_WEDGE_WINDOW_SEC" "120.0" _ ef7, tt),
                    ),
                  ),
                ),
              ),
            ),
          ),
        );
      }

  -- Where the defaults read as numbers, the settings are built from an environment exactly if every
  -- variable for a number that the environment sets reads as one, whatever its texts and flags are.
  pub load-ok_iff :
      (env : Dict String)
      → ReadsDefaults
      → ((s : Settings F) × (load int_of_text float_of_text env ≡ ok s)) ↔ ReadsSet env
  unfolding load
  load-ok_iff env d = (
    λ (s, h).
        (let (n, e, k) = bind-ok (load_numbers int_of_text float_of_text env) _ s h in
          load_numbers-reads env n e),
    λ r.
        (let (n, e) = load_numbers-ok env d r in
          (settings_with int_of_text float_of_text env n, rw e refl)),
  )
