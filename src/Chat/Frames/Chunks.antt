-- ===== src/Chat/Frames/Chunks.antt =====
-- The usage that the relay finds does not depend on how the stream is cut into chunks.
use inference_box.Prelude.{
  ℕ, zero, suc, ◌≤◌, ◌<◌, ◌≡◌, refl, ◌∙◌, sym, ap, List, [], ◌∷◌, ◌++◌, Option, none, some, length,
  length-append, bind-cong, bind-ok, bind_assoc, Result, ok, ◌>>=◌, arith, ◌==◌, ◌&&◌, Bool, true,
  false, subst,
}
use inference_box.Chat.Values.{Json, Fields}
use inference_box.Chat.Frames.{
  Bytes, onto_event, cut_step, cut_event, drain_cut, note, drain, consume, consume_all,
}

cut_step-append :
    (t : Bool) (a : ℕ) (bs y event rest : Bytes) (o o' : Option (Bytes × Bytes))
    → ((e r : Bytes) → o ≡ some (e, r) → o' ≡ some (e, r ++ y))
    → cut_step t a bs o ≡ some (event, rest)
    → cut_step t a (bs ++ y) o' ≡ some (event, rest ++ y)
unfolding cut_step onto_event
cut_step-append true a bs y event rest o o' k h =
    let q : [] ≡ event = cc in let r : bs ≡ rest = cc in λ i. some (q i, r i ++ y)
cut_step-append false a bs y event rest none o' k h = cc
cut_step-append false a bs y event rest (some (e, b)) o' k h =
    let q : a ∷ e ≡ event = cc in
    let r : b ≡ rest = cc in ap (onto_event a) (k e b refl) ∙ λ i. some (q i, r i ++ y)

cut_event-append :
    (x y event rest : Bytes)
    → cut_event x ≡ some (event, rest)
    → cut_event (x ++ y) ≡ some (event, rest ++ y)
unfolding cut_event
cut_event-append [] y event rest h = cc
cut_event-append (a ∷ []) y event rest h = cc
cut_event-append (a ∷ b ∷ bs) y event rest h =
    cut_step-append (a == 10 && b == 10) a bs y event rest (cut_event (b ∷ bs))
      (cut_event (b ∷ (bs ++ y))) (λ e r q. cut_event-append (b ∷ bs) y e r q) h

cut_step-length :
    (t : Bool) (a n : ℕ) (bs event rest : Bytes) (o : Option (Bytes × Bytes))
    → length bs < n
    → ((e r : Bytes) → o ≡ some (e, r) → length r < n)
    → cut_step t a bs o ≡ some (event, rest)
    → length rest < n
unfolding cut_step onto_event
cut_step-length true a n bs event rest o l k h =
    let r : bs ≡ rest = cc in subst (λ x. length x < n) r l
cut_step-length false a n bs event rest none l k h = cc
cut_step-length false a n bs event rest (some (e, b)) l k h =
    let r : b ≡ rest = cc in subst (λ x. length x < n) r (k e b refl)

cut_event-length :
    (x event rest : Bytes) → cut_event x ≡ some (event, rest) → length rest < length x
unfolding cut_event
cut_event-length [] event rest h = cc
cut_event-length (a ∷ []) event rest h = cc
cut_event-length (a ∷ b ∷ bs) event rest h =
    cut_step-length (a == 10 && b == 10) a (length (a ∷ b ∷ bs)) bs event rest (cut_event (b ∷ bs))
      (omega arith) (λ e r q. (let l = cut_event-length (b ∷ bs) e r q in omega arith)) h

-- All the bytes of some chunks.
abbrev pub joined : List Bytes → Bytes
joined [] = []
joined (chunk ∷ chunks) = chunk ++ joined chunks

append-nil : (x : Bytes) → x ++ [] ≡ x
append-nil [] = refl
append-nil (a ∷ x) = ap (λ z. a ∷ z) (append-nil x)

append_assoc : (x y z : Bytes) → (x ++ y) ++ z ≡ x ++ (y ++ z)
append_assoc [] y z = refl
append_assoc (a ∷ x) y z = ap (λ w. a ∷ w) (append_assoc x y z)

module _ (loads : Bytes → Option Json) where
  abbrev pub Again : Type 0
  Again = Fields → Bytes → Result Fields (Fields × Bytes)

  drain_cut-cong :
      (f g : Again) (usage : Fields) (x : Bytes) (o : Option (Bytes × Bytes))
      → ((event rest : Bytes) (u : Fields) → o ≡ some (event, rest) → f u rest ≡ g u rest)
      → drain_cut loads f usage x o ≡ drain_cut loads g usage x o
  unfolding drain_cut
  drain_cut-cong f g usage x none h = refl
  drain_cut-cong f g usage x (some (event, rest)) h =
      bind-cong (note loads usage event) (λ u. f u rest) (λ u. g u rest)
        (λ u q. h event rest u refl)

  -- More rounds than the buffer is long change nothing.
  drain-enough :
      (m n : ℕ) (usage : Fields) (x : Bytes)
      → length x ≤ m
      → length x ≤ n
      → drain loads m usage x ≡ drain loads n usage x
  unfolding drain drain_cut cut_event
  drain-enough zero zero usage x l k = refl
  drain-enough zero (suc n) usage [] l k = refl
  drain-enough zero (suc n) usage (a ∷ x) l k = absurd (omega arith)
  drain-enough (suc m) zero usage [] l k = refl
  drain-enough (suc m) zero usage (a ∷ x) l k = absurd (omega arith)
  drain-enough (suc m) (suc n) usage x l k =
      drain_cut-cong (drain loads m) (drain loads n) usage x (cut_event x) (λ event rest u e.
        (let s = cut_event-length x event rest e in
          drain-enough m n u rest (omega arith) (omega arith)))

  -- To go on with more bytes behind what is left in the buffer.
  abbrev pub resume : Bytes → Fields × Bytes → Result Fields (Fields × Bytes)
  resume y (usage, rest) = drain loads (length (rest ++ y)) usage (rest ++ y)

  drain_cut-append :
      (m n : ℕ) (usage : Fields) (x y : Bytes) (o : Option (Bytes × Bytes))
      → cut_event x ≡ o
      → length (x ++ y) ≤ suc n
      → ((event rest : Bytes) (u : Fields)
          → o ≡ some (event, rest)
          → drain loads n u (rest ++ y) ≡ (drain loads m u rest >>= resume y))
      → drain loads (suc n) usage (x ++ y)
        ≡ (drain_cut loads (drain loads m) usage x o >>= resume y)
  unfolding drain_cut drain
  drain_cut-append m n usage x y none e l h =
      drain-enough (suc n) (length (x ++ y)) usage (x ++ y) l (omega arith)
  drain_cut-append m n usage x y (some (event, rest)) e l h =
      ap (drain_cut loads (drain loads n) usage (x ++ y)) (cut_event-append x y event rest e)
      ∙ bind-cong (note loads usage event) (λ u. drain loads n u (rest ++ y))
          (λ u. drain loads m u rest >>= resume y) (λ u q. h event rest u refl)
      ∙ sym (bind_assoc (note loads usage event) (λ u. drain loads m u rest) (resume y))

  drain-append :
      (m n : ℕ) (usage : Fields) (x y : Bytes)
      → length x ≤ m
      → length (x ++ y) ≤ n
      → drain loads n usage (x ++ y) ≡ (drain loads m usage x >>= resume y)
  unfolding drain
  drain-append zero n usage [] y l k = drain-enough n (length y) usage y k (omega arith)
  drain-append zero n usage (a ∷ x) y l k = absurd (omega arith)
  drain-append (suc m) n usage x y l k =
      drain-enough n (suc n) usage (x ++ y) k (omega arith)
      ∙ drain_cut-append m n usage x y (cut_event x) refl (omega arith) (λ event rest u e.
        (let s = cut_event-length x event rest e in
          let t = length-append x y in
          let t' = length-append rest y in drain-append m n u rest y (omega arith) (omega arith)))

  drain_cut-rest :
      (f : Again) (usage u : Fields) (x r : Bytes) (o : Option (Bytes × Bytes))
      → cut_event x ≡ o
      → ((event rest : Bytes) (v : Fields)
          → o ≡ some (event, rest)
          → f v rest ≡ ok (u, r)
          → cut_event r ≡ none)
      → drain_cut loads f usage x o ≡ ok (u, r)
      → cut_event r ≡ none
  unfolding drain_cut
  drain_cut-rest f usage u x r none e k h =
      let q : x ≡ r = cc in subst (λ z. cut_event z ≡ none) q e
  drain_cut-rest f usage u x r (some (event, rest)) e k h =
      let (v, n, q) = bind-ok (note loads usage event) (λ w. f w rest) (u, r) h in
      k event rest v refl q

  -- The loop leaves no complete event in the buffer.
  drain-rest :
      (m : ℕ) (usage u : Fields) (x r : Bytes)
      → length x ≤ m
      → drain loads m usage x ≡ ok (u, r)
      → cut_event r ≡ none
  unfolding drain cut_event
  drain-rest zero usage u [] r l h = let q : [] ≡ r = cc in subst (λ z. cut_event z ≡ none) q refl
  drain-rest zero usage u (a ∷ x) r l h = absurd (omega arith)
  drain-rest (suc m) usage u x r l h =
      drain_cut-rest (drain loads m) usage u x r (cut_event x) refl
        (λ event rest v e q.
          (let s = cut_event-length x event rest e in drain-rest m v u rest r (omega arith) q))
        h

  drain-none :
      (m : ℕ) (usage : Fields) (x : Bytes)
      → cut_event x ≡ none
      → drain loads m usage x ≡ ok (usage, x)
  unfolding drain drain_cut
  drain-none zero usage x e = refl
  drain-none (suc m) usage x e = ap (drain_cut loads (drain loads m) usage x) e

  consume_all-joined_from :
      (usage : Fields) (buf : Bytes) (chunks : List Bytes)
      → cut_event buf ≡ none
      → consume_all loads usage buf chunks
        ≡ drain loads (length (buf ++ joined chunks)) usage (buf ++ joined chunks)
  unfolding consume_all consume
  consume_all-joined_from usage buf [] e =
      sym (rw (append-nil buf) (drain-none (length buf) usage buf e))
  consume_all-joined_from usage buf (chunk ∷ chunks) e =
      bind-cong (consume loads usage buf chunk) (λ s. consume_all loads s.0 s.1 chunks)
        (resume (joined chunks))
        (λ (u, r) q.
          (let none_left =
              drain-rest (length (buf ++ chunk)) usage u (buf ++ chunk) r (omega arith) q in
            consume_all-joined_from u r chunks none_left))
      ∙ sym (
          drain-append (length (buf ++ chunk)) (length ((buf ++ chunk) ++ joined chunks)) usage
            (buf ++ chunk) (joined chunks) (omega arith) (omega arith))
      ∙ ap (λ z. drain loads (length z) usage z) (append_assoc buf chunk (joined chunks))

  -- What the relay has found in a stream, and what it still holds in its buffer, depend only on the
  -- bytes of the stream, and not on how they were cut into chunks: it is as if all of them had
  -- arrived at once.
  pub consume_all-joined :
      (usage : Fields) (chunks : List Bytes)
      → consume_all loads usage [] chunks ≡ consume loads usage [] (joined chunks)
  unfolding consume cut_event
  consume_all-joined usage chunks = consume_all-joined_from usage [] chunks refl
