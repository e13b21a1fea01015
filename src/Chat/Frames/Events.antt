-- ===== src/Chat/Frames/Events.antt =====
-- Streams that are written as events of one data line each, and what the relay reads in them.
use inference_box.Prelude.{
  ℕ, zero, suc, ◌≤◌, ◌≡◌, refl, sym, ap, ◌∙◌, Bool, true, false, ◌&&◌, List, [], ◌∷◌, ◌++◌, Option,
  none, some, All, length, length-append, Result, ok, raises, ◌>>=◌, ◌==◌, arith,
}
use inference_box.Chat.Values.{
  Json, object, Fields, lookup, null, boolean, number, text, array, Raised,
}
use inference_box.Chat.Frames.{
  Bytes, onto_event, cut_step, cut_event, lines, after_data, lstrip, rstrip, is_nil, is_done, Line,
  next_line, answer, usage_in, payload_line, read_line, first_answer, parse_usage_frame, noted,
  note, drain_cut, drain,
}

abbrev pub IsNoNewline : ℕ → Type 0
IsNoNewline a = (a == 10) ≡ false

-- `b"data: " + payload + b"\n\n"`, in front of the rest of a stream.
abbrev pub data_line : Bytes → Bytes
data_line payload = b'd' ∷ b'a' ∷ b't' ∷ b'a' ∷ b':' ∷ b' ' ∷ payload

abbrev pub event : Bytes → Bytes → Bytes
event payload rest = data_line payload ++ (10 ∷ 10 ∷ rest)

cut_step-onto :
    (a : ℕ) (b : Bool) (bs l rest : Bytes) (o : Option (Bytes × Bytes))
    → IsNoNewline a
    → o ≡ some (l, rest)
    → cut_step (a == 10 && b) a bs o ≡ some (a ∷ l, rest)
unfolding cut_step onto_event
cut_step-onto a b bs l rest o h e = rw (h, e) refl

cut_event-line :
    (l rest : Bytes) → All IsNoNewline l → cut_event (l ++ (10 ∷ 10 ∷ rest)) ≡ some (l, rest)
unfolding cut_event cut_step
cut_event-line [] rest h = refl
cut_event-line (a ∷ []) rest (h, hs) =
    cut_step-onto a true (10 ∷ rest) [] rest (cut_event (10 ∷ 10 ∷ rest)) h refl
cut_event-line (a ∷ b ∷ l) rest (h, hs) =
    cut_step-onto a (b == 10) (l ++ (10 ∷ 10 ∷ rest)) (b ∷ l) rest
      (cut_event (b ∷ (l ++ (10 ∷ 10 ∷ rest)))) h (cut_event-line (b ∷ l) rest hs)

lines-line : (l : Bytes) → All IsNoNewline l → lines l ≡ l ∷ []
unfolding lines
lines-line [] h = refl
lines-line (a ∷ l) (h, hs) = rw (h, lines-line l hs) refl

-- The text that ends a stream.
abbrev pub done_text : Bytes
done_text = b'[' ∷ b'D' ∷ b'O' ∷ b'N' ∷ b'E' ∷ b']' ∷ []

-- A text that is an object: in braces, on one line.
pub record IsBraced (payload : Bytes) : Type 0 where
  pub middle : Bytes
  pub braces : payload ≡ b'{' ∷ (middle ++ (b'}' ∷ []))
  pub one_line : All IsNoNewline payload

-- A text that ends in a brace is not empty.
is_nil-brace : (l : Bytes) → is_nil (l ++ (b'}' ∷ [])) ≡ false
is_nil-brace [] = refl
is_nil-brace (a ∷ l) = refl

rstrip-brace : (l : Bytes) → rstrip (l ++ (b'}' ∷ [])) ≡ l ++ (b'}' ∷ [])
unfolding rstrip
rstrip-brace [] = refl
rstrip-brace (a ∷ l) = rw (rstrip-brace l, is_nil-brace l) refl

lstrip_brace : (l : Bytes) → lstrip (32 ∷ b'{' ∷ l) ≡ b'{' ∷ l
unfolding lstrip
lstrip_brace l = refl

is_done-brace : (l : Bytes) → is_done (b'{' ∷ l) ≡ false
unfolding is_done
is_done-brace [] = refl
is_done-brace (a ∷ []) = refl
is_done-brace (a ∷ b ∷ []) = refl
is_done-brace (a ∷ b ∷ c ∷ []) = refl
is_done-brace (a ∷ b ∷ c ∷ d ∷ []) = refl
is_done-brace (a ∷ b ∷ c ∷ d ∷ e ∷ []) = refl
is_done-brace (a ∷ b ∷ c ∷ d ∷ e ∷ f ∷ l) = refl

-- What is stripped of the space behind the colon is the text itself.
strip-braced : (payload : Bytes) → IsBraced payload → lstrip (rstrip (32 ∷ payload)) ≡ payload
strip-braced payload h =
    ap (λ z. lstrip (rstrip (32 ∷ z))) h.braces
    ∙ ap lstrip (rstrip-brace (32 ∷ b'{' ∷ h.middle))
    ∙ lstrip_brace (h.middle ++ (b'}' ∷ []))
    ∙ sym h.braces

braced-done : (payload : Bytes) → IsBraced payload → is_done payload ≡ false
braced-done payload h = ap is_done h.braces ∙ is_done-brace (h.middle ++ (b'}' ∷ []))

-- The usage that a payload has, or the usage so far.
abbrev pub usage_or : Fields → Option Json → Fields
usage_or so_far (some (object usage)) = usage
usage_or so_far o = so_far

module _ (loads : Bytes → Option Json) where
  abbrev first_of : Result Raised Line → Result Raised (Option Fields)
  first_of (raises e) = raises e
  first_of (ok next_line) = ok none
  first_of (ok (answer a)) = ok a

  noted-usage :
      (so_far : Fields) (o : Option Json)
      → noted loads so_far (first_of (usage_in loads o)) ≡ ok (usage_or so_far o)
  unfolding noted usage_in
  noted-usage so_far none = refl
  noted-usage so_far (some (object usage)) = refl
  noted-usage so_far (some null) = refl
  noted-usage so_far (some (boolean b)) = refl
  noted-usage so_far (some (number n)) = refl
  noted-usage so_far (some (text t)) = refl
  noted-usage so_far (some (array vs)) = refl

  first_answer-alone :
      (l : Bytes) (r : Result Raised Line)
      → read_line loads (after_data l) ≡ r
      → first_answer loads (l ∷ []) ≡ first_of r
  unfolding first_answer
  first_answer-alone l (raises x) e = rw (first_answer, e) refl
  first_answer-alone l (ok next_line) e = rw (first_answer, e) refl
  first_answer-alone l (ok (answer a)) e = rw (first_answer, e) refl

  read_line-object :
      (rest payload : Bytes) (d : Fields)
      → lstrip (rstrip rest) ≡ payload
      → is_done payload ≡ false
      → loads payload ≡ some (object d)
      → read_line loads (some rest) ≡ usage_in loads (lookup "usage" d)
  unfolding read_line payload_line
  read_line-object rest payload d e n o = rw (e, n, o) refl

  after_data-line : (payload : Bytes) → after_data (data_line payload) ≡ some (32 ∷ payload)
  unfolding after_data
  after_data-line payload = refl

  -- One event that is a data line with an object.
  note-data_line :
      (so_far : Fields) (payload : Bytes) (d : Fields)
      → IsBraced payload
      → loads payload ≡ some (object d)
      → note loads so_far (data_line payload) ≡ ok (usage_or so_far (lookup "usage" d))
  unfolding note parse_usage_frame
  note-data_line so_far payload d h e =
      ap (λ z. noted loads so_far (first_answer loads z))
        (lines-line (data_line payload) (refl, (refl, (refl, (refl, (refl, (refl, h.one_line)))))))
      ∙ ap (noted loads so_far) (
          first_answer-alone (data_line payload) (usage_in loads (lookup "usage" d)) (
            ap (read_line loads) (after_data-line payload)
            ∙ read_line-object (32 ∷ payload) payload d (strip-braced payload h)
                (braced-done payload h) e))
      ∙ noted-usage so_far (lookup "usage" d)

  note-done : (so_far : Fields) → note loads so_far (data_line done_text) ≡ ok so_far
  unfolding note parse_usage_frame lines first_answer after_data read_line lstrip rstrip is_done
      noted
  note-done so_far = refl

  -- A stream of such events, each with the object that its text is read as.
  pub data Written : List Fields → Bytes → Type 0 where
    done : Written [] (event done_text [])
    one_more :
        {payload rest : Bytes} {d : Fields} {ds : List Fields}
        → IsBraced payload
        → loads payload ≡ some (object d)
        → Written ds rest
        → Written (d ∷ ds) (event payload rest)

  -- The usage of the last object that has one.
  abbrev pub last_usage : Fields → List Fields → Fields
  last_usage so_far [] = so_far
  last_usage so_far (d ∷ ds) = last_usage (usage_or so_far (lookup "usage" d)) ds

  drain-event :
      (n : ℕ) (so_far usage : Fields) (payload rest : Bytes)
      → All IsNoNewline payload
      → note loads so_far (data_line payload) ≡ ok usage
      → drain loads (suc n) so_far (event payload rest) ≡ drain loads n usage rest
  unfolding drain drain_cut
  drain-event n so_far usage payload rest h e =
      ap (drain_cut loads (drain loads n) so_far (event payload rest))
        (cut_event-line (data_line payload) rest (refl, (refl, (refl, (refl, (refl, (refl, h)))))))
      ∙ ap (λ z. z >>= λ usage'. drain loads n usage' rest) e

  drain-nil : (n : ℕ) (so_far : Fields) → drain loads n so_far [] ≡ ok (so_far, [])
  unfolding drain drain_cut cut_event
  drain-nil zero so_far = refl
  drain-nil (suc n) so_far = refl

  -- The loop, given rounds enough, takes off every event and keeps the last usage.
  pub drain-Written :
      (ds : List Fields) (bytes : Bytes) (n : ℕ) (so_far : Fields)
      → Written ds bytes
      → length bytes ≤ n
      → drain loads n so_far bytes ≡ ok (last_usage so_far ds, [])
  drain-Written [] bytes zero so_far done l = absurd (omega arith)
  drain-Written [] bytes (suc n) so_far done l =
      drain-event n so_far so_far done_text [] (refl, (refl, (refl, (refl, (refl, (refl, tt))))))
        (note-done so_far)
      ∙ drain-nil n so_far
  drain-Written (d ∷ ds) bytes zero so_far (one_more h e w) l = absurd (omega arith)
  drain-Written (d ∷ ds) bytes (suc n) so_far (one_more {payload} {rest} h e w) l =
      let k = length-append payload (10 ∷ 10 ∷ rest) in
      drain-event n so_far (usage_or so_far (lookup "usage" d)) payload rest h.one_line
        (note-data_line so_far payload d h e)
      ∙ drain-Written ds rest n (usage_or so_far (lookup "usage" d)) w (omega arith)
