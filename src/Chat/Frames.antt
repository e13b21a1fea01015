-- ===== src/Chat/Frames.antt =====
-- The server-sent events of a stream, as the relay of gateway/routes/chat.py cuts them out of the
-- chunks that arrive and looks for the token usage in them. Bytes are numbers; `json.loads` of some
-- bytes is an argument.
pub mod Chunks
pub mod Events
use inference_box.Prelude.{
  ℕ, zero, suc, String, List, [], ◌∷◌, ◌++◌, Bool, true, false, ◌&&◌, ◌||◌, not, Option, none, some,
  leb, ◌==◌, if◌then◌else◌, length, Result, ok, raises, ◌>>=◌,
}
use inference_box.Chat.Values.{
  Json, null, boolean, number, text, array, object, Fields, no_fields, lookup, Raised,
  attribute_error,
}

abbrev pub Bytes : Type 0
Bytes = List ℕ

onto_event : ℕ → Option (Bytes × Bytes) → Option (Bytes × Bytes)
onto_event a none = none
onto_event a (some (event, behind)) = some (a ∷ event, behind)

-- Whether the blank line begins here, and what the rest is cut into if it does not.
cut_step : Bool → ℕ → Bytes → Option (Bytes × Bytes) → Option (Bytes × Bytes)
unfolding onto_event
cut_step true a bs cut = some ([], bs)
cut_step false a bs cut = onto_event a cut

-- `buf.split(b"\n\n", 1)` of bytes in which the blank line occurs: what stands before its first
-- occurrence, and what behind.
unfoldable pub cut_event : Bytes → Option (Bytes × Bytes)
unfolding cut_step
cut_event [] = none
cut_event (a ∷ []) = none
cut_event (a ∷ b ∷ bs) = cut_step (a == 10 && b == 10) a bs (cut_event (b ∷ bs))

-- `raw_event.split(b"\n")`
abbrev onto_line : ℕ → List Bytes → List Bytes
onto_line a [] = (a ∷ []) ∷ []
onto_line a (l ∷ ls) = (a ∷ l) ∷ ls

unfoldable pub lines : Bytes → List Bytes
lines [] = [] ∷ []
lines (a ∷ bs) = let rest = lines bs in if a == 10 then [] ∷ rest else onto_line a rest

-- `line[len(b"data:"):]` of a line that starts so.
unfoldable pub after_data : Bytes → Option Bytes
after_data (a ∷ b ∷ c ∷ d ∷ e ∷ rest) =
    if a == b'd' && b == b'a' && c == b't' && d == b'a' && e == b':' then some rest else none
after_data _ = none

-- The white space of bytes, and `strip()`.
abbrev is_blank : ℕ → Bool
is_blank n = (leb 9 n && leb n 13) || n == 32

unfoldable pub lstrip : Bytes → Bytes
lstrip [] = []
lstrip (a ∷ bs) = let rest = lstrip bs in if is_blank a then rest else a ∷ bs

abbrev is_nil : Bytes → Bool
is_nil [] = true
is_nil _ = false

unfoldable pub rstrip : Bytes → Bytes
rstrip [] = []
rstrip (a ∷ bs) = let rest = rstrip bs in if is_nil rest && is_blank a then [] else a ∷ rest

-- The text that ends a stream and is no JSON.
unfoldable pub is_done : Bytes → Bool
is_done (a ∷ b ∷ c ∷ d ∷ e ∷ f ∷ []) =
    a == b'[' && b == b'D' && c == b'O' && d == b'N' && e == b'E' && f == b']'
is_done _ = false

-- What a line comes to: nothing, or the answer of the whole event.
pub data Line : Type 0 where
  next_line : Line
  answer : Option Fields → Line

module _ (loads : Bytes → Option Json) where
  usage_in : Option Json → Result Raised Line
  usage_in (some (object usage)) = ok (answer (some usage))
  usage_in _ = ok next_line

  -- What is done with `json.loads(text)`: `get` of anything but an object raises.
  payload_line : Option Json → Result Raised Line
  unfolding usage_in
  payload_line none = ok (answer none)
  payload_line (some (object payload)) = usage_in (lookup "usage" payload)
  payload_line (some _) = raises attribute_error

  read_line : Option Bytes → Result Raised Line
  unfolding payload_line
  read_line none = ok next_line
  read_line (some rest) =
      let stripped = lstrip (rstrip rest) in
      if is_done stripped then ok (answer none) else payload_line (loads stripped)

  first_answer : List Bytes → Result Raised (Option Fields)
  unfolding read_line
  first_answer [] = ok none
  first_answer (l ∷ ls) =
      let rest = first_answer ls in
      elim (read_line (after_data l)) [
        | raises e ↦ raises e
        | ok next_line ↦ rest
        | ok (answer a) ↦ ok a
      ]

  -- `_parse_usage_frame`
  unfoldable pub parse_usage_frame : Bytes → Result Raised (Option Fields)
  unfolding first_answer
  parse_usage_frame raw_event = first_answer (lines raw_event)

  -- The usage after an event, or the usage so far when the parse raises.
  noted : Fields → Result Raised (Option Fields) → Result Fields Fields
  noted usage (raises e) = raises usage
  noted usage (ok none) = ok usage
  noted usage (ok (some parsed)) = ok parsed

  unfoldable pub note : Fields → Bytes → Result Fields Fields
  unfolding parse_usage_frame noted
  note usage raw_event = noted usage (parse_usage_frame raw_event)

  -- One round of the inner loop of `relay`, with the buffer cut and the rounds after it.
  drain_cut :
      (Fields → Bytes → Result Fields (Fields × Bytes))
      → Fields
      → Bytes
      → Option (Bytes × Bytes)
      → Result Fields (Fields × Bytes)
  unfolding note
  drain_cut again usage buf none = ok (usage, buf)
  drain_cut again usage buf (some (raw_event, rest)) =
      note usage raw_event >>= λ usage'. again usage' rest

  -- The inner loop; every round shortens the buffer.
  unfoldable pub drain : ℕ → Fields → Bytes → Result Fields (Fields × Bytes)
  unfolding drain_cut
  drain zero usage buf = ok (usage, buf)
  drain (suc rounds) usage buf = drain_cut (drain rounds) usage buf (cut_event buf)

  -- A chunk that arrives.
  unfoldable pub consume : Fields → Bytes → Bytes → Result Fields (Fields × Bytes)
  unfolding drain
  consume usage buf chunk = drain (length (buf ++ chunk)) usage (buf ++ chunk)

  -- All the chunks of a stream, from what the loop has so far.
  unfoldable pub consume_all : Fields → Bytes → List Bytes → Result Fields (Fields × Bytes)
  unfolding consume
  consume_all usage buf [] = ok (usage, buf)
  consume_all usage buf (chunk ∷ chunks) =
      consume usage buf chunk >>= λ state. consume_all state.0 state.1 chunks
