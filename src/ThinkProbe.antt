-- ===== src/ThinkProbe.antt =====
-- scripts/b3_probe.py, which asks a model with and without its thinking switched off: the stripping of
-- thinking sections, the row of a case, and the exit code.

pub mod Stripping
pub mod Sections
pub mod Unterminated
pub mod Examples
use Prim.Native.Char.{Char}
use Prim.Native.String.{[], ◌∷◌}
use mathlib.Core.List.{List}
use inference_box.Prelude.{
  ℕ, zero, suc, String, Bool, true, false, ◌&&◌, ◌||◌, not, Option, none, some, leb, if◌then◌else◌,
}
use inference_box.Prelude.Text.{is_empty}
use inference_box.Prelude.Text.Cutting.{without_prefix, strip}
use inference_box.Chat.Values.{
  Json, text, array, object, item, no_items, Fields, field, no_fields, boolean, whole_number, put,
}

abbrev pub opening : String
opening = "<think>"

abbrev pub closing : String
closing = "</think>"

-- What stands behind the first occurrence of a text, given what stands behind one at the start.
abbrev pub or_later : Option String → Option String → Option String
or_later none later = later
or_later (some rest) later = some rest

unfoldable pub behind : String → String → Option String
behind p [] = without_prefix p []
behind p (c ∷ s) = let later = behind p s in or_later (without_prefix p (c ∷ s)) later

is_some : Option String → Bool
is_some none = false
is_some (some s) = true

-- `p in s`
unfoldable pub occurs : String → String → Bool
unfolding is_some
occurs p s = is_some (behind p s)

-- What a section that begins here, or none, is followed by: `<think>.*?</think>`.
behind_section : Option String → Option String
behind_section none = none
behind_section (some body) = behind closing body

-- One place in the text, given the rest of the substitution from behind a section and from the next
-- character.
substituted : Char → (String → String) → String → Option String → String
substituted c again s none = c ∷ again s
substituted c again s (some rest) = again rest

-- `_THINK_BLOCK.sub("", text)`; each round takes at least one character.
unfoldable pub without_sections : ℕ → String → String
unfolding behind_section substituted
without_sections zero s = s
without_sections (suc rounds) [] = []
without_sections (suc rounds) (c ∷ s) =
    substituted c (without_sections rounds) s (behind_section (without_prefix opening (c ∷ s)))

cut_here : Option String → Char → String → String
cut_here none c rest = c ∷ rest
cut_here (some body) c rest = []

-- `_THINK_UNTERMINATED.sub("", text)`
unfoldable pub without_open : String → String
unfolding cut_here
without_open [] = []
without_open (c ∷ s) = let rest = without_open s in cut_here (without_prefix opening (c ∷ s)) c rest

abbrev pub characters : String → ℕ
characters [] = 0
characters (c ∷ s) = suc (characters s)

unfoldable pub strip_think : String → String
strip_think s = strip (without_open (without_sections (characters s) s))

-- The body that `probe` sends: the flag is left out, or sent as it is.
with_flag : Option Bool → Fields → Fields
with_flag none body = body
with_flag (some flag) body =
    put "chat_template_kwargs" (object (field "enable_thinking" (boolean flag) no_fields)) body

unfoldable pub probe_body : String → Option Bool → String → ℕ → Json → Json → Fields
unfolding with_flag
probe_body model flag prompt max_tokens temperature top_p = with_flag flag (
    field "model" (text model) (
      field "messages"
        (array (
          item (object (field "role" (text "user") (field "content" (text prompt) no_fields)))
            no_items))
        (field "max_tokens" (whole_number max_tokens) (
          field "stream" (boolean false)
            (field "temperature" temperature (field "top_p" top_p no_fields))))))

-- What a row says of the content that came back.
pub record Row : Type 0 where
  pub has_think_open : Bool
  pub has_think_close : Bool
  pub think_unterminated : Bool
  pub raw_chars : ℕ
  pub stripped_chars : ℕ
  pub empty_after_strip : Bool

unfoldable pub row_of : String → Row
unfolding occurs strip_think
row_of raw = record {
  has_think_open = occurs opening raw;
  has_think_close = occurs closing raw;
  think_unterminated = occurs opening raw && not (occurs closing raw);
  raw_chars = characters raw;
  stripped_chars = characters (strip_think raw);
  empty_after_strip = not (is_empty raw) && is_empty (strip_think raw);
}

-- The row of a case, or none for an answer that is an error.
unfoldable pub probed : ℕ → String → Option Row
unfolding row_of
probed status raw = if leb 400 status then none else some (row_of raw)

any_error : List (Option Row) → Bool
any_error List.[] = false
any_error (List.◌∷◌ none rows) = true
any_error (List.◌∷◌ (some row) rows) = any_error rows

-- What `main` returns.
unfoldable pub exit_code : List (Option Row) → ℕ
unfolding any_error
exit_code rows = if any_error rows then 1 else 0
