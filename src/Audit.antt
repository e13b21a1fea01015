-- ===== src/Audit.antt =====
-- gateway/audit.py: `AuditLog.write` with the line that it appends, which is `json.dumps` of a record with
-- sorted keys and without the escaping of what is not ASCII. How a number is shown is a parameter.
pub mod Lines
pub mod Writing
pub mod Examples
use Prim.Native.Char.{Char, code}
use Prim.Native.String
use Prim.Native.String.{[], ◌∷◌}
use mathlib.Core.List.{List}
use inference_box.Prelude.{
  ℕ, zero, suc, ◌%◌, String, Bool, true, false, ◌||◌, not, Option, none, some, ltb, ◌==◌,
  if◌then◌else◌,
}
use inference_box.Chat.Values.{
  Json, null, boolean, number, text, array, object, Items, no_items, item, Fields, no_fields, field,
  Number, whole_number,
}
use inference_box.Chat.Serving.{AuditRecord}

-- The character of a text at a place.
char_at : ℕ → String → String
char_at n [] = []
char_at zero (c ∷ s) = c ∷ []
char_at (suc n) (c ∷ s) = char_at n s

-- What stands for a character inside the quotes of a JSON text.
escape : ℕ → Char → String
unfolding char_at
escape n c =
    if n == 34
    then "\\\""
    else if n == 92
    then "\\\\"
    else if n == 10
    then "\\n"
    else if n == 13
    then "\\r"
    else if n == 9
    then "\\t"
    else if n == 12
    then "\\f"
    else if n == 8
    then "\\b"
    else if ltb n 16
    then String.◌++◌ "\\u000" (char_at n "0123456789abcdef")
    else if ltb n 32
    then String.◌++◌ "\\u001" (char_at (n % 16) "0123456789abcdef")
    else c ∷ []

escaped : String → String
unfolding escape
escaped [] = []
escaped (c ∷ s) = String.◌++◌ (escape (code c) c) (escaped s)

quoted : String → String
unfolding escaped
quoted s = String.◌++◌ "\"" (String.◌++◌ (escaped s) "\"")

-- The order of two texts, by code points.
unfoldable pub comes_before : String → String → Bool
comes_before s [] = false
comes_before [] (d ∷ t) = true
comes_before (c ∷ s) (d ∷ t) =
    let later = comes_before s t in if code c == code d then later else ltb (code c) (code d)

insert : String → Json → Fields → Fields
unfolding comes_before
insert k v no_fields = field k v no_fields
insert k v (field j w d) =
    let rest = insert k v d in if comes_before k j then field k v (field j w d) else field j w rest

-- `sort_keys=True`, which sorts at every depth.
unfoldable mutual
  unfolding insert

  pub sorted_json : Json → Json
  sorted_json null = null
  sorted_json (boolean b) = boolean b
  sorted_json (number n) = number n
  sorted_json (text s) = text s
  sorted_json (array items) = array (sorted_items items)
  sorted_json (object d) = object (sorted_fields d)

  pub sorted_items : Items → Items
  sorted_items no_items = no_items
  sorted_items (item v items) = item (sorted_json v) (sorted_items items)

  pub sorted_fields : Fields → Fields
  sorted_fields no_fields = no_fields
  sorted_fields (field k v d) = insert k (sorted_json v) (sorted_fields d)

-- What stands in front of an element that is not the first.
separator : Bool → String
separator true = ""
separator false = ", "

module _ (shown : Number → String) where
  -- An element and a field are printed with the separator that their place asks for.
  unfoldable mutual
    unfolding quoted separator

    pub rendered : Json → String
    rendered null = "null"
    rendered (boolean b) = if b then "true" else "false"
    rendered (number n) = shown n
    rendered (text s) = quoted s
    rendered (array items) = String.◌++◌ "[" (String.◌++◌ (rendered_items true items) "]")
    rendered (object d) = String.◌++◌ "{" (String.◌++◌ (rendered_fields true d) "}")

    pub rendered_items : Bool → Items → String
    rendered_items is_first no_items = ""
    rendered_items is_first (item v items) =
        String.◌++◌ (separator is_first) (String.◌++◌ (rendered v) (rendered_items false items))

    pub rendered_fields : Bool → Fields → String
    rendered_fields is_first no_fields = ""
    rendered_fields is_first (field k v d) = String.◌++◌ (separator is_first) (
        String.◌++◌ (quoted k)
          (String.◌++◌ ": " (String.◌++◌ (rendered v) (rendered_fields false d))))

  -- `json.dumps(payload, ensure_ascii=False, sort_keys=True)`
  unfoldable pub dumps : Json → String
  unfolding rendered sorted_json
  dumps v = rendered (sorted_json v)

-- What the route takes from the clock and from the principal.
pub record Stamp : Type 0 where
  pub timestamp : String
  pub event : String
  pub subject : Option String
  pub auth_method : Option String
  pub latency_ms : Number

or_null : Option String → Json
or_null none = null
or_null (some s) = text s

value_or_null : Option Json → Json
value_or_null none = null
value_or_null (some v) = v

-- `asdict(record)`
unfoldable pub asdict : Stamp → AuditRecord → Json
unfolding or_null value_or_null
asdict t a = object (
    field "timestamp" (text t.timestamp) (
      field "event" (text t.event) (
        field "keyid" (or_null a.audit_keyid) (
          field "subject" (or_null t.subject) (
            field "auth_method" (or_null t.auth_method) (
              field "model" (value_or_null a.audit_model) (
                field "status" (whole_number a.audit_status) (
                  field "latency_ms" (number t.latency_ms) (
                    field "prompt_tokens" a.audit_prompt_tokens (
                      field "completion_tokens" a.audit_completion_tokens (
                        field "upstream" (or_null a.audit_upstream) (
                          field "reason" (or_null a.audit_reason)
                            (field "streamed" (boolean a.audit_streamed) no_fields)))))))))))))

-- The file, and what the log says of the writing.
pub record AuditLog : Type 0 where
  pub contents : String
  pub prompt_text_errors : ℕ
  pub write_errors : ℕ

-- How the writing of a line ends: all of it is in the file, or an exception is raised after so many of
-- its characters.
pub data Landing : Type 0 where
  whole : Landing
  stopped : ℕ → Landing

-- `s[:n]`
unfoldable pub first_characters : ℕ → String → String
first_characters zero s = []
first_characters (suc n) [] = []
first_characters (suc n) (c ∷ s) = c ∷ first_characters n s

pub appended : String → Landing → AuditLog → AuditLog
unfolding first_characters
appended line whole log = record log { contents = String.◌++◌ log.contents (String.◌++◌ line "\n") }
appended line (stopped n) log = record log {
  contents = String.◌++◌ log.contents (first_characters n (String.◌++◌ line "\n"));
  write_errors = suc log.write_errors;
}

warned : Bool → AuditLog → AuditLog
warned include_prompt_text log =
    if include_prompt_text
    then record log { prompt_text_errors = suc log.prompt_text_errors }
    else log

-- `AuditLog.write`
unfoldable pub write :
    (Number → String) → Bool → Stamp → AuditRecord → Landing → AuditLog → AuditLog
unfolding dumps asdict appended warned
write shown include_prompt_text t a landing log =
    appended (dumps shown (asdict t a)) landing (warned include_prompt_text log)

pub record Write : Type 0 where
  pub stamp : Stamp
  pub audited : AuditRecord
  pub landing : Landing

-- Writes one after another, as the lock orders them.
unfoldable pub write_all : (Number → String) → Bool → List Write → AuditLog → AuditLog
write_all shown include_prompt_text List.[] log = log
write_all shown include_prompt_text (List.◌∷◌ w ws) log =
    write_all shown include_prompt_text ws
      (write shown include_prompt_text w.stamp w.audited w.landing log)
