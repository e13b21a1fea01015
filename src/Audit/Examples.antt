-- ===== src/Audit/Examples.antt =====
-- Tests of the audit log, and its theorem at one input.
use mathlib.Core.List.{List}
use inference_box.Prelude.{◌≡◌, refl, String, false, none, some}
use inference_box.Prelude.Text.{str_of_ℕ}
use inference_box.Prelude.Text.Cutting.{count}
use inference_box.Prelude.Text.Splitting.{split_at}
use inference_box.Prelude.Text.Digits.{count-str_of_ℕ}
use inference_box.Chat.Values.{
  whole_number, Json, text, object, field, no_fields, null, Number, integer, pos, negsuc, finite,
  infinite, not_a_number,
}
use inference_box.Chat.Serving.{AuditRecord}
use inference_box.Audit.{
  Stamp, dumps, AuditLog, whole, stopped, Write, write_all, comes_before, sorted_json, rendered,
}
use inference_box.Audit.Writing.{lines, split_at-write_all}

abbrev shown : Number → String
shown (integer (pos n)) = str_of_ℕ n
shown _ = "0.0"

shown_lem : (n : Number) → count 10 (shown n) ≡ 0
unfolding count
shown_lem (integer (pos n)) = count-str_of_ℕ n
shown_lem (integer (negsuc n)) = refl
shown_lem (finite i b) = refl
shown_lem infinite = refl
shown_lem not_a_number = refl

-- A model's name that tries to begin a second line.
abbrev forged : Json
forged = text "m\n{\"status\": 200}"

abbrev stamp : Stamp
stamp = record {
  timestamp = "2025-01-01T00:00:00Z";
  event = "chat.completions";
  subject = some "key:abc";
  auth_method = some "apikey";
  latency_ms = integer (pos 12);
}

abbrev forgery : AuditRecord
forgery = record {
  audit_keyid = some "abc";
  audit_model = some forged;
  audit_status = 403;
  audit_prompt_tokens = whole_number 0;
  audit_completion_tokens = whole_number 0;
  audit_upstream = none;
  audit_reason = some "model_not_allowed";
  audit_streamed = false;
}

abbrev writes : List Write
writes =
    List.◌∷◌ (record { stamp = stamp; audited = forgery; landing = whole })
      (List.◌∷◌ (record { stamp = stamp; audited = forgery; landing = stopped 0 })
        (List.◌∷◌ (record { stamp = stamp; audited = forgery; landing = whole }) List.[]))

abbrev fresh_log : AuditLog
fresh_log = record { contents = ""; prompt_text_errors = 0; write_errors = 0 }

dumps_test :
    dumps shown (object (field "model" forged (field "keyid" null no_fields)))
    ≡ "{\"keyid\": null, \"model\": \"m\\n{\\\"status\\\": 200}\"}"
unfolding dumps rendered sorted_json comes_before
dumps_test = refl

split_at-write_all_example :
    split_at 10 (AuditLog.contents (write_all shown false writes fresh_log)) ≡ lines shown writes
split_at-write_all_example =
    split_at-write_all shown shown_lem false writes fresh_log (refl, (refl, (refl, tt))) refl
