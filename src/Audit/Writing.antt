-- ===== src/Audit/Writing.antt =====
-- What the file of the audit log is split into by its line feeds.
use Prim.Native.String
use Prim.Native.String.append
use Prim.Native.String.{[], ◌∷◌}
use mathlib.Core.List.{List}
use package.text.Mathlib.TextLemmas.{append_assoc, append-nil}
use inference_box.Prelude.{ℕ, ◌≡◌, refl, sym, ap, ◌∙◌, String, Bool, true, false, All}
use inference_box.Prelude.Text.Cutting.{count}
use inference_box.Prelude.Text.Splitting.{split_at, split_at-append}
use inference_box.Chat.Values.{Number}
use inference_box.Audit.{
  asdict, dumps, AuditLog, Landing, whole, stopped, first_characters, appended, warned, write,
  Write, write_all,
}
use inference_box.Audit.Lines.{dumps-IsOneLine}

-- The characters that a write leaves without its line feed.
abbrev pub left_over : Landing → ℕ
left_over whole = 0
left_over (stopped n) = n

-- The records that are in the file, each as it is dumped.
abbrev pub onto_lines : Landing → String → List String → List String
onto_lines whole line lines = List.◌∷◌ line lines
onto_lines (stopped n) line lines = lines

unfoldable pub lines : (Number → String) → List Write → List String
lines shown List.[] = List.◌∷◌ "" List.[]
lines shown (List.◌∷◌ w ws) =
    onto_lines w.landing (dumps shown (asdict w.stamp w.audited)) (lines shown ws)

-- What the writes add to the file, when those that fail leave nothing.
abbrev onto_text : Landing → String → String → String
onto_text whole line rest = String.◌++◌ line ("\n" ∷ rest)
onto_text (stopped n) line rest = rest

abbrev added : (Number → String) → List Write → String
added shown List.[] = []
added shown (List.◌∷◌ w ws) =
    onto_text w.landing (dumps shown (asdict w.stamp w.audited)) (added shown ws)

fed : (rest : String) → String.◌++◌ "\n" rest ≡ "\n" ∷ rest
fed rest = append.cons "\n" [] rest ∙ ap (◌∷◌ "\n") (append.nil rest)

appended-contents :
    (line rest : String) (landing : Landing) (log : AuditLog)
    → left_over landing ≡ 0
    → String.◌++◌ (AuditLog.contents (appended line landing log)) rest
      ≡ String.◌++◌ log.contents (onto_text landing line rest)
unfolding appended first_characters
appended-contents line rest whole log h =
    append_assoc log.contents (String.◌++◌ line "\n") rest
    ∙ ap (String.◌++◌ log.contents) (append_assoc line "\n" rest ∙ ap (String.◌++◌ line) (fed rest))
appended-contents line rest (stopped n) log h = rw (h, append-nil log.contents) refl

warned-contents : (b : Bool) (log : AuditLog) → AuditLog.contents (warned b log) ≡ log.contents
unfolding warned
warned-contents true log = refl
warned-contents false log = refl

module _ (shown : Number → String) (h : (n : Number) → count 10 (shown n) ≡ 0) where
  write_all-contents :
      (b : Bool) (ws : List Write) (log : AuditLog)
      → All (λ w. left_over (Write.landing w) ≡ 0) ws
      → AuditLog.contents (write_all shown b ws log) ≡ String.◌++◌ log.contents (added shown ws)
  unfolding write_all write
  write_all-contents b List.[] log k = sym (append-nil log.contents)
  write_all-contents b (List.◌∷◌ w ws) log (k, ks) =
      let line = dumps shown (asdict w.stamp w.audited) in
      write_all-contents b ws (appended line w.landing (warned b log)) ks
      ∙ appended-contents line (added shown ws) w.landing (warned b log) k
      ∙ ap (λ text. String.◌++◌ text (onto_text w.landing line (added shown ws)))
          (warned-contents b log)

  split_at-onto_text :
      (landing : Landing) (line rest : String) (parts : List String)
      → count 10 line ≡ 0
      → split_at 10 rest ≡ parts
      → split_at 10 (onto_text landing line rest) ≡ onto_lines landing line parts
  split_at-onto_text whole line rest parts k e =
      split_at-append 10 "\n" line rest refl k ∙ ap (List.◌∷◌ line) e
  split_at-onto_text (stopped n) line rest parts k e = e

  split_at-added : (ws : List Write) → split_at 10 (added shown ws) ≡ lines shown ws
  unfolding lines split_at
  split_at-added List.[] = refl
  split_at-added (List.◌∷◌ w ws) =
      split_at-onto_text w.landing (dumps shown (asdict w.stamp w.audited)) (added shown ws)
        (lines shown ws) (dumps-IsOneLine shown h (asdict w.stamp w.audited)) (split_at-added ws)

  -- A record is one line, and nothing that a caller sends makes it two: after any number of writes to an
  -- empty audit log, splitting the file at its line feeds gives the records that were written, in order
  -- and each as `json.dumps` makes it, and an empty text behind the last line feed. This is for writes
  -- that put their line in the file or else fail before any of it is there, and for numbers that are
  -- shown without a line feed. A failed write loses its own record and no other.
  pub split_at-write_all :
      (b : Bool) (ws : List Write) (log : AuditLog)
      → All (λ w. left_over (Write.landing w) ≡ 0) ws
      → log.contents ≡ ""
      → split_at 10 (AuditLog.contents (write_all shown b ws log)) ≡ lines shown ws
  split_at-write_all b ws log k e =
      ap (split_at 10) (
        write_all-contents b ws log k
        ∙ ap (λ text. String.◌++◌ text (added shown ws)) e
        ∙ append.nil (added shown ws))
      ∙ split_at-added ws
