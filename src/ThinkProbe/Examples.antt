-- ===== src/ThinkProbe/Examples.antt =====
-- Tests of the thinking probe, and its theorems at one input each.
use mathlib.Core.List.{List}
use inference_box.Prelude.{◌≡◌, refl, true, false, String}
use inference_box.Prelude.Text.Cutting.{without_prefix, lstrip, rstrip, count}
use inference_box.ThinkProbe.{
  opening, behind, occurs, behind_section, without_sections, without_open, strip_think, Row, row_of,
  probed, exit_code,
}
use inference_box.ThinkProbe.Stripping.{occurs-strip_think}
use inference_box.ThinkProbe.Sections.{after_sections, strip_think-after_sections}
use inference_box.ThinkProbe.Unterminated.{row_of-unclosed}

abbrev stitched : String
stitched = "Rates <thi<think>a</think>nk> fell."

stripped_test : strip_think "<think>sum it up</think>\n\nRates fell. " ≡ "Rates fell."
unfolding strip_think without_sections without_open without_prefix behind behind_section lstrip
    rstrip
stripped_test = refl

stitched_test : strip_think stitched ≡ "Rates"
unfolding strip_think without_sections without_open without_prefix behind behind_section lstrip
    rstrip
stitched_test = refl

exit_code_test :
    exit_code (List.◌∷◌ (probed 200 "Fine.") (List.◌∷◌ (probed 429 "busy") List.[])) ≡ 1
unfolding exit_code probed row_of
exit_code_test = refl

occurs-strip_think_example : occurs opening (strip_think stitched) ≡ false
occurs-strip_think_example = occurs-strip_think stitched

strip_think-after_sections_example :
    strip_think (after_sections (List.◌∷◌ "first" (List.◌∷◌ "second" List.[])) " Rates fell.")
    ≡ strip_think " Rates fell."
unfolding count
strip_think-after_sections_example =
    strip_think-after_sections (List.◌∷◌ "first" (List.◌∷◌ "second" List.[])) " Rates fell."
      (refl, (refl, tt))

row_of-unclosed_example :
    (Row.think_unterminated (row_of "<think>first, the") ≡ true)
    × (Row.stripped_chars (row_of "<think>first, the") ≡ 0)
    × (Row.empty_after_strip (row_of "<think>first, the") ≡ true)
unfolding without_prefix occurs behind
row_of-unclosed_example = row_of-unclosed "<think>first, the" "first, the" refl refl
