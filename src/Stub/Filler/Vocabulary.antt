-- ===== src/Stub/Filler/Vocabulary.antt =====
-- stub/server.py: the words of the filler, `_WORDS`, and the capital letters.
use Prim.Native.Char.{Char}
use inference_box.Prelude.{String, List, [], ◌∷◌}

abbrev pub vocabulary : List String
vocabulary =
    "the" ∷ "asset" ∷ "portfolio" ∷ "position" ∷ "reported" ∷ "quarter" ∷ "value" ∷ "token"
    ∷ "supply" ∷ "investor" ∷ "compliance" ∷ "review" ∷ "figure" ∷ "record" ∷ "allocation" ∷ "yield"
    ∷ "treasury" ∷ "balance" ∷ "status" ∷ "summary" ∷ []

abbrev pub capitals : List Char
capitals =
    "A" ∷ "B" ∷ "C" ∷ "D" ∷ "E" ∷ "F" ∷ "G" ∷ "H" ∷ "I" ∷ "J" ∷ "K" ∷ "L" ∷ "M" ∷ "N" ∷ "O" ∷ "P"
    ∷ "Q" ∷ "R" ∷ "S" ∷ "T" ∷ "U" ∷ "V" ∷ "W" ∷ "X" ∷ "Y" ∷ "Z" ∷ []
