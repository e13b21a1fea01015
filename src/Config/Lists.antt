-- ===== src/Config/Lists.antt =====
-- What `_csv` makes of a setting that is a list.
use inference_box.Prelude.{
  ◌≡◌, refl, String, false, List, [], ◌∷◌, All, Bool-cases, inl, inr, ap, ◌∙◌,
}
use inference_box.Prelude.Text.{is_empty}
use inference_box.Prelude.Text.Cutting.{strip, count, lstrip, rstrip}
use inference_box.Prelude.Text.Splitting.{split_at, join, split_at-join, split_at-Lacks}
use inference_box.Prelude.Text.Trimming.{strip_twice, count-strip}
use inference_box.Config.{kept, csv}

-- An item of a list of settings: not empty, with no space around it and no comma in it.
pub record IsItem (s : String) : Type 0 where
  pub present : is_empty s ≡ false
  pub stripped : strip s ≡ s
  pub comma_free : count b',' s ≡ 0

kept-IsItem : (ps : List String) → All (λ p. count b',' p ≡ 0) ps → All IsItem (kept ps)
unfolding kept
kept-IsItem [] h = tt
kept-IsItem (p ∷ ps) (h, hs) = elim (Bool-cases (is_empty (strip p))) [
  | inl e ↦ rw e (kept-IsItem ps hs)
  | inr e ↦ rw e (
    record { present = e; stripped = strip_twice p; comma_free = count-strip b',' p h },
    kept-IsItem ps hs,
  )
]

kept-items : (ps : List String) → All IsItem ps → kept ps ≡ ps
unfolding kept
kept-items [] h = refl
kept-items (p ∷ ps) (h, hs) = rw (h.stripped, h.present, kept-items ps hs) refl

commas : (ps : List String) → All IsItem ps → All (λ p. count b',' p ≡ 0) ps
commas [] h = tt
commas (p ∷ ps) (h, hs) = (h.comma_free, commas ps hs)

csv-join_items : (ps : List String) → All IsItem ps → csv (join "," ps) ≡ ps
unfolding csv kept join split_at lstrip rstrip
csv-join_items [] h = refl
csv-join_items (p ∷ ps) h =
    ap kept (split_at-join b',' "," p ps refl (commas (p ∷ ps) h)) ∙ kept-items (p ∷ ps) h

-- Every text is read as a list of items, each of which is not empty, has no space around it and no
-- comma in it; and every list of such items is what their join with commas is read as.
pub csv-join :
    ((raw : String) → All IsItem (csv raw))
    × ((items : List String) → All IsItem items → csv (join "," items) ≡ items)
unfolding csv
csv-join = (λ raw. kept-IsItem (split_at b',' raw) (split_at-Lacks b',' raw), csv-join_items)
