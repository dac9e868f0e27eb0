-- ===== src/Mount/Disks/Laws.antt =====
-- The parts of a path, and the disk that is found by its unit.
use Prim.Native.Char.{code}
use text.Mathlib.TextLemmas.{nil-append, cons-append}
use vcd_csi.Prelude.{ℕ, String, ◌<>◌, List, [], ◌∷◌, false, ◌≡◌, refl, ap, ◌∙◌, eqb, All}
use vcd_csi.Mount.Text.{push, split}
use vcd_csi.Mount.Commands.{join}
use vcd_csi.Mount.Disks.{fifth, extract_unit_num_for_scsi}

-- No character of the text has the code.
abbrev pub Without : ℕ → String → Type 0
Without sep String.[] = Unit
Without sep (String.◌∷◌ c s) = (eqb (code c) sep ≡ false) × Without sep s

split-Without : (x : String) (sep : ℕ) → Without sep x → split x sep ≡ x ∷ []
unfolding split push
split-Without String.[] sep h = refl
split-Without (String.◌∷◌ c x) sep (h, hs) = rw (h, split-Without x sep hs) refl

split-append : (x y : String) → Without 58 x → split (x <> (":" <> y)) 58 ≡ x ∷ split y 58
unfolding split push
split-append String.[] y h =
    rw (nil-append (":" <> y), cons-append ":" String.[] y, nil-append y) refl
split-append (String.◌∷◌ c x) y (h, hs) =
    rw (cons-append c x (":" <> y), h, split-append x y hs) refl

-- Parts without a colon are what a path that joins them by colons is split into.
pub split-join :
    (x : String) (xs : List String)
    → All (Without 58) (x ∷ xs)
    → split (join (x ∷ xs) ":") 58 ≡ x ∷ xs
unfolding join
split-join x [] (h, hs) = split-Without x 58 h
split-join x (y ∷ xs) (h, hs) = split-append x _ h ∙ ap (λ l. x ∷ l) (split-join y xs hs)

-- The unit that is extracted from parts without a colon, five or more, joined by colons, is the
-- fifth of them.
pub extract_unit_num_for_scsi-join :
    (a b c d unit : String) (rest : List String)
    → All (Without 58) (a ∷ b ∷ c ∷ d ∷ unit ∷ rest)
    → extract_unit_num_for_scsi (join (a ∷ b ∷ c ∷ d ∷ unit ∷ rest) ":") ≡ unit
unfolding extract_unit_num_for_scsi fifth
extract_unit_num_for_scsi-join a b c d unit rest h =
    ap fifth (split-join a (b ∷ c ∷ d ∷ unit ∷ rest) h)
