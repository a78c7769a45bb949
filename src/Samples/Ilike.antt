-- ===== src/Samples/Ilike.antt =====
-- ILIKE for patterns with a percent sign at each end and no other wildcard.
use Prim.Native.Char.{Char, code}
use Prim.Native.String.{[], ◌∷◌}
use Prim.Native.String.append
use text.Mathlib.TextLemmas.{nil-append}
use bepper.Base.{String, ◌≡◌, ◌≢◌, ap, sym, ◌∙◌, Bool, true, false, ◌==◌, eqb, if◌then◌else◌}
use bepper.Base.Text.{◌⧺◌, contains, not_empty}
use bepper.Postgres.Selects.{LikeHolds}

abbrev drop_first : String → String
drop_first [] = ""
drop_first (c ∷ s) = s

abbrev drop_last : String → String
drop_last [] = ""
drop_last (c ∷ s) = let rest = drop_last s in if s == "" then "" else c ∷ rest

abbrev is_empty : String → Bool
is_empty [] = true
is_empty (c ∷ s) = false

longer : (s : String) → s ⧺ "%" ≢ ""
longer [] h = let wrong : false ≡ true = ap is_empty (sym (nil-append "%") ∙ h) in cc
longer (c ∷ s) h = let wrong : false ≡ true = ap is_empty (sym (append.cons c s "%") ∙ h) in cc

drop_last-append : (s : String) → drop_last (s ⧺ "%") ≡ s
drop_last-append [] = ap drop_last (nil-append "%")
drop_last-append (c ∷ s) =
    ap drop_last (append.cons c s "%")
    ∙ rw (not_empty (s ⧺ "%") (longer s)) (ap (λ t. c ∷ t) (drop_last-append s))

drop_first-append : (s : String) → drop_first ("%" ⧺ s) ≡ s
drop_first-append s = ap drop_first (append.cons "%" [] s) ∙ nil-append s

-- Some letters without their case.
abbrev lower : Char → Char
lower c =
    if eqb (code c) b'B'
    then "b"
    else if eqb (code c) b'U'
    then "u"
    else if eqb (code c) b'I'
    then "i"
    else if eqb (code c) b'L'
    then "l"
    else if eqb (code c) b'D'
    then "d"
    else c

abbrev pub fold_case : String → String
fold_case [] = ""
fold_case (c ∷ s) = lower c ∷ fold_case s

abbrev pub like : String → String → Bool
like column pattern = contains (fold_case column) (fold_case (drop_first (drop_last pattern)))

pub like-LikeHolds : LikeHolds like fold_case
like-LikeHolds column sought plain =
    ap (λ t. contains (fold_case column) (fold_case (drop_first t)))
      (drop_last-append ("%" ⧺ sought))
    ∙ ap (λ t. contains (fold_case column) (fold_case t)) (drop_first-append sought)
