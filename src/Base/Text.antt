-- ===== src/Base/Text.antt =====
-- The functions of Go's package `strings` that the program calls. A Go string is a native text: a
-- sequence of characters in UTF-8. Separators are single ASCII characters, given by their codes.
use Prim.Native.Nat.{ℕ, ◌+◌}
use Prim.Native.Char.{Char, code}
use Prim.Native.String
use Prim.Native.String.{String, [], ◌∷◌}
use mathlib.Core.Path.{◌≡◌, refl}
use mathlib.Core.Logic.{◌≢◌}
use native.Mathlib.Omega.{arith}
use text.Mathlib.TextEquality.{eq_iff}
use mathlib.Core.Bool.{Bool, not, true, false, ◌&&◌, ◌||◌}
use mathlib.Core.Option
use mathlib.Core.Option.{Option, none, some}
use mathlib.Core.List.{List}
use text.Mathlib.Text.{◌==◌}
use bepper.Base.Tests.{leb, eqb, if◌then◌else◌}

infixl 65 ◌⧺◌
-- Go's `+` on strings.
abbrev pub ◌⧺◌ : String → String → String
s ⧺ t = String.◌++◌ s t

abbrev pub push : Char → String × String → String × String
push c (a, b) = (c ∷ a, b)

-- strings.Cut(s, sep): what stands before and after the first separator, if there is one.
unfoldable pub cut : ℕ → String → Option (String × String)
cut sep [] = none
cut sep (c ∷ s) =
    let rest = cut sep s in if eqb (code c) sep then some ("", s) else Option.map (push c) rest

abbrev pub cons_head : Char → List String → List String
cons_head c List.[] = List.◌∷◌ (c ∷ []) List.[]
cons_head c (List.◌∷◌ w ws) = List.◌∷◌ (c ∷ w) ws

-- strings.Split(s, sep)
unfoldable pub split : ℕ → String → List String
split sep [] = List.◌∷◌ "" List.[]
split sep (c ∷ s) =
    let rest = split sep s in if eqb (code c) sep then List.◌∷◌ "" rest else cons_head c rest

-- strings.Join(parts, sep)
unfoldable pub join : String → List String → String
join sep List.[] = ""
join sep (List.◌∷◌ w List.[]) = w
join sep (List.◌∷◌ w (List.◌∷◌ v ws)) = w ⧺ (sep ⧺ join sep (List.◌∷◌ v ws))

-- strings.CutPrefix(s, prefix)
unfoldable pub cut_prefix : String → String → Option String
cut_prefix s [] = some s
cut_prefix [] (p ∷ ps) = none
cut_prefix (c ∷ s) (p ∷ ps) =
    let rest = cut_prefix s ps in if eqb (code c) (code p) then rest else none

abbrev pub is_some {ℓ} : {A : Type ℓ} → Option A → Bool
is_some none = false
is_some (some a) = true

abbrev pub or_else {ℓ} : {A : Type ℓ} → A → Option A → A
or_else d none = d
or_else d (some a) = a

-- strings.HasPrefix(s, prefix)
abbrev pub has_prefix : String → String → Bool
has_prefix s p = is_some (cut_prefix s p)

-- strings.TrimPrefix(s, prefix)
abbrev pub trim_prefix : String → String → String
trim_prefix s p = or_else s (cut_prefix s p)

-- unicode.IsSpace
unfoldable pub is_space : ℕ → Bool
is_space c =
    (leb 9 c && leb c 13)
    || eqb c 32
    || eqb c 0x85
    || eqb c 0xa0
    || eqb c 0x1680
    || (leb 0x2000 c && leb c 0x200a)
    || eqb c 0x2028
    || eqb c 0x2029
    || eqb c 0x202f
    || eqb c 0x205f
    || eqb c 0x3000

unfoldable pub trim_left : String → String
unfolding is_space
trim_left [] = ""
trim_left (c ∷ s) = let rest = trim_left s in if is_space (code c) then rest else c ∷ s

-- Drops the white space at the end: a character stays if it is no space or something stays after it.
unfoldable pub trim_right : String → String
unfolding is_space
trim_right [] = ""
trim_right (c ∷ s) =
    let rest = trim_right s in if is_space (code c) && (rest == "") then "" else c ∷ rest

-- strings.TrimSpace
unfoldable pub trim_space : String → String
unfolding trim_left trim_right
trim_space s = trim_right (trim_left s)

-- strings.TrimSuffix(s, suffix)
unfoldable pub trim_suffix : String → String → String
trim_suffix [] suffix = ""
trim_suffix (c ∷ s) suffix =
    let rest = trim_suffix s suffix in if (c ∷ s) == suffix then "" else c ∷ rest

-- strings.ContainsAny(s, chars)
unfoldable pub contains_any : String → (ℕ → Bool) → Bool
contains_any [] among = false
contains_any (c ∷ s) among = among (code c) || contains_any s among

-- strings.Contains(s, substr)
unfoldable pub contains : String → String → Bool
contains [] sub = sub == ""
contains (c ∷ s) sub = has_prefix (c ∷ s) sub || contains s sub

-- len(s): the bytes of the text in UTF-8.
unfoldable pub byte_length : String → ℕ
byte_length [] = 0
byte_length (c ∷ s) =
    (if leb (code c) 0x7f
      then 1
      else if leb (code c) 0x7ff
      then 2
      else if leb (code c) 0xffff
      then 3
      else 4)
    + byte_length s

-- The words of a text between white space, and whether it goes on inside a word.
unfoldable pub words : Bool → String → List String
unfolding is_space
words inside [] = if inside then List.◌∷◌ "" List.[] else List.[]
words inside (c ∷ s) =
    let after_space = words false s in
    let after_char = words true s in
    if is_space (code c)
    then (if inside then List.◌∷◌ "" after_space else after_space)
    else cons_head c after_char

-- strings.Fields
abbrev pub fields : String → List String
fields s = words false s

pub not_empty : (s : String) → s ≢ "" → (s == "") ≡ false
not_empty s h = ground (arith, h, eq_iff s "")

pub given : (s : String) → not (s == "") ≡ true → s ≢ ""
given s h = ground (arith, h, eq_iff s "")

-- No separator stands in the text.
abbrev pub Avoids : ℕ → String → Type 0
Avoids sep [] = Unit
Avoids sep (c ∷ s) = (eqb (code c) sep ≡ false) × Avoids sep s

cut_example : cut b'=' "K=a=b" ≡ some ("K", "a=b")
unfolding cut
cut_example = refl

split_example : split b',' "a,,b" ≡ List.◌∷◌ "a" (List.◌∷◌ "" (List.◌∷◌ "b" List.[]))
unfolding split
split_example = refl

trim_space_example : trim_space " a b " ≡ "a b"
unfolding trim_space
trim_space_example = refl

fields_example : fields "  a  bc " ≡ List.◌∷◌ "a" (List.◌∷◌ "bc" List.[])
unfolding words
fields_example = refl
