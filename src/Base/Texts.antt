-- ===== src/Base/Texts.antt =====
-- Texts: concatenation, and strings.Split at a separator of one character.
use Prim.Native.Char.{code}
use Prim.Native.Nat.{ℕ}
use Prim.Native.String.{String}
use mathlib.Core.Bool.{false, true, Bool, ◌&&◌, ◌||◌}
use mathlib.Core.List.{List, [], ◌∷◌}
use mathlib.Core.Option.{Option, none, some}
use text.Mathlib.Text.{◌==◌}
use node_disk_manager.Base.Tests.{leb, eqb, if◌then◌else◌}

infixr 6 ◌^^◌
abbrev pub ◌^^◌ : String → String → String
s ^^ t = Prim.Native.String.◌++◌ s t

-- the first part of a text, with one more character
abbrev pub prepend : String → List String → List String
prepend c [] = c ∷ []
prepend c (part ∷ parts) = (c ^^ part) ∷ parts

-- strings.Split(s, sep), where `sep` is the code of a character
unfoldable pub split : ℕ → String → List String
split sep String.[] = "" ∷ []
split sep (String.◌∷◌ c s) =
    let parts = split sep s in
    if eqb (code c) sep then "" ∷ parts else prepend (String.◌∷◌ c "") parts

-- unicode.IsSpace
is_space : ℕ → Bool
is_space c =
    (leb 9 c && leb c 13)
    || eqb c 32
    || eqb c 0x85
    || eqb c 0xa0
    || eqb c 0x1680
    || (leb 0x2000 c && leb c 0x200a)
    || eqb c 0x2028
    || eqb c 0x2029
    || eqb c 0x202f
    || eqb c 0x205f
    || eqb c 0x3000

trim_left : String → String
unfolding is_space
trim_left String.[] = ""
trim_left (String.◌∷◌ c s) =
    let rest = trim_left s in if is_space (code c) then rest else String.◌∷◌ c s

trim_right : String → String
unfolding is_space
trim_right String.[] = ""
trim_right (String.◌∷◌ c s) =
    let rest = trim_right s in if is_space (code c) && rest == "" then "" else String.◌∷◌ c rest

-- strings.TrimSpace
unfoldable pub trim_space : String → String
unfolding trim_left trim_right
trim_space s = trim_left (trim_right s)

-- strings.TrimSuffix(s, suffix), where `suffix` is the code of a character; none where the text
-- does not end so
unfoldable pub cut_last : ℕ → String → Option String
cut_last suffix String.[] = none
cut_last suffix (String.◌∷◌ c String.[]) = if eqb (code c) suffix then some "" else none
cut_last suffix (String.◌∷◌ c (String.◌∷◌ d s)) = elim (cut_last suffix (String.◌∷◌ d s)) [
  | none ↦ none
  | some rest ↦ some (String.◌∷◌ c rest)
]

-- strings.Join(parts, sep)
abbrev pub join : String → List String → String
join sep [] = ""
join sep (part ∷ []) = part
join sep (part ∷ next ∷ parts) = part ^^ sep ^^ join sep (next ∷ parts)

-- strings.HasPrefix(s, prefix)
unfoldable pub has_prefix : String → String → Bool
has_prefix s String.[] = true
has_prefix String.[] (String.◌∷◌ d prefix) = false
has_prefix (String.◌∷◌ c s) (String.◌∷◌ d prefix) =
    let rest = has_prefix s prefix in if eqb (code c) (code d) then rest else false

-- strings.Contains(s, sub)
unfoldable pub contains_text : String → String → Bool
unfolding has_prefix
contains_text String.[] sub = has_prefix String.[] sub
contains_text (String.◌∷◌ c s) sub =
    let later = contains_text s sub in if has_prefix (String.◌∷◌ c s) sub then true else later

-- strings.Replace(s, old, new, 1)
drop_text : String → String → String
drop_text String.[] s = s
drop_text (String.◌∷◌ _ old) String.[] = ""
drop_text (String.◌∷◌ _ old) (String.◌∷◌ _ s) = drop_text old s

unfoldable pub replace_first : String → String → String → String
unfolding drop_text
replace_first old new String.[] = if old == "" then new else ""
replace_first old new (String.◌∷◌ c s) =
    let rest = replace_first old new s in
    if has_prefix (String.◌∷◌ c s) old
    then new ^^ drop_text old (String.◌∷◌ c s)
    else String.◌∷◌ c rest
