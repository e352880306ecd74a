-- ===== src/Base/Text.antt =====
-- The functions of Go's package strings that the gateway calls, over texts as sequences of code
-- points. `len` counts the bytes of the UTF-8 form, as Go's `len` does.
use Prim.Native.Nat.{ℕ, ◌+◌}
use Prim.Native.Char.{Char, code}
use Prim.Native.String.{String, [], ◌∷◌, ◌++◌}
use mathlib.Core.Bool.{Bool, true, false, ◌&&◌, ◌||◌}
use mathlib.Core.List.{List}
use swayrider_api.Base.Tests.{eqb, leb, ltb, if◌then◌else◌}

-- strings.HasPrefix
unfoldable pub has_prefix : String → String → Bool
has_prefix s [] = true
has_prefix [] (c ∷ p) = false
has_prefix (d ∷ s) (c ∷ p) = eqb (code d) (code c) && has_prefix s p

-- strings.Contains for a text of one or two characters, and strings.ContainsAny
unfoldable pub contains : String → String → Bool
contains [] p = has_prefix [] p
contains (c ∷ s) p = has_prefix (c ∷ s) p || contains s p

unfoldable pub contains_char : String → ℕ → Bool
contains_char [] b = false
contains_char (c ∷ s) b = eqb (code c) b || contains_char s b

unfoldable pub contains_any : String → String → Bool
unfolding contains_char
contains_any [] chars = false
contains_any (c ∷ s) chars = contains_char chars (code c) || contains_any s chars

abbrev pub is_nil : String → Bool
is_nil [] = true
is_nil (c ∷ s) = false

-- strings.HasSuffix for a text of one character
unfoldable pub ends_with : String → ℕ → Bool
ends_with [] b = false
ends_with (c ∷ s) b = if is_nil s then eqb (code c) b else ends_with s b

-- the bytes of a code point in UTF-8
abbrev pub width : ℕ → ℕ
width c = if ltb c 128 then 1 else if ltb c 2048 then 2 else if ltb c 65536 then 3 else 4

unfoldable pub len : String → ℕ
len [] = 0
len (c ∷ s) = width (code c) + len s

-- unicode.IsSpace
abbrev pub is_space : ℕ → Bool
is_space c =
    (leb 9 c && leb c 13)
    || eqb c 32
    || eqb c 0x85
    || eqb c 0xa0
    || eqb c 0x1680
    || (leb 0x2000 c && leb c 0x200a)
    || eqb c 0x2028
    || eqb c 0x2029
    || eqb c 0x202f
    || eqb c 0x205f
    || eqb c 0x3000

-- strings.TrimSpace
unfoldable pub trim_left : String → String
trim_left [] = []
trim_left (c ∷ s) = if is_space (code c) then trim_left s else c ∷ s

unfoldable pub trim_right_by : (ℕ → Bool) → String → String
trim_right_by p [] = []
trim_right_by p (c ∷ s) =
    let rest = trim_right_by p s in if is_nil rest && p (code c) then [] else c ∷ rest

unfoldable pub trim_space : String → String
unfolding trim_left trim_right_by
trim_space s = trim_right_by is_space (trim_left s)

-- strings.TrimPrefix
unfoldable pub drop_text : String → String → String
drop_text s [] = s
drop_text [] (c ∷ p) = []
drop_text (d ∷ s) (c ∷ p) = drop_text s p

unfoldable pub trim_prefix : String → String → String
unfolding has_prefix drop_text
trim_prefix s p = if has_prefix s p then drop_text s p else s

-- strings.Split at one character: a text with n of them has n + 1 parts
abbrev pub onto_head : Char → List String → List String
onto_head c List.[] = List.◌∷◌ (c ∷ []) List.[]
onto_head c (List.◌∷◌ part parts) = List.◌∷◌ (c ∷ part) parts

unfoldable pub split : String → ℕ → List String
split [] b = List.◌∷◌ [] List.[]
split (c ∷ s) b =
    let parts = split s b in if eqb (code c) b then List.◌∷◌ [] parts else onto_head c parts

-- strings.Join
unfoldable pub join : List String → String → String
join List.[] sep = []
join (List.◌∷◌ part List.[]) sep = part
join (List.◌∷◌ part (List.◌∷◌ next parts)) sep = part ++ (sep ++ join (List.◌∷◌ next parts) sep)

-- the text before the first character `b`, as `s[:i]` with `i` of strings.IndexByte; all if there is none
unfoldable pub before_char : String → ℕ → String
before_char [] b = []
before_char (c ∷ s) b = let rest = before_char s b in if eqb (code c) b then [] else c ∷ rest
