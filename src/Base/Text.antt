-- ===== src/Base/Text.antt =====
-- Go strings as lists of bytes, and the functions of package `strings` that the program calls.
pub mod Laws
use Prim.Native.Nat.{ℕ, zero, suc, ◌+◌, ◌-◌, ◌/◌, ◌%◌}
use Prim.Native.Char.{code}
use Prim.Native.String.{String}
use mathlib.Core.Path.{◌≡◌, refl}
use mathlib.Core.Bool.{Bool, true, false, ◌&&◌, ◌||◌}
use mathlib.Core.List.{List, [], ◌∷◌, ◌++◌, reverse}
use mathlib.Core.Option.{Option, none, some}
use onwapp.Base.Tests.{ltb, leb, ◌==◌, if◌then◌else◌}
use onwapp.Base.Lists.{length, drop}

-- The bytes of a Go string.
abbrev pub Str : Type 0
Str = List ℕ

-- The UTF-8 encoding of a code point.
utf8 : ℕ → List ℕ
utf8 c =
    if ltb c 0x80
    then c ∷ []
    else if ltb c 0x800
    then (0xC0 + c / 64) ∷ (0x80 + c % 64) ∷ []
    else if ltb c 0x10000
    then (0xE0 + c / 4096) ∷ (0x80 + c / 64 % 64) ∷ (0x80 + c % 64) ∷ []
    else (0xF0 + c / 262144) ∷ (0x80 + c / 4096 % 64) ∷ (0x80 + c / 64 % 64) ∷ (0x80 + c % 64) ∷ []

-- A string literal of the source.
unfoldable pub lit : String → Str
unfolding utf8
lit String.[] = []
lit (String.◌∷◌ c s) = utf8 (code c) ++ lit s

-- `a == b`
unfoldable pub str_eq : Str → Str → Bool
str_eq [] [] = true
str_eq (x ∷ xs) (y ∷ ys) = x == y && str_eq xs ys
str_eq _ _ = false

-- `s == ""`
abbrev pub is_empty : Str → Bool
is_empty [] = true
is_empty (c ∷ s) = false

-- A `switch` case or a search in a list of texts.
unfoldable pub one_of : Str → List Str → Bool
unfolding str_eq
one_of s [] = false
one_of s (t ∷ ts) = str_eq s t || one_of s ts

-- `strings.HasPrefix`
unfoldable pub has_prefix : Str → Str → Bool
has_prefix s [] = true
has_prefix [] (p ∷ ps) = false
has_prefix (c ∷ s) (p ∷ ps) = c == p && has_prefix s ps

-- `strings.HasSuffix`
unfoldable pub has_suffix : Str → Str → Bool
unfolding str_eq
has_suffix s p = leb (length p) (length s) && str_eq (drop (length s - length p) s) p

-- `strings.TrimPrefix`
unfoldable pub trim_prefix : Str → Str → Str
unfolding has_prefix
trim_prefix s p = if has_prefix s p then drop (length p) s else s

drop_last : ℕ → Str → Str
drop_last n s = reverse (drop n (reverse s))

-- `strings.TrimSuffix`
unfoldable pub trim_suffix : Str → Str → Str
unfolding has_suffix drop_last
trim_suffix s p = if has_suffix s p then drop_last (length p) s else s

-- `strings.Contains`
unfoldable pub contains : Str → Str → Bool
unfolding has_prefix
contains [] p = is_empty p
contains (c ∷ s) p = has_prefix (c ∷ s) p || contains s p

-- The part before the first byte `c`, the whole text if there is none: `strings.Split(s, c)[0]`.
unfoldable pub before : ℕ → Str → Str
before c [] = []
before c (x ∷ s) = let rest = before c s in if x == c then [] else x ∷ rest

-- `strings.SplitN(s, c, 2)`: `some` with the part behind the first byte `c`, if there is one.
unfoldable pub behind : ℕ → Str → Option Str
behind c [] = none
behind c (x ∷ s) = let rest = behind c s in if x == c then some s else rest

-- `strings.Split(s, c)` at a separator of one byte; `cur` is the part read so far, reversed.
split_from : ℕ → Str → Str → List Str
split_from c cur [] = reverse cur ∷ []
split_from c cur (x ∷ s) =
    let closed = split_from c [] s in
    let longer = split_from c (x ∷ cur) s in if x == c then reverse cur ∷ closed else longer

unfoldable pub split : ℕ → Str → List Str
unfolding split_from
split c s = split_from c [] s

-- The white space of `unicode.IsSpace`, by the length of its UTF-8 encoding.
is_space1 : ℕ → Bool
is_space1 a = a == 0x20 || (leb 0x09 a && leb a 0x0D)

is_space2 : ℕ → ℕ → Bool
is_space2 a b = a == 0xC2 && (b == 0x85 || b == 0xA0)

is_space3 : ℕ → ℕ → ℕ → Bool
is_space3 a b c =
    (a == 0xE1 && b == 0x9A && c == 0x80)
    || (a == 0xE2
        && b == 0x80
        && ((leb 0x80 c && leb c 0x8A) || c == 0xA8 || c == 0xA9 || c == 0xAF))
    || (a == 0xE2 && b == 0x81 && c == 0x9F)
    || (a == 0xE3 && b == 0x80 && c == 0x80)

-- How many bytes the space takes that a text begins with: 0 if it begins with none.
space_width : Str → ℕ
unfolding is_space1 is_space2 is_space3
space_width [] = 0
space_width (a ∷ []) = if is_space1 a then 1 else 0
space_width (a ∷ b ∷ []) = if is_space1 a then 1 else if is_space2 a b then 2 else 0
space_width (a ∷ b ∷ c ∷ s) =
    if is_space1 a then 1 else if is_space2 a b then 2 else if is_space3 a b c then 3 else 0

-- The same for the end of a text, which is given reversed.
space_width_end : Str → ℕ
unfolding is_space1 is_space2 is_space3
space_width_end [] = 0
space_width_end (a ∷ []) = if is_space1 a then 1 else 0
space_width_end (a ∷ b ∷ []) = if is_space1 a then 1 else if is_space2 b a then 2 else 0
space_width_end (a ∷ b ∷ c ∷ s) =
    if is_space1 a then 1 else if is_space2 b a then 2 else if is_space3 c b a then 3 else 0

-- Drops white space at the front as `width` measures it; `skip` bytes of a character remain.
skip_spaces : (Str → ℕ) → ℕ → Str → Str
skip_spaces width skip [] = []
skip_spaces width (suc n) (c ∷ s) = skip_spaces width n s
skip_spaces width zero (c ∷ s) =
    let n = width (c ∷ s) in
    let rest = skip_spaces width (n - 1) s in if n == 0 then c ∷ s else rest

-- `strings.TrimSpace`
unfoldable pub trim_space : Str → Str
unfolding skip_spaces space_width space_width_end
trim_space s = reverse (skip_spaces space_width_end 0 (reverse (skip_spaces space_width 0 s)))

trim_left_byte : ℕ → Str → Str
trim_left_byte c [] = []
trim_left_byte c (x ∷ s) = let rest = trim_left_byte c s in if x == c then rest else x ∷ s

-- `strings.TrimRight(s, c)` at a cutset of one byte.
unfoldable pub trim_right : ℕ → Str → Str
unfolding trim_left_byte
trim_right c s = reverse (trim_left_byte c (reverse s))

-- `strings.ReplaceAll(s, old, new)` at a text `old` that is not empty: `skip` bytes of a match remain.
unfoldable pub replace_from : Str → Str → ℕ → Str → Str
unfolding has_prefix
replace_from old new skip [] = []
replace_from old new (suc n) (c ∷ s) = replace_from old new n s
replace_from old new zero (c ∷ s) =
    let hit = replace_from old new (length old - 1) s in
    let miss = replace_from old new 0 s in if has_prefix (c ∷ s) old then new ++ hit else c ∷ miss

unfoldable pub replace_all : Str → Str → Str → Str
unfolding replace_from
replace_all s old new = replace_from old new 0 s

text_tests :
    (trim_space (lit " a b é ") ≡ lit "a b é")
    × (split 0x40 (lit "a@@b") ≡ lit "a" ∷ [] ∷ lit "b" ∷ [])
    × (replace_all (lit "x\\ny") (lit "\\n") (lit "-") ≡ lit "x-y")
    × (trim_right b'0' (lit "1.500") ≡ lit "1.5")
    × (has_suffix (lit "1@g.us") (lit "@g.us") ≡ true)
    × (contains (lit "abc") (lit "bd") ≡ false)
unfolding trim_space split replace_all trim_right has_suffix contains lit
text_tests = (refl, refl, refl, refl, refl, refl)
