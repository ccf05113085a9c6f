-- ===== src/Base/Text.antt =====
-- What the program uses of the packages `strings` and `strconv`, over texts of Unicode characters.
-- Lower case is that of the ASCII letters.
use Prim.Native.Nat.{ℕ, zero, suc, ◌+◌, ◌-◌, ◌*◌, ◌/◌, ◌%◌, ◌^◌}
use Prim.Native.Char.{Char, code}
use Prim.Native.String.{String, [], ◌∷◌, char_at}
use mathlib.Core.Bool.{Bool, not, ◌&&◌, ◌||◌}
use mathlib.Core.List.{List}
use mathlib.Core.Option.{Option, none, some}
use text.Mathlib.Text.{◌==◌ as str_eq}
use kanyigo.Base.Lists.{select}
use kanyigo.Base.Int.{ℤ, pos, negsuc}
use kanyigo.Base.Tests.{ltb, leb, ◌==◌, if◌then◌else◌}

-- strings.ToLower
lower_char : Char → Char
lower_char c =
    if leb b'A' (code c) && leb (code c) b'Z'
    then char_at "abcdefghijklmnopqrstuvwxyz" (code c - b'A')
    else c

unfoldable pub to_lower : String → String
unfolding lower_char
to_lower [] = []
to_lower (c ∷ s) = lower_char c ∷ to_lower s

-- The folding of strings.EqualFold: the long s and the Kelvin sign fold with ASCII letters.
fold_char : Char → Char
unfolding lower_char
fold_char c =
    if code c == 0x17f
    then char_at "s" 0
    else if code c == 0x212a
    then char_at "k" 0
    else lower_char c

fold : String → String
unfolding fold_char
fold [] = []
fold (c ∷ s) = fold_char c ∷ fold s

-- strings.EqualFold
unfoldable pub equal_fold : String → String → Bool
unfolding fold
equal_fold s t = str_eq (fold s) (fold t)

-- unicode.IsSpace
is_space : Char → Bool
is_space c =
    let n = code c in
    (leb 9 n && leb n 13)
    || n == 32
    || n == 0x85
    || n == 0xa0
    || n == 0x1680
    || (leb 0x2000 n && leb n 0x200a)
    || n == 0x2028
    || n == 0x2029
    || n == 0x202f
    || n == 0x205f
    || n == 0x3000

trim_left : String → String
unfolding is_space
trim_left [] = []
trim_left (c ∷ s) = let rest = trim_left s in if is_space c then rest else c ∷ s

trim_right : String → String
unfolding is_space
trim_right [] = []
trim_right (c ∷ s) =
    let rest = trim_right s in if str_eq rest "" && is_space c then [] else c ∷ rest

-- strings.TrimSpace
unfoldable pub trim_space : String → String
unfolding trim_left trim_right
trim_space s = trim_right (trim_left s)

extend_head : Char → List String → List String
extend_head c List.[] = List.◌∷◌ (c ∷ []) List.[]
extend_head c (List.◌∷◌ part parts) = List.◌∷◌ (c ∷ part) parts

-- strings.Split at a separator of one character
unfoldable pub split : ℕ → String → List String
unfolding extend_head
split sep [] = List.◌∷◌ [] List.[]
split sep (c ∷ s) =
    let rest = split sep s in if code c == sep then List.◌∷◌ [] rest else extend_head c rest

-- strings.Fields: the parts between the spaces that are not empty
split_spaces : String → List String
unfolding extend_head is_space
split_spaces [] = List.◌∷◌ [] List.[]
split_spaces (c ∷ s) =
    let rest = split_spaces s in if is_space c then List.◌∷◌ [] rest else extend_head c rest

unfoldable pub fields : String → List String
unfolding split_spaces
fields s = select (λ part. not (str_eq part "")) (split_spaces s)

-- The digits of a number in base ten, after those read so far.
read_digits : ℕ → String → Option ℕ
read_digits n [] = some n
read_digits n (c ∷ s) =
    let d = code c in
    let rest = read_digits (n * 10 + (d - b'0')) s in
    if leb b'0' d && leb d b'9' then rest else none

read_number : String → Option ℕ
unfolding read_digits
read_number s = if str_eq s "" then none else read_digits 0 s

positive : Option ℕ → Option ℤ
positive none = none
positive (some n) = if ltb n (2 ^ 63) then some (pos n) else none

negative : Option ℕ → Option ℤ
negative none = none
negative (some zero) = some (pos 0)
negative (some (suc n)) = if ltb n (2 ^ 63) then some (negsuc n) else none

-- strconv.Atoi with an `int` of 64 bits; `none` is its error.
unfoldable pub atoi : String → Option ℤ
unfolding read_number positive negative
atoi [] = none
atoi (c ∷ s) =
    if code c == b'-'
    then negative (read_number s)
    else if code c == b'+'
    then positive (read_number s)
    else positive (read_number (c ∷ s))

-- strings.HasPrefix, with the prefix first
unfoldable pub has_prefix : String → String → Bool
has_prefix [] s = Bool.true
has_prefix (c ∷ p) [] = Bool.false
has_prefix (c ∷ p) (d ∷ s) = let rest = has_prefix p s in code c == code d && rest

-- strings.Contains, with the part first
unfoldable pub str_contains : String → String → Bool
unfolding has_prefix
str_contains p [] = str_eq p ""
str_contains p (c ∷ s) = has_prefix p (c ∷ s) || str_contains p s

-- strings.Trim with the characters `[` and `]`
is_bracket : Char → Bool
is_bracket c = code c == b'[' || code c == b']'

trim_left_brackets : String → String
unfolding is_bracket
trim_left_brackets [] = []
trim_left_brackets (c ∷ s) = let rest = trim_left_brackets s in if is_bracket c then rest else c ∷ s

trim_right_brackets : String → String
unfolding is_bracket
trim_right_brackets [] = []
trim_right_brackets (c ∷ s) =
    let rest = trim_right_brackets s in if str_eq rest "" && is_bracket c then [] else c ∷ rest

unfoldable pub trim_brackets : String → String
unfolding trim_left_brackets trim_right_brackets
trim_brackets s = trim_right_brackets (trim_left_brackets s)

-- strings.Trim with the characters `<` and `>`
is_angle : Char → Bool
is_angle c = code c == b'<' || code c == b'>'

trim_left_angles : String → String
unfolding is_angle
trim_left_angles [] = []
trim_left_angles (c ∷ s) = let rest = trim_left_angles s in if is_angle c then rest else c ∷ s

trim_right_angles : String → String
unfolding is_angle
trim_right_angles [] = []
trim_right_angles (c ∷ s) =
    let rest = trim_right_angles s in if str_eq rest "" && is_angle c then [] else c ∷ rest

unfoldable pub trim_angles : String → String
unfolding trim_left_angles trim_right_angles
trim_angles s = trim_right_angles (trim_left_angles s)

-- The decimal digits of a number; one more than the number is enough fuel.
digits : ℕ → ℕ → String → String
digits zero n s = s
digits (suc fuel) n s =
    let s' = char_at "0123456789" (n % 10) ∷ s in if ltb n 10 then s' else digits fuel (n / 10) s'

-- The verb %d
unfoldable pub decimal : ℤ → String
unfolding digits
decimal (pos n) = digits (suc n) n ""
decimal (negsuc n) = char_at "-" 0 ∷ digits (suc (suc n)) (suc n) ""
