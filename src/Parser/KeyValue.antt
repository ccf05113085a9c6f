-- ===== src/Parser/KeyValue.antt =====
-- The regular expression reKV of parser.go, `(\w+)=<([^>]*)>|(\w+)=([^,\s]+)`, and its matches from
-- left to right, as FindAllStringSubmatch finds them.
use Prim.Native.Char.{Char, code}
use Prim.Native.String.{String, [], ◌∷◌}
use mathlib.Core.List.{List}
use kanyigo.Base.{
  ℕ, zero, suc, ◌+◌, ◌-◌, Bool, not, ◌&&◌, ◌||◌, Option, none, some, str_eq, leb, ◌==◌,
  if◌then◌else◌,
}

-- `\w`
unfoldable pub is_word : Char → Bool
is_word c =
    let n = code c in
    (leb b'0' n && leb n b'9')
    || (leb b'A' n && leb n b'Z')
    || n == b'_'
    || (leb b'a' n && leb n b'z')

-- `[^,\s]`; `\s` is a tab, a newline, a form feed, a carriage return or a space.
unfoldable pub is_value : Char → Bool
is_value c = let n = code c in not (n == b',' || n == 9 || n == 10 || n == 12 || n == 13 || n == 32)

-- `[^>]`
unfoldable pub is_inside : Char → Bool
is_inside c = not (code c == b'>')

-- The longest beginning of such characters, and what follows.
unfoldable pub span : (Char → Bool) → String → String × String
span p [] = ([], [])
span p (c ∷ s) = let (taken, rest) = span p s in if p c then (c ∷ taken, rest) else ([], c ∷ s)

unfoldable pub count : String → ℕ
count [] = 0
count (c ∷ s) = suc (count s)

-- What follows one character, if the text begins with it.
unfoldable pub behind : ℕ → String → Option String
behind n [] = none
behind n (c ∷ s) = if code c == n then some s else none

-- A match: the key, the value, and the number of characters behind the key that it takes.
pub record Match : Type 0 where
  pub key : String
  pub value : String
  pub taken : ℕ

-- `<([^>]*)>`
unfoldable pub match_angles : String → String → Option Match
match_angles key s = elim (behind b'<' s) [
  | none ↦ none
  | some s' ↦
      let (inside, rest) = span is_inside s' in
      elim (behind b'>' rest) [
        | none ↦ none
        | some _ ↦ some (record { key = key; value = inside; taken = count inside + 3 })
      ]
]

-- `([^,\s]+)`
unfoldable pub match_plain : String → String → Option Match
match_plain key s =
    let (value, _) = span is_value s in
    if str_eq value ""
    then none
    else some (record { key = key; value = value; taken = count value + 1 })

-- The first alternative that matches
abbrev pub or_plain : Option Match → Option Match → Option Match
or_plain none plain = plain
or_plain (some m) plain = some m

-- Behind the `=`, if there is one
unfoldable pub match_value : String → Option String → Option Match
match_value key none = none
match_value key (some s) = or_plain (match_angles key s) (match_plain key s)

-- A match that begins with the text. The `=` stands only behind the longest word.
unfoldable pub match_here : String → Option Match
match_here s =
    let (key, rest) = span is_word s in
    if str_eq key "" then none else match_value key (behind b'=' rest)

-- A match, if there is one, and those behind it; the argument of `go_on` is the number of further
-- characters that the match takes.
abbrev pub next_match : Option Match → (ℕ → List Match) → List Match
next_match none go_on = go_on 0
next_match (some m) go_on = List.◌∷◌ m (go_on (count m.key + m.taken - 1))

-- The matches behind a number of characters that the last one takes
unfoldable pub find_all : ℕ → String → List Match
find_all n [] = List.[]
find_all (suc n) (c ∷ s) = find_all n s
find_all zero (c ∷ s) = next_match (match_here (c ∷ s)) (λ n. find_all n s)

-- `reKV.FindAllStringSubmatch(payload, -1)`
unfoldable pub find_all_kv : String → List Match
find_all_kv = find_all 0
