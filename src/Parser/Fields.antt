-- ===== src/Parser/Fields.antt =====
-- What the loop over the matches of reKV in ParseLine of parser.go can set.
use Prim.Native.String.{String, [], ◌∷◌}
use mathlib.Core.List.{List}
use kanyigo.Base.{
  ℕ, zero, suc, ◌+◌, ◌-◌, ◌≡◌, ◌≢◌, refl, sym, subst, ◌∙◌, true, false, Option, none, some, inl,
  inr, arith, str_eq, str_eq-cases, Bool-cases, All,
}
use kanyigo.LogEntry.{LogEntry}
use kanyigo.Parser.{
  Readers, Field, sender, recipient, verdict, next_hop, one_delay, all_delays, dsn_code,
  message_name, message_size, no_field, field_of, set_field, set_fields,
}
use kanyigo.Parser.KeyValue.{
  Match, is_word, span, behind, match_angles, match_plain, or_plain, match_value, match_here,
  next_match, count, find_all, find_all_kv,
}

-- A text of the characters that `\w` matches.
unfoldable pub IsWord : String → Type 0
IsWord [] = Unit
IsWord (c ∷ s) = (is_word c ≡ true) × IsWord s

span-IsWord : (s : String) → IsWord (span is_word s).0
unfolding span IsWord
span-IsWord [] = tt
span-IsWord (c ∷ s) = elim (Bool-cases (is_word c)) [
  | inl e ↦ rw e (e, span-IsWord s)
  | inr e ↦ rw e tt
]

-- A match in a result has the key.
abbrev HasKey : String → Option Match → Type 0
HasKey key none = Unit
HasKey key (some m) = m.key ≡ key

match_plain-HasKey : (key s : String) → HasKey key (match_plain key s)
unfolding match_plain
match_plain-HasKey key s = ground arith

match_angles-HasKey : (key s : String) → HasKey key (match_angles key s)
unfolding match_angles
match_angles-HasKey key s = ground arith

or_plain-HasKey :
    (key : String) (m n : Option Match) → HasKey key m → HasKey key n → HasKey key (or_plain m n)
or_plain-HasKey key none n h k = k
or_plain-HasKey key (some m) n h k = h

match_value-HasKey : (key : String) (s : Option String) → HasKey key (match_value key s)
unfolding match_value
match_value-HasKey key none = tt
match_value-HasKey key (some s) =
    or_plain-HasKey key (match_angles key s) (match_plain key s) (match_angles-HasKey key s)
      (match_plain-HasKey key s)

match_here-HasKey : (s : String) → HasKey (span is_word s).0 (match_here s)
unfolding match_here
match_here-HasKey s = elim (Bool-cases (str_eq (span is_word s).0 "")) [
  | inl e ↦ rw e tt
  | inr e ↦ rw e (match_value-HasKey (span is_word s).0 (behind b'=' (span is_word s).1))
]

next_match-IsWord :
    (key : String) (m : Option Match) (go_on : ℕ → List Match)
    → IsWord key
    → HasKey key m
    → ((n : ℕ) → All (λ m. IsWord m.key) (go_on n))
    → All (λ m. IsWord m.key) (next_match m go_on)
next_match-IsWord key none go_on h e later = later 0
next_match-IsWord key (some m) go_on h e later =
    (subst IsWord (sym e) h, later (count m.key + m.taken - 1))

-- Every key of a match is a word.
find_all-IsWord : (n : ℕ) (s : String) → All (λ m. IsWord m.key) (find_all n s)
unfolding find_all
find_all-IsWord n [] = tt
find_all-IsWord (suc n) (c ∷ s) = find_all-IsWord n s
find_all-IsWord zero (c ∷ s) =
    next_match-IsWord _ (match_here (c ∷ s)) (λ n. find_all n s) (span-IsWord (c ∷ s))
      (match_here-HasKey (c ∷ s)) (λ n. find_all-IsWord n s)

pub find_all_kv-IsWord : (payload : String) → All (λ m. IsWord m.key) (find_all_kv payload)
unfolding find_all_kv
find_all_kv-IsWord = find_all-IsWord 0

abbrev message_id_key : String
message_id_key = "message-id"

not_a_word : IsWord message_id_key → ⊥
unfolding IsWord is_word
not_a_word h = let e = h.1.1.1.1.1.1.1.0 in absurd cc

-- The key message-id is no word.
IsWord-message_id : (key : String) → IsWord key → str_eq key "message-id" ≡ false
unfolding IsWord is_word
IsWord-message_id key h = elim (str_eq-cases key "message-id") [
  | inr (e, _) ↦ e
  | inl (_, e) ↦ absurd (not_a_word (subst IsWord e h))
]

field_of-word : (key : String) → str_eq key "message-id" ≡ false → field_of key ≢ message_name
unfolding field_of
field_of-word key h = rw h (ground arith)

set_field-message_id :
    (rs : Readers) (f : Field) (val : String) (e : LogEntry)
    → f ≢ message_name
    → (set_field rs f val e).message_id ≡ e.message_id
unfolding set_field
set_field-message_id rs message_name val e h = absurd (h refl)
set_field-message_id rs sender val e h = refl
set_field-message_id rs recipient val e h = refl
set_field-message_id rs verdict val e h = refl
set_field-message_id rs next_hop val e h = refl
set_field-message_id rs one_delay val e h = refl
set_field-message_id rs all_delays val e h = refl
set_field-message_id rs dsn_code val e h = refl
set_field-message_id rs message_size val e h = refl
set_field-message_id rs no_field val e h = refl

pub set_fields-message_id :
    (rs : Readers) (ms : List Match) (e : LogEntry)
    → All (λ m. IsWord m.key) ms
    → (set_fields rs ms e).message_id ≡ e.message_id
unfolding set_fields
set_fields-message_id rs List.[] e h = refl
set_fields-message_id rs (List.◌∷◌ m ms) e (h, hs) =
    set_fields-message_id rs ms (set_field rs (field_of m.key) m.value e) hs
    ∙ set_field-message_id rs (field_of m.key) m.value e
        (field_of-word m.key (IsWord-message_id m.key h))
