-- ===== src/Tail/Reading.antt =====
-- What ReadString gives: a whole line with its newline, or the rest of the file.
use Prim.Native.Char.{Char}
use kanyigo.Base.{◌≡◌, refl, ap, Bool, true, false, [], ◌∷◌, ◌++◌, inl, inr, Bool-cases, length}
use kanyigo.Tail.Buffer.{Bytes, drop, is_newline, read_string, ends_line, trim_newline}

unfoldable pub HasNoNewline : Bytes → Type 0
HasNoNewline [] = Unit
HasNoNewline (c ∷ s) = (is_newline c ≡ false) × HasNoNewline s

pub data Reads (s : Bytes) (r : Bytes × Bool) : Type 0 where
  line :
      (body : Bytes) (c : Char) (rest : Bytes)
      → HasNoNewline body
      → is_newline c ≡ true
      → s ≡ body ++ (c ∷ rest)
      → r ≡ (body ++ (c ∷ []), false)
      → Reads s r
  partial : HasNoNewline s → r ≡ (s, true) → Reads s r

Reads-cons :
    (c : Char) (s : Bytes) {r : Bytes × Bool}
    → is_newline c ≡ false
    → Reads s r
    → Reads (c ∷ s) (c ∷ r.0, r.1)
unfolding HasNoNewline
Reads-cons c s n (line body d rest h e f g) =
    line (c ∷ body) d rest (n, h) e (ap (◌∷◌ c) f) (ap (λ r. (c ∷ r.0, r.1)) g)
Reads-cons c s n (partial h g) = partial (n, h) (ap (λ r. (c ∷ r.0, r.1)) g)

pub read_string-Reads : (s : Bytes) → Reads s (read_string s)
unfolding read_string HasNoNewline
read_string-Reads [] = partial tt refl
read_string-Reads (c ∷ s) = elim (Bool-cases (is_newline c)) [
  | inl e ↦ line [] c s tt e refl (rw e)
  | inr e ↦ rw e (Reads-cons c s e (read_string-Reads s))
]

pub ends_line-line :
    (body : Bytes) (c : Char) → is_newline c ≡ true → ends_line (body ++ (c ∷ [])) ≡ true
unfolding ends_line
ends_line-line [] c e = e
ends_line-line (d ∷ []) c e = e
ends_line-line (d ∷ d' ∷ body) c e = ends_line-line (d' ∷ body) c e

pub ends_line-partial : (s : Bytes) → HasNoNewline s → ends_line s ≡ false
unfolding ends_line HasNoNewline
ends_line-partial [] h = refl
ends_line-partial (c ∷ []) h = h.0
ends_line-partial (c ∷ d ∷ s) h = ends_line-partial (d ∷ s) h.1

pub trim_newline-line :
    (body : Bytes) (c : Char) → is_newline c ≡ true → trim_newline (body ++ (c ∷ [])) ≡ body
unfolding trim_newline
trim_newline-line [] c e = rw e
trim_newline-line (d ∷ []) c e = rw e
trim_newline-line (d ∷ d' ∷ body) c e = ap (◌∷◌ d) (trim_newline-line (d' ∷ body) c e)

pub drop-append : (s t : Bytes) → drop (length s) (s ++ t) ≡ t
unfolding drop
drop-append [] t = refl
drop-append (c ∷ s) t = drop-append s t
