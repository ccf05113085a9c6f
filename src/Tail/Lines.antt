-- ===== src/Tail/Lines.antt =====
-- The lines of a file as records: what followMailLog of stream.go is to send, by a walk over the bytes.
use Prim.Native.Char.{Char}
use kanyigo.Base.{
  ℕ, suc, ◌+◌, ◌≡◌, refl, sym, ap, ◌∙◌, true, List, [], ◌∷◌, ◌++◌, length, arith, if◌then◌else◌,
}
use mathlib.Core.List.{append_assoc, append-nil}
use kanyigo.Base.Int.{ℤ, pos}
use kanyigo.MailStore.{LineRecord}
use kanyigo.Tail.Buffer.{Bytes, text_of, is_newline}
use kanyigo.Tail.Reading.{HasNoNewline}

-- The line that the text begins and does not end.
unfoldable pub unfinished : Bytes → Bytes → Bytes
unfinished p [] = p
unfinished p (c ∷ s) =
    let after = unfinished [] s in
    let inside = unfinished (p ++ c ∷ []) s in if is_newline c then after else inside

pub unfinished-nil : (p : Bytes) → unfinished p [] ≡ p
unfolding unfinished
unfinished-nil p = refl

pub unfinished-append : (p s t : Bytes) → unfinished p (s ++ t) ≡ unfinished (unfinished p s) t
unfolding unfinished
unfinished-append p [] t = refl
unfinished-append p (c ∷ s) t =
    ground (arith, unfinished-append [] s t, unfinished-append (p ++ c ∷ []) s t)

pub unfinished-inside : (p s : Bytes) → HasNoNewline s → unfinished p s ≡ p ++ s
unfolding unfinished HasNoNewline
unfinished-inside p [] h = sym (append-nil p)
unfinished-inside p (c ∷ s) h =
    rw h.0 (unfinished-inside (p ++ c ∷ []) s h.1 ∙ append_assoc p (c ∷ []) s)

pub unfinished-line :
    (p body : Bytes) (c : Char)
    → HasNoNewline body
    → is_newline c ≡ true
    → unfinished p (body ++ c ∷ []) ≡ []
unfolding unfinished HasNoNewline
unfinished-line p [] c h e = rw e
unfinished-line p (d ∷ body) c h e = rw h.0 (unfinished-line (p ++ d ∷ []) body c h.1 e)

module _ (inode : ℤ) where
  abbrev pub the_line : ℕ → ℕ → Bytes → LineRecord
  the_line n o p = record { sequence = n; text = text_of p; inode = inode; offset = pos o }

  -- The records of the whole lines of a text that stands at an offset, numbered from `n`, behind the
  -- beginning of a line.
  unfoldable pub lines : ℕ → ℕ → Bytes → Bytes → List LineRecord
  lines n o p [] = []
  lines n o p (c ∷ s) =
      let after = lines (suc n) (suc o) [] s in
      let inside = lines n (suc o) (p ++ c ∷ []) s in
      if is_newline c then the_line n (suc o) p ∷ after else inside

  pub lines-append :
      (n o : ℕ) (p s t : Bytes)
      → lines n o p (s ++ t)
        ≡ lines n o p s ++ lines (n + length (lines n o p s)) (o + length s) (unfinished p s) t
  unfolding lines unfinished
  lines-append n o p [] t = ground arith
  lines-append n o p (c ∷ s) t =
      ground (arith, lines-append (suc n) (suc o) [] s t, lines-append n (suc o) (p ++ c ∷ []) s t)

  pub lines-nil : (n o : ℕ) (p : Bytes) → lines n o p [] ≡ []
  unfolding lines
  lines-nil n o p = refl

  -- Inside a line nothing is sent.
  pub lines-inside : (n o : ℕ) (p s : Bytes) → HasNoNewline s → lines n o p s ≡ []
  unfolding lines HasNoNewline
  lines-inside n o p [] h = refl
  lines-inside n o p (c ∷ s) h = rw h.0 (lines-inside n (suc o) (p ++ c ∷ []) s h.1)

  -- The end of a line sends it.
  pub lines-line :
      (n o : ℕ) (p body : Bytes) (c : Char)
      → HasNoNewline body
      → is_newline c ≡ true
      → lines n o p (body ++ c ∷ []) ≡ the_line n (o + length (body ++ c ∷ [])) (p ++ body) ∷ []
  unfolding lines HasNoNewline
  lines-line n o p [] c h e = rw (e, append-nil p) (ap (λ i. the_line n i p ∷ []) (omega arith))
  lines-line n o p (d ∷ body) c h e = rw h.0 (
      lines-line n (suc o) (p ++ d ∷ []) body c h.1 e
      ∙ ap (λ q. the_line n (suc o + length (body ++ c ∷ [])) q ∷ []) (append_assoc p (d ∷ []) body)
      ∙ ap (λ i. the_line n i (p ++ d ∷ body) ∷ []) (omega arith))
