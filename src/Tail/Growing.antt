-- ===== src/Tail/Growing.antt =====
-- followMailLog of stream.go on a file that is only appended to and stays at its path.
use kanyigo.Base.{
  String, ℕ, ◌+◌, ◌≤◌, ◌≡◌, refl, sym, ap, subst, ◌∙◌, true, some, List, [], ◌∷◌, ◌++◌, length,
  length-append, arith,
}
use mathlib.Core.List.{append_assoc, append-nil}
use kanyigo.Base.Int.{ℤ, eq_ℤ}
use kanyigo.Sql.{Result, ok, err}
use kanyigo.MailStore.{LineRecord}
use kanyigo.Tail.{StreamConfig, Round, Tail, there, and_then, follow}
use kanyigo.Tail.Buffer.{Bytes, drop}
use kanyigo.Tail.Reading.{drop-append}
use kanyigo.Tail.Lines.{unfinished, lines-append, lines-nil, unfinished-nil, unfinished-append}
use kanyigo.Tail.Rounds.{
  sent_for, IsAfter, Leaves, truncated, replaced, Goes, stops, stays, leaves, step-IsRound,
}

-- The open file holds what it held before and perhaps more, Stat tells no smaller size, and what is
-- at the path, if it is seen, is the same file.
pub record IsStill (inode : ℤ) (f : Bytes) (r : Round) : Type 0 where
  pub more : Bytes
  pub appended : r.file ≡ f ++ more
  pub sized : (n : ℕ) → r.open_size ≡ some n → length r.file ≤ n
  pub stays_there : (other : ℤ) → r.path ≡ there other → eq_ℤ other inode ≡ true

abbrev pub Grows : ℤ → Bytes → List Round → Type 0
Grows inode f [] = Unit
Grows inode f (r ∷ rounds) = IsStill inode f r × Grows inode r.file rounds

abbrev pub last_file : Bytes → List Round → Bytes
last_file f [] = f
last_file f (r ∷ rounds) = last_file r.file rounds

pub last_file-Grows :
    (inode : ℤ) (f : Bytes) (rounds : List Round)
    → Grows inode f rounds
    → (more : Bytes) × (last_file f rounds ≡ f ++ more)
last_file-Grows inode f [] h = ([], sym (append-nil f))
last_file-Grows inode f (r ∷ rounds) h =
    let (more, e) = last_file-Grows inode r.file rounds h.1 in
    (h.0.more ++ more, e ∙ ap (λ g. g ++ more) h.0.appended ∙ append_assoc f h.0.more more)

-- All records of a run are those of the lines that end in the bytes taken behind `before`.
pub record IsFollowed (t : Tail) (before f : Bytes) (result : List LineRecord × Result Tail)
    : Type 0 where
  pub taken : Bytes
  pub unread : Bytes
  pub splits : f ≡ before ++ (taken ++ unread)
  pub sent : result.0 ≡ sent_for t taken
  pub after : (t' : Tail) → result.1 ≡ ok t' → IsAfter t taken t'

pub sent_for-append :
    (t t' : Tail) (a b : Bytes)
    → IsAfter t a t'
    → sent_for t (a ++ b) ≡ sent_for t a ++ sent_for t' b
sent_for-append t t' a b h =
    lines-append t.inode t.sequence t.offset t.pending a b
    ∙ rw (h.same_file, h.moved, h.kept, h.counted) refl

IsAfter-append :
    (t t' t'' : Tail) (a b : Bytes) → IsAfter t a t' → IsAfter t' b t'' → IsAfter t (a ++ b) t''
IsAfter-append t t' t'' a b h k = record {
  same_file = k.same_file ∙ h.same_file;
  moved = omega (arith, h.moved, k.moved, length-append a b);
  kept = k.kept ∙ ap (λ p. unfinished p b) h.kept ∙ sym (unfinished-append t.pending a b);
  counted =
      rw (sent_for-append t t' a b h)
        (omega (arith, h.counted, k.counted, length-append (sent_for t a) (sent_for t' b)));
}

-- Such a file is never left.
stays_at :
    (cfg : StreamConfig) (r : Round) (t : Tail) (f taken : Bytes)
    → IsStill t.inode f r
    → t.offset + length taken ≤ length r.file
    → Leaves cfg r t taken
    → ⊥
stays_at cfg r t f taken still fits (truncated n inode o l p e) = omega (arith, still.sized n o)
stays_at cfg r t f taken still fits (replaced inode p e d) =
    let same = still.stays_there inode p in absurd (cc)

-- How a round meets the file: what it takes stands behind what is read.
record IsTaken (t : Tail) (file before taken unread : Bytes) : Type 0 where
  splits : file ≡ before ++ (taken ++ unread)
  fits : t.offset + length taken ≤ length file

IsTaken-split :
    (t : Tail) (f before left : Bytes) (r : Round) (taken unread : Bytes)
    → f ≡ before ++ left
    → length before ≡ t.offset
    → IsStill t.inode f r
    → drop t.offset r.file ≡ taken ++ unread
    → IsTaken t r.file before taken unread
IsTaken-split t f before left r taken unread here at still s =
    let file =
      still.appended ∙ ap (λ g. g ++ still.more) here ∙ append_assoc before left still.more in
    let left' = left ++ still.more in
    let dropped =
      ap (drop t.offset) file
      ∙ sym (ap (λ n. drop n (before ++ left')) at)
      ∙ drop-append before left' in
    let splits = file ∙ ap (λ g. before ++ g) (sym dropped ∙ s) in
    record {
      splits = splits;
      fits =
          rw splits
            (omega (arith, at, length-append before (taken ++ unread), length-append taken unread));
    }

-- A run that ends in its first round.
IsFollowed-stop :
    (t : Tail) (r : Round) (rounds : List Round) (before taken unread : Bytes) (e : String)
    {sent : List LineRecord}
    → r.file ≡ before ++ (taken ++ unread)
    → Grows t.inode r.file rounds
    → sent ≡ sent_for t taken
    → IsFollowed t before (last_file r.file rounds) (sent, err e)
IsFollowed-stop t r rounds before taken unread e s grows sent =
    let (more, last) = last_file-Grows t.inode r.file rounds grows in
    record {
      taken = taken;
      unread = unread ++ more;
      splits =
          last
          ∙ ap (λ g. g ++ more) s
          ∙ append_assoc before (taken ++ unread) more
          ∙ ap (λ g. before ++ g) (append_assoc taken unread more);
      sent = sent;
      after = λ t' p. absurd (cc);
    }

-- A run that goes on after its first round.
IsFollowed-more :
    (t t' : Tail) (before : Bytes) {a : Bytes} {f : Bytes} {sent : List LineRecord}
    {rest : List LineRecord × Result Tail}
    → IsAfter t a t'
    → sent ≡ sent_for t a
    → IsFollowed t' (before ++ a) f rest
    → IsFollowed t before f (sent ++ rest.0, rest.1)
IsFollowed-more t t' before {a} {f} {rest = rest} moved sent later = record {
  taken = a ++ later.taken;
  unread = later.unread;
  splits =
      later.splits
      ∙ append_assoc before a (later.taken ++ later.unread)
      ∙ ap (λ g. before ++ g) (sym (append_assoc a later.taken later.unread));
  sent =
      ap (λ l. l ++ rest.0) sent
      ∙ ap (λ l. sent_for t a ++ l) later.sent
      ∙ sym (sent_for-append t t' a later.taken moved);
  after = λ t'' p. IsAfter-append t t' t'' a later.taken moved (later.after t'' p);
}

and_then-IsFollowed :
    {cfg : StreamConfig} (r : Round) (rounds : List Round) (t : Tail) (before : Bytes)
    {taken unread : Bytes} {sent : List LineRecord} {next : Result Tail}
    {go_on : Tail → List LineRecord × Result Tail}
    → IsTaken t r.file before taken unread
    → IsStill t.inode r.file r
    → Grows t.inode r.file rounds
    → sent ≡ sent_for t taken
    → ((t' : Tail)
        → IsAfter t taken t'
        → IsFollowed t' (before ++ taken) (last_file r.file rounds) (go_on t'))
    → Goes cfg r t taken unread next
    → IsFollowed t before (last_file r.file rounds) (and_then go_on sent next)
and_then-IsFollowed r rounds t before {taken} {unread} split still grows sent ih (stops e) =
    IsFollowed-stop t r rounds before taken unread e split.splits grows sent
and_then-IsFollowed r rounds t before split still grows sent ih (stays t' moved _) =
    IsFollowed-more t t' before moved sent (ih t' moved)
and_then-IsFollowed {cfg} r rounds t before {taken} split still grows sent ih
      (leaves t' u n why o) =
    absurd (stays_at cfg r t r.file taken still split.fits why)

IsStill-self : {inode : ℤ} {f : Bytes} {r : Round} → IsStill inode f r → IsStill inode r.file r
IsStill-self {r = r} h = record {
  more = [];
  appended = sym (append-nil r.file);
  sized = h.sized;
  stays_there = h.stays_there;
}

IsAfter-nil : (t : Tail) → IsAfter t [] t
IsAfter-nil t = record {
  same_file = refl;
  moved = omega arith;
  kept = sym (unfinished-nil t.pending);
  counted = rw (lines-nil t.inode t.sequence t.offset t.pending) (omega arith);
}

-- While the open file is only appended to and stays at its path, the records of a run, however the
-- reads fall among the writes, are those of the lines that end in one stretch of the file, from the
-- offset on: no line is lost, sent twice, cut or joined to another, and each carries the offset
-- behind its newline. If the run goes on, what is read and not sent is the unfinished line.
pub follow-IsFollowed :
    (cfg : StreamConfig) (rounds : List Round) (t : Tail) (f before left : Bytes)
    → f ≡ before ++ left
    → length before ≡ t.offset
    → Grows t.inode f rounds
    → IsFollowed t before (last_file f rounds) (follow cfg rounds t)
unfolding follow
follow-IsFollowed cfg [] t f before left here at grows = record {
  taken = [];
  unread = left;
  splits = here;
  sent = sym (lines-nil t.inode t.sequence t.offset t.pending);
  after = λ t' p. subst (IsAfter t []) (cc (p)) (IsAfter-nil t);
}
follow-IsFollowed cfg (r ∷ rounds) t f before left here at grows =
    let round = step-IsRound cfg r t in
    let split =
      IsTaken-split t f before left r round.taken round.unread here at grows.0 round.splits in
    and_then-IsFollowed r rounds t before split (IsStill-self grows.0) grows.1 round.sent
      (λ t' moved.
        follow-IsFollowed cfg rounds t' r.file (before ++ round.taken) round.unread
          (split.splits ∙ sym (append_assoc before round.taken round.unread))
          (length-append before round.taken ∙ ap (λ n. n + length round.taken) at ∙ sym moved.moved)
          (subst (λ i. Grows i r.file rounds) (sym moved.same_file) grows.1))
      round.goes
