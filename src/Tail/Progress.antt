-- ===== src/Tail/Progress.antt =====
-- followMailLog of stream.go reaches the end of a file that nobody writes to.
use Prim.Native.Char.{Char}
use kanyigo.Base.{
  ℕ, ◌+◌, ◌≤◌, ◌<◌, ◌≡◌, refl, sym, ap, subst, ◌∙◌, true, false, none, some, List, [], ◌∷◌, ◌++◌,
  length, length-append, arith, All, ◌⊎◌, inl, inr, Bool, if◌then◌else◌, ltb,
}
use mathlib.Core.List.{append_assoc, append-nil, append_cancel_left}
use kanyigo.Base.Int.{ℤ, eq_ℤ}
use kanyigo.Sql.{Result, ok, err}
use kanyigo.MailStore.{LineRecord}
use kanyigo.Tail.{
  StreamConfig, Round, Tail, there, and_then, step, follow, take_chunk, send, at_end, look, wait,
}
use kanyigo.Tail.Buffer.{Bytes, drop, is_newline, read_string, ends_line}
use kanyigo.Tail.Reading.{
  Reads, line, partial, read_string-Reads, ends_line-line, ends_line-partial, drop-append,
}
use kanyigo.Tail.Rounds.{sent_for, IsAfter}
use kanyigo.Tail.Growing.{Grows, IsStill, last_file, follow-IsFollowed}

-- Nobody writes to the file and no call fails.
pub record IsQuiet (inode : ℤ) (f : Bytes) (r : Round) : Type 0 where
  pub file_is : r.file ≡ f
  pub reads : r.read_fails ≡ false
  pub delivers : r.delivered ≡ true
  pub size_is : r.open_size ≡ some (length f)
  pub path_is : r.path ≡ there inode
  pub waits : r.waited ≡ true

unfoldable pub newlines : Bytes → ℕ
newlines [] = 0
newlines (c ∷ s) = (if is_newline c then 1 else 0) + newlines s

newlines-line :
    (body : Bytes) (c : Char) (rest : Bytes)
    → is_newline c ≡ true
    → newlines rest < newlines (body ++ c ∷ rest)
unfolding newlines
newlines-line [] c rest e = rw e (omega arith)
newlines-line (d ∷ body) c rest e = omega (arith, newlines-line body c rest e)

-- How a round goes on in a quiet file.
record MovesTo (t : Tail) (n : ℕ) (result : List LineRecord × Result Tail) : Type 0 where
  next : Tail
  goes_on : result.1 ≡ ok next
  same_file : next.inode ≡ t.inode
  moved : next.offset ≡ n

module _ (cfg : StreamConfig) (r : Round) (t : Tail) (f : Bytes) (quiet : IsQuiet t.inode f r) where
  step_line :
      (chunk : Bytes)
      → ends_line chunk ≡ true
      → read_string (drop t.offset r.file) ≡ (chunk, false)
      → MovesTo t (t.offset + length chunk) (step cfg r t)
  unfolding step send take_chunk
  step_line chunk e p =
      rw (step, p)
        (rw e
          (rw quiet.delivers (record { next = _; goes_on = refl; same_file = refl; moved = refl })))

  wait_quiet : (t' : Tail) → t'.inode ≡ t.inode → MovesTo t t'.offset ([], wait r t')
  unfolding wait
  wait_quiet t' e =
      rw quiet.waits (record { next = t'; goes_on = refl; same_file = e; moved = refl })

  look_quiet :
      (t' : Tail)
      → t'.inode ≡ t.inode
      → t'.offset ≤ length f
      → MovesTo t t'.offset ([], look cfg r (length f) (there t.inode) t')
  unfolding look
  look_quiet t' e small =
      let same : eq_ℤ t.inode t'.inode ≡ true = rw e (ground arith) in
      let not_smaller : ltb (length f) t'.offset ≡ false = ground arith in
      rw (same, not_smaller) (wait_quiet (record t' { rotated_at = none }) e)

  at_end_quiet :
      (t' : Tail)
      → t'.inode ≡ t.inode
      → t'.offset ≤ length f
      → MovesTo t t'.offset ([], at_end cfg r r.open_size t')
  unfolding at_end
  at_end_quiet t' e small =
      subst (λ n. MovesTo t t'.offset ([], at_end cfg r n t')) (sym quiet.size_is)
        (subst (λ path. MovesTo t t'.offset ([], look cfg r (length f) path t')) (sym quiet.path_is)
          (look_quiet t' e small))

  step_end :
      (s : Bytes)
      → ends_line s ≡ false
      → t.offset + length s ≤ length f
      → read_string (drop t.offset r.file) ≡ (s, true)
      → MovesTo t (t.offset + length s) (step cfg r t)
  unfolding step take_chunk
  step_end s e small p =
      rw (step, p)
        (rw e (
          subst
            (λ b. MovesTo t (t.offset + length s) (
              if b then ([], err "read") else (
                [],
                at_end cfg r r.open_size
                    (record t { offset = t.offset + length s; pending = t.pending ++ s }),
              )))
            (sym quiet.reads)
            (at_end_quiet (record t { offset = t.offset + length s; pending = t.pending ++ s }) refl
              small)))

module _ (cfg : StreamConfig) where
  MovesTo-then :
      (r : Round) (rounds : List Round) (t : Tail) (n m : ℕ) (one : MovesTo t n (step cfg r t))
      → MovesTo one.next m (follow cfg rounds one.next)
      → MovesTo t m (follow cfg (r ∷ rounds) t)
  unfolding follow
  MovesTo-then r rounds t n m one later = record {
    next = later.next;
    goes_on =
        ap (λ x. (and_then (follow cfg rounds) (step cfg r t).0 x).1) one.goes_on ∙ later.goes_on;
    same_file = later.same_file ∙ one.same_file;
    moved = later.moved;
  }

  -- Enough rounds for the lines that are left, or nothing left to read.
  abbrev Suffices : Bytes → List Round → Type 0
  Suffices left rounds = (left ≡ []) ⊎ (newlines left < length rounds)

  Suffices-later :
      (left after : Bytes) (r : Round) (rounds : List Round)
      → (after ≡ []) ⊎ (newlines after < newlines left)
      → Suffices left (r ∷ rounds)
      → Suffices after rounds
  unfolding newlines
  Suffices-later left after r rounds (inl e) enough = inl e
  Suffices-later left after r rounds (inr l) (inl e) = absurd (omega (arith, ap newlines e))
  Suffices-later left after r rounds (inr l) (inr m) = inr (omega arith)

  quiet_round :
      (r : Round) (t : Tail) (f before left : Bytes) {read : Bytes × Bool}
      → IsQuiet t.inode f r
      → f ≡ before ++ left
      → length before ≡ t.offset
      → read_string (drop t.offset r.file) ≡ read
      → Reads left read
      → (taken : Bytes) × (after : Bytes) × (left ≡ taken ++ after)
        × ((after ≡ []) ⊎ (newlines after < newlines left))
        × MovesTo t (t.offset + length taken) (step cfg r t)
  quiet_round r t f before left quiet here at p (line body c rest h e s q) = (
    body ++ c ∷ [],
    rest,
    s ∙ sym (append_assoc body (c ∷ []) rest),
    inr (rw s (newlines-line body c rest e)),
    step_line cfg r t f quiet (body ++ c ∷ []) (ends_line-line body c e) (p ∙ q),
  )
  quiet_round r t f before left quiet here at p (partial h q) = (
    left,
    [],
    sym (append-nil left),
    inl refl,
    step_end cfg r t f quiet left (ends_line-partial left h)
        (omega (arith, at, ap length here, length-append before left)) (p ∙ q),
  )

  follow-MovesTo :
      (rounds : List Round) (t : Tail) (f before left : Bytes)
      → f ≡ before ++ left
      → length before ≡ t.offset
      → All (IsQuiet t.inode f) rounds
      → Suffices left rounds
      → MovesTo t (length f) (follow cfg rounds t)
  unfolding follow
  follow-MovesTo [] t f before left here at quiet enough = record {
    next = t;
    goes_on = refl;
    same_file = refl;
    moved = elim enough [
      | inl e ↦ omega (arith, at, ap length here, ap length e, length-append before left)
      | inr l ↦ omega arith
    ];
  }
  follow-MovesTo (r ∷ rounds) t f before left here at (q, quiet) enough =
      let file : drop t.offset r.file ≡ left =
        ap (drop t.offset) (q.file_is ∙ here)
        ∙ sym (ap (λ n. drop n (before ++ left)) at)
        ∙ drop-append before left in
      let (taken, after, s, fewer, one) = quiet_round r t f before left q here at refl (
        subst (λ l. Reads l (read_string (drop t.offset r.file))) file
          (read_string-Reads (drop t.offset r.file))) in
      MovesTo-then r rounds t (t.offset + length taken) (length f) one (
        follow-MovesTo rounds one.next f (before ++ taken) after
          (here ∙ ap (λ l. before ++ l) s ∙ sym (append_assoc before taken after))
          (length-append before taken ∙ ap (λ n. n + length taken) at ∙ sym one.moved)
          (subst (λ i. All (IsQuiet i f) rounds) (sym one.same_file) quiet)
          (Suffices-later left after r rounds fewer enough))

IsQuiet-IsStill : (inode : ℤ) (f : Bytes) (r : Round) → IsQuiet inode f r → IsStill inode f r
IsQuiet-IsStill inode f r q = record {
  more = [];
  appended = q.file_is ∙ sym (append-nil f);
  sized = λ n e. let size : length f ≡ n = cc (e, q.size_is) in omega (arith, ap length q.file_is);
  stays_there = λ other e. let same : other ≡ inode = cc (e, q.path_is) in rw same (ground arith);
}

quiet-Grows :
    (inode : ℤ) (f : Bytes) (rounds : List Round)
    → All (IsQuiet inode f) rounds
    → Grows inode f rounds × (last_file f rounds ≡ f)
quiet-Grows inode f [] q = (tt, refl)
quiet-Grows inode f (r ∷ rounds) (q, qs) =
    let later = quiet-Grows inode f rounds qs in
    (
      (IsQuiet-IsStill inode f r q, subst (λ g. Grows inode g rounds) (sym q.file_is) later.0),
      ap (λ g. last_file g rounds) q.file_is ∙ later.1,
    )

nothing_unread :
    (f before left taken unread : Bytes)
    → f ≡ before ++ left
    → f ≡ before ++ (taken ++ unread)
    → length before + length taken ≡ length f
    → taken ≡ left
nothing_unread f before left taken [] here s full =
    sym (
      append_cancel_left before left taken
        (sym here ∙ s ∙ ap (λ g. before ++ g) (append-nil taken)))
nothing_unread f before left taken (c ∷ unread) here s full = absurd (
    omega (
      arith,
      ap length s,
      length-append before (taken ++ c ∷ unread),
      length-append taken (c ∷ unread),
    ))

-- Once nobody writes to the file and no call fails, as many rounds as there are lines left, and one
-- more, send every line that ends in the file, and no other, and reach its end: the offset is the
-- size, and what is pending is the unfinished line.
pub follow-reaches_end :
    (cfg : StreamConfig) (rounds : List Round) (t : Tail) (f before left : Bytes)
    → f ≡ before ++ left
    → length before ≡ t.offset
    → All (IsQuiet t.inode f) rounds
    → newlines left < length rounds
    → ((follow cfg rounds t).0 ≡ sent_for t left)
      × ((t' : Tail) × ((follow cfg rounds t).1 ≡ ok t')
          × IsAfter t left t'
          × (t'.offset ≡ length f))
follow-reaches_end cfg rounds t f before left here at quiet enough =
    let end = follow-MovesTo cfg rounds t f before left here at quiet (inr enough) in
    let (grows, last) = quiet-Grows t.inode f rounds quiet in
    let run = follow-IsFollowed cfg rounds t f before left here at grows in
    let after = run.after end.next end.goes_on in
    let all : run.taken ≡ left =
      nothing_unread f before left run.taken run.unread here (sym last ∙ run.splits)
        (omega (arith, at, after.moved, end.moved)) in
    (
      run.sent ∙ ap (sent_for t) all,
      (end.next, end.goes_on, subst (λ s. IsAfter t s end.next) all after, end.moved),
    )
