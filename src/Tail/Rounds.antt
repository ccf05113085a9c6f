-- ===== src/Tail/Rounds.antt =====
-- One round of followMailLog in stream.go: what it takes from the file, and when it leaves the file.
use Prim.Native.Char.{Char}
use kanyigo.Base.{
  ℕ, ◌+◌, ◌<◌, String, ◌≡◌, refl, sym, ap, ◌∙◌, Bool, true, false, Option, none, some, List, [],
  ◌∷◌, ◌++◌, length, arith, inl, inr, ltb, Bool-cases, if◌then◌else◌,
}
use mathlib.Core.List.{append_assoc, append-nil}
use kanyigo.Base.Int.{ℤ, eq_ℤ}
use kanyigo.LogEntry.{Time}
use kanyigo.Sql.{Result, ok, err, Result-cases}
use kanyigo.MailStore.{LineRecord}
use kanyigo.Tail.{
  StreamConfig, Round, Tail, PathInfo, failed, missing, there, reopen_mail_log, wait, switch,
  seen_at, has_drained, rotated, look, at_end, take_chunk, line_record, send, step,
}
use kanyigo.Tail.Buffer.{is_newline, Bytes, drop, read_string, ends_line, trim_newline, text_of}
use kanyigo.Tail.Reading.{
  HasNoNewline, Reads, line, partial, read_string-Reads, ends_line-line, ends_line-partial,
  trim_newline-line,
}
use kanyigo.Tail.Lines.{
  the_line, lines, unfinished, lines-inside, unfinished-inside, lines-line, unfinished-line,
}

-- The records of the lines that end in what is taken.
abbrev pub sent_for : Tail → Bytes → List LineRecord
sent_for t taken = lines t.inode t.sequence t.offset t.pending taken

-- The variables after the bytes are taken from the file that stays open.
pub record IsAfter (t : Tail) (taken : Bytes) (t' : Tail) : Type 0 where
  pub same_file : t'.inode ≡ t.inode
  pub moved : t'.offset ≡ t.offset + length taken
  pub kept : t'.pending ≡ unfinished t.pending taken
  pub counted : t'.sequence ≡ t.sequence + length (sent_for t taken)

-- Why a round opens the file at the path: the open file is still there and smaller than what is read
-- of it, or another file has been there for the drain timeout.
pub data Leaves (cfg : StreamConfig) (r : Round) (t : Tail) (taken : Bytes) : Type 0 where
  truncated :
      (n : ℕ) (inode : ℤ)
      → r.open_size ≡ some n
      → n < t.offset + length taken
      → r.path ≡ there inode
      → eq_ℤ inode t.inode ≡ true
      → Leaves cfg r t taken
  replaced :
      (inode : ℤ)
      → r.path ≡ there inode
      → eq_ℤ inode t.inode ≡ false
      → has_drained cfg.rotation_drain_timeout (seen_at t.rotated_at r.seen) r.now ≡ true
      → Leaves cfg r t taken

-- What becomes of `rotatedAt` in a round that keeps the file: it took a line and did not look at the
-- path, it saw no other file there, or it saw one.
pub data Marks (r : Round) (t : Tail) (rotated_at : Option Time) : Type 0 where
  line_taken :
      ends_line (read_string (drop t.offset r.file)).0 ≡ true
      → rotated_at ≡ t.rotated_at
      → Marks r t rotated_at
  in_place : rotated_at ≡ none → Marks r t rotated_at
  away :
      (inode : ℤ)
      → r.path ≡ there inode
      → eq_ℤ inode t.inode ≡ false
      → rotated_at ≡ some (seen_at t.rotated_at r.seen)
      → Marks r t rotated_at

-- The variables after the reopening.
pub record IsReopened (r : Round) (t t' : Tail) : Type 0 where
  pub opened : reopen_mail_log r.opening ≡ ok (t'.inode, t'.offset)
  pub nothing_pending : t'.pending ≡ []
  pub not_rotated : t'.rotated_at ≡ none
  pub same_count : t'.sequence ≡ t.sequence

pub data Goes (cfg : StreamConfig) (r : Round) (t : Tail) (taken unread : Bytes)
    : Result Tail → Type 0 where
  stops : (e : String) → Goes cfg r t taken unread (err e)
  stays :
      (t' : Tail) → IsAfter t taken t' → Marks r t t'.rotated_at → Goes cfg r t taken unread (ok t')
  leaves :
      (t' : Tail)
      → unread ≡ []
      → sent_for t taken ≡ []
      → Leaves cfg r t taken
      → IsReopened r t t'
      → Goes cfg r t taken unread (ok t')

-- The variables in which the end of the file is met.
abbrev at_eof : Tail → Bytes → Tail
at_eof t s = record t { offset = t.offset + length s; pending = t.pending ++ s }

kept-Goes :
    (cfg : StreamConfig) (r : Round) (t : Tail) (s : Bytes) (rotated_at : Option Time)
    → HasNoNewline s
    → Marks r t rotated_at
    → Goes cfg r t s [] (ok (record (at_eof t s) { rotated_at = rotated_at }))
kept-Goes cfg r t s at h marks =
    stays _
      (record {
        same_file = refl;
        moved = refl;
        kept = sym (unfinished-inside t.pending s h);
        counted = rw (lines-inside t.inode t.sequence t.offset t.pending s h) (omega arith);
      })
      marks

awaited-Goes :
    (cfg : StreamConfig) (r : Round) (t : Tail) (s : Bytes) (waited : Bool) (e : String)
    {next : Result Tail}
    → Goes cfg r t s [] next
    → Goes cfg r t s [] (if waited then next else err e)
awaited-Goes cfg r t s true e h = h
awaited-Goes cfg r t s false e h = stops e

wait-Goes :
    (cfg : StreamConfig) (r : Round) (t : Tail) (s : Bytes) (rotated_at : Option Time)
    → HasNoNewline s
    → Marks r t rotated_at
    → Goes cfg r t s [] (wait r (record (at_eof t s) { rotated_at = rotated_at }))
unfolding wait
wait-Goes cfg r t s at h marks = awaited-Goes cfg r t s r.waited _ (kept-Goes cfg r t s at h marks)

switch-Goes :
    (cfg : StreamConfig) (r : Round) (t : Tail) (s : Bytes) (rotated_at : Option Time)
    → HasNoNewline s
    → Leaves cfg r t s
    → Goes cfg r t s [] (switch r (record (at_eof t s) { rotated_at = rotated_at }))
unfolding switch
switch-Goes cfg r t s at h why = elim (Result-cases (reopen_mail_log r.opening)) [
  | inr (e, p) ↦ rw (switch, p) (stops e)
  | inl (opened, p) ↦
      rw (switch, p)
        (leaves _ refl (lines-inside t.inode t.sequence t.offset t.pending s h) why
          (record { opened = p; nothing_pending = refl; not_rotated = refl; same_count = refl }))
]

rotated-Goes :
    (cfg : StreamConfig) (r : Round) (t : Tail) (s : Bytes) (inode : ℤ)
    → HasNoNewline s
    → r.path ≡ there inode
    → eq_ℤ inode t.inode ≡ false
    → Goes cfg r t s [] (rotated cfg r (at_eof t s))
unfolding rotated
rotated-Goes cfg r t s inode h p e =
    let at = seen_at t.rotated_at r.seen in
    elim (Bool-cases (has_drained cfg.rotation_drain_timeout at r.now)) [
      | inl d ↦ rw d (switch-Goes cfg r t s (some at) h (replaced inode p e d))
      | inr d ↦ rw d (wait-Goes cfg r t s (some at) h (away inode p e refl))
    ]

look-Goes :
    (cfg : StreamConfig) (r : Round) (t : Tail) (s : Bytes) (n : ℕ) (path : PathInfo)
    → HasNoNewline s
    → r.open_size ≡ some n
    → r.path ≡ path
    → Goes cfg r t s [] (look cfg r n path (at_eof t s))
unfolding look
look-Goes cfg r t s n failed h o p = stops _
look-Goes cfg r t s n missing h o p = wait-Goes cfg r t s none h (in_place refl)
look-Goes cfg r t s n (there inode) h o p = elim (Bool-cases (eq_ℤ inode t.inode)) [
  | inr e ↦ rw e (rotated-Goes cfg r t s inode h p e)
  | inl e ↦ elim (Bool-cases (ltb n (t.offset + length s))) [
    | inl l ↦
        rw (e, l) (switch-Goes cfg r t s t.rotated_at h (truncated n inode o (ground arith) p e))
    | inr l ↦ rw (e, l) (wait-Goes cfg r t s none h (in_place refl))
  ]
]

at_end-Goes :
    (cfg : StreamConfig) (r : Round) (t : Tail) (s : Bytes) (n : Option ℕ)
    → HasNoNewline s
    → r.open_size ≡ n
    → Goes cfg r t s [] (at_end cfg r n (at_eof t s))
unfolding at_end
at_end-Goes cfg r t s none h e = stops _
at_end-Goes cfg r t s (some n) h e = look-Goes cfg r t s n r.path h e refl

-- What one round does: the bytes that it takes and those that it leaves unread are the open file's
-- from the offset on.
pub record IsRound (cfg : StreamConfig) (r : Round) (t : Tail)
    (result : List LineRecord × Result Tail) : Type 0 where
  pub taken : Bytes
  pub unread : Bytes
  pub splits : drop t.offset r.file ≡ taken ++ unread
  pub sent : result.0 ≡ sent_for t taken
  pub goes : Goes cfg r t taken unread result.1

step_line :
    (cfg : StreamConfig) (r : Round) (t : Tail) (body : Bytes) (c : Char) (rest : Bytes)
    → HasNoNewline body
    → is_newline c ≡ true
    → drop t.offset r.file ≡ body ++ c ∷ rest
    → read_string (drop t.offset r.file) ≡ (body ++ c ∷ [], false)
    → IsRound cfg r t (step cfg r t)
unfolding step take_chunk send line_record HasNoNewline
step_line cfg r t body c rest h e s p =
    let chunk = body ++ c ∷ [] in
    let sent = lines-line t.inode t.sequence t.offset t.pending body c h e in
    let trimmed =
      ap (λ q. text_of (trim_newline q)) (sym (append_assoc t.pending body (c ∷ [])))
      ∙ ap text_of (trim_newline-line (t.pending ++ body) c e) in
    elim (Bool-cases r.delivered) [
      | inl d ↦
          rw (step, p)
            (rw (ends_line-line body c e, d)
              (record {
                taken = chunk;
                unread = rest;
                splits = s ∙ sym (append_assoc body (c ∷ []) rest);
                sent =
                    ap
                      (λ q.
                        record (the_line t.inode t.sequence (t.offset + length chunk) []) {
                          text = q;
                        }
                        ∷ [])
                      trimmed
                    ∙ sym sent;
                goes =
                    stays _
                      (record {
                        same_file = refl;
                        moved = refl;
                        kept = sym (unfinished-line t.pending body c h e);
                        counted = rw sent (omega arith);
                      })
                      (line_taken (ap (λ q. ends_line q.0) p ∙ ends_line-line body c e) refl);
              }))
      | inr d ↦
          rw (step, p)
            (rw (ends_line-line body c e, d)
              (record {
                taken = [];
                unread = drop t.offset r.file;
                splits = refl;
                sent = sym (lines-inside t.inode t.sequence t.offset t.pending [] tt);
                goes = stops _;
              }))
    ]

after_partial :
    (cfg : StreamConfig) (r : Round) (t : Tail) (s : Bytes) {next : Result Tail}
    → HasNoNewline s
    → drop t.offset r.file ≡ s
    → Goes cfg r t s [] next
    → IsRound cfg r t ([], next)
after_partial cfg r t s h e g = record {
  taken = s;
  unread = [];
  splits = e ∙ sym (append-nil s);
  sent = sym (lines-inside t.inode t.sequence t.offset t.pending s h);
  goes = g;
}

read_or_end :
    (cfg : StreamConfig) (r : Round) (t : Tail) (s : Bytes) (read_fails : Bool)
    → HasNoNewline s
    → drop t.offset r.file ≡ s
    → IsRound cfg r t
        (if read_fails then ([], err "read") else ([], at_end cfg r r.open_size (at_eof t s)))
read_or_end cfg r t s true h e = after_partial cfg r t s h e (stops _)
read_or_end cfg r t s false h e =
    after_partial cfg r t s h e (at_end-Goes cfg r t s r.open_size h refl)

step_partial :
    (cfg : StreamConfig) (r : Round) (t : Tail)
    → HasNoNewline (drop t.offset r.file)
    → read_string (drop t.offset r.file) ≡ (drop t.offset r.file, true)
    → IsRound cfg r t (step cfg r t)
unfolding step take_chunk
step_partial cfg r t h p =
    let s = drop t.offset r.file in
    rw (step, p) (rw (ends_line-partial s h) (read_or_end cfg r t s r.read_fails h refl))

step-of_Reads :
    (cfg : StreamConfig) (r : Round) (t : Tail) {read : Bytes × Bool}
    → read_string (drop t.offset r.file) ≡ read
    → Reads (drop t.offset r.file) read
    → IsRound cfg r t (step cfg r t)
step-of_Reads cfg r t p (line body c rest h e s q) = step_line cfg r t body c rest h e s (p ∙ q)
step-of_Reads cfg r t p (partial h q) = step_partial cfg r t h (p ∙ q)

-- Whatever the calls of a round answer, it sends the records of the lines that end in the bytes it
-- takes, and takes none twice and none out of order. If it goes on, either it keeps the file, with
-- the offset, the number of the next record and the unfinished line that belong to these bytes, or it
-- has taken every byte of the open file and opens the file at the path, since the open one is there
-- and smaller than what is read of it or another has been there for the drain timeout.
pub step-IsRound : (cfg : StreamConfig) (r : Round) (t : Tail) → IsRound cfg r t (step cfg r t)
step-IsRound cfg r t = step-of_Reads cfg r t refl (read_string-Reads (drop t.offset r.file))
