-- ===== src/Tail/Restart.antt =====
-- A restart of followMailLog of stream.go from the checkpoint that a record leaves.
use Prim.Native.Char.{Char}
use kanyigo.Base.{
  String, ℕ, suc, ◌+◌, ◌≤◌, ◌≡◌, refl, sym, ap, subst, ◌∙◌, true, inl, inr, Bool-cases, some, List,
  [], ◌∷◌, ◌++◌, map, length, length-append, arith,
}
use mathlib.Core.List.{append_assoc}
use kanyigo.Base.Int.{ℤ, pos}
use kanyigo.Sql.{Result, ok}
use kanyigo.Schema.{IngestState}
use kanyigo.MailStore.{LineRecord}
use kanyigo.Tail.{
  StreamConfig, Opening, Round, Tail, validate_stream_config, start_offset, open_mail_log, follow,
  first_round, follow_mail_log,
}
use kanyigo.Tail.Buffer.{Bytes, text_of, is_newline}
use kanyigo.Tail.Lines.{the_line, lines, unfinished, lines-append}
use kanyigo.Tail.Growing.{Grows, last_file, IsFollowed, follow-IsFollowed}

-- The lines and their places in the file, without the numbers of the records.
abbrev pub contents : List LineRecord → List (String × ℤ)
contents = map (λ r. (r.text, r.offset))

contents-append : (xs ys : List LineRecord) → contents (xs ++ ys) ≡ contents xs ++ contents ys
contents-append [] ys = refl
contents-append (x ∷ xs) ys = ap (λ l. (x.text, x.offset) ∷ l) (contents-append xs ys)

contents-lines :
    (inode : ℤ) (n m o : ℕ) (p s : Bytes)
    → contents (lines inode n o p s) ≡ contents (lines inode m o p s)
unfolding lines
contents-lines inode n m o p [] = refl
contents-lines inode n m o p (c ∷ s) = elim (Bool-cases (is_newline c)) [
  | inl e ↦
      rw e
        (ap (λ l. (text_of p, pos (suc o)) ∷ l) (contents-lines inode (suc n) (suc m) (suc o) [] s))
  | inr e ↦ rw e (contents-lines inode n m (suc o) (p ++ c ∷ []) s)
]

-- The part of a text up to the newline of a record.
pub record IsCut (inode : ℤ) (n o : ℕ) (p s : Bytes) (xs : List LineRecord) (r : LineRecord)
    : Type 0 where
  pub upto : Bytes
  pub behind : Bytes
  pub splits : s ≡ upto ++ behind
  pub sent : lines inode n o p upto ≡ xs ++ r ∷ []
  pub whole : unfinished p upto ≡ []
  pub offset_is : r.offset ≡ pos (o + length upto)
  pub inode_is : r.inode ≡ inode

IsCut-newline :
    (inode : ℤ) (n o : ℕ) (p s : Bytes) {c : Char} {ys : List LineRecord} (xs : List LineRecord)
    (r : LineRecord)
    → is_newline c ≡ true
    → the_line inode n (suc o) p ∷ lines inode (suc n) (suc o) [] s ≡ xs ++ r ∷ ys
    → ((xs' : List LineRecord)
        → lines inode (suc n) (suc o) [] s ≡ xs' ++ r ∷ ys
        → IsCut inode (suc n) (suc o) [] s xs' r)
    → IsCut inode n o p (c ∷ s) xs r
unfolding lines unfinished
IsCut-newline inode n o p s {c} [] r e h ih =
    let same : the_line inode n (suc o) p ≡ r = cc (h) in
    record {
      upto = c ∷ [];
      behind = s;
      splits = refl;
      sent = rw e (ap (λ l. l ∷ []) same);
      whole = rw e;
      offset_is = sym (ap (λ l. l.offset) same) ∙ ap pos (omega arith);
      inode_is = sym (ap (λ l. l.inode) same);
    }
IsCut-newline inode n o p s {c} (x ∷ xs) r e h ih =
    let cut = ih xs (cc (h)) in
    record {
      upto = c ∷ cut.upto;
      behind = cut.behind;
      splits = ap (λ l. c ∷ l) cut.splits;
      sent = rw e (cc (h, cut.sent));
      whole = rw e cut.whole;
      offset_is = cut.offset_is ∙ ap pos (omega arith);
      inode_is = cut.inode_is;
    }

pub lines-IsCut :
    (inode : ℤ) (n o : ℕ) (p s : Bytes) (xs : List LineRecord) (r : LineRecord)
    (ys : List LineRecord)
    → lines inode n o p s ≡ xs ++ r ∷ ys
    → IsCut inode n o p s xs r
unfolding lines unfinished
lines-IsCut inode n o p [] [] r ys h = absurd (cc)
lines-IsCut inode n o p [] (x ∷ xs) r ys h = absurd (cc)
lines-IsCut inode n o p (c ∷ s) xs r ys h = elim (Bool-cases (is_newline c)) [
  | inl e ↦
      IsCut-newline inode n o p s xs r e (rw e at h)
        (λ xs'. lines-IsCut inode (suc n) (suc o) [] s xs' r ys)
  | inr e ↦
      let cut = lines-IsCut inode n (suc o) (p ++ c ∷ []) s xs r ys (rw e at h) in
      record {
        upto = c ∷ cut.upto;
        behind = cut.behind;
        splits = ap (λ l. c ∷ l) cut.splits;
        sent = rw e cut.sent;
        whole = rw e cut.whole;
        offset_is = cut.offset_is ∙ ap pos (omega arith);
        inode_is = cut.inode_is;
      }
]

-- The file at the path is the one of the checkpoint, and no smaller.
open_mail_log-at :
    (opening : Opening) (inode : ℤ) (n size : ℕ)
    → opening.open_ok ≡ true
    → opening.seek_ok ≡ true
    → opening.info ≡ some (record { inode = inode; size = size })
    → n ≤ size
    → open_mail_log opening (record { offset_bytes = pos n; inode = inode }) ≡ ok (inode, n)
unfolding open_mail_log start_offset
open_mail_log-at opening inode n size o s i h =
    rw (o, i, s) (ap (λ k. ok (inode, k)) (ground arith))

-- The first run sends the records `xs`, then `r`, then others; the second begins with the checkpoint
-- of `r`.
pub record IsContinued (inode : ℤ) (o : ℕ) (before f : Bytes) (xs : List LineRecord)
    (r : LineRecord) (result : List LineRecord × Result Tail) : Type 0 where
  pub joint : Bytes
  pub unread : Bytes
  pub splits : f ≡ before ++ (joint ++ unread)
  pub sent : contents (xs ++ r ∷ []) ++ contents result.0 ≡ contents (lines inode 0 o [] joint)

join_runs :
    (inode : ℤ) (o : ℕ) (before f s : Bytes) (xs : List LineRecord) (r : LineRecord)
    (cut : IsCut inode 0 o [] s xs r) {result : List LineRecord × Result Tail}
    → IsFollowed (first_round inode (o + length cut.upto)) (before ++ cut.upto) f result
    → IsContinued inode o before f xs r result
unfolding first_round
join_runs inode o before f s xs r cut {result} second =
    let m = length (lines inode 0 o [] cut.upto) in
    record {
      joint = cut.upto ++ second.taken;
      unread = second.unread;
      splits =
          second.splits
          ∙ append_assoc before cut.upto (second.taken ++ second.unread)
          ∙ ap (λ g. before ++ g) (sym (append_assoc cut.upto second.taken second.unread));
      sent =
          ap (λ l. contents l ++ contents result.0) (sym cut.sent)
          ∙ ap (λ l. contents (lines inode 0 o [] cut.upto) ++ contents l) second.sent
          ∙ ap (λ l. contents (lines inode 0 o [] cut.upto) ++ l)
              (contents-lines inode 0 (0 + m) (o + length cut.upto) [] second.taken)
          ∙ sym (contents-append (lines inode 0 o [] cut.upto) _)
          ∙ ap
              (λ q. contents (
                lines inode 0 o [] cut.upto
                ++ lines inode (0 + m) (o + length cut.upto) q second.taken))
              (sym cut.whole)
          ∙ ap contents (sym (lines-append inode 0 o [] cut.upto second.taken));
    }

follow_mail_log-follow :
    (cfg : StreamConfig) (opening : Opening) (checkpoint : IngestState) (rounds : List Round)
    (inode : ℤ) (n : ℕ)
    → validate_stream_config cfg ≡ ok tt
    → open_mail_log opening checkpoint ≡ ok (inode, n)
    → follow_mail_log cfg opening checkpoint rounds ≡ follow cfg rounds (first_round inode n)
unfolding follow_mail_log
follow_mail_log-follow cfg opening checkpoint rounds inode n v e = rw (follow_mail_log, v, e)

second_run :
    (cfg : StreamConfig) (rounds : List Round) (inode : ℤ) (o : ℕ) (before f more s unread : Bytes)
    (xs : List LineRecord) (r : LineRecord) (opening : Opening)
    → f ≡ before ++ (s ++ unread)
    → length before ≡ o
    → IsCut inode 0 o [] s xs r
    → validate_stream_config cfg ≡ ok tt
    → opening.open_ok ≡ true
    → opening.seek_ok ≡ true
    → opening.info ≡ some (record { inode = inode; size = length (f ++ more) })
    → Grows inode (f ++ more) rounds
    → IsContinued inode o before
        (last_file (f ++ more) rounds)
        xs
        r
        (follow_mail_log cfg opening (record { offset_bytes = r.offset; inode = r.inode }) rounds)
unfolding first_round
second_run cfg rounds inode o before f more s unread xs r opening e at cut v opens seeks info
      grows =
    let n = o + length cut.upto in
    let left = cut.behind ++ (unread ++ more) in
    let place : f ++ more ≡ (before ++ cut.upto) ++ left =
      ap (λ g. g ++ more) (e ∙ ap (λ s. before ++ (s ++ unread)) cut.splits) ∙ simp append_assoc in
    let at' : length (before ++ cut.upto) ≡ n = omega (arith, length-append before cut.upto, at) in
    let fits : n ≤ length (f ++ more) =
      omega (arith, at', ap length place, length-append (before ++ cut.upto) left) in
    let opened = open_mail_log-at opening inode n (length (f ++ more)) opens seeks info fits in
    let checkpoint : IngestState = record { offset_bytes = r.offset; inode = r.inode } in
    let same : follow_mail_log cfg opening checkpoint rounds
        ≡ follow cfg rounds (first_round inode n) =
      rw (cut.offset_is, cut.inode_is)
        (follow_mail_log-follow cfg opening _ rounds inode n v opened) in
    subst (IsContinued inode o before (last_file (f ++ more) rounds) xs r) (sym same) (
      join_runs inode o before _ s xs r cut (
        follow-IsFollowed cfg rounds (first_round inode n) (f ++ more) (before ++ cut.upto) left
          place at' grows))

-- A restart loses no line and repeats none. The first run sends records while the file is only
-- appended to; the record `r` is the last whose checkpoint is kept, and the file grows on. If the
-- calls of the opening succeed and find this file, the lines up to `r`, with their offsets, followed
-- by those of the second run are the lines that end in one stretch of the file, from the first
-- offset on.
pub follow_mail_log-IsContinued :
    (cfg : StreamConfig) (first second : List Round) (inode : ℤ) (o : ℕ)
    (f before left more : Bytes) (xs : List LineRecord) (r : LineRecord) (ys : List LineRecord)
    (opening : Opening)
    → f ≡ before ++ left
    → length before ≡ o
    → Grows inode f first
    → (follow cfg first (first_round inode o)).0 ≡ xs ++ r ∷ ys
    → validate_stream_config cfg ≡ ok tt
    → opening.open_ok ≡ true
    → opening.seek_ok ≡ true
    → opening.info ≡ some (record { inode = inode; size = length (last_file f first ++ more) })
    → Grows inode (last_file f first ++ more) second
    → IsContinued inode o before
        (last_file (last_file f first ++ more) second)
        xs
        r
        (follow_mail_log cfg opening (record { offset_bytes = r.offset; inode = r.inode }) second)
unfolding first_round
follow_mail_log-IsContinued cfg first second inode o f before left more xs r ys opening here at
      grows h =
    let run = follow-IsFollowed cfg first (first_round inode o) f before left here at grows in
    second_run cfg second inode o before (last_file f first) more run.taken run.unread xs r opening
      run.splits at (lines-IsCut inode 0 o [] run.taken xs r ys (sym run.sent ∙ h))
