-- ===== src/Tail/Rotation.antt =====
-- When followMailLog of stream.go leaves a file for the one at its path, over the rounds of a run.
use kanyigo.Base.{
  String, ℕ, ◌+◌, ◌<◌, ◌≤◌, ◌≡◌, refl, sym, subst, true, false, Option, none, some, List, [], ◌∷◌,
  ◌++◌, length, arith,
}
use kanyigo.Base.Int.{ℤ, pos_part, neg_part, eq_ℤ}
use kanyigo.LogEntry.{Time}
use kanyigo.Sql.{Result, ok, err}
use kanyigo.MailStore.{LineRecord}
use kanyigo.Tail.{StreamConfig, Round, Tail, there, seen_at, has_drained, step}
use kanyigo.Tail.Buffer.{Bytes, drop, read_string, ends_line}
use kanyigo.Tail.Rounds.{
  sent_for, IsAfter, Leaves, truncated, replaced, Marks, line_taken, in_place, away, IsReopened,
  Goes, stops, stays, leaves, step-IsRound,
}

-- The rounds of a run so far, the newest first, each with the variables that it met.
pub data Runs (cfg : StreamConfig) (t₀ : Tail) : List (Round × Tail) → Tail → Type 0 where
  begin : Runs cfg t₀ [] t₀
  next :
      {past : List (Round × Tail)} {t : Tail} (r : Round) (t' : Tail)
      → Runs cfg t₀ past t
      → (step cfg r t).1 ≡ ok t'
      → Runs cfg t₀ ((r, t) ∷ past) t'

-- Another file than `inode` has been at the path since `since`: a round first saw it at this time, and
-- every round after it either saw one too, or took a whole line and did not look.
pub data IsReplacedSince (inode : ℤ) (since : Time) : List (Round × Tail) → Type 0 where
  first_seen :
      {past : List (Round × Tail)} (r : Round) (t : Tail) (other : ℤ)
      → r.path ≡ there other
      → eq_ℤ other inode ≡ false
      → r.seen ≡ since
      → IsReplacedSince inode since ((r, t) ∷ past)
  seen_again :
      {past : List (Round × Tail)} (r : Round) (t : Tail) (other : ℤ)
      → r.path ≡ there other
      → eq_ℤ other inode ≡ false
      → IsReplacedSince inode since past
      → IsReplacedSince inode since ((r, t) ∷ past)
  not_looked :
      {past : List (Round × Tail)} (r : Round) (t : Tail)
      → ends_line (read_string (drop t.offset r.file)).0 ≡ true
      → IsReplacedSince inode since past
      → IsReplacedSince inode since ((r, t) ∷ past)

-- Why a run leaves its file in a round: the open file is still there and smaller than what is read of
-- it, or another file has been there for the drain timeout.
pub data LeavesAfter (cfg : StreamConfig) (past : List (Round × Tail)) (r : Round) (t : Tail)
    (taken : Bytes) : Type 0 where
  shrunk :
      (n : ℕ) (inode : ℤ)
      → r.open_size ≡ some n
      → n < t.offset + length taken
      → r.path ≡ there inode
      → eq_ℤ inode t.inode ≡ true
      → LeavesAfter cfg past r t taken
  drained :
      (since : Time)
      → IsReplacedSince t.inode since ((r, t) ∷ past)
      → pos_part cfg.rotation_drain_timeout + since ≤ r.now + neg_part cfg.rotation_drain_timeout
      → LeavesAfter cfg past r t taken

pub data GoesAfter (cfg : StreamConfig) (past : List (Round × Tail)) (r : Round) (t : Tail)
    (taken unread : Bytes) : Result Tail → Type 0 where
  ends : (e : String) → GoesAfter cfg past r t taken unread (err e)
  keeps : (t' : Tail) → IsAfter t taken t' → GoesAfter cfg past r t taken unread (ok t')
  opens :
      (t' : Tail)
      → unread ≡ []
      → sent_for t taken ≡ []
      → LeavesAfter cfg past r t taken
      → IsReopened r t t'
      → GoesAfter cfg past r t taken unread (ok t')

-- A round of a run.
pub record IsRoundOf (cfg : StreamConfig) (past : List (Round × Tail)) (r : Round) (t : Tail)
    (result : List LineRecord × Result Tail) : Type 0 where
  pub taken : Bytes
  pub unread : Bytes
  pub splits : drop t.offset r.file ≡ taken ++ unread
  pub sent : result.0 ≡ sent_for t taken
  pub goes : GoesAfter cfg past r t taken unread result.1

-- What `rotatedAt` says.
abbrev IsMarked : ℤ → Option Time → List (Round × Tail) → Type 0
IsMarked inode none past = Unit
IsMarked inode (some since) past = IsReplacedSince inode since past

seen_at-IsReplacedSince :
    (r : Round) (t : Tail) (past : List (Round × Tail)) (other inode : ℤ) (rotated_at : Option Time)
    → r.path ≡ there other
    → eq_ℤ other inode ≡ false
    → IsMarked inode rotated_at past
    → IsReplacedSince inode (seen_at rotated_at r.seen) ((r, t) ∷ past)
seen_at-IsReplacedSince r t past other inode none p e h = first_seen r t other p e refl
seen_at-IsReplacedSince r t past other inode (some since) p e h = seen_again r t other p e h

not_looked-IsMarked :
    (r : Round) (t : Tail) (past : List (Round × Tail)) (inode : ℤ) (rotated_at : Option Time)
    → ends_line (read_string (drop t.offset r.file)).0 ≡ true
    → IsMarked inode rotated_at past
    → IsMarked inode rotated_at ((r, t) ∷ past)
not_looked-IsMarked r t past inode none e h = tt
not_looked-IsMarked r t past inode (some since) e h = not_looked r t e h

Marks-IsMarked :
    (r : Round) (t : Tail) (past : List (Round × Tail)) {rotated_at : Option Time}
    → Marks r t rotated_at
    → IsMarked t.inode t.rotated_at past
    → IsMarked t.inode rotated_at ((r, t) ∷ past)
Marks-IsMarked r t past (line_taken e s) h =
    subst (λ o. IsMarked t.inode o ((r, t) ∷ past)) (sym s)
      (not_looked-IsMarked r t past t.inode t.rotated_at e h)
Marks-IsMarked r t past (in_place s) h = subst (λ o. IsMarked t.inode o ((r, t) ∷ past)) (sym s) tt
Marks-IsMarked r t past (away other p e s) h =
    subst (λ o. IsMarked t.inode o ((r, t) ∷ past)) (sym s)
      (seen_at-IsReplacedSince r t past other t.inode t.rotated_at p e h)

Goes-IsMarked :
    (cfg : StreamConfig) (r : Round) (t : Tail) (past : List (Round × Tail)) (taken unread : Bytes)
    {result : Result Tail} (t' : Tail)
    → Goes cfg r t taken unread result
    → result ≡ ok t'
    → IsMarked t.inode t.rotated_at past
    → IsMarked t'.inode t'.rotated_at ((r, t) ∷ past)
Goes-IsMarked cfg r t past taken unread t' (stops e) s h = absurd (cc)
Goes-IsMarked cfg r t past taken unread t' (stays t'' after marks) s h =
    let same : t'' ≡ t' = cc (s) in
    subst (λ (u : Tail). IsMarked u.inode u.rotated_at ((r, t) ∷ past)) same
      (subst (λ i. IsMarked i t''.rotated_at ((r, t) ∷ past)) (sym after.same_file)
        (Marks-IsMarked r t past marks h))
Goes-IsMarked cfg r t past taken unread t' (leaves t'' _ _ _ reopened) s h =
    let same : t'' ≡ t' = cc (s) in
    subst (λ (u : Tail). IsMarked u.inode u.rotated_at ((r, t) ∷ past)) same
      (subst (λ o. IsMarked t''.inode o ((r, t) ∷ past)) (sym reopened.not_rotated) tt)

Runs-IsMarked :
    (cfg : StreamConfig) (t₀ : Tail) {past : List (Round × Tail)} {t : Tail}
    → t₀.rotated_at ≡ none
    → Runs cfg t₀ past t
    → IsMarked t.inode t.rotated_at past
Runs-IsMarked cfg t₀ fresh begin = subst (λ o. IsMarked t₀.inode o []) (sym fresh) tt
Runs-IsMarked cfg t₀ fresh (next {past = past} {t = t} r t' runs s) =
    let round = step-IsRound cfg r t in
    Goes-IsMarked cfg r t past round.taken round.unread t' round.goes s
      (Runs-IsMarked cfg t₀ fresh runs)

Leaves-LeavesAfter :
    (cfg : StreamConfig) (r : Round) (t : Tail) (past : List (Round × Tail)) (taken : Bytes)
    → IsMarked t.inode t.rotated_at past
    → Leaves cfg r t taken
    → LeavesAfter cfg past r t taken
unfolding has_drained
Leaves-LeavesAfter cfg r t past taken h (truncated n inode o l p e) = shrunk n inode o l p e
Leaves-LeavesAfter cfg r t past taken h (replaced other p e d) =
    drained (seen_at t.rotated_at r.seen)
      (seen_at-IsReplacedSince r t past other t.inode t.rotated_at p e h) (ground arith)

Goes-GoesAfter :
    (cfg : StreamConfig) (r : Round) (t : Tail) (past : List (Round × Tail)) (taken unread : Bytes)
    {result : Result Tail}
    → IsMarked t.inode t.rotated_at past
    → Goes cfg r t taken unread result
    → GoesAfter cfg past r t taken unread result
Goes-GoesAfter cfg r t past taken unread h (stops e) = ends e
Goes-GoesAfter cfg r t past taken unread h (stays t' after _) = keeps t' after
Goes-GoesAfter cfg r t past taken unread h (leaves t' none_left none_sent why reopened) =
    opens t' none_left none_sent (Leaves-LeavesAfter cfg r t past taken h why) reopened

-- Whatever the calls of the rounds of a run answer, a round sends the records of the lines that end in
-- the bytes it takes, and takes none twice and none out of order. If it goes on, either it keeps the
-- file, with the offset, the number of the next record and the unfinished line that belong to these
-- bytes; or it has taken every byte of the open file and opens the file at the path. That it does only
-- if the open file is at the path and smaller than what is read of it, or if another file has been
-- there for the drain timeout: from the round on that first saw it, every round that looked saw one.
pub step-IsRoundOf :
    (cfg : StreamConfig) (t₀ : Tail) (past : List (Round × Tail)) (t : Tail) (r : Round)
    → t₀.rotated_at ≡ none
    → Runs cfg t₀ past t
    → IsRoundOf cfg past r t (step cfg r t)
step-IsRoundOf cfg t₀ past t r fresh runs =
    let round = step-IsRound cfg r t in
    record {
      taken = round.taken;
      unread = round.unread;
      splits = round.splits;
      sent = round.sent;
      goes =
          Goes-GoesAfter cfg r t past round.taken round.unread (Runs-IsMarked cfg t₀ fresh runs)
            round.goes;
    }
