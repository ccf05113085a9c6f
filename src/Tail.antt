-- ===== src/Tail.antt =====
-- The readers of stream.go: validateStreamConfig, openMailLog, reopenMailLog and followMailLog. What
-- the system calls of a round answer is the round's data, since other processes write, rename and
-- truncate the files between any two calls.
pub mod Buffer
pub mod Reading
pub mod Lines
pub mod Rounds
pub mod Rotation
pub mod Growing
pub mod Restart
pub mod Opened
pub mod Progress
pub mod Samples
mod Examples
use kanyigo.Base.{
  ℕ, ◌+◌, String, Bool, true, false, not, ◌&&◌, ◌||◌, Option, none, some, List, [], ◌∷◌, ◌++◌,
  length, str_eq, ltb, leb, if◌then◌else◌,
}
use kanyigo.Base.Int.{ℤ, pos, pos_part, neg_part, leb_ℤ, eq_ℤ}
use kanyigo.LogEntry.{Time}
use kanyigo.Schema.{IngestState}
use kanyigo.Checkpoint.{no_checkpoint}
use kanyigo.Sql.{Result, ok, err}
use kanyigo.MailStore.{LineRecord}
use Buffer.{Bytes, text_of, drop, read_string, ends_line, trim_newline}

-- Durations are in nanoseconds.
pub record StreamConfig : Type 0 where
  pub path : String
  pub poll_interval : ℤ
  pub rotation_drain_timeout : ℤ
  pub queue_idle_timeout : ℤ
  pub processing_workers : ℤ

unfoldable pub validate_stream_config : StreamConfig → Result (Unit {0})
validate_stream_config cfg =
    if str_eq cfg.path ""
    then err "maillog path is required"
    else if leb_ℤ cfg.poll_interval (pos 0)
        || leb_ℤ cfg.rotation_drain_timeout (pos 0)
        || leb_ℤ cfg.queue_idle_timeout (pos 0)
    then err "poll interval, rotation drain timeout, and queue idle timeout must be positive"
    else if leb_ℤ cfg.processing_workers (pos 0)
    then err "processing workers must be positive"
    else ok tt

-- What Stat tells: fileInode and Size.
pub record FileInfo : Type 0 where
  pub inode : ℤ
  pub size : ℕ

-- The answers of the calls that open a file: Open, Stat (`none` is an error) and Seek, and the
-- Close of the file that was open before.
pub record Opening : Type 0 where
  pub open_ok : Bool
  pub info : Option FileInfo
  pub seek_ok : Bool
  pub close_ok : Bool

-- `checkpoint.Inode == inode && checkpoint.OffsetBytes >= 0 && checkpoint.OffsetBytes <= info.Size()`
start_offset : IngestState → FileInfo → ℕ
start_offset checkpoint info =
    if eq_ℤ checkpoint.inode info.inode
      && leb_ℤ (pos 0) checkpoint.offset_bytes
      && leb_ℤ checkpoint.offset_bytes (pos info.size)
    then pos_part checkpoint.offset_bytes
    else 0

-- The inode and the offset of the file that is open afterwards.
unfoldable pub open_mail_log : Opening → IngestState → Result (ℤ × ℕ)
unfolding start_offset
open_mail_log o checkpoint = if not o.open_ok then err "open maillog" else (elim o.info [
  | none ↦ err "stat maillog"
  | some info ↦
      if not o.seek_ok then err "seek maillog" else ok (info.inode, start_offset checkpoint info)
])

unfoldable pub reopen_mail_log : Opening → Result (ℤ × ℕ)
reopen_mail_log o = elim (open_mail_log o no_checkpoint) [
  | err e ↦ err e
  | ok opened ↦ if not o.close_ok then err "close rotated maillog" else ok opened
]

-- `os.Stat(cfg.Path)`: an error, no such file, or a file with an inode.
pub data PathInfo : Type 0 where
  failed missing : PathInfo
  there : ℤ → PathInfo

-- What one round of the loop meets: what the open file holds when it is read, and whether that read
-- breaks off with an error other than io.EOF; whether the record is taken before the context ends;
-- the two Stat calls; the two readings of the clock; the calls of a reopening; and whether the
-- interval passes before the context ends.
pub record Round : Type 0 where
  pub file : Bytes
  pub read_fails : Bool
  pub delivered : Bool
  pub open_size : Option ℕ
  pub path : PathInfo
  pub seen : Time
  pub now : Time
  pub opening : Opening
  pub waited : Bool

-- The variables of the loop; `rotated_at` is `none` for the zero time.
pub record Tail : Type 0 where
  pub inode : ℤ
  pub offset : ℕ
  pub pending : Bytes
  pub rotated_at : Option Time
  pub sequence : ℕ

-- The `select` at the end of a round
unfoldable wait : Round → Tail → Result Tail
wait r t = if r.waited then ok t else err "context canceled"

-- The reopening, with the assignments behind it
unfoldable switch : Round → Tail → Result Tail
switch r t = elim (reopen_mail_log r.opening) [
  | err e ↦ err e
  | ok (inode, offset) ↦
      ok (record t { inode = inode; offset = offset; pending = []; rotated_at = none })
]

-- `if rotatedAt.IsZero() { rotatedAt = time.Now() }`
abbrev pub seen_at : Option Time → Time → Time
seen_at none now = now
seen_at (some rotated_at) now = rotated_at

-- `time.Since(rotatedAt) >= cfg.RotationDrainTimeout`
unfoldable pub has_drained : ℤ → Time → Time → Bool
has_drained timeout rotated_at now = leb (pos_part timeout + rotated_at) (now + neg_part timeout)

-- The case of another file at the path
unfoldable rotated : StreamConfig → Round → Tail → Result Tail
unfolding wait switch
rotated cfg r t =
    let at = seen_at t.rotated_at r.seen in
    if has_drained cfg.rotation_drain_timeout at r.now
    then switch r (record t { rotated_at = some at })
    else wait r (record t { rotated_at = some at })

-- The `switch` on the file at the path, with the size of the open file
unfoldable look : StreamConfig → Round → ℕ → PathInfo → Tail → Result Tail
unfolding wait switch rotated
look cfg r size failed t = err "stat maillog path"
look cfg r size missing t = wait r (record t { rotated_at = none })
look cfg r size (there inode) t =
    if eq_ℤ inode t.inode && ltb size t.offset
    then switch r t
    else if not (eq_ℤ inode t.inode)
    then rotated cfg r t
    else wait r (record t { rotated_at = none })

-- The rest of a round, after io.EOF, with `file.Stat()`
unfoldable at_end : StreamConfig → Round → Option ℕ → Tail → Result Tail
unfolding look
at_end cfg r none t = err "stat open maillog"
at_end cfg r (some size) t = look cfg r size r.path t

-- `chunk, readErr := reader.ReadString('\n')`, the offset and the pending text
unfoldable pub take_chunk : Round → Tail → Tail
take_chunk r t =
    let (chunk, _) = read_string (drop t.offset r.file) in
    record t { offset = t.offset + length chunk; pending = t.pending ++ chunk }

unfoldable pub line_record : Tail → LineRecord
line_record t = record {
  sequence = t.sequence;
  text = text_of (trim_newline t.pending);
  inode = t.inode;
  offset = pos t.offset;
}

-- The record of a whole line, unless the context ends first
unfoldable send : Round → Tail → List LineRecord × Result Tail
send r t =
    if r.delivered
    then (line_record t ∷ [], ok (record t { sequence = t.sequence + 1; pending = [] }))
    else ([], err "context canceled")

-- One round of the loop: what it sends, and how it goes on.
unfoldable pub step : StreamConfig → Round → Tail → List LineRecord × Result Tail
unfolding at_end send
step cfg r t =
    let (chunk, eof) = read_string (drop t.offset r.file) in
    let t' = take_chunk r t in
    if ends_line chunk
    then send r t'
    else if r.read_fails
    then ([], err "read")
    else ([], at_end cfg r r.open_size t')

-- The rounds that follow, unless the loop has returned
abbrev pub and_then :
    (Tail → List LineRecord × Result Tail)
    → List LineRecord
    → Result Tail
    → List LineRecord × Result Tail
and_then go_on sent (err e) = (sent, err e)
and_then go_on sent (ok t) = let (later, last) = go_on t in (sent ++ later, last)

unfoldable pub follow : StreamConfig → List Round → Tail → List LineRecord × Result Tail
follow cfg [] t = ([], ok t)
follow cfg (r ∷ rounds) t =
    let (sent, next) = step cfg r t in and_then (follow cfg rounds) sent next

unfoldable pub first_round : ℤ → ℕ → Tail
first_round inode offset = record {
  inode = inode;
  offset = offset;
  pending = [];
  rotated_at = none;
  sequence = 0;
}

unfoldable pub follow_mail_log :
    StreamConfig → Opening → IngestState → List Round → List LineRecord × Result Tail
follow_mail_log cfg opening checkpoint rounds = elim (validate_stream_config cfg) [
  | err e ↦ ([], err e)
  | ok _ ↦ elim (open_mail_log opening checkpoint) [
    | err e ↦ ([], err e)
    | ok (inode, offset) ↦ follow cfg rounds (first_round inode offset)
  ]
]
