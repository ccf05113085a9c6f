-- ===== src/MailStore.antt =====
-- The rows that the mail log ingestor writes: persistMailLogRecord, insertRawEntry,
-- mergeMailTransaction and evictExpiredTransactions of continuous_ingest.go. `now` is NOW(), the
-- start of the transaction. The advisory lock only orders transactions, which are one after another
-- here. A REAL column keeps what its server makes of the float64.
pub mod Merge
pub mod Unique
pub mod Agreement
pub mod Refines
pub mod Persist
pub mod Consistent
mod Examples
use kanyigo.Base.{
  ℕ, ◌+◌, ◌^◌, String, Bool, true, false, ◌||◌, ◌&&◌, not, Option, none, some, List, [], ◌∷◌, ltb,
  suc, str_eq, if◌then◌else◌,
}
use Prim.Native.String as NativeString
use kanyigo.Base.Int.{ℤ, pos, negsuc}
use kanyigo.LogEntry.{LogEntry, Time, Float64}
use kanyigo.Schema.{Database, MailRow, Reals}
use kanyigo.Sql.{Result, ok, err, Sql, Conn, exec, exec_auto, in_tx, pure, ◌>>=◌, ◌>>◌}
use kanyigo.Checkpoint.{set_ingest_state_tx}
use kanyigo.Stitcher.{is_terminal_status, overwrite, overwrite_ptr}

-- `lineRecord` of stream.go
pub record LineRecord : Type 0 where
  pub sequence : ℕ
  pub text : String
  pub inode : ℤ
  pub offset : ℤ

-- An INTEGER column takes 32 bits.
unfoldable pub fits_integer : Option ℤ → Bool
fits_integer none = true
fits_integer (some (pos n)) = ltb n (2 ^ 31)
fits_integer (some (negsuc n)) = ltb n (2 ^ 31)

abbrev pub fits_real : Reals → Option Float64 → Bool
fits_real reals none = true
fits_real reals (some x) = reals.in_range x

-- The columns take the numbers of an entry.
unfoldable pub fits_columns : Reals → LogEntry → Bool
fits_columns reals entry =
    fits_integer entry.size_bytes
    && fits_real reals entry.delay
    && fits_real reals entry.hits
    && fits_real reals entry.spam_score

-- A parameter of a REAL column
abbrev pub real : Reals → Option Float64 → Option Float64
real reals none = none
real reals (some x) = some (reals.single x)

unfoldable pub has_hash : String → List LogEntry → Bool
has_hash hash [] = false
has_hash hash (entry ∷ entries) = str_eq entry.raw_hash hash || has_hash hash entries

-- The row of maillog_entries
abbrev pub entry_row : Reals → LogEntry → LogEntry
entry_row reals entry = record entry {
  delay = real reals entry.delay;
  hits = real reals entry.hits;
  spam_score = real reals entry.spam_score;
}

-- INSERT INTO maillog_entries … ON CONFLICT(raw_hash) DO NOTHING; true if a row was written
unfoldable pub insert_raw : LogEntry → Database → Result (Bool × Database)
unfolding has_hash
insert_raw entry db =
    if not (fits_columns db.reals entry)
    then err "value out of range"
    else if has_hash entry.raw_hash db.maillog_entries
    then ok (false, db)
    else ok (true, record db { maillog_entries = entry_row db.reals entry ∷ db.maillog_entries })

unfoldable pub insert_raw_entry : LogEntry → Sql Database Bool
insert_raw_entry entry = exec (insert_raw entry)

-- `CASE WHEN raw = '' THEN $22 ELSE raw || E'\n' || $22 END`
unfoldable pub append_raw : String → String → String
append_raw raw text =
    if str_eq raw "" then text else NativeString.◌++◌ raw (NativeString.◌++◌ "\n" text)

-- The SET clause of the UPDATE.
unfoldable pub merge_row : Reals → Time → LogEntry → MailRow → MailRow
merge_row reals now entry row = record row {
  last_ts_utc = entry.ts_utc;
  host = overwrite entry.host row.host;
  process = overwrite entry.process row.process;
  mail_from = overwrite entry.mail_from row.mail_from;
  mail_to = overwrite entry.mail_to row.mail_to;
  status = overwrite entry.status row.status;
  relay = overwrite entry.relay row.relay;
  delay = overwrite_ptr (real reals entry.delay) row.delay;
  delays = overwrite entry.delays row.delays;
  dsn = overwrite entry.dsn row.dsn;
  message_id = overwrite entry.message_id row.message_id;
  size_bytes = overwrite_ptr entry.size_bytes row.size_bytes;
  queued_as = overwrite entry.queued_as row.queued_as;
  mail_id = overwrite entry.mail_id row.mail_id;
  subject = overwrite entry.subject row.subject;
  hits = overwrite_ptr (real reals entry.hits) row.hits;
  helo = overwrite entry.helo row.helo;
  amavis_origin = overwrite entry.amavis_origin row.amavis_origin;
  is_junk = row.is_junk || entry.is_junk;
  spam_score = overwrite_ptr (real reals entry.spam_score) row.spam_score;
  raw = append_raw row.raw entry.raw;
  terminal = row.terminal || is_terminal_status entry.status;
  updated_at = now;
}

-- The VALUES of the INSERT.
unfoldable pub new_row : Reals → ℕ → Time → LogEntry → MailRow
new_row reals id now entry = record {
  id = id;
  arrival_ts_utc = entry.ts_utc;
  last_ts_utc = entry.ts_utc;
  queue_id = entry.queue_id;
  host = entry.host;
  process = entry.process;
  mail_from = entry.mail_from;
  mail_to = entry.mail_to;
  status = entry.status;
  relay = entry.relay;
  delay = real reals entry.delay;
  delays = entry.delays;
  dsn = entry.dsn;
  message_id = entry.message_id;
  size_bytes = entry.size_bytes;
  queued_as = entry.queued_as;
  mail_id = entry.mail_id;
  subject = entry.subject;
  hits = real reals entry.hits;
  helo = entry.helo;
  amavis_origin = entry.amavis_origin;
  is_junk = entry.is_junk;
  spam_score = real reals entry.spam_score;
  raw = entry.raw;
  terminal = is_terminal_status entry.status;
  timed_out = false;
  updated_at = now;
}

-- `queue_id = $1 AND terminal = FALSE`
unfoldable pub is_active : String → MailRow → Bool
is_active key row = str_eq row.queue_id key && not row.terminal

-- The first such row, which has the highest id; the rows have the newest first.
unfoldable pub active : String → List MailRow → Option MailRow
active key [] = none
active key (row ∷ rows) = if is_active key row then some row else active key rows

-- The UPDATE of that row.
unfoldable pub update_active : String → (MailRow → MailRow) → List MailRow → List MailRow
update_active key f [] = []
update_active key f (row ∷ rows) =
    if is_active key row then f row ∷ rows else row ∷ update_active key f rows

-- The rows affected by the UPDATE: 1 if there is an active row, else 0.
unfoldable pub update_transaction : Time → LogEntry → Database → Result (Bool × Database)
update_transaction now entry db =
    if not (fits_columns db.reals entry)
    then err "value out of range"
    else elim (active entry.queue_id db.mail_transactions) [
      | none ↦ ok (false, db)
      | some row ↦ ok (
        true,
        record db {
          mail_transactions =
              update_active entry.queue_id (merge_row db.reals now entry) db.mail_transactions;
        },
      )
    ]

-- The INSERT, under the unique index on queue_id of the rows with terminal = FALSE.
unfoldable pub insert_transaction : Time → LogEntry → Database → Result (Unit {0} × Database)
insert_transaction now entry db =
    let written = record db {
      mail_transactions = new_row db.reals db.next_id now entry ∷ db.mail_transactions;
      next_id = suc db.next_id;
    } in
    if not (fits_columns db.reals entry)
    then err "value out of range"
    else if is_terminal_status entry.status
    then ok (tt, written)
    else elim (active entry.queue_id db.mail_transactions) [
      | none ↦ ok (tt, written)
      | some row ↦ err "duplicate key value violates unique constraint"
    ]

-- `SELECT pg_advisory_xact_lock(hashtext($1))`
abbrev lock : Sql Database (Unit {0})
lock = exec (λ db. ok (tt, db))

unfoldable pub merge_mail_transaction : Time → LogEntry → Sql Database (Unit {0})
merge_mail_transaction now entry = do
  lock
  updated ← exec (update_transaction now entry)
  if updated then pure tt else exec (insert_transaction now entry)

-- `if entry.QueueID != ""`
store : Time → LogEntry → Sql Database (Unit {0})
store now entry = if str_eq entry.queue_id "" then pure tt else merge_mail_transaction now entry

persist_entry : Time → Option LogEntry → Sql Database (Unit {0})
persist_entry now none = pure tt
persist_entry now (some entry) = do insert_raw_entry entry; store now entry

-- The body of the transaction of persistMailLogRecord.
unfoldable pub persist_body : Time → String → LineRecord → Option LogEntry → Sql Database (Unit {0})
unfolding store persist_entry
persist_body now state_key record' entry = do
  persist_entry now entry
  set_ingest_state_tx state_key record'.offset record'.inode

unfoldable pub persist_mail_log_record :
    Time → String → LineRecord → Option LogEntry → Sql Database (Unit {0})
persist_mail_log_record now state_key record' entry =
    in_tx (persist_body now state_key record' entry)

-- The SET clause and the WHERE clause of the eviction.
unfoldable pub time_out : Time → Time → MailRow → MailRow
time_out now cutoff row =
    if not row.terminal && ltb row.updated_at cutoff
    then record row {
      terminal = true;
      timed_out = true;
      status = if str_eq row.status "" then "timed_out" else row.status;
      updated_at = now;
    }
    else row

unfoldable pub evict_rows : Time → Time → List MailRow → List MailRow
evict_rows now cutoff [] = []
evict_rows now cutoff (row ∷ rows) = time_out now cutoff row ∷ evict_rows now cutoff rows

unfoldable pub evict_expired_transactions : Time → Time → Sql Database (Unit {0})
evict_expired_transactions now cutoff =
    exec_auto
      (λ db. ok (tt, record db { mail_transactions = evict_rows now cutoff db.mail_transactions }))
