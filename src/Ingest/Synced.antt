-- ===== src/Ingest/Synced.antt =====
-- The rows of the database against the stitcher of the ingestor.
use kanyigo.Base.{
  ◌≡◌, ◌≢◌, refl, sym, ap, ◌∙◌, ◌⊎◌, subst, String, Bool, true, false, Option, none, some, inl, inr,
  arith, str_eq, eq_iff, Bool-cases, if◌then◌else◌,
}
use kanyigo.Base.Int.{ℤ}
use kanyigo.LogEntry.{LogEntry, Time}
use kanyigo.Schema.{Database}
use kanyigo.Sql.{Result-cases, Result, ok, Conn}
use kanyigo.Checkpoint.{save_state}
use kanyigo.Stitcher.{MailTransaction, TransactionStitcher, apply}
use kanyigo.MailStore.{LineRecord, has_hash, persist_mail_log_record}
use kanyigo.MailStore.Merge.{merged}
use kanyigo.MailStore.Unique.{IsUnique, merged-IsUnique}
use kanyigo.MailStore.Persist.{with_raw, with_entry, recorded, Stored, kept, stored, persist-Stored}
use kanyigo.MailStore.Refines.{Simulates, merged-Simulates}
use kanyigo.Ingest.{ParsedRecord, Ingestor, encode, correlate, process_parsed_record}

-- The rows are unique and agree with the queues of the stitcher.
pub record IsSynced (db : Database) (s : TransactionStitcher) : Type 0 where
  pub unique : IsUnique db.mail_transactions
  pub agree : Simulates db s

raw_IsSynced :
    (entry : LogEntry) (db : Database) (s : TransactionStitcher)
    → IsSynced db s
    → IsSynced (with_raw entry db) s
unfolding with_raw
raw_IsSynced entry db s h = elim (Bool-cases (has_hash entry.raw_hash db.maillog_entries)) [
  | inl e ↦ rw e h
  | inr e ↦ rw e (record { unique = h.unique; agree = record { at_key = h.agree.at_key } })
]

-- The queues after the line, if there is one.
abbrev applied : Time → Option LogEntry → TransactionStitcher → TransactionStitcher
applied now none s = s
applied now (some entry) s = (apply now (some entry) s).1

merged-IsSynced :
    (now : Time) (entry : LogEntry) (db : Database) (s : TransactionStitcher)
    → entry.queue_id ≢ ""
    → IsSynced db s
    → IsSynced (merged now entry db) (apply now (some entry) s).1
merged-IsSynced now entry db s ne h = record {
  unique = merged-IsUnique now entry db h.unique;
  agree = (merged-Simulates now now entry db s ne h.unique h.agree).0;
}

apply-nothing :
    (now : Time) (entry : LogEntry) (s : TransactionStitcher)
    → str_eq entry.queue_id "" ≡ true
    → (apply now (some entry) s).1 ≡ s
unfolding apply
apply-nothing now entry s e = rw e refl

line_IsSynced :
    (now : Time) (entry : LogEntry) (db : Database) (s : TransactionStitcher) (b : Bool)
    → (b ≡ true → IsSynced db (apply now (some entry) s).1)
    → (b ≡ false → IsSynced (merged now entry db) (apply now (some entry) s).1)
    → IsSynced (if b then db else merged now entry db) (apply now (some entry) s).1
line_IsSynced now entry db s true f g = f refl
line_IsSynced now entry db s false f g = g refl

entry_IsSynced :
    (now : Time) (entry : Option LogEntry) (db : Database) (s : TransactionStitcher)
    → IsSynced db s
    → IsSynced (with_entry now entry db) (applied now entry s)
unfolding with_entry apply
entry_IsSynced now none db s h = h
entry_IsSynced now (some entry) db s h =
    let raw = raw_IsSynced entry db s h in
    line_IsSynced now entry (with_raw entry db) s (str_eq entry.queue_id "")
      (λ e. subst (IsSynced (with_raw entry db)) (sym (apply-nothing now entry s e)) raw)
      λ e.
        merged-IsSynced now entry (with_raw entry db) s
          (λ p. ground (arith, eq_iff entry.queue_id "")) raw

IsSynced-save_state :
    (key : String) (offset inode : ℤ) (db : Database) (s : TransactionStitcher)
    → IsSynced db s
    → IsSynced (save_state key offset inode db) s
IsSynced-save_state key offset inode db s h = record {
  unique = h.unique;
  agree = record { at_key = h.agree.at_key };
}

pub Stored-of_ok :
    (now : Time) (key : String) (record' : LineRecord) (entry : Option LogEntry) (db : Database)
    {r : Result (Unit {0}) × Conn Database}
    → r.0 ≡ ok tt
    → Stored now key record' entry db r
    → r.1.db ≡ recorded now key record' entry db
Stored-of_ok now key record' entry db h (kept e f d) = absurd cc
Stored-of_ok now key record' entry db h (stored d) = d

correlate_ok :
    (now : Time) (entry : Option LogEntry) (i : Ingestor)
    → ((correlate now entry i).1.conn ≡ i.conn)
      × ((correlate now entry i).1.stitcher ≡ applied now entry i.stitcher)
unfolding correlate encode
correlate_ok now none i = (refl, refl)
correlate_ok now (some entry) i = encode_keeps (apply now (some entry) i.stitcher).0 _
  where
    encode_keeps :
        (o : Option MailTransaction) (j : Ingestor)
        → ((encode o j).1.conn ≡ j.conn) × ((encode o j).1.stitcher ≡ j.stitcher)
    encode_keeps none j = (refl, refl)
    encode_keeps (some tx) j = ground arith

-- Where the rows are unique and agree with the stitcher's queues, they do so again after a record
-- that is processed without an error, for every queue id: after each record, what a restarted
-- ingestor finds in the table is what the stitcher held in memory.
pub process_parsed_record-IsSynced :
    (now : Time) (key : String) (p : ParsedRecord) (i : Ingestor)
    → IsSynced i.conn.db i.stitcher
    → (process_parsed_record now key p i).0 ≡ ok tt
    → IsSynced
        (process_parsed_record now key p i).1.conn.db
        (process_parsed_record now key p i).1.stitcher
unfolding process_parsed_record recorded
process_parsed_record-IsSynced now key p i h success =
    let stored = persist_mail_log_record now key p.record' p.entry i.conn in
    elim (Result-cases stored.0) [
      | inr (e, f) ↦ let success' = rw (process_parsed_record, f) at success in absurd cc
      | inl (_, f) ↦
          let (conn, stitcher) = correlate_ok now p.entry (record i { conn = stored.1 }) in
          let db =
            Stored-of_ok now key p.record' p.entry i.conn.db f
              (persist-Stored now key p.record' p.entry i.conn) in
          let synced =
            IsSynced-save_state key p.record'.offset p.record'.inode _ _
              (entry_IsSynced now p.entry i.conn.db i.stitcher h) in
          rw (process_parsed_record, f) (rw (ap (λ c. c.db) conn, db, stitcher, recorded) synced)
    ]

-- The rest of the processing leaves the connection alone.
pub process-conn :
    (now : Time) (key : String) (p : ParsedRecord) (i : Ingestor)
    → (process_parsed_record now key p i).1.conn
      ≡ (persist_mail_log_record now key p.record' p.entry i.conn).1
unfolding process_parsed_record
process-conn now key p i =
    let r = persist_mail_log_record now key p.record' p.entry i.conn in
    elim (Result-cases r.0) [
      | inl (_, e) ↦
          rw (process_parsed_record, e) ((correlate_ok now p.entry (record i { conn = r.1 })).0)
      | inr (_, e) ↦ rw (process_parsed_record, e) refl
    ]

-- A record that is processed without an error is stored.
pub process-recorded :
    (now : Time) (key : String) (p : ParsedRecord) (i : Ingestor)
    → (process_parsed_record now key p i).0 ≡ ok tt
    → (process_parsed_record now key p i).1.conn.db ≡ recorded now key p.record' p.entry i.conn.db
unfolding process_parsed_record
process-recorded now key p i success =
    let r = persist_mail_log_record now key p.record' p.entry i.conn in
    elim (Result-cases r.0) [
      | inr (e, f) ↦ let success' = rw (process_parsed_record, f) at success in absurd cc
      | inl (_, f) ↦
          ap (λ c. c.db) (process-conn now key p i)
          ∙ Stored-of_ok now key p.record' p.entry i.conn.db f
              (persist-Stored now key p.record' p.entry i.conn)
    ]

-- Whether or not there is an error, the record is stored or the rows are as they were.
pub process-attempt :
    (now : Time) (key : String) (p : ParsedRecord) (i : Ingestor)
    → ((process_parsed_record now key p i).1.conn.db ≡ i.conn.db)
      ⊎ ((process_parsed_record now key p i).1.conn.db
          ≡ recorded now key p.record' p.entry i.conn.db)
process-attempt now key p i =
    by_Stored (ap (λ c. c.db) (process-conn now key p i))
      (persist-Stored now key p.record' p.entry i.conn)
  where
    by_Stored :
        {r : Result (Unit {0}) × Conn Database} {db : Database}
        → db ≡ r.1.db
        → Stored now key p.record' p.entry i.conn.db r
        → (db ≡ i.conn.db) ⊎ (db ≡ recorded now key p.record' p.entry i.conn.db)
    by_Stored e (kept _ _ d) = inl (e ∙ d)
    by_Stored e (stored d) = inr (e ∙ d)
