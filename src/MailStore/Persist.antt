-- ===== src/MailStore/Persist.antt =====
-- What persistMailLogRecord of continuous_ingest.go writes for one record of the log.
use kanyigo.Base.{
  ◌≡◌, ◌≢◌, refl, sym, ap, ◌∙◌, String, Bool, true, false, not, Option, none, some, [], ◌∷◌, inl,
  inr, arith, str_eq, Bool-cases, if◌then◌else◌,
}
use kanyigo.Base.Int.{ℤ}
use kanyigo.LogEntry.{LogEntry, Time}
use kanyigo.Schema.{Database, Reals}
use kanyigo.Sql.{Result, ok, err, Conn, exec, in_tx, ◌>>=◌}
use kanyigo.Sql.Atomic.{Ends, undone, through, begun, in_tx-Ends, >>=-ok}
use kanyigo.Checkpoint.{save_state, set_ingest_state_tx}
use kanyigo.MailStore.{
  LineRecord, fits_integer, fits_columns, entry_row, has_hash, insert_raw, insert_raw_entry, store,
  persist_entry, persist_body, persist_mail_log_record,
}
use kanyigo.MailStore.Merge.{merged, merge_mail_transaction-merged, merge_mail_transaction-ok}

-- The rows with the line among the entries, unless an entry has its hash.
unfoldable pub with_raw : LogEntry → Database → Database
with_raw entry db =
    if has_hash entry.raw_hash db.maillog_entries
    then db
    else record db { maillog_entries = entry_row db.reals entry ∷ db.maillog_entries }

unfoldable pub with_entry : Time → Option LogEntry → Database → Database
with_entry now none db = db
with_entry now (some entry) db =
    if str_eq entry.queue_id "" then with_raw entry db else merged now entry (with_raw entry db)

-- All that one record writes.
unfoldable pub recorded : Time → String → LineRecord → Option LogEntry → Database → Database
recorded now key record' entry db =
    save_state key record'.offset record'.inode (with_entry now entry db)

insert_raw_entry-with_raw :
    (entry : LogEntry) (c : Conn Database) {b : Bool}
    → (insert_raw_entry entry c).0 ≡ ok b
    → (insert_raw_entry entry c).1.db ≡ with_raw entry c.db
unfolding with_raw insert_raw_entry insert_raw exec
insert_raw_entry-with_raw entry c h = ground arith

store_lines :
    (now : Time) (entry : LogEntry) (c : Conn Database)
    → (store now entry c).0 ≡ ok tt
    → (store now entry c).1.db ≡ (if str_eq entry.queue_id "" then c.db else merged now entry c.db)
unfolding store
store_lines now entry c h = elim (Bool-cases (str_eq entry.queue_id "")) [
  | inl e ↦ rw e
  | inr e ↦ rw e (merge_mail_transaction-merged now entry c (rw e at h))
]

persist_entry-with_entry :
    (now : Time) (entry : Option LogEntry) (c : Conn Database)
    → (persist_entry now entry c).0 ≡ ok tt
    → (persist_entry now entry c).1.db ≡ with_entry now entry c.db
unfolding persist_entry with_entry
persist_entry-with_entry now none c h = refl
persist_entry-with_entry now (some entry) c h =
    let (b, raw_ok, step) = >>=-ok (insert_raw_entry entry) (λ _. store now entry) c h in
    let raw = insert_raw_entry-with_raw entry c raw_ok in
    ap (λ r. r.1.db) step
    ∙ store_lines now entry (insert_raw_entry entry c).1 (sym (ap (λ r. r.0) step) ∙ h)
    ∙ ap (λ d. if str_eq entry.queue_id "" then d else merged now entry d) raw

pub set_ingest_state_tx-save_state :
    (key : String) (offset inode : ℤ) (c : Conn Database)
    → (set_ingest_state_tx key offset inode c).0 ≡ ok tt
    → (set_ingest_state_tx key offset inode c).1.db ≡ save_state key offset inode c.db
unfolding set_ingest_state_tx exec
set_ingest_state_tx-save_state key offset inode c h = ground arith

persist_body-recorded :
    (now : Time) (key : String) (record' : LineRecord) (entry : Option LogEntry) (c : Conn Database)
    → (persist_body now key record' entry c).0 ≡ ok tt
    → (persist_body now key record' entry c).1.db ≡ recorded now key record' entry c.db
unfolding persist_body recorded
persist_body-recorded now key record' entry c h =
    let save = set_ingest_state_tx key record'.offset record'.inode in
    let (a, entry_ok, step) = >>=-ok (persist_entry now entry) (λ _. save) c h in
    ap (λ r. r.1.db) step
    ∙ set_ingest_state_tx-save_state key record'.offset record'.inode (persist_entry now entry c).1
        (sym (ap (λ r. r.0) step) ∙ h)
    ∙ ap (save_state key record'.offset record'.inode)
        (persist_entry-with_entry now entry c entry_ok)

-- How the storing of one record ends.
pub data Stored (now : Time) (key : String) (record' : LineRecord) (entry : Option LogEntry)
    (db : Database) (r : Result (Unit {0}) × Conn Database) : Type 0 where
  kept : (e : String) → r.0 ≡ err e → r.1.db ≡ db → Stored now key record' entry db r
  stored : r.1.db ≡ recorded now key record' entry db → Stored now key record' entry db r

Stored-of_Ends :
    (now : Time) (key : String) (record' : LineRecord) (entry : Option LogEntry) (c : Conn Database)
    {r : Result (Unit {0}) × Conn Database}
    → Ends (persist_body now key record' entry) c r
    → Stored now key record' entry c.db r
Stored-of_Ends now key record' entry c (undone e f d) = kept e f d
Stored-of_Ends now key record' entry c (through a f d) =
    stored (d ∙ persist_body-recorded now key record' entry (begun c) f)

-- Whatever calls fail, and whether or not the answer of the commit arrives: storing a record ends
-- with an error and the database as it was, or with the line among the entries, merged into the
-- transaction of its queue id, and the checkpoint of the log at the record's offset and inode.
pub persist-Stored :
    (now : Time) (key : String) (record' : LineRecord) (entry : Option LogEntry) (c : Conn Database)
    → Stored now key record' entry c.db (persist_mail_log_record now key record' entry c)
unfolding persist_mail_log_record
persist-Stored now key record' entry c =
    Stored-of_Ends now key record' entry c (in_tx-Ends (persist_body now key record' entry) c)

-- A line whose numbers the INTEGER and REAL columns can hold.
abbrev pub Fits : Reals → Option LogEntry → Type 0
Fits reals none = Unit
Fits reals (some entry) = fits_columns reals entry ≡ true

with_raw_ok :
    (entry : LogEntry) (db : Database)
    → fits_columns db.reals entry ≡ true
    → (b : Bool) × (insert_raw_entry entry (record { db = db; outcomes = [] })
        ≡ (ok b, record { db = with_raw entry db; outcomes = [] }))
unfolding insert_raw_entry insert_raw exec with_raw
with_raw_ok entry db h = (not (has_hash entry.raw_hash db.maillog_entries), ground arith)

with_raw_fits :
    (entry : LogEntry) (db : Database)
    → fits_columns db.reals entry ≡ true
    → fits_columns (with_raw entry db).reals entry ≡ true
unfolding with_raw
with_raw_fits entry db h = elim (Bool-cases (has_hash entry.raw_hash db.maillog_entries)) [
  | inl e ↦ rw e h
  | inr e ↦ rw e h
]

persist_entry_ok :
    (now : Time) (entry : Option LogEntry) (db : Database)
    → Fits db.reals entry
    → persist_entry now entry (record { db = db; outcomes = [] })
      ≡ (ok tt, record { db = with_entry now entry db; outcomes = [] })
unfolding persist_entry with_entry ◌>>=◌ store
persist_entry_ok now none db h = refl
persist_entry_ok now (some entry) db h =
    let (b, e) = with_raw_ok entry db h in
    rw e (elim (Bool-cases (str_eq entry.queue_id "")) [
      | inl q ↦ rw q
      | inr q ↦
          rw q (merge_mail_transaction-ok now entry (with_raw entry db) (with_raw_fits entry db h))
    ])

-- If no call fails and the numbers of the line fit their columns, the record is stored and no error is returned.
pub persist_ok :
    (now : Time) (key : String) (record' : LineRecord) (entry : Option LogEntry) (db : Database)
    → Fits db.reals entry
    → persist_mail_log_record now key record' entry (record { db = db; outcomes = [] })
      ≡ (ok tt, record { db = recorded now key record' entry db; outcomes = [] })
unfolding persist_mail_log_record in_tx persist_body recorded ◌>>=◌ set_ingest_state_tx exec
persist_ok now key record' entry db h = rw (persist_entry_ok now entry db h)

insert_raw_entry_oversized :
    (entry : LogEntry) (c : Conn Database) {b : Bool}
    → fits_integer entry.size_bytes ≡ false
    → (insert_raw_entry entry c).0 ≢ ok b
unfolding insert_raw_entry insert_raw exec fits_columns
insert_raw_entry_oversized entry c h = ground arith

persist_body_oversized :
    (now : Time) (key : String) (record' : LineRecord) (entry : LogEntry) (c : Conn Database)
    → fits_integer entry.size_bytes ≡ false
    → (persist_body now key record' (some entry) c).0 ≢ ok tt
unfolding persist_body persist_entry
persist_body_oversized now key record' entry c h p =
    let save = set_ingest_state_tx key record'.offset record'.inode in
    let (a, entry_ok, _) = >>=-ok (persist_entry now (some entry)) (λ _. save) c p in
    let (b, raw_ok, _) = >>=-ok (insert_raw_entry entry) (λ _. store now entry) c entry_ok in
    insert_raw_entry_oversized entry c h raw_ok

oversized_of_Ends :
    (now : Time) (key : String) (record' : LineRecord) (entry : LogEntry) (c : Conn Database)
    {r : Result (Unit {0}) × Conn Database}
    → fits_integer entry.size_bytes ≡ false
    → Ends (persist_body now key record' (some entry)) c r
    → (r.0 ≢ ok tt) × (r.1.db ≡ c.db)
oversized_of_Ends now key record' entry c h (undone e f d) = (λ p. absurd (cc), d)
oversized_of_Ends now key record' entry c h (through a f d) =
    absurd (persist_body_oversized now key record' entry (begun c) h f)

-- A line whose size does not fit is never stored, whatever the server answers: each attempt returns
-- an error and leaves the database, the checkpoint included, as it was.
pub persist_oversized :
    (now : Time) (key : String) (record' : LineRecord) (entry : LogEntry) (c : Conn Database)
    → fits_integer entry.size_bytes ≡ false
    → ((persist_mail_log_record now key record' (some entry) c).0 ≢ ok tt)
      × ((persist_mail_log_record now key record' (some entry) c).1.db ≡ c.db)
unfolding persist_mail_log_record
persist_oversized now key record' entry c h =
    oversized_of_Ends now key record' entry c h
      (in_tx-Ends (persist_body now key record' (some entry)) c)
