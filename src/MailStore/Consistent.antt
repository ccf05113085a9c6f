-- ===== src/MailStore/Consistent.antt =====
-- The constraints of the mail log's tables.
use kanyigo.Base.{
  ◌≡◌, sym, subst, String, false, Option, none, some, List, [], ◌∷◌, inl, inr, arith, str_eq,
  Bool-cases,
}
use kanyigo.LogEntry.{LogEntry, Time}
use kanyigo.Schema.{Database}
use kanyigo.Sql.{Result, ok, done, refused, lost, Conn, Outcome, first, effect, answer, exec_auto}
use kanyigo.Sql.Atomic.{begun}
use kanyigo.MailStore.{
  LineRecord, has_hash, persist_mail_log_record, evict_expired_transactions, evict_rows,
}
use kanyigo.MailStore.Merge.{merged}
use kanyigo.MailStore.Persist.{with_raw, with_entry, recorded, Stored, kept, stored, persist-Stored}
use kanyigo.MailStore.Unique.{IsUnique, merged-IsUnique, evict_rows-IsUnique}

-- What the tables of the mail log always satisfy: the hashes of the entries are distinct, and at most
-- one transaction of each queue id is active.
unfoldable pub HasDistinctHashes : List LogEntry → Type 0
HasDistinctHashes [] = Unit
HasDistinctHashes (entry ∷ entries) =
    (has_hash entry.raw_hash entries ≡ false) × HasDistinctHashes entries

pub record IsConsistent (db : Database) : Type 0 where
  pub distinct : HasDistinctHashes db.maillog_entries
  pub unique : IsUnique db.mail_transactions

with_raw-IsConsistent :
    (entry : LogEntry) (db : Database) → IsConsistent db → IsConsistent (with_raw entry db)
unfolding with_raw HasDistinctHashes
with_raw-IsConsistent entry db h = elim (Bool-cases (has_hash entry.raw_hash db.maillog_entries)) [
  | inl e ↦ rw e h
  | inr e ↦ rw e (record { distinct = (e, h.distinct); unique = h.unique })
]

merged-IsConsistent :
    (now : Time) (entry : LogEntry) (db : Database)
    → IsConsistent db
    → IsConsistent (merged now entry db)
merged-IsConsistent now entry db h = record {
  distinct = unfold merged in ground (arith, h.distinct);
  unique = merged-IsUnique now entry db h.unique;
}

with_entry-IsConsistent :
    (now : Time) (entry : Option LogEntry) (db : Database)
    → IsConsistent db
    → IsConsistent (with_entry now entry db)
unfolding with_entry
with_entry-IsConsistent now none db h = h
with_entry-IsConsistent now (some entry) db h = elim (Bool-cases (str_eq entry.queue_id "")) [
  | inl e ↦ rw e (with_raw-IsConsistent entry db h)
  | inr e ↦
      rw e (merged-IsConsistent now entry (with_raw entry db) (with_raw-IsConsistent entry db h))
]

recorded-IsConsistent :
    (now : Time) (key : String) (record' : LineRecord) (entry : Option LogEntry) (db : Database)
    → IsConsistent db
    → IsConsistent (recorded now key record' entry db)
unfolding recorded
recorded-IsConsistent now key record' entry db h =
    let same = with_entry-IsConsistent now entry db h in
    record { distinct = same.distinct; unique = same.unique }

Stored-IsConsistent :
    (now : Time) (key : String) (record' : LineRecord) (entry : Option LogEntry) (db : Database)
    {r : Result (Unit {0}) × Conn Database}
    → Stored now key record' entry db r
    → IsConsistent db
    → IsConsistent r.1.db
Stored-IsConsistent now key record' entry db (kept e f d) h = subst IsConsistent (sym d) h
Stored-IsConsistent now key record' entry db (stored d) h =
    subst IsConsistent (sym d) (recorded-IsConsistent now key record' entry db h)

-- Storing a record keeps the tables consistent, whatever fails.
pub persist-IsConsistent :
    (now : Time) (key : String) (record' : LineRecord) (entry : Option LogEntry) (c : Conn Database)
    → IsConsistent c.db
    → IsConsistent (persist_mail_log_record now key record' entry c).1.db
persist-IsConsistent now key record' entry c h =
    Stored-IsConsistent now key record' entry c.db (persist-Stored now key record' entry c) h

-- So does an eviction, whether or not its answer arrives.
pub evict-IsConsistent :
    (now cutoff : Time) (c : Conn Database)
    → IsConsistent c.db
    → IsConsistent (evict_expired_transactions now cutoff c).1.db
unfolding evict_expired_transactions exec_auto
evict-IsConsistent now cutoff c h = by_outcome (first c.outcomes)
  where
    evicted :
        IsConsistent
          (record (c.db) { mail_transactions = evict_rows now cutoff c.db.mail_transactions })
    evicted = record {
      distinct = h.distinct;
      unique = evict_rows-IsUnique now cutoff c.db.mail_transactions h.unique;
    }

    by_outcome :
        (o : Outcome)
        → IsConsistent
            (answer o (begun c) (
              effect {A = Unit {0}} (begun c) (
                ok (
                  tt,
                  record (c.db) {
                    mail_transactions = evict_rows now cutoff c.db.mail_transactions;
                  },
                )))).1.db
    by_outcome done = evicted
    by_outcome refused = h
    by_outcome lost = evicted
