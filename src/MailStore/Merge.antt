-- ===== src/MailStore/Merge.antt =====
-- What a successful mergeMailTransaction writes.
use kanyigo.Base.{suc, ◌≡◌, true, none, some, [], ◌∷◌, arith}
use kanyigo.LogEntry.{LogEntry, Time}
use kanyigo.Schema.{Database}
use kanyigo.Sql.{ok, Conn, exec, ◌>>=◌}
use kanyigo.MailStore.{
  fits_columns, merge_row, new_row, active, update_active, update_transaction, insert_transaction,
  merge_mail_transaction,
}

-- The rows after the line: it is merged into the active row of its queue id, or begins a row.
unfoldable pub merged : Time → LogEntry → Database → Database
merged now entry db = elim (active entry.queue_id db.mail_transactions) [
  | none ↦ record db {
    mail_transactions = new_row db.reals db.next_id now entry ∷ db.mail_transactions;
    next_id = suc db.next_id;
  }
  | some row ↦ record db {
    mail_transactions =
        update_active entry.queue_id (merge_row db.reals now entry) db.mail_transactions;
  }
]

-- If the merge returns no error, its rows are these.
pub merge_mail_transaction-merged :
    (now : Time) (entry : LogEntry) (c : Conn Database)
    → (merge_mail_transaction now entry c).0 ≡ ok tt
    → (merge_mail_transaction now entry c).1.db ≡ merged now entry c.db
unfolding merge_mail_transaction merged exec ◌>>=◌ update_transaction insert_transaction
merge_mail_transaction-merged now entry c h = ground arith

-- If no call fails and the numbers fit, the merge returns no error: the unique index is not violated.
pub merge_mail_transaction-ok :
    (now : Time) (entry : LogEntry) (db : Database)
    → fits_columns db.reals entry ≡ true
    → merge_mail_transaction now entry (record { db = db; outcomes = [] })
      ≡ (ok tt, record { db = merged now entry db; outcomes = [] })
unfolding merge_mail_transaction merged exec ◌>>=◌ update_transaction insert_transaction
merge_mail_transaction-ok now entry db h = ground arith
