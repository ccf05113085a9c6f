-- ===== src/MailStore/Examples.antt =====
-- The rows of the mail log at concrete lines.
use kanyigo.Base.{◌≡◌, ◌≢◌, refl, some, [], ◌∷◌, ◌^◌}
use kanyigo.Base.Int.{pos}
use kanyigo.LogEntry.{LogEntry, new_entry}
use kanyigo.Schema.{Database, empty_database, normal_reals}
use kanyigo.Sql.{ok, done, lost, Conn, exec, ◌>>=◌}
use kanyigo.Base.Table.{lookup}
use kanyigo.Base.Text.{to_lower}
use kanyigo.Stitcher.{TransactionStitcher, is_terminal_status, new_transaction_stitcher, apply}
use kanyigo.MailStore.Unique.{IsUnique}
use kanyigo.MailStore.{
  LineRecord, fits_integer, fits_columns, update_transaction, insert_transaction, active,
  merge_mail_transaction, persist_mail_log_record,
}
use kanyigo.MailStore.Refines.{Simulates, AgreesDone, written, merge_mail_transaction-Simulates}
use kanyigo.MailStore.Persist.{recorded, Stored, persist-Stored, persist_ok, persist_oversized}
use kanyigo.MailStore.Consistent.{HasDistinctHashes, IsConsistent}

abbrev sent : LogEntry
sent = record (new_entry 102 "mail" "postfix/smtp" "4ABC" "status=sent") {
  status = "sent";
  raw_hash = "h1";
}

abbrev oversized : LogEntry
oversized = record sent { size_bytes = some (pos (2 ^ 31)) }

abbrev second : LineRecord
second = record { sequence = 1; text = "status=sent"; inode = pos 7; offset = pos 120 }

-- The commit is done, and its answer is lost.
abbrev fragile : Conn Database
fragile = record {
  db = empty_database;
  outcomes = done ∷ done ∷ done ∷ done ∷ done ∷ done ∷ lost ∷ [];
}

abbrev reliable : Conn Database
reliable = record { db = empty_database; outcomes = [] }

abbrev fresh : TransactionStitcher
fresh = new_transaction_stitcher (pos 60)

empty-IsConsistent : IsConsistent empty_database
unfolding HasDistinctHashes IsUnique
empty-IsConsistent = record { distinct = tt; unique = tt }

fresh-Simulates : Simulates empty_database fresh
unfolding active lookup new_transaction_stitcher
fresh-Simulates = record { at_key = λ key ne. tt }

merged_fine : (merge_mail_transaction 110 sent reliable).0 ≡ ok tt
unfolding merge_mail_transaction exec ◌>>=◌ update_transaction insert_transaction active
    is_terminal_status to_lower fits_integer fits_columns
merged_fine = refl

merge_mail_transaction-Simulates_example :
    Simulates (merge_mail_transaction 110 sent reliable).1.db (apply 111 (some sent) fresh).1
    × AgreesDone normal_reals
        (written normal_reals 110 sent 1 (active "4ABC" []))
        (apply 111 (some sent) fresh).0
merge_mail_transaction-Simulates_example =
    merge_mail_transaction-Simulates 110 111 sent reliable fresh (λ p. cc) empty-IsConsistent.unique
      fresh-Simulates merged_fine

persist-Stored_example :
    Stored 110 "continuous:/var/log/maillog" second
      (some sent)
      empty_database
      (persist_mail_log_record 110 "continuous:/var/log/maillog" second (some sent) fragile)
persist-Stored_example = persist-Stored 110 "continuous:/var/log/maillog" second (some sent) fragile

persist_ok_example :
    persist_mail_log_record 110 "continuous:/var/log/maillog" second (some sent) reliable ≡ (
      ok tt,
      record {
        db = recorded 110 "continuous:/var/log/maillog" second (some sent) empty_database;
        outcomes = [];
      },
    )
unfolding fits_integer fits_columns
persist_ok_example =
    persist_ok 110 "continuous:/var/log/maillog" second (some sent) empty_database refl

persist_oversized_example :
    ((persist_mail_log_record 110 "continuous:/var/log/maillog" second (some oversized) reliable).0
      ≢ ok tt)
    × ((persist_mail_log_record 110 "continuous:/var/log/maillog" second
          (some oversized)
          reliable).1.db
        ≡ empty_database)
unfolding fits_integer
persist_oversized_example =
    persist_oversized 110 "continuous:/var/log/maillog" second oversized reliable refl
