-- ===== src/Ingest/Examples.antt =====
-- The loop of the ingestor at records that arrive out of order.
use kanyigo.Base.{ℕ, ◌+◌, ◌≡◌, refl, false, Option, none, some, List, [], ◌∷◌, arith}
use kanyigo.Base.Int.{pos}
use kanyigo.LogEntry.{LogEntry, new_entry}
use kanyigo.Schema.{empty_database}
use kanyigo.Base.Table.{lookup, insert}
use kanyigo.Base.Text.{to_lower}
use kanyigo.Checkpoint.{set_ingest_state_tx}
use kanyigo.Sql.{ok, done, exec, in_tx, ◌>>=◌}
use kanyigo.Stitcher.{
  apply, is_terminal_status, absorb, queue_or_new, new_queue, overwrite, settle,
  new_transaction_stitcher,
}
use kanyigo.MailStore.{
  active, persist_mail_log_record, persist_body, insert_raw_entry, insert_raw, has_hash,
  merge_mail_transaction, update_transaction, insert_transaction, fits_integer, fits_columns,
}
use kanyigo.MailStore.Unique.{IsUnique}
use kanyigo.Ingest.{ParsedRecord, Ingestor, Action, find, receive_all, start, process_parsed_record}
use kanyigo.Ingest.Order.{IsDistinct, Processed, receive_all-in_order}
use kanyigo.Ingest.Determinism.{receive_all-order}
use kanyigo.MailStore.Consistent.{HasDistinctHashes}
use kanyigo.Stitcher.Invariant.{new-IsCoherent}
use kanyigo.Ingest.{on_tick}
use kanyigo.Ingest.Reachable.{here, then, processes, ticks, IsSound, Reaches-IsSound}
use kanyigo.Ingest.Synced.{IsSynced, process_parsed_record-IsSynced}

abbrev entry : LogEntry
entry = record (new_entry 100 "mail" "postfix/qmgr" "4ABC" "from=<a@b.c>") { raw_hash = "h0" }

abbrev parsed : ℕ → Option LogEntry → ParsedRecord
parsed n e = record {
  record' = record { sequence = n; text = "line"; inode = pos 7; offset = pos (n + 60) };
  entry = e;
}

abbrev first_record : ParsedRecord
first_record = parsed 0 (some entry)

-- Its line was refused by the parser.
abbrev second_record : ParsedRecord
second_record = parsed 1 none

abbrev ingestor : Ingestor
ingestor = record {
  conn = record { db = empty_database; outcomes = done ∷ done ∷ [] };
  stitcher = new_transaction_stitcher (pos 60);
  stdout = [];
  stdout_closed = false;
}

abbrev process : ParsedRecord → Action Ingestor
process = process_parsed_record 110 "continuous:/var/log/maillog"

abbrev late_first : List ParsedRecord
late_first = second_record ∷ first_record ∷ []

abbrev early_first : List ParsedRecord
early_first = first_record ∷ second_record ∷ []

receive_all-in_order_example :
    Processed process ingestor
      (λ i. find i late_first)
      (receive_all process late_first (start ingestor))
unfolding IsDistinct find
receive_all-in_order_example = receive_all-in_order process ingestor late_first (refl, (refl, tt))

same_records : (i : ℕ) → find i late_first ≡ find i early_first
unfolding find
same_records i = ground arith

receive_all-order_example :
    ((receive_all process early_first (start ingestor)).0
      ≡ (receive_all process late_first (start ingestor)).0)
    × ((receive_all process early_first (start ingestor)).1.state
        ≡ (receive_all process late_first (start ingestor)).1.state)
unfolding IsDistinct find
receive_all-order_example =
    receive_all-order process ingestor early_first late_first (refl, (refl, tt)) (refl, (refl, tt))
      same_records

ingestor-IsSynced : IsSynced empty_database (new_transaction_stitcher (pos 60))
unfolding IsUnique active lookup new_transaction_stitcher
ingestor-IsSynced = record { unique = tt; agree = record { at_key = λ key ne. tt } }

processed_fine : (process first_record ingestor).0 ≡ ok tt
unfolding process_parsed_record persist_mail_log_record in_tx persist_body insert_raw_entry
    insert_raw has_hash merge_mail_transaction exec ◌>>=◌ update_transaction insert_transaction
    active is_terminal_status to_lower fits_integer fits_columns set_ingest_state_tx apply
    new_transaction_stitcher absorb queue_or_new lookup new_queue overwrite insert settle
processed_fine = refl

process_parsed_record-IsSynced_example :
    IsSynced (process first_record ingestor).1.conn.db (process first_record ingestor).1.stitcher
process_parsed_record-IsSynced_example =
    process_parsed_record-IsSynced 110 "continuous:/var/log/maillog" first_record ingestor
      ingestor-IsSynced processed_fine

abbrev after_first : Ingestor
after_first = (process first_record ingestor).1

ingestor-IsSound : IsSound ingestor
unfolding IsUnique HasDistinctHashes
ingestor-IsSound = record {
  consistent = record { distinct = tt; unique = tt };
  coherent = new-IsCoherent (pos 60);
}

-- A record, and a tick after which its transaction has timed out.
Reaches-IsSound_example : IsSound (on_tick 400 401 300 after_first).1
Reaches-IsSound_example =
    Reaches-IsSound
      (then (then here (processes 110 "continuous:/var/log/maillog" first_record ingestor))
        (ticks 400 401 300 after_first))
      ingestor-IsSound
