-- ===== src/Stitcher/Examples.antt =====
-- The stitcher at concrete lines.
use kanyigo.Base.{String, ◌≡◌, ◌≢◌, refl, some, List, [], ◌∷◌, ◌++◌, length}
use kanyigo.Base.Int.{pos}
use kanyigo.Base.Table.{lookup, insert, retain, remove}
use kanyigo.Base.Text.{to_lower}
use kanyigo.LogEntry.{LogEntry, new_entry}
use kanyigo.Stitcher.{
  TransactionStitcher, apply, evict_expired, is_terminal_status, absorb, overwrite, overwrite_ptr,
  overwrite_value, queue_or_new, new_queue, is_live, expire, settle, new_transaction_stitcher,
}
use kanyigo.Stitcher.Invariant.{new-IsCoherent}
use kanyigo.Stitcher.Slot.{Event, line, tick, step, run, slot_run, seen, for_key, seen-run}
use kanyigo.Stitcher.Lines.{lines_of, lines_held, lines_in, lines-run}

abbrev queued : LogEntry
queued = record (new_entry 100 "mail" "postfix/qmgr" "4ABC" "from=<a@b.c>") { mail_from = "a@b.c" }

abbrev other : LogEntry
other = new_entry 101 "mail" "postfix/qmgr" "9XYZ" "from=<x@y.z>"

abbrev delivered : LogEntry
delivered = record (new_entry 102 "mail" "postfix/smtp" "4ABC" "status=sent") { status = "sent" }

abbrev history : List Event
history =
    line 1 (some queued) ∷ line 2 (some other) ∷ tick 3 ∷ line 4 (some delivered) ∷ tick 90 ∷ []

abbrev fresh : TransactionStitcher
fresh = new_transaction_stitcher (pos 60)

abbrev key : String
key = "4ABC"

named : key ≢ ""
named p = cc

-- One transaction is delivered, and one times out.
delivered_and_timed_out : length (run fresh history).0 ≡ 2
unfolding run step apply evict_expired new_transaction_stitcher is_terminal_status absorb overwrite
    queue_or_new lookup new_queue insert is_live expire settle retain remove to_lower overwrite_ptr
    overwrite_value
delivered_and_timed_out = refl

seen-run_example :
    seen key (run fresh history) ≡ slot_run key fresh.idle_timeout (lookup key fresh.queues) history
seen-run_example = seen-run key fresh history named (new-IsCoherent (pos 60))

lines-run_example :
    lines_of (for_key key (run fresh history).0)
      ++ lines_held (lookup key (run fresh history).1.queues)
    ≡ lines_held (lookup key fresh.queues) ++ lines_in key history
lines-run_example = lines-run key fresh history named (new-IsCoherent (pos 60))
