-- ===== src/Pipeline.antt =====
-- How the parts of RunMailLogIngestor in continuous_ingest.go fit together: the records of the tail,
-- the workers of parseMailLogRecords, and the loop that stores what arrives and evicts at a tick.
pub mod Replay
pub mod Stored
pub mod Recovery
mod Examples
use kanyigo.Base.{ℕ, zero, suc, String, Option, none, some, List, [], ◌∷◌, map}
use kanyigo.LogEntry.{LogEntry, Time}
use kanyigo.Schema.{Database}
use kanyigo.Sql.{Result, Sql, ok, err}
use kanyigo.MailStore.{LineRecord}
use kanyigo.Checkpoint.{get_ingest_state}
use kanyigo.Tail.{StreamConfig, Opening, Round, Tail, follow_mail_log}
use kanyigo.Parser.{Patterns, Readers, parse_line}
use kanyigo.Parser.Year.{Location}
use kanyigo.Ingest.{
  ParsedRecord, Ingestor, Loop, Action, process_parsed_record, receive, unless_failed, on_tick,
  start, continuous_ingest_state_key,
}

-- What a worker reads: the expressions and readers of the parser, and the zone of the host.
pub record Worker : Type 0 where
  pub patterns : Patterns
  pub readers : Readers
  pub location : Location

-- A worker of parseMailLogRecords, on one record; `now` is its reading of the clock.
unfoldable pub parse_mail_log_record : Worker → Time → LineRecord → ParsedRecord
parse_mail_log_record w now r = record {
  record' = r;
  entry = parse_line w.patterns w.readers r.text now w.location;
}

-- What a round of the select takes: a parsed record, or a tick with its time, the time of the
-- database, and `now.Add(-cfg.QueueIdleTimeout)`.
pub data Event : Type 0 where
  arrives : ParsedRecord → Event
  ticks : Time → Time → Time → Event

-- One round, with the reading of the clock for each record
unfoldable pub on_event : (ℕ → Time) → String → Event → Action (Loop Ingestor)
on_event clock key (arrives p) l =
    receive (λ p. process_parsed_record (clock p.record'.sequence) key p) p l
on_event clock key (ticks now db_now cutoff) l =
    let (r, i) = on_tick now db_now cutoff l.state in (r, record l { state = i })

-- The rounds of the loop, up to the first error
unfoldable pub run_loop : (ℕ → Time) → String → List Event → Action (Loop Ingestor)
run_loop clock key [] l = (ok tt, l)
run_loop clock key (event ∷ events) l =
    unless_failed (run_loop clock key events) (on_event clock key event l)

-- The records that the tail sends from the checkpoint in the database on
unfoldable pub sent_records :
    StreamConfig → Opening → List Round → Sql Database (List LineRecord × Result Tail)
sent_records cfg opening rounds c =
    let (r, c') = get_ingest_state (continuous_ingest_state_key cfg.path) c in
    elim r [ err e ↦ (err e, c') | ok state ↦ (ok (follow_mail_log cfg opening state rounds), c') ]
