-- ===== src/Pipeline/Examples.antt =====
-- A crash and a restart of the ingestor, and its theorem at this input.
use kanyigo.Base.{ℕ, ap, ◌+◌, refl, false, none, some, List, [], ◌∷◌}
use kanyigo.Base.Int.{pos}
use kanyigo.LogEntry.{Time}
use kanyigo.Schema.{Database, empty_database}
use kanyigo.Sql.{refused, done}
use kanyigo.Stitcher.{new_transaction_stitcher}
use kanyigo.MailStore.{LineRecord}
use kanyigo.Ingest.{ParsedRecord, Ingestor, start, continuous_ingest_state_key}
use kanyigo.Tail.{validate_stream_config, follow, first_round}
use kanyigo.Tail.Samples.{
  bytes, cfg, opening, sent_record, appends, appends-sent, appends-Grows, resumed, resumed-Grows,
}
use kanyigo.Parser.{Patterns, Readers}
use kanyigo.Pipeline.{Worker, parse_mail_log_record, Event, arrives, ticks, run_loop, sent_records}
use kanyigo.Pipeline.Replay.{ComeFrom, nth}
use kanyigo.Pipeline.Recovery.{IsRecovered, run_loop-IsRecovered}

-- Every line is one of Postfix.
abbrev patterns : Patterns
patterns = record {
  re_rfc3339 = λ line. some ("time", "mail", "postfix/smtp", "4ABC: status=sent");
  re_syslog = λ _. none;
  re_amavis_from = λ _. none;
  re_amavis_arrow = λ _. none;
  re_amavis_queue_id = λ _. none;
  re_amavis_status = λ _. none;
  re_amavis_queued_as = λ _. none;
  re_amavis_mail_id = λ _. none;
  re_amavis_subject = λ _. none;
  re_amavis_hits = λ _. none;
  re_amavis_helo = λ _. none;
  re_amavis_origin = λ _. none;
  re_dovecot_queue_id = λ _. none;
  re_dovecot_lmtp = λ _. false;
  re_dovecot_junk = λ _. false;
}

abbrev readers : Readers
readers = record {
  parse_rfc3339_nano = λ _. some 100;
  parse_month = λ _. none;
  parse_clock = λ _. none;
  parse_float = λ _. none;
  sha256_hex = λ line. line;
}

abbrev worker : Worker
worker = record {
  patterns = patterns;
  readers = readers;
  location = record { year_of = λ _. 2026; date = λ _ _ _ _. 0 };
}

abbrev clock : ℕ → Time
clock n = 110 + n

abbrev parsed : LineRecord → ParsedRecord
parsed r = parse_mail_log_record worker (clock r.sequence) r

abbrev first_line : LineRecord
first_line = sent_record 0 "a" 7 2

abbrev second_line : LineRecord
second_line = sent_record 1 "bc" 7 5

-- The second line arrives first, and a tick comes before the first one.
abbrev events : List Event
events = arrives (parsed second_line) ∷ ticks 115 115 55 ∷ arrives (parsed first_line) ∷ []

-- The tick and the seven calls for the first line go through, and the second Begin is refused.
abbrev ingestor : Ingestor
ingestor = record {
  conn = record {
    db = empty_database;
    outcomes = done ∷ done ∷ done ∷ done ∷ done ∷ done ∷ done ∷ done ∷ refused ∷ [];
  };
  stitcher = new_transaction_stitcher (pos 60);
  stdout = [];
  stdout_closed = false;
}

abbrev sent : List LineRecord
sent = (follow cfg appends (first_round (pos 7) 0)).0

events-ComeFrom : ComeFrom worker clock sent events
unfolding parse_mail_log_record
events-ComeFrom = (
  (second_line, ap (nth 1) appends-sent, refl),
  ((first_line, ap (nth 0) appends-sent, refl), tt),
)

abbrev stopped : Database
stopped = (run_loop clock "continuous:/var/log/maillog" events (start ingestor)).1.state.conn.db

run_loop-IsRecovered_example :
    IsRecovered worker clock cfg
      (pos 7)
      0
      []
      (bytes "a\nbc\nde\n")
      sent
      events
      empty_database
      stopped
      (sent_records cfg (opening 7 8) resumed (record { db = stopped; outcomes = [] })).0
unfolding bytes validate_stream_config parse_mail_log_record continuous_ingest_state_key
run_loop-IsRecovered_example =
    run_loop-IsRecovered worker clock cfg appends resumed (pos 7) 0 (bytes "a\n") [] (bytes "a\n")
      (bytes "e\n") events ingestor (opening 7 8) refl refl appends-Grows events-ComeFrom refl refl
      refl refl resumed-Grows
