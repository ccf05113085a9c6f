-- ===== src/LogEntry.antt =====
-- The parsed line of a mail log: `LogEntry` of parser.go.
use kanyigo.Base.{ℕ, String, Bool, false, Option, none}
use kanyigo.Base.Int.{ℤ}

-- A float64 is carried by its 64 bits; nothing modelled computes with one.
abbrev pub Float64 : Type 0
Float64 = ℕ

-- A `time.Time` is the number of nanoseconds since the zero time, 1 January of year 1, UTC.
abbrev pub Time : Type 0
Time = ℕ

-- A pointer to a number that may be nil is an `Option`.
pub record LogEntry : Type 0 where
  pub ts_utc : Time
  pub host : String
  pub process : String
  pub queue_id : String
  pub mail_from : String
  pub mail_to : String
  pub status : String
  pub relay : String
  pub delay : Option Float64
  pub delays : String
  pub dsn : String
  pub message_id : String
  pub size_bytes : Option ℤ
  pub queued_as : String
  pub mail_id : String
  pub subject : String
  pub hits : Option Float64
  pub helo : String
  pub amavis_origin : String
  pub is_junk : Bool
  pub spam_score : Option Float64
  pub raw : String
  pub raw_hash : String

-- `&LogEntry{TSUTC: ts, Host: host, Process: process, QueueID: queueID, Raw: line}`
abbrev pub new_entry : Time → String → String → String → String → LogEntry
new_entry ts host process queue_id line = record {
  ts_utc = ts;
  host = host;
  process = process;
  queue_id = queue_id;
  mail_from = "";
  mail_to = "";
  status = "";
  relay = "";
  delay = none;
  delays = "";
  dsn = "";
  message_id = "";
  size_bytes = none;
  queued_as = "";
  mail_id = "";
  subject = "";
  hits = none;
  helo = "";
  amavis_origin = "";
  is_junk = false;
  spam_score = none;
  raw = line;
  raw_hash = "";
}
