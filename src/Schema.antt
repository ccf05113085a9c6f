-- ===== src/Schema.antt =====
-- The tables that EnsureSchema of db.go creates: a record for each row, with the columns' names.
-- A column that may be NULL is an `Option`; lists of rows have the newest row first. Columns that the
-- program writes and never reads are left out, as are the ids of rows that nothing refers to.
use kanyigo.Base.{
  ℕ, suc, ◌*◌, ◌/◌, ◌%◌, ◌^◌, String, Bool, ◌&&◌, ◌||◌, Option, List, [], ltb, ◌==◌, if◌then◌else◌,
}
use kanyigo.Base.Int.{ℤ}
use kanyigo.Base.Table.{Table}
use kanyigo.LogEntry.{LogEntry, Time, Float64}

-- How PostgreSQL reads a float64 that is written to a REAL column: whether it is in the range of the
-- column, and which float64 is read back.
pub record Reals : Type 0 where
  pub in_range : Float64 → Bool
  pub single : Float64 → Float64

-- A row of mail_transactions. A REAL column holds the float64 that is read back from it.
pub record MailRow : Type 0 where
  pub id : ℕ
  pub arrival_ts_utc : Time
  pub last_ts_utc : Time
  pub queue_id : String
  pub host : String
  pub process : String
  pub mail_from : String
  pub mail_to : String
  pub status : String
  pub relay : String
  pub delay : Option Float64
  pub delays : String
  pub dsn : String
  pub message_id : String
  pub size_bytes : Option ℤ
  pub queued_as : String
  pub mail_id : String
  pub subject : String
  pub hits : Option Float64
  pub helo : String
  pub amavis_origin : String
  pub is_junk : Bool
  pub spam_score : Option Float64
  pub raw : String
  pub terminal : Bool
  pub timed_out : Bool
  pub updated_at : Time

-- A row of ingest_state, whose key is the table's: `ingestState` of ingest.go.
pub record IngestState : Type 0 where
  pub offset_bytes : ℤ
  pub inode : ℤ

-- A row of nginx_security_events.
pub record SecurityEvent : Type 0 where
  pub ts_utc : Time
  pub remote_ip : String
  pub method : String
  pub path : String
  pub status : ℤ
  pub user_agent : String
  pub raw : String
  pub raw_hash : String

-- A row of nginx_ip_detection_state, under its remote_ip.
pub record DetectionState : Type 0 where
  pub consecutive_404 : ℕ
  pub streak_started_at : Option Time
  pub last_seen_at : Time
  pub last_status : ℤ

-- A row of security_offenders, under its remote_ip.
pub record Offender : Type 0 where
  pub reason : String
  pub first_seen_at : Time
  pub last_seen_at : Time
  pub attempt_count : ℕ
  pub last_path : String
  pub flagged : Bool
  pub dismissed_at : Option Time

-- A row of firewall_blocks, under its remote_ip.
pub record FirewallBlock : Type 0 where
  pub active : Bool
  pub blocked_at : Option Time
  pub expires_at : Option Time
  pub blocked_by : ℕ
  pub last_error : String

-- A row of security_audit_log.
pub record AuditRecord : Type 0 where
  pub ts_utc : Time
  pub actor_user_id : ℕ
  pub action : String
  pub remote_ip : String
  pub detail : String
  pub success : Bool

-- A row of dashboard_users.
pub record UserRow : Type 0 where
  pub id : ℕ
  pub email : String
  pub password_hash : String
  pub role : String
  pub created_at : Time

-- A row of dashboard_sessions, under its token_hash.
pub record SessionRow : Type 0 where
  pub user_id : ℕ
  pub expires_at : Time

-- The tables, and the server's reading of a REAL.
pub record Database : Type 0 where
  pub reals : Reals
  pub maillog_entries : List LogEntry
  pub mail_transactions : List MailRow
  pub ingest_state : Table IngestState
  pub nginx_security_events : List SecurityEvent
  pub nginx_ip_detection_state : Table DetectionState
  pub security_offenders : Table Offender
  pub firewall_blocks : Table FirewallBlock
  pub security_audit_log : List AuditRecord
  pub dashboard_users : List UserRow
  pub dashboard_sessions : Table SessionRow
  pub next_id : ℕ

abbrev pub new_database : Reals → Database
new_database reals = record {
  reals = reals;
  maillog_entries = [];
  mail_transactions = [];
  ingest_state = [];
  nginx_security_events = [];
  nginx_ip_detection_state = [];
  security_offenders = [];
  firewall_blocks = [];
  security_audit_log = [];
  dashboard_users = [];
  dashboard_sessions = [];
  next_id = 1;
}

-- The exponent of a float64, by its bits
abbrev exponent : Float64 → ℕ
exponent x = x / 2 ^ 52 % 2 ^ 11

-- The nearest multiple of `d`, the even one of two that are equally near
abbrev nearest : ℕ → ℕ → ℕ
nearest d x =
    let q = x / d in
    let r = x % d in if ltb d (2 * r) || ((2 * r == d) && (q % 2 == 1)) then suc q * d else q * d

-- A server that takes zero and the normal numbers of a REAL, for tests.
abbrev pub normal_reals : Reals
normal_reals = record {
  in_range =
      λ x. (x % 2 ^ 63 == 0) || (ltb 896 (exponent x) && ltb (exponent (nearest (2 ^ 29) x)) 1151);
  single = nearest (2 ^ 29);
}

abbrev pub empty_database : Database
empty_database = new_database normal_reals
