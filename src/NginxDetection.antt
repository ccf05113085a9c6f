-- ===== src/NginxDetection.antt =====
-- The detection of brute force from the Nginx log: persistNginxEvent, updateNginxDetection and
-- flagSecurityOffender of nginx_security.go. `now` is NOW(), the start of the transaction; the counts
-- are unbounded, and a window keeps its nanoseconds.
pub mod Effect
pub mod Streak
pub mod Window
pub mod Burst
pub mod Storing
pub mod Flagged
mod Examples
use kanyigo.Base.{
  ℕ, suc, ◌+◌, String, Bool, true, false, not, ◌&&◌, ◌||◌, Option, none, some, List, [], ◌∷◌, leb,
  ◌==◌, str_eq, if◌then◌else◌,
}
use kanyigo.Base.Int.{ℤ, pos, negsuc, pos_part, neg_part, leb_ℤ}
use kanyigo.Base.Table.{lookup, insert}
use kanyigo.LogEntry.{Time}
use kanyigo.Schema.{Database, SecurityEvent, DetectionState, Offender}
use kanyigo.Sql.{Result, ok, err, Sql, exec, in_tx, pure, ◌>>=◌, ◌>>◌}
use kanyigo.Checkpoint.{set_ingest_state_tx}
use kanyigo.MailStore.{LineRecord, fits_integer}

-- What the detection reads of `NginxSecurityConfig`; `IgnoredPaths` is the list of its keys.
pub record NginxSecurityConfig : Type 0 where
  pub consecutive_404_threshold : ℤ
  pub consecutive_404_window : ℤ
  pub auth_failure_threshold : ℤ
  pub auth_failure_window : ℤ
  pub ignored_paths : List String

pub record NginxEvent : Type 0 where
  pub timestamp : Time
  pub remote_ip : String
  pub method : String
  pub path : String
  pub status : ℤ
  pub user_agent : String
  pub raw : String
  pub raw_hash : String

-- `status == n`
abbrev pub is_status : ℕ → ℤ → Bool
is_status n (pos m) = m == n
is_status n (negsuc m) = false

abbrev pub not_found : ℤ → Bool
not_found = is_status 404

abbrev pub auth_failure : ℤ → Bool
auth_failure status = is_status 401 status || is_status 403 status

unfoldable pub contains : String → List String → Bool
contains x [] = false
contains x (y ∷ ys) = str_eq y x || contains x ys

-- `t <= start + window`; no NULL compares
abbrev within : Time → ℤ → Option Time → Bool
within t window none = false
within t window (some start) = leb (t + neg_part window) (start + pos_part window)

-- The condition of the two CASE expressions.
unfoldable pub continues : Time → ℤ → DetectionState → Bool
continues t window row =
    not_found row.last_status && leb row.last_seen_at t && within t window row.streak_started_at

-- The row that the INSERT … ON CONFLICT(remote_ip) DO UPDATE leaves.
unfoldable pub next_streak : Time → ℤ → ℤ → Option DetectionState → DetectionState
next_streak t status window none = record {
  consecutive_404 = 1;
  streak_started_at = some t;
  last_seen_at = t;
  last_status = status;
}
next_streak t status window (some row) =
    let c = continues t window row in
    record {
      consecutive_404 = if c then row.consecutive_404 + 1 else 1;
      streak_started_at = if c then row.streak_started_at else some t;
      last_seen_at = t;
      last_status = status;
    }

abbrev pub streak_of : NginxSecurityConfig → NginxEvent → Database → DetectionState
streak_of cfg event db =
    next_streak event.timestamp event.status cfg.consecutive_404_window
      (lookup event.remote_ip db.nginx_ip_detection_state)

-- RETURNING consecutive_404
unfoldable pub count_404 : NginxSecurityConfig → NginxEvent → Database → Result (ℕ × Database)
count_404 cfg event db = ok (
  (streak_of cfg event db).consecutive_404,
  record db {
    nginx_ip_detection_state =
        insert event.remote_ip (streak_of cfg event db) db.nginx_ip_detection_state;
  },
)

-- The UPDATE that ends a streak; it makes no row.
abbrev pub ended : NginxEvent → DetectionState → DetectionState
ended event row = record {
  consecutive_404 = 0;
  streak_started_at = none;
  last_seen_at = event.timestamp;
  last_status = event.status;
}

unfoldable pub reset_streak : NginxEvent → Database → Database
reset_streak event db = elim (lookup event.remote_ip db.nginx_ip_detection_state) [
  | none ↦ db
  | some row ↦ record db {
    nginx_ip_detection_state = insert event.remote_ip (ended event row) db.nginx_ip_detection_state;
  }
]

-- An INTEGER parameter is checked, whether or not there is a row.
unfoldable pub reset_404 : NginxEvent → Database → Result (Unit {0} × Database)
reset_404 event db =
    if fits_integer (some event.status)
    then ok (tt, reset_streak event db)
    else err "integer out of range"

-- The rows that the COUNT(*) counts: `ts_utc BETWEEN timestamp - window AND timestamp`
unfoldable pub counts : NginxSecurityConfig → NginxEvent → SecurityEvent → Bool
counts cfg event row =
    str_eq row.remote_ip event.remote_ip
    && auth_failure row.status
    && leb (event.timestamp + neg_part cfg.auth_failure_window)
        (row.ts_utc + pos_part cfg.auth_failure_window)
    && leb row.ts_utc event.timestamp

unfoldable pub count_auth_failures : NginxSecurityConfig → NginxEvent → List SecurityEvent → ℕ
count_auth_failures cfg event [] = 0
count_auth_failures cfg event (row ∷ rows) =
    let rest = count_auth_failures cfg event rows in if counts cfg event row then suc rest else rest

unfoldable pub flagged_row : NginxEvent → String → ℕ → Option Offender → Offender
flagged_row event reason attempts none = record {
  reason = reason;
  first_seen_at = event.timestamp;
  last_seen_at = event.timestamp;
  attempt_count = attempts;
  last_path = event.path;
  flagged = true;
  dismissed_at = none;
}
flagged_row event reason attempts (some row) = record row {
  reason = reason;
  last_seen_at = event.timestamp;
  attempt_count = attempts;
  last_path = event.path;
  flagged = true;
  dismissed_at = none;
}

-- The effect of flagSecurityOffender.
unfoldable pub flag : NginxEvent → String → ℕ → Database → Database
flag event reason attempts db = record db {
  security_offenders =
      insert event.remote_ip
        (flagged_row event reason attempts (lookup event.remote_ip db.security_offenders))
        db.security_offenders;
}

unfoldable pub flag_security_offender : NginxEvent → String → ℕ → Sql Database (Unit {0})
flag_security_offender event reason attempts = exec (λ db. ok (tt, flag event reason attempts db))

detect_404 : NginxSecurityConfig → NginxEvent → Sql Database (Unit {0})
detect_404 cfg event = do
  consecutive ← exec (count_404 cfg event)
  if leb_ℤ cfg.consecutive_404_threshold (pos consecutive)
      then flag_security_offender event "consecutive_404" consecutive
      else pure tt

detect_auth : NginxSecurityConfig → NginxEvent → Sql Database (Unit {0})
detect_auth cfg event = do
  attempts ← exec (λ db. ok (count_auth_failures cfg event db.nginx_security_events, db))
  if leb_ℤ cfg.auth_failure_threshold (pos attempts)
      then flag_security_offender event "authentication_failures" attempts
      else pure tt

detect_other : NginxSecurityConfig → NginxEvent → Sql Database (Unit {0})
unfolding detect_auth
detect_other cfg event = do
  exec (reset_404 event)
  if auth_failure event.status then detect_auth cfg event else pure tt

unfoldable pub update_nginx_detection : NginxSecurityConfig → NginxEvent → Sql Database (Unit {0})
unfolding detect_404 detect_other
update_nginx_detection cfg event =
    if not_found event.status then detect_404 cfg event else detect_other cfg event

-- The INSERT of a suspicious event.
unfoldable pub with_event : NginxEvent → Database → Database
with_event event db = record db { nginx_security_events = row ∷ db.nginx_security_events }
  where
    row : SecurityEvent
    row = record {
      ts_utc = event.timestamp;
      remote_ip = event.remote_ip;
      method = event.method;
      path = event.path;
      status = event.status;
      user_agent = event.user_agent;
      raw = event.raw;
      raw_hash = event.raw_hash;
    }

abbrev pub suspicious : NginxEvent → Bool
suspicious event = auth_failure event.status || not_found event.status

-- `event.Status != httpStatusNotFound || !cfg.IgnoredPaths[event.Path]`
abbrev pub watched : NginxSecurityConfig → NginxEvent → Bool
watched cfg event = not (not_found event.status) || not (contains event.path cfg.ignored_paths)

store_event : NginxEvent → Sql Database (Unit {0})
store_event event = if suspicious event then exec (λ db. ok (tt, with_event event db)) else pure tt

detect : NginxSecurityConfig → NginxEvent → Sql Database (Unit {0})
detect cfg event = if watched cfg event then update_nginx_detection cfg event else pure tt

watch : NginxSecurityConfig → Option NginxEvent → Sql Database (Unit {0})
watch cfg none = pure tt
watch cfg (some event) = do store_event event; detect cfg event

-- The body of the transaction of persistNginxEvent.
unfoldable pub persist_event_body :
    NginxSecurityConfig → String → LineRecord → Option NginxEvent → Sql Database (Unit {0})
unfolding store_event watch detect
persist_event_body cfg state_key record' event = do
  watch cfg event
  set_ingest_state_tx state_key record'.offset record'.inode

unfoldable pub persist_nginx_event :
    NginxSecurityConfig → String → LineRecord → Option NginxEvent → Sql Database (Unit {0})
persist_nginx_event cfg state_key record' event =
    in_tx (persist_event_body cfg state_key record' event)
