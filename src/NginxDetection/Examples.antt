-- ===== src/NginxDetection/Examples.antt =====
-- The detection at concrete responses.
use kanyigo.Base.{String, ◌≡◌, refl, none, some, List, [], ◌∷◌, arith}
use kanyigo.Base.Int.{pos}
use kanyigo.Base.Table.{lookup, insert}
use kanyigo.Schema.{Database, empty_database}
use kanyigo.Sql.{ok, exec, in_tx, ◌>>=◌, Conn, done, refused, lost}
use kanyigo.MailStore.{LineRecord}
use kanyigo.Checkpoint.{set_ingest_state_tx}
use kanyigo.NginxDetection.{
  NginxSecurityConfig, NginxEvent, flagged_row, count_404, next_streak, update_nginx_detection,
  persist_nginx_event, persist_event_body, continues, contains, with_event, flag_security_offender,
  flag,
}
use kanyigo.NginxDetection.Streak.{after, IsRun, Anything}
use kanyigo.NginxDetection.Flagged.{persisted, Reads, flagged_exactly}
use kanyigo.NginxDetection.Burst.{miss, missed_burst}
use kanyigo.NginxDetection.Storing.{Handled, persist_nginx_event-Handled}

-- Three responses within 120 units.
abbrev cfg : NginxSecurityConfig
cfg = record {
  consecutive_404_threshold = pos 3;
  consecutive_404_window = pos 120;
  auth_failure_threshold = pos 5;
  auth_failure_window = pos 600;
  ignored_paths = "/favicon.ico" ∷ [];
}

abbrev ip : String
ip = "203.0.113.9"

abbrev scan : List NginxEvent
scan = miss ip 20 ∷ miss "198.51.100.8" 15 ∷ miss ip 10 ∷ []

missed_burst_example :
    IsRun Anything 60 (pos 120) 3 (miss ip 130 ∷ miss ip 130 ∷ miss ip 60 ∷ miss ip 0 ∷ [])
    × (lookup ip
          (after cfg
            (miss ip 130 ∷ miss ip 130 ∷ miss ip 60 ∷ miss ip 0 ∷ [])
            empty_database).security_offenders
        ≡ none)
unfolding lookup
missed_burst_example =
    missed_burst cfg ip 0 60 130 0 (omega arith) (omega arith) (omega arith) (omega arith)
      (omega arith) empty_database refl refl

abbrev quiet : Conn Database
quiet = record { db = empty_database; outcomes = [] }

detection_fine : (update_nginx_detection cfg (miss ip 30) quiet).0 ≡ ok tt
unfolding update_nginx_detection exec ◌>>=◌ count_404 next_streak lookup
detection_fine = refl

abbrev line : LineRecord
line = record { sequence = 4; text = "GET"; inode = pos 9; offset = pos 300 }

-- The third statement fails.
abbrev fragile : Conn Database
fragile = record { db = empty_database; outcomes = done ∷ done ∷ done ∷ refused ∷ lost ∷ [] }

persist_nginx_event-Handled_example :
    Handled cfg "nginx-security:/var/log/nginx/access.log" line (some (miss ip 30)) empty_database (
      persist_nginx_event cfg "nginx-security:/var/log/nginx/access.log" line
        (some (miss ip 30))
        fragile)
persist_nginx_event-Handled_example =
    persist_nginx_event-Handled cfg "nginx-security:/var/log/nginx/access.log" line
      (some (miss ip 30)) fragile

abbrev key : String
key = "nginx-security:/var/log/nginx/access.log"

abbrev ignored : NginxEvent
ignored = record (miss ip 25) { path = "/favicon.ico" }

abbrev store : NginxEvent → Conn Database → Conn Database
store event c = (persisted cfg key line (some event) c).1

-- Two responses, one on an ignored path, and the third.
abbrev c_1 : Conn Database
c_1 = store (miss ip 10) quiet

abbrev c_2 : Conn Database
c_2 = store (miss ip 20) c_1

abbrev c_3 : Conn Database
c_3 = store ignored c_2

program : Unit {0}
unfolding lookup insert persist_nginx_event persist_event_body update_nginx_detection exec in_tx
    ◌>>=◌ count_404 next_streak continues contains with_event set_ingest_state_tx
    flag_security_offender flag flagged_row
program = tt

stored_1 : (persisted cfg key line (some (miss ip 10)) quiet).0 ≡ ok tt
unfolding program
stored_1 = refl

stored_2 : (persisted cfg key line (some (miss ip 20)) c_1).0 ≡ ok tt
unfolding program
stored_2 = refl

stored_3 : (persisted cfg key line (some ignored) c_2).0 ≡ ok tt
unfolding program
stored_3 = refl

stored_4 : (persisted cfg key line (some (miss ip 30)) c_3).0 ≡ ok tt
unfolding program
stored_4 = refl

reads : Reads cfg key empty_database (ignored ∷ miss ip 20 ∷ miss ip 10 ∷ []) c_3.db
reads =
    Reads.line c_2 line ignored
      (Reads.line c_1 line (miss ip 20) (Reads.line quiet line (miss ip 10) Reads.nothing stored_1)
        stored_2)
      stored_3

flagged_exactly_example :
    lookup ip (persisted cfg key line (some (miss ip 30)) c_3).1.db.security_offenders
    ≡ some (flagged_row (miss ip 30) "consecutive_404" 3 (lookup ip c_3.db.security_offenders))
unfolding contains
flagged_exactly_example =
    flagged_exactly cfg key c_3 line (miss ip 30) 3 10 refl reads stored_4 refl
      (refl, omega arith, omega arith, (refl, omega arith, omega arith, (refl, refl, tt)))
