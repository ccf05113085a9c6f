-- ===== src/NginxDetection/Effect.antt =====
-- What the detection of one event writes, if no call fails.
use kanyigo.Base.{◌≡◌, true, some, [], arith, Bool-cases, if◌then◌else◌, inl, inr}
use kanyigo.Base.Int.{pos, leb_ℤ}
use kanyigo.Base.Table.{insert}
use kanyigo.Schema.{Database}
use kanyigo.Sql.{ok, Conn, rest, exec, ◌>>=◌}
use kanyigo.MailStore.{fits_integer}
use kanyigo.NginxDetection.{
  NginxSecurityConfig, NginxEvent, not_found, auth_failure, streak_of, count_404, reset_streak,
  reset_404, count_auth_failures, flag, flag_security_offender, detect_404, detect_auth,
  detect_other, update_nginx_detection,
}

unfoldable pub counted : NginxSecurityConfig → NginxEvent → Database → Database
counted cfg event db = record db {
  nginx_ip_detection_state =
      insert event.remote_ip (streak_of cfg event db) db.nginx_ip_detection_state;
}

unfoldable pub detected_404 : NginxSecurityConfig → NginxEvent → Database → Database
detected_404 cfg event db =
    let n = (streak_of cfg event db).consecutive_404 in
    if leb_ℤ cfg.consecutive_404_threshold (pos n)
    then flag event "consecutive_404" n (counted cfg event db)
    else counted cfg event db

unfoldable pub detected_auth : NginxSecurityConfig → NginxEvent → Database → Database
detected_auth cfg event db =
    let n = count_auth_failures cfg event db.nginx_security_events in
    if leb_ℤ cfg.auth_failure_threshold (pos n)
    then flag event "authentication_failures" n db
    else db

unfoldable pub detected : NginxSecurityConfig → NginxEvent → Database → Database
unfolding detected_404 detected_auth
detected cfg event db =
    if not_found event.status
    then detected_404 cfg event db
    else if auth_failure event.status
    then detected_auth cfg event (reset_streak event db)
    else reset_streak event db

detect_404-detected :
    (cfg : NginxSecurityConfig) (event : NginxEvent) (c : Conn Database)
    → (detect_404 cfg event c).0 ≡ ok tt
    → (detect_404 cfg event c).1.db ≡ detected_404 cfg event c.db
unfolding detect_404 detected_404 counted count_404 flag_security_offender exec ◌>>=◌
detect_404-detected cfg event c h = ground arith

detect_auth-detected :
    (cfg : NginxSecurityConfig) (event : NginxEvent) (c : Conn Database)
    → (detect_auth cfg event c).0 ≡ ok tt
    → (detect_auth cfg event c).1.db ≡ detected_auth cfg event c.db
unfolding detect_auth detected_auth flag_security_offender exec ◌>>=◌
detect_auth-detected cfg event c h = ground arith

detect_other-detected :
    (cfg : NginxSecurityConfig) (event : NginxEvent) (c : Conn Database)
    → (detect_other cfg event c).0 ≡ ok tt
    → (detect_other cfg event c).1.db ≡ (
        if auth_failure event.status
        then detected_auth cfg event (reset_streak event c.db)
        else reset_streak event c.db)
unfolding detect_other reset_404 exec ◌>>=◌
detect_other-detected cfg event c h = ground (
  arith,
  detect_auth-detected cfg event
      (record { db = reset_streak event c.db; outcomes = rest c.outcomes }),
)

-- If the detection returns no error, its rows are these.
pub update_nginx_detection-detected :
    (cfg : NginxSecurityConfig) (event : NginxEvent) (c : Conn Database)
    → (update_nginx_detection cfg event c).0 ≡ ok tt
    → (update_nginx_detection cfg event c).1.db ≡ detected cfg event c.db
unfolding update_nginx_detection detected
update_nginx_detection-detected cfg event c h = elim (Bool-cases (not_found event.status)) [
  | inl e ↦ rw e (detect_404-detected cfg event c (rw e at h))
  | inr e ↦ rw e (detect_other-detected cfg event c (rw e at h))
]

-- If no call fails and the status fits its column, the detection succeeds.
pub update_nginx_detection_ok :
    (cfg : NginxSecurityConfig) (event : NginxEvent) (db : Database)
    → fits_integer (some event.status) ≡ true
    → update_nginx_detection cfg event (record { db = db; outcomes = [] })
      ≡ (ok tt, record { db = detected cfg event db; outcomes = [] })
unfolding update_nginx_detection detected detect_404 detect_other reset_404 detect_auth detected_404
    detected_auth counted count_404 flag_security_offender exec ◌>>=◌
update_nginx_detection_ok cfg event db h = elim (Bool-cases (not_found event.status)) [
  | inl e ↦ rw e (ground arith)
  | inr e ↦ rw (e, h) (ground arith)
]
