-- ===== src/NginxDetection/Storing.antt =====
-- What persistNginxEvent of nginx_security.go writes for one line of the log.
use kanyigo.Base.{
  ◌≡◌, refl, sym, ap, ◌∙◌, String, Option, none, some, arith, Bool-cases, if◌then◌else◌, inl, inr,
}
use kanyigo.Schema.{Database}
use kanyigo.Sql.{Result, ok, err, Conn, exec}
use kanyigo.Sql.Atomic.{Ends, undone, through, begun, in_tx-Ends, >>=-ok}
use kanyigo.Checkpoint.{save_state, set_ingest_state_tx}
use kanyigo.MailStore.{LineRecord}
use kanyigo.MailStore.Persist.{set_ingest_state_tx-save_state}
use kanyigo.NginxDetection.{
  NginxSecurityConfig, NginxEvent, with_event, suspicious, watched, store_event, detect, watch,
  persist_event_body, persist_nginx_event,
}
use kanyigo.NginxDetection.Effect.{detected, update_nginx_detection-detected}

unfoldable pub stored_event : NginxEvent → Database → Database
stored_event event db = if suspicious event then with_event event db else db

unfoldable pub seen_event : NginxSecurityConfig → Option NginxEvent → Database → Database
unfolding stored_event
seen_event cfg none db = db
seen_event cfg (some event) db =
    if watched cfg event then detected cfg event (stored_event event db) else stored_event event db

-- All that one line writes.
unfoldable pub handled :
    NginxSecurityConfig → String → LineRecord → Option NginxEvent → Database → Database
handled cfg key record' event db =
    save_state key record'.offset record'.inode (seen_event cfg event db)

store_event-stored_event :
    (event : NginxEvent) (c : Conn Database)
    → (store_event event c).0 ≡ ok tt
    → (store_event event c).1.db ≡ stored_event event c.db
unfolding store_event stored_event exec
store_event-stored_event event c h = ground arith

detect-detected :
    (cfg : NginxSecurityConfig) (event : NginxEvent) (c : Conn Database)
    → (detect cfg event c).0 ≡ ok tt
    → (detect cfg event c).1.db ≡ (if watched cfg event then detected cfg event c.db else c.db)
unfolding detect
detect-detected cfg event c h = elim (Bool-cases (watched cfg event)) [
  | inl e ↦ rw e (update_nginx_detection-detected cfg event c (rw e at h))
  | inr e ↦ rw e
]

watch-seen_event :
    (cfg : NginxSecurityConfig) (event : Option NginxEvent) (c : Conn Database)
    → (watch cfg event c).0 ≡ ok tt
    → (watch cfg event c).1.db ≡ seen_event cfg event c.db
unfolding watch seen_event
watch-seen_event cfg none c h = refl
watch-seen_event cfg (some event) c h =
    let (_, stored, step) = >>=-ok (store_event event) (λ _. detect cfg event) c h in
    ap (λ r. r.1.db) step
    ∙ detect-detected cfg event (store_event event c).1 (sym (ap (λ r. r.0) step) ∙ h)
    ∙ ap (λ d. if watched cfg event then detected cfg event d else d)
        (store_event-stored_event event c stored)

persist_event_body-handled :
    (cfg : NginxSecurityConfig) (key : String) (record' : LineRecord) (event : Option NginxEvent)
    (c : Conn Database)
    → (persist_event_body cfg key record' event c).0 ≡ ok tt
    → (persist_event_body cfg key record' event c).1.db ≡ handled cfg key record' event c.db
unfolding persist_event_body handled
persist_event_body-handled cfg key record' event c h =
    let save = set_ingest_state_tx key record'.offset record'.inode in
    let (_, seen, step) = >>=-ok (watch cfg event) (λ _. save) c h in
    ap (λ r. r.1.db) step
    ∙ set_ingest_state_tx-save_state key record'.offset record'.inode (watch cfg event c).1
        (sym (ap (λ r. r.0) step) ∙ h)
    ∙ ap (save_state key record'.offset record'.inode) (watch-seen_event cfg event c seen)

-- How the storing of one line ends.
pub data Handled (cfg : NginxSecurityConfig) (key : String) (record' : LineRecord)
    (event : Option NginxEvent) (db : Database) (r : Result (Unit {0}) × Conn Database)
    : Type 0 where
  unchanged : (e : String) → r.0 ≡ err e → r.1.db ≡ db → Handled cfg key record' event db r
  complete : r.1.db ≡ handled cfg key record' event db → Handled cfg key record' event db r

Handled-of_Ends :
    (cfg : NginxSecurityConfig) (key : String) (record' : LineRecord) (event : Option NginxEvent)
    (c : Conn Database) {r : Result (Unit {0}) × Conn Database}
    → Ends (persist_event_body cfg key record' event) c r
    → Handled cfg key record' event c.db r
Handled-of_Ends cfg key record' event c (undone e f d) = unchanged e f d
Handled-of_Ends cfg key record' event c (through a f d) =
    complete (d ∙ persist_event_body-handled cfg key record' event (begun c) f)

-- Whatever calls fail, and whether or not the answer of the commit arrives: persistNginxEvent
-- ends with an error and the database as it was, or with all of these: the event among the
-- suspicious ones, if its status is 401, 403 or 404; the rows of the detection, unless it is a
-- 404 response on an ignored path; and the checkpoint at the line's offset and inode.
pub persist_nginx_event-Handled :
    (cfg : NginxSecurityConfig) (key : String) (record' : LineRecord) (event : Option NginxEvent)
    (c : Conn Database)
    → Handled cfg key record' event c.db (persist_nginx_event cfg key record' event c)
unfolding persist_nginx_event
persist_nginx_event-Handled cfg key record' event c =
    Handled-of_Ends cfg key record' event c
      (in_tx-Ends (persist_event_body cfg key record' event) c)
