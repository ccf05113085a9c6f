-- ===== src/NginxDetection/Flagged.antt =====
-- When persistNginxEvent of nginx_security.go flags an address for consecutive 404 responses.
use kanyigo.Base.{
  ℕ, ◌≡◌, refl, sym, ap, ◌∙◌, String, Bool, true, not, ◌&&◌, Option, none, some, List, [], ◌∷◌,
  select, arith, Bool-cases, inl, inr, if◌then◌else◌, str_eq,
}
use kanyigo.Base.Int.{pos, leb_ℤ}
use kanyigo.Base.Table.{lookup}
use kanyigo.LogEntry.{Time}
use kanyigo.Schema.{Database, Offender}
use kanyigo.Sql.{Result, ok, Conn}
use kanyigo.MailStore.{LineRecord}
use kanyigo.NginxDetection.{
  NginxSecurityConfig, NginxEvent, not_found, contains, watched, with_event, streak_of, flagged_row,
  next_streak, persist_nginx_event,
}
use kanyigo.NginxDetection.Effect.{detected}
use kanyigo.NginxDetection.Streak.{of_ip, row_step, row_of, IsRun, lookup-detected}
use kanyigo.NginxDetection.Window.{IsFresh, Counts, row_of-Counts, offender-detected_404}
use kanyigo.NginxDetection.Storing.{
  handled, seen_event, stored_event, Handled, unchanged, complete, persist_nginx_event-Handled,
}

-- A 404 response on a path of BRUTEFORCE_404_IGNORED_PATHS
abbrev pub is_ignored : NginxSecurityConfig → NginxEvent → Bool
is_ignored cfg event = not_found event.status && contains event.path cfg.ignored_paths

abbrev pub heeded : NginxSecurityConfig → List NginxEvent → List NginxEvent
heeded cfg = select (λ event. not (is_ignored cfg event))

watched-is_ignored :
    (cfg : NginxSecurityConfig) (event : NginxEvent)
    → watched cfg event ≡ not (is_ignored cfg event)
watched-is_ignored cfg event = ground arith

module _ (cfg : NginxSecurityConfig) (key : String) where
  abbrev pub persisted :
      LineRecord → Option NginxEvent → Conn Database → Result (Unit {0}) × Conn Database
  persisted r event c = persist_nginx_event cfg key r event c

  -- The events of the lines that persistNginxEvent has stored, the newest first, and the rows then. A
  -- line that is malformed has no event.
  pub data Reads (db₀ : Database) : List NginxEvent → Database → Type 0 where
    nothing : Reads db₀ [] db₀
    malformed :
        {history : List NginxEvent} (c : Conn Database) (r : LineRecord)
        → Reads db₀ history c.db
        → (persisted r none c).0 ≡ ok tt
        → Reads db₀ history (persisted r none c).1.db
    line :
        {history : List NginxEvent} (c : Conn Database) (r : LineRecord) (event : NginxEvent)
        → Reads db₀ history c.db
        → (persisted r (some event) c).0 ≡ ok tt
        → Reads db₀ (event ∷ history) (persisted r (some event) c).1.db

  persisted_ok :
      (r : LineRecord) (event : Option NginxEvent) (c : Conn Database)
      → (persisted r event c).0 ≡ ok tt
      → (persisted r event c).1.db ≡ handled cfg key r event c.db
  persisted_ok r event c h = by (persist_nginx_event-Handled cfg key r event c)
    where
      by :
          Handled cfg key r event c.db (persisted r event c)
          → (persisted r event c).1.db ≡ handled cfg key r event c.db
      by (unchanged e f _) = absurd (let g = sym f ∙ h in cc)
      by (complete d) = d

  states-stored_event :
      (event : NginxEvent) (db : Database)
      → (stored_event event db).nginx_ip_detection_state ≡ db.nginx_ip_detection_state
  unfolding stored_event with_event
  states-stored_event event db = ground arith

  offenders-stored_event :
      (event : NginxEvent) (db : Database)
      → (stored_event event db).security_offenders ≡ db.security_offenders
  unfolding stored_event with_event
  offenders-stored_event event db = ground arith

  -- The row of an address after a line
  lookup-handled :
      (ip : String) (r : LineRecord) (event : NginxEvent) (db : Database)
      → lookup ip (handled cfg key r (some event) db).nginx_ip_detection_state ≡ (
          if not (is_ignored cfg event) && str_eq event.remote_ip ip
          then row_step cfg event (lookup ip db.nginx_ip_detection_state)
          else lookup ip db.nginx_ip_detection_state)
  unfolding handled seen_event
  lookup-handled ip r event db = elim (Bool-cases (not (is_ignored cfg event))) [
    | inl e ↦
        rw (watched-is_ignored, e)
          (lookup-detected cfg event ip (stored_event event db) ∙ rw states-stored_event refl)
    | inr e ↦ rw (watched-is_ignored, e) (ap (lookup ip) (states-stored_event event db))
  ]

  row_of-heeded :
      (ip : String) (event : NginxEvent) (history : List NginxEvent)
      → row_of cfg (of_ip ip (heeded cfg (event ∷ history))) ≡ (
          if not (is_ignored cfg event) && str_eq event.remote_ip ip
          then row_step cfg event (row_of cfg (of_ip ip (heeded cfg history)))
          else row_of cfg (of_ip ip (heeded cfg history)))
  unfolding row_of
  row_of-heeded ip event history = elim (Bool-cases (not (is_ignored cfg event))) [
    | inl e ↦
        rw e
          (elim (Bool-cases (str_eq event.remote_ip ip)) [ inl f ↦ rw f refl | inr f ↦ rw f refl ])
    | inr e ↦ rw e refl
  ]

  Reads-row_of :
      (ip : String) {db₀ db : Database} {history : List NginxEvent}
      → db₀.nginx_ip_detection_state ≡ []
      → Reads db₀ history db
      → lookup ip db.nginx_ip_detection_state ≡ row_of cfg (of_ip ip (heeded cfg history))
  unfolding row_of handled seen_event
  Reads-row_of ip new nothing = rw new (unfold lookup in refl)
  Reads-row_of ip new (malformed c r h o) =
      ap (λ d. lookup ip d.nginx_ip_detection_state) (persisted_ok r none c o)
      ∙ Reads-row_of ip new h
  Reads-row_of ip {history = _ ∷ history} new (line c r event h o) =
      ap (λ d. lookup ip d.nginx_ip_detection_state) (persisted_ok r (some event) c o)
      ∙ lookup-handled ip r event c.db
      ∙ rw (Reads-row_of ip new h) (sym (row_of-heeded ip event history))

  count_of_run :
      {db₀ db : Database} {history : List NginxEvent} (event : NginxEvent) (n : ℕ) (start : Time)
      → db₀.nginx_ip_detection_state ≡ []
      → Reads db₀ history db
      → not_found event.status ≡ true
      → IsRun IsFresh start cfg.consecutive_404_window n
          (event ∷ of_ip event.remote_ip (heeded cfg history))
      → (streak_of cfg event (stored_event event db)).consecutive_404 ≡ n
  unfolding row_of
  count_of_run {history = history} event n start new h e run =
      let own = of_ip event.remote_ip (heeded cfg history) in
      let counts : Counts n start event (row_step cfg event (row_of cfg own)) =
        row_of-Counts cfg n start event own run in
      let streak : Counts n start event (
          some (
            next_streak event.timestamp event.status cfg.consecutive_404_window (row_of cfg own))) =
        rw e at counts in
      rw (states-stored_event, Reads-row_of event.remote_ip new h) streak.0

  offenders-handled :
      (r : LineRecord) (event : NginxEvent) (db : Database)
      → (handled cfg key r (some event) db).security_offenders
        ≡ (if watched cfg event
            then detected cfg event (stored_event event db)
            else stored_event event db).security_offenders
  unfolding handled seen_event
  offenders-handled r event db = refl

  offender-handled :
      (r : LineRecord) (event : NginxEvent) (db : Database) (n : ℕ)
      → not_found event.status ≡ true
      → (streak_of cfg event (stored_event event db)).consecutive_404 ≡ n
      → lookup event.remote_ip (handled cfg key r (some event) db).security_offenders ≡ (
          if not (contains event.path cfg.ignored_paths)
            && leb_ℤ cfg.consecutive_404_threshold (pos n)
          then some
              (flagged_row event "consecutive_404" n (lookup event.remote_ip db.security_offenders))
          else lookup event.remote_ip db.security_offenders)
  offender-handled r event db n e k =
      ap (lookup event.remote_ip) (offenders-handled r event db)
      ∙ elim (Bool-cases (not (contains event.path cfg.ignored_paths))) [
        | inl f ↦
            rw (e, f)
              (offender-detected_404 cfg event (stored_event event db) e
                ∙ ap (outcome (lookup event.remote_ip (stored_event event db).security_offenders)) k
                ∙ ap (λ rows. outcome (lookup event.remote_ip rows) n)
                    (offenders-stored_event event db))
        | inr f ↦ rw (e, f) (ap (lookup event.remote_ip) (offenders-stored_event event db))
      ]
    where
      outcome : Option Offender → ℕ → Option Offender
      outcome old n =
          if leb_ℤ cfg.consecutive_404_threshold (pos n)
          then some (flagged_row event "consecutive_404" n old)
          else old

  -- From rows that know no address: where the lines that persistNginxEvent has stored without an error
  -- make the newest `n` events of an address, those on ignored paths left out, a run of 404 responses
  -- in one window that no other 404 response precedes, the newest of them flags the address, with
  -- the reason, `n` attempts, its time and its path, exactly if its own path is not ignored and `n`
  -- reaches the threshold; otherwise the offender of that address stays as it was.
  pub flagged_exactly :
      {db₀ : Database} {history : List NginxEvent} (c : Conn Database) (r : LineRecord)
      (event : NginxEvent) (n : ℕ) (start : Time)
      → db₀.nginx_ip_detection_state ≡ []
      → Reads db₀ history c.db
      → (persisted r (some event) c).0 ≡ ok tt
      → not_found event.status ≡ true
      → IsRun IsFresh start cfg.consecutive_404_window n
          (event ∷ of_ip event.remote_ip (heeded cfg history))
      → lookup event.remote_ip (persisted r (some event) c).1.db.security_offenders ≡ (
          if not (contains event.path cfg.ignored_paths)
            && leb_ℤ cfg.consecutive_404_threshold (pos n)
          then some (
              flagged_row event "consecutive_404" n
                (lookup event.remote_ip c.db.security_offenders))
          else lookup event.remote_ip c.db.security_offenders)
  flagged_exactly c r event n start new reads stored e run =
      ap (λ d. lookup event.remote_ip d.security_offenders) (persisted_ok r (some event) c stored)
      ∙ offender-handled r event c.db n e (count_of_run event n start new reads e run)
