-- ===== src/NginxDetection/Window.antt =====
-- When an address is flagged for consecutive 404 responses, and when it is not.
use kanyigo.Base.{
  ℕ, zero, suc, ◌+◌, ◌≤◌, ◌≡◌, refl, ap, ◌∙◌, subst, String, true, false, Option, none, some, List,
  [], ◌∷◌, arith, Bool-cases, if◌then◌else◌, inl, inr,
}
use text.Mathlib.TextPositions.{eq_refl}
use kanyigo.Base.Int.{pos, pos_part, neg_part, leb_ℤ}
use kanyigo.Base.Table.{lookup, lookup-insert}
use kanyigo.LogEntry.{Time}
use kanyigo.Schema.{Database, DetectionState}
use kanyigo.NginxDetection.{
  NginxSecurityConfig, NginxEvent, not_found, streak_of, continues, next_streak, flag, flagged_row,
}
use kanyigo.NginxDetection.Effect.{counted, detected}
use kanyigo.NginxDetection.Streak.{
  after, of_ip, row_step, row_of, row_of-Tracks, Tracks, IsRun, lookup-after,
}

-- The event before a run is no 404 response, or there is none.
abbrev pub IsFresh : List NginxEvent → Type 0
IsFresh [] = Unit
IsFresh (event ∷ history) = not_found event.status ≡ false

-- A row that counts `n` from `start` on, and whose last event was `event`.
abbrev pub Counts : ℕ → Time → NginxEvent → Option DetectionState → Type 0
Counts n start event none = ⊥
Counts n start event (some row) =
    (row.consecutive_404 ≡ n)
    × (row.streak_started_at ≡ some start)
    × (row.last_seen_at ≡ event.timestamp)
    × (row.last_status ≡ event.status)

first_Counts :
    (cfg : NginxSecurityConfig) (event : NginxEvent) (history : List NginxEvent)
    (row : Option DetectionState)
    → not_found event.status ≡ true
    → IsFresh history
    → Tracks cfg history row
    → Counts 1 event.timestamp event (row_step cfg event row)
unfolding next_streak
first_Counts cfg event history none e f h = rw e (refl, refl, refl, refl)
first_Counts cfg event [] (some row) e f h = absurd h
first_Counts cfg event (previous ∷ history) (some row) e f h =
    let c : continues event.timestamp cfg.consecutive_404_window row ≡ false =
      unfold continues in rw (h.1, f) in
    rw e (rw c (refl, refl, refl, refl))

pub more_Counts :
    (cfg : NginxSecurityConfig) (event previous : NginxEvent) (n : ℕ) (start : Time)
    (row : Option DetectionState)
    → not_found event.status ≡ true
    → not_found previous.status ≡ true
    → previous.timestamp ≤ event.timestamp
    → event.timestamp + neg_part cfg.consecutive_404_window
      ≤ start + pos_part cfg.consecutive_404_window
    → Counts n start previous row
    → Counts (suc n) start event (row_step cfg event row)
unfolding next_streak
more_Counts cfg event previous n start none e p o w h = absurd h
more_Counts cfg event previous n start (some row) e p o w h =
    let c : continues event.timestamp cfg.consecutive_404_window row ≡ true =
      unfold continues in rw (h.3, p, h.1) (ground (arith, h.2)) in
    rw e (rw c (omega (arith, h.0), h.1, refl, refl))

run_head :
    (cfg : NginxSecurityConfig) (n : ℕ) (start : Time) (event : NginxEvent)
    (history : List NginxEvent)
    → IsRun IsFresh start cfg.consecutive_404_window (suc n) (event ∷ history)
    → not_found event.status ≡ true
run_head cfg zero start event history r = r.0
run_head cfg (suc n) start event [] r = absurd r
run_head cfg (suc n) start event (previous ∷ history) r = r.0

pub row_of-Counts :
    (cfg : NginxSecurityConfig) (n : ℕ) (start : Time) (event : NginxEvent)
    (history : List NginxEvent)
    → IsRun IsFresh start cfg.consecutive_404_window n (event ∷ history)
    → Counts n start event (row_of cfg (event ∷ history))
unfolding row_of
row_of-Counts cfg zero start event history r = absurd r
row_of-Counts cfg (suc zero) start event history r =
    subst (λ t. Counts 1 t event (row_of cfg (event ∷ history))) r.1
      (first_Counts cfg event history (row_of cfg history) r.0 r.2 (row_of-Tracks cfg history))
row_of-Counts cfg (suc (suc n)) start event [] r = absurd r
row_of-Counts cfg (suc (suc n)) start event (previous ∷ history) r =
    more_Counts cfg event previous (suc n) start (row_of cfg (previous ∷ history)) r.0
      (run_head cfg n start previous history r.3) r.1 r.2
      (row_of-Counts cfg (suc n) start previous history r.3)

lookup-flag :
    (event : NginxEvent) (reason : String) (n : ℕ) (db : Database)
    → lookup event.remote_ip (flag event reason n db).security_offenders
      ≡ some (flagged_row event reason n (lookup event.remote_ip db.security_offenders))
unfolding flag
lookup-flag event reason n db =
    lookup-insert event.remote_ip event.remote_ip
      (flagged_row event reason n (lookup event.remote_ip db.security_offenders))
      db.security_offenders
    ∙ rw (eq_refl event.remote_ip) refl

-- What a 404 response does to the offender of its address.
pub offender-detected_404 :
    (cfg : NginxSecurityConfig) (event : NginxEvent) (db : Database)
    → not_found event.status ≡ true
    → lookup event.remote_ip (detected cfg event db).security_offenders ≡ (
        if leb_ℤ cfg.consecutive_404_threshold (pos (streak_of cfg event db).consecutive_404)
        then some (
            flagged_row event "consecutive_404"
              (streak_of cfg event db).consecutive_404
              (lookup event.remote_ip db.security_offenders))
        else lookup event.remote_ip db.security_offenders)
unfolding detected counted
offender-detected_404 cfg event db e =
    elim (Bool-cases
      (leb_ℤ cfg.consecutive_404_threshold (pos (streak_of cfg event db).consecutive_404))) [
        | inl b ↦
            rw (e, b)
              (lookup-flag event "consecutive_404" (streak_of cfg event db).consecutive_404
                (counted cfg event db))
        | inr b ↦ rw (e, b)
      ]

streak_count :
    (cfg : NginxSecurityConfig) (event : NginxEvent) (history : List NginxEvent) (db : Database)
    (n : ℕ) (start : Time)
    → db.nginx_ip_detection_state ≡ []
    → not_found event.status ≡ true
    → IsRun IsFresh start cfg.consecutive_404_window n (event ∷ of_ip event.remote_ip history)
    → (streak_of cfg event (after cfg history db)).consecutive_404 ≡ n
unfolding row_of
streak_count cfg event history db n start h e r =
    let own = of_ip event.remote_ip history in
    let counts : Counts n start event (row_step cfg event (row_of cfg own)) =
      row_of-Counts cfg n start event own r in
    let streak : Counts n start event (
        some
          (next_streak event.timestamp event.status cfg.consecutive_404_window (row_of cfg own))) =
      rw e at counts in
    rw (lookup-after cfg event.remote_ip history db h) streak.0

-- From rows that know no address: where the newest `n` events of an address are a run of 404
-- responses that nothing but another response, or nothing, precedes, the newest of them flags the
-- address, with the reason, `n` attempts, its time and its path, exactly if `n` reaches the
-- threshold; otherwise the offender of that address stays as it was.
pub flagged_after :
    (cfg : NginxSecurityConfig) (event : NginxEvent) (history : List NginxEvent) (db : Database)
    (n : ℕ) (start : Time)
    → db.nginx_ip_detection_state ≡ []
    → not_found event.status ≡ true
    → IsRun IsFresh start cfg.consecutive_404_window n (event ∷ of_ip event.remote_ip history)
    → lookup event.remote_ip (after cfg (event ∷ history) db).security_offenders ≡ (
        if leb_ℤ cfg.consecutive_404_threshold (pos n)
        then some (
            flagged_row event "consecutive_404" n
              (lookup event.remote_ip (after cfg history db).security_offenders))
        else lookup event.remote_ip (after cfg history db).security_offenders)
unfolding after
flagged_after cfg event history db n start h e r =
    rw (offender-detected_404 cfg event (after cfg history db) e) (
      ap
        (λ k.
          if leb_ℤ cfg.consecutive_404_threshold (pos k)
          then some (
              flagged_row event "consecutive_404" k
                (lookup event.remote_ip (after cfg history db).security_offenders))
          else lookup event.remote_ip (after cfg history db).security_offenders)
        (streak_count cfg event history db n start h e r))
