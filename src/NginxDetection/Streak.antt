-- ===== src/NginxDetection/Streak.antt =====
-- The count of consecutive 404 responses of an address, against the history of its events.
use mathlib.Core.Option as Option
use native.Mathlib.Numerals.{add-one}
use kanyigo.Base.{
  ℕ, zero, suc, ◌+◌, ◌≤◌, ◌≡◌, refl, String, true, false, Option, none, some, List, [], ◌∷◌, arith,
  ◌⊎◌, Bool-cases, Option-cases, if◌then◌else◌, inl, inr, select, str_eq, eq_iff,
}
use kanyigo.Base.Int.{ℤ, pos_part, neg_part}
use kanyigo.Base.Table.{lookup, lookup-insert}
use kanyigo.LogEntry.{Time}
use kanyigo.Schema.{Database, DetectionState}
use kanyigo.NginxDetection.{
  NginxSecurityConfig, NginxEvent, not_found, streak_of, continues, next_streak, ended,
  reset_streak, flag,
}
use kanyigo.NginxDetection.Effect.{counted, detected}

-- The rows after a history, which has the newest event first.
unfoldable pub after : NginxSecurityConfig → List NginxEvent → Database → Database
after cfg [] db = db
after cfg (event ∷ history) db = detected cfg event (after cfg history db)

abbrev pub of_ip : String → List NginxEvent → List NginxEvent
of_ip ip = select (λ event. str_eq event.remote_ip ip)

-- The row of an address, from the events of that address alone.
abbrev pub row_step :
    NginxSecurityConfig → NginxEvent → Option DetectionState → Option DetectionState
row_step cfg event row =
    if not_found event.status
    then some (next_streak event.timestamp event.status cfg.consecutive_404_window row)
    else Option.map (ended event) row

unfoldable pub row_of : NginxSecurityConfig → List NginxEvent → Option DetectionState
row_of cfg [] = none
row_of cfg (event ∷ history) = row_step cfg event (row_of cfg history)

detection-flag :
    (event : NginxEvent) (reason : String) (n : ℕ) (db : Database)
    → (flag event reason n db).nginx_ip_detection_state ≡ db.nginx_ip_detection_state
unfolding flag
detection-flag event reason n db = refl

lookup-reset :
    (event : NginxEvent) (ip : String) (db : Database)
    → lookup ip (reset_streak event db).nginx_ip_detection_state ≡ (
        if str_eq event.remote_ip ip
        then Option.map (ended event) (lookup ip db.nginx_ip_detection_state)
        else lookup ip db.nginx_ip_detection_state)
unfolding reset_streak
lookup-reset event ip db =
    elim (Option-cases (lookup event.remote_ip db.nginx_ip_detection_state)) [
      | inl e ↦ rw (e, reset_streak) (ground (arith, eq_iff event.remote_ip ip))
      | inr (row, e) ↦
          rw (e, reset_streak)
            (ground (
              arith,
              eq_iff event.remote_ip ip,
              lookup-insert event.remote_ip ip (ended event row) db.nginx_ip_detection_state,
            ))
    ]

detection-detected :
    (cfg : NginxSecurityConfig) (event : NginxEvent) (db : Database)
    → (detected cfg event db).nginx_ip_detection_state
      ≡ (if not_found event.status
          then counted cfg event db
          else reset_streak event db).nginx_ip_detection_state
unfolding detected flag
detection-detected cfg event db = ground arith

lookup-counted :
    (cfg : NginxSecurityConfig) (event : NginxEvent) (ip : String) (db : Database)
    → lookup ip (counted cfg event db).nginx_ip_detection_state ≡ (
        if str_eq event.remote_ip ip
        then some (
            next_streak event.timestamp event.status cfg.consecutive_404_window
              (lookup ip db.nginx_ip_detection_state))
        else lookup ip db.nginx_ip_detection_state)
unfolding counted
lookup-counted cfg event ip db = ground (
  arith,
  eq_iff event.remote_ip ip,
  lookup-insert event.remote_ip ip (streak_of cfg event db) db.nginx_ip_detection_state,
)

pub lookup-detected :
    (cfg : NginxSecurityConfig) (event : NginxEvent) (ip : String) (db : Database)
    → lookup ip (detected cfg event db).nginx_ip_detection_state ≡ (
        if str_eq event.remote_ip ip
        then row_step cfg event (lookup ip db.nginx_ip_detection_state)
        else lookup ip db.nginx_ip_detection_state)
lookup-detected cfg event ip db =
    rw detection-detected (elim (Bool-cases (not_found event.status)) [
      | inl e ↦ rw e (lookup-counted cfg event ip db)
      | inr e ↦ rw e (lookup-reset event ip db)
    ])

-- From rows that know no address, the row of an address depends on its own events alone.
pub lookup-after :
    (cfg : NginxSecurityConfig) (ip : String) (history : List NginxEvent) (db : Database)
    → db.nginx_ip_detection_state ≡ []
    → lookup ip (after cfg history db).nginx_ip_detection_state ≡ row_of cfg (of_ip ip history)
unfolding after row_of
lookup-after cfg ip [] db h = rw h (unfold lookup in refl)
lookup-after cfg ip (event ∷ history) db h =
    rw (lookup-detected, lookup-after cfg ip history db h)
      (elim (Bool-cases (str_eq event.remote_ip ip)) [ inl e ↦ rw e | inr e ↦ rw e ])

-- The newest `n` events are 404 responses, in the order of their times, the oldest of them at
-- `start`, all of them at most a window after it; `Before` holds of the events before them.
abbrev pub IsRun : (List NginxEvent → Type 0) → Time → ℤ → ℕ → List NginxEvent → Type 0
IsRun Before start window zero history = ⊥
IsRun Before start window (suc zero) [] = ⊥
IsRun Before start window (suc zero) (event ∷ history) =
    (not_found event.status ≡ true) × (event.timestamp ≡ start) × Before history
IsRun Before start window (suc (suc n)) [] = ⊥
IsRun Before start window (suc (suc n)) (event ∷ []) = ⊥
IsRun Before start window (suc (suc n)) (event ∷ previous ∷ history) =
    (not_found event.status ≡ true)
    × (previous.timestamp ≤ event.timestamp)
    × (event.timestamp + neg_part window ≤ start + pos_part window)
    × IsRun Before start window (suc n) (previous ∷ history)

abbrev pub Anything : List NginxEvent → Type 0
Anything history = Unit

-- What the row of an address says of its history.
abbrev pub Tracks : NginxSecurityConfig → List NginxEvent → Option DetectionState → Type 0
Tracks cfg history none = Unit
Tracks cfg [] (some row) = ⊥
Tracks cfg (event ∷ history) (some row) =
    (row.last_seen_at ≡ event.timestamp)
    × (row.last_status ≡ event.status)
    × ((row.consecutive_404 ≡ 0) × (row.streak_started_at ≡ none)
        ⊎ ((start : Time) × (row.streak_started_at ≡ some start)
            × IsRun Anything start cfg.consecutive_404_window row.consecutive_404
                (event ∷ history)))

IsRun-grows :
    (Before : List NginxEvent → Type 0) (start : Time) (window : ℤ) (n : ℕ)
    (event previous : NginxEvent) (history : List NginxEvent)
    → not_found event.status ≡ true
    → previous.timestamp ≤ event.timestamp
    → event.timestamp + neg_part window ≤ start + pos_part window
    → IsRun Before start window n (previous ∷ history)
    → IsRun Before start window (n + 1) (event ∷ previous ∷ history)
IsRun-grows Before start window zero event previous history e o w r = absurd r
IsRun-grows Before start window (suc n) event previous history e o w r = rw add-one (e, o, w, r)

continues_start :
    (t : Time) (window : ℤ) (row : DetectionState) (start : Time)
    → row.streak_started_at ≡ some start
    → continues t window row ≡ true
    → (row.last_seen_at ≤ t) × (t + neg_part window ≤ start + pos_part window)
unfolding continues
continues_start t window row start s c = ground arith

pub continues-none :
    (t : Time) (window : ℤ) (row : DetectionState)
    → row.streak_started_at ≡ none
    → continues t window row ≡ false
unfolding continues
continues-none t window row s = ground arith

next_streak-Tracks :
    (cfg : NginxSecurityConfig) (event : NginxEvent) (history : List NginxEvent)
    (row : Option DetectionState)
    → not_found event.status ≡ true
    → Tracks cfg history row
    → Tracks cfg
        (event ∷ history)
        (some (next_streak event.timestamp event.status cfg.consecutive_404_window row))
unfolding next_streak
next_streak-Tracks cfg event history none e h =
    (refl, refl, inr (event.timestamp, refl, (e, refl, tt)))
next_streak-Tracks cfg event [] (some row) e h = absurd h
next_streak-Tracks cfg event (previous ∷ history) (some row) e h =
    elim (Bool-cases (continues event.timestamp cfg.consecutive_404_window row)) [
      | inl c ↦ elim h.2 [
        | inl (_, s) ↦
            absurd (let d = continues-none event.timestamp cfg.consecutive_404_window row s in cc)
        | inr (start, s, r) ↦
            let (o, w) = continues_start event.timestamp cfg.consecutive_404_window row start s c in
            rw c (
              refl,
              refl,
              inr (
                start,
                s,
                IsRun-grows Anything start cfg.consecutive_404_window row.consecutive_404 event
                    previous history e (omega (arith, h.0)) w r,
              ),
            )
      ]
      | inr c ↦ rw c (refl, refl, inr (event.timestamp, refl, (e, refl, tt)))
    ]

row_step-Tracks :
    (cfg : NginxSecurityConfig) (event : NginxEvent) (history : List NginxEvent)
    (row : Option DetectionState)
    → Tracks cfg history row
    → Tracks cfg (event ∷ history) (row_step cfg event row)
row_step-Tracks cfg event history row h = elim (Bool-cases (not_found event.status)) [
  | inl e ↦ rw e (next_streak-Tracks cfg event history row e h)
  | inr e ↦ rw e (ended-Tracks row)
]
  where
    ended-Tracks :
        (r : Option DetectionState) → Tracks cfg (event ∷ history) (Option.map (ended event) r)
    ended-Tracks none = tt
    ended-Tracks (some r) = (refl, refl, inl (refl, refl))

pub row_of-Tracks :
    (cfg : NginxSecurityConfig) (history : List NginxEvent)
    → Tracks cfg history (row_of cfg history)
unfolding row_of
row_of-Tracks cfg [] = tt
row_of-Tracks cfg (event ∷ history) =
    row_step-Tracks cfg event history (row_of cfg history) (row_of-Tracks cfg history)

-- From rows that know no address, after any events of any addresses, the row of an address
-- says when its last event was and what status it had; and its count, unless 0, is that of
-- a run: as many newest events of that address are 404 responses, in the order of their times,
-- from the start of the streak on and within the window after it.
pub after-Tracks :
    (cfg : NginxSecurityConfig) (ip : String) (history : List NginxEvent) (db : Database)
    → db.nginx_ip_detection_state ≡ []
    → Tracks cfg (of_ip ip history) (lookup ip (after cfg history db).nginx_ip_detection_state)
after-Tracks cfg ip history db h =
    rw (lookup-after cfg ip history db h) (row_of-Tracks cfg (of_ip ip history))
