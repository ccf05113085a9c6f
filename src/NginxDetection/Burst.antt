-- ===== src/NginxDetection/Burst.antt =====
-- Responses that straddle the end of a streak's window.
use kanyigo.Base.{
  ℕ, zero, suc, ◌+◌, ◌≤◌, ◌<◌, ◌≡◌, refl, ◌∙◌, String, false, Option, none, some, List, [], ◌∷◌,
  arith,
}
use text.Mathlib.TextPositions.{eq_refl}
use kanyigo.Base.Int.{pos, pos_part, neg_part, leb_ℤ}
use kanyigo.Base.Table.{lookup}
use kanyigo.LogEntry.{Time}
use kanyigo.Schema.{Database, DetectionState}
use kanyigo.NginxDetection.{NginxSecurityConfig, NginxEvent, streak_of, continues, next_streak}
use kanyigo.NginxDetection.Effect.{detected}
use kanyigo.NginxDetection.Streak.{after, of_ip, IsRun, Anything, lookup-after, lookup-detected}
use kanyigo.NginxDetection.Window.{
  IsFresh, Counts, row_of-Counts, more_Counts, offender-detected_404, flagged_after,
}

-- A 404 response to one address.
abbrev pub miss : String → Time → NginxEvent
miss ip t = record {
  timestamp = t;
  remote_ip = ip;
  method = "GET";
  path = "/";
  status = pos 404;
  user_agent = "";
  raw = "";
  raw_hash = "";
}

-- `k` responses at the time `t₁`, after one at `t₀`; the newest first.
abbrev pub streak : String → Time → Time → ℕ → List NginxEvent
streak ip t₀ t₁ zero = miss ip t₀ ∷ []
streak ip t₀ t₁ (suc k) = miss ip t₁ ∷ streak ip t₀ t₁ k

of_ip-streak :
    (ip : String) (t₀ t₁ : Time) (k : ℕ) → of_ip ip (streak ip t₀ t₁ k) ≡ streak ip t₀ t₁ k
of_ip-streak ip t₀ t₁ zero = rw (eq_refl ip)
of_ip-streak ip t₀ t₁ (suc k) = rw (eq_refl ip, of_ip-streak ip t₀ t₁ k)

below_threshold :
    (cfg : NginxSecurityConfig) (m n : ℕ)
    → cfg.consecutive_404_threshold ≡ pos n
    → m < n
    → leb_ℤ cfg.consecutive_404_threshold (pos m) ≡ false
below_threshold cfg m n c lt = rw c (ground arith)

module _ (ip : String) (t₀ t₁ t₂ : Time) (cfg : NginxSecurityConfig) (ordered : t₀ ≤ t₁)
    (inside : t₁ + neg_part cfg.consecutive_404_window
      ≤ t₀ + pos_part cfg.consecutive_404_window) where
  streak-IsRun : (k : ℕ) → IsRun IsFresh t₀ cfg.consecutive_404_window (suc k) (streak ip t₀ t₁ k)
  streak-IsRun zero = (refl, refl, tt)
  streak-IsRun (suc zero) = (refl, ordered, inside, (refl, refl, tt))
  streak-IsRun (suc (suc k)) = (refl, omega arith, inside, streak-IsRun (suc k))

  quiet_streak :
      (db : Database) (k n : ℕ)
      → db.nginx_ip_detection_state ≡ []
      → cfg.consecutive_404_threshold ≡ pos n
      → suc k < n
      → lookup ip (after cfg (streak ip t₀ t₁ k) db).security_offenders
        ≡ lookup ip db.security_offenders
  quiet_streak db zero n h c lt =
      flagged_after cfg (miss ip t₀) [] db 1 t₀ h refl (streak-IsRun zero)
      ∙ rw (below_threshold cfg 1 n c lt) (unfold after in refl)
  quiet_streak db (suc k) n h c lt =
      flagged_after cfg (miss ip t₁) (streak ip t₀ t₁ k) db (suc (suc k)) t₀ h refl
        (rw (of_ip-streak ip t₀ t₁ k) (streak-IsRun (suc k)))
      ∙ rw (below_threshold cfg (suc (suc k)) n c lt) (quiet_streak db k n h c (omega arith))

  -- The row after the streak.
  streak-Counts :
      (k : ℕ) (db : Database)
      → db.nginx_ip_detection_state ≡ []
      → (last : NginxEvent) × (last.status ≡ pos 404)
        × (last.timestamp ≤ t₁)
        × Counts
            (suc k)
            t₀
            last
            (lookup ip (after cfg (streak ip t₀ t₁ k) db).nginx_ip_detection_state)
  streak-Counts zero db h = (
    miss ip t₀,
    refl,
    ordered,
    rw (lookup-after cfg ip (miss ip t₀ ∷ []) db h, of_ip-streak ip t₀ t₁ zero)
        (row_of-Counts cfg 1 t₀ (miss ip t₀) [] (streak-IsRun zero)),
  )
  streak-Counts (suc k) db h = (
    miss ip t₁,
    refl,
    omega arith,
    rw (lookup-after cfg ip (streak ip t₀ t₁ (suc k)) db h, of_ip-streak ip t₀ t₁ (suc k))
        (row_of-Counts cfg (suc (suc k)) t₀ (miss ip t₁) (streak ip t₀ t₁ k)
          (streak-IsRun (suc k))),
  )

module _ (cfg : NginxSecurityConfig) (ip : String) where
  -- A response after the window of the streak begins a new one.
  late_Counts :
      (t t₀ : Time) (m : ℕ) (last : NginxEvent) (row : Option DetectionState)
      → t₀ + pos_part cfg.consecutive_404_window < t + neg_part cfg.consecutive_404_window
      → Counts m t₀ last row
      → Counts 1 t (miss ip t) (some (next_streak t (pos 404) cfg.consecutive_404_window row))
  unfolding next_streak continues
  late_Counts t t₀ m last none late h = absurd h
  late_Counts t t₀ m last (some row) late h = ground (arith, h.1)

  quiet_step :
      (event : NginxEvent) (m n : ℕ) (start : Time) (db : Database)
      → event.status ≡ pos 404
      → cfg.consecutive_404_threshold ≡ pos n
      → m < n
      → Counts m start event (some (streak_of cfg event db))
      → lookup event.remote_ip (detected cfg event db).security_offenders
        ≡ lookup event.remote_ip db.security_offenders
  quiet_step event m n start db e c lt h =
      offender-detected_404 cfg event db (rw e refl) ∙ rw (h.0, below_threshold cfg m n c lt)

module _ (cfg : NginxSecurityConfig) (ip : String) (t₀ t₁ t₂ : Time) (k : ℕ) (ordered : t₀ ≤ t₁)
    (inside : t₁ + neg_part cfg.consecutive_404_window ≤ t₀ + pos_part cfg.consecutive_404_window)
    (later : t₁ ≤ t₂)
    (late : t₀ + pos_part cfg.consecutive_404_window < t₂ + neg_part cfg.consecutive_404_window)
    (near : t₂ + neg_part cfg.consecutive_404_window
      ≤ t₁ + pos_part cfg.consecutive_404_window) where
  -- A streak, and after the end of its window two more responses.
  abbrev burst : List NginxEvent
  burst = miss ip t₂ ∷ miss ip t₂ ∷ streak ip t₀ t₁ (suc k)

  dense_streak :
      (n : ℕ) → IsRun Anything t₁ cfg.consecutive_404_window (suc n) (streak ip t₀ t₁ (suc n))
  dense_streak zero = (refl, refl, tt)
  dense_streak (suc n) = (refl, omega arith, omega arith, dense_streak n)

  dense : IsRun Anything t₁ cfg.consecutive_404_window (suc (suc (suc k))) burst
  dense = (refl, omega arith, near, (refl, later, near, dense_streak k))

  module _ (db : Database) (unknown : db.nginx_ip_detection_state ≡ [])
      (threshold : cfg.consecutive_404_threshold ≡ pos (suc (suc (suc k)))) where
    abbrev streaked : Database
    streaked = after cfg (streak ip t₀ t₁ (suc k)) db

    first_late : Counts 1 t₂ (miss ip t₂) (some (streak_of cfg (miss ip t₂) streaked))
    first_late =
        let (last, _, _, h) = streak-Counts ip t₀ t₁ t₂ cfg ordered inside (suc k) db unknown in
        late_Counts cfg ip t₂ t₀ (suc (suc k)) last (lookup ip streaked.nginx_ip_detection_state)
          late h

    second_late :
        Counts 2 t₂
          (miss ip t₂)
          (some (streak_of cfg (miss ip t₂) (after cfg (miss ip t₂ ∷ streak ip t₀ t₁ (suc k)) db)))
    unfolding after
    second_late =
        let row = some (streak_of cfg (miss ip t₂) streaked) in
        let found : lookup ip (detected cfg (miss ip t₂) streaked).nginx_ip_detection_state ≡ row =
          lookup-detected cfg (miss ip t₂) ip streaked ∙ rw (eq_refl ip) refl in
        rw found (
          more_Counts cfg (miss ip t₂) (miss ip t₂) 1 t₂ row refl refl (omega arith)
            (omega (arith, near, inside)) first_late)

    -- Where the threshold is at least 3: as many newest events of an address as the threshold
    -- says may be 404 responses in one window, and yet the address is not flagged. It is so if
    -- one more response came before them, within the window of all but the last two: the streak
    -- that it began is counted from its start, and ends with its window.
    pub missed_burst :
        IsRun Anything t₁ cfg.consecutive_404_window (suc (suc (suc k))) burst
        × (lookup ip (after cfg burst db).security_offenders ≡ lookup ip db.security_offenders)
    unfolding after
    missed_burst = (
      dense,
      quiet_step cfg ip (miss ip t₂) 2 (suc (suc (suc k))) t₂ _ refl threshold (omega arith)
            second_late
          ∙ quiet_step cfg ip (miss ip t₂) 1 (suc (suc (suc k))) t₂ streaked refl threshold
              (omega arith) first_late
          ∙ quiet_streak ip t₀ t₁ t₂ cfg ordered inside db (suc k) (suc (suc (suc k))) unknown
              threshold (omega arith),
    )
