-- ===== src/Parser/Year.antt =====
-- The year of a line that has none: inferLegacyTimestamp and absDuration of parser.go.
use kanyigo.Base.{ℕ, suc, ◌+◌, ◌-◌, ◌≤◌, ◌≡◌, ◌⊎◌, arith, leb, if◌then◌else◌}
use kanyigo.Base.Int.{ℤ, pos, negsuc, ltb_ℤ}
use kanyigo.LogEntry.{Time}

-- `t.Sub(u)`, of times that are less than 292 years apart
unfoldable pub sub : Time → Time → ℤ
sub t u = if leb u t then pos (t - u) else negsuc (u - t - 1)

unfoldable pub abs_duration : ℤ → ℤ
abs_duration (pos n) = pos n
abs_duration (negsuc n) = pos (suc n)

-- The hour, the minute and the second.
pub record WallClock : Type 0 where
  pub hour : ℕ
  pub minute : ℕ
  pub second : ℕ

-- The calendar of a time zone: the year of a time, and time.Date with a year, a month, a day and the
-- time of the day.
pub record Location : Type 0 where
  pub year_of : Time → ℕ
  pub date : ℕ → ℕ → ℕ → WallClock → Time

-- `if distance := absDuration(candidate.Sub(localNow)); distance < bestDistance { … }`
unfoldable pub closer : Time → Time → Time → Time
closer now best candidate =
    if ltb_ℤ (abs_duration (sub candidate now)) (abs_duration (sub best now))
    then candidate
    else best

unfoldable pub infer_legacy_timestamp : Time → Location → ℕ → ℕ → WallClock → Time
infer_legacy_timestamp now loc month day clock =
    let year = loc.year_of now in
    let best = loc.date year month day clock in
    let best' = closer now best (loc.date (year - 1) month day clock) in
    closer now best' (loc.date (year + 1) month day clock)

-- How far two times are from each other.
unfoldable pub distance : Time → Time → ℕ
distance t u = (t - u) + (u - t)

closer_is :
    (now best candidate : Time)
    → ((closer now best candidate ≡ best) ⊎ (closer now best candidate ≡ candidate))
      × (distance (closer now best candidate) now ≤ distance best now)
      × (distance (closer now best candidate) now ≤ distance candidate now)
unfolding closer distance abs_duration sub
closer_is now best candidate = ground arith

-- The time chosen for a line without a year is that of its month, day and clock in the year of now, in
-- the one before or in the one after, and no other of the three is nearer to now.
pub infer_legacy_timestamp-nearest :
    (now : Time) (loc : Location) (month day : ℕ) (clock : WallClock)
    → ((infer_legacy_timestamp now loc month day clock ≡ loc.date (loc.year_of now) month day clock)
        ⊎ (infer_legacy_timestamp now loc month day clock
            ≡ loc.date (loc.year_of now - 1) month day clock)
        ⊎ (infer_legacy_timestamp now loc month day clock
            ≡ loc.date (loc.year_of now + 1) month day clock))
      × (distance (infer_legacy_timestamp now loc month day clock) now
          ≤ distance (loc.date (loc.year_of now) month day clock) now)
      × (distance (infer_legacy_timestamp now loc month day clock) now
          ≤ distance (loc.date (loc.year_of now - 1) month day clock) now)
      × (distance (infer_legacy_timestamp now loc month day clock) now
          ≤ distance (loc.date (loc.year_of now + 1) month day clock) now)
unfolding infer_legacy_timestamp
infer_legacy_timestamp-nearest now loc month day clock =
    let year = loc.year_of now in
    let best = loc.date year month day clock in
    let before = loc.date (year - 1) month day clock in
    let after = loc.date (year + 1) month day clock in
    ground (arith, closer_is now best before, closer_is now (closer now best before) after)
