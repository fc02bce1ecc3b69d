-- ===== src/Lines/Uptime.antt =====
-- The hours and minutes of `uptime`.
use slstatus.Prelude.{ℕ, ◌+◌, ◌*◌, ◌≤◌, ◌<◌, arith}
use slstatus.Prelude.Int.{pos}
use slstatus.Lines.{hours, minutes}

-- The time that `uptime` prints is the time since boot in whole minutes, rounded down, with less
-- than sixty minutes beside the hours.
pub hours-minutes :
    (t : ℕ)
    → (hours (pos t) * 3600 + minutes (pos t) * 60 ≤ t)
      × (t < hours (pos t) * 3600 + (minutes (pos t) + 1) * 60)
      × (minutes (pos t) < 60)
unfolding hours minutes
hours-minutes t = (omega arith, omega arith, omega arith)
