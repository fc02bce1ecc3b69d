-- ===== src/Bar/Due.antt =====
-- The condition under which `printstatus` of slstatus.c refreshes an entry.
use slstatus.Prelude.{ℕ, ◌-◌, ◌%◌, ◌≤◌, ◌<◌, ◌≡◌, ◌↔◌, ◌⊎◌, true, arith}
use slstatus.Prelude.Int.{pos}
use slstatus.Bar.{Arg, due, sigusr1, sigrtmin}

module _ {S : Type 0} (iter upsigno : ℕ) (a : Arg S) where
  -- The number 0, SIGUSR1, a number that the turn divides without a signal, or the entry's own
  -- signal. `main` makes the first pass with the number 0, and every pass behind a nanosleep that a
  -- signal has interrupted.
  abbrev pub IsDue : Type 0
  IsDue =
      (iter ≡ 0)
      ⊎ ((upsigno ≡ sigusr1)
          ⊎ (((upsigno ≡ 0) × (0 < a.turn) × (iter % a.turn ≡ 0))
              ⊎ ((sigrtmin ≤ upsigno) × (a.signal ≡ pos (upsigno - sigrtmin)))))

  due_of_IsDue : IsDue → due iter upsigno a ≡ true
  unfolding due
  due_of_IsDue h = ground arith

  IsDue_of_due : due iter upsigno a ≡ true → IsDue
  unfolding due
  IsDue_of_due h = ground arith

  -- An entry is refreshed on a pass with the number 0, on SIGUSR1, on a pass without a waiting signal
  -- whose number its positive turn divides, and on the real-time signal of its number; and only then.
  pub due_iff : (due iter upsigno a ≡ true) ↔ IsDue
  due_iff = (IsDue_of_due, due_of_IsDue)
