-- ===== src/Bar/Loop/Ends.antt =====
-- The end of `main` in slstatus.c by a signal.
use slstatus.Prelude.{ℕ, ◌≡◌, Bool, true, false, not, ◌&&◌, ◌||◌, ◌==◌, leb, List, ◌∷◌, ◌++◌, some}
use slstatus.Prelude.Int.{pos, leb_ℤ}
use slstatus.Prelude.Text.{Text}
use slstatus.Util.{World}
use slstatus.Bar.{Arg, Effect, Bar, Outcome, next, sigrtmin, sigrtmax, sigusr1}
use slstatus.Bar.Clock.{Timespec, difftimespec, intspec}
use slstatus.Bar.Output.{bar_of}
use slstatus.Bar.Loop.{Sleep, slept, interrupted, Round, apply, counted}
use slstatus.Bar.Loop.Silent.{has_exited, is_waiting}

-- A signal that is neither SIGUSR1 nor a real-time one, such as SIGTERM and SIGINT.
abbrev pub is_ending : ℕ → Bool
is_ending signo = not ((leb signo sigrtmax && leb sigrtmin signo) || (signo == sigusr1))

-- Among the signals raised there is one that ends the program.
pub data Raises (w : World) : Type 0 where
  raises :
      (before after : List ℕ) (signo : ℕ)
      → w.raised ≡ before ++ signo ∷ after
      → is_ending signo ≡ true
      → Raises w

-- The loop of `main` does not go on.
abbrev pub Stops : {S : Type 0} → Outcome S → Type 0
Stops o = (is_waiting o ≡ false) × (has_exited o ≡ false → (bar_of o).done ≡ true)

module _ {S : Type 0} where
  module _ (args : List (Arg S)) where
    abbrev wait_of : Timespec → Timespec → Timespec
    wait_of start current = difftimespec intspec (difftimespec current start)

    -- What happens while the program sleeps.
    abbrev meanwhile : Sleep S → Effect S
    meanwhile (slept f) = f
    meanwhile (interrupted f remaining screen) = f
    meanwhile Sleep.failed = λ comp w. (comp, w)

    -- A signal that ends the program is raised in a round: while the callbacks are dispatched, or in
    -- the round's first sleep.
    pub data Stopped (r : Round S) (b : Bar S) : Type 0 where
      in_tick : Raises (r.dispatched b.comp b.world).1 → Stopped r b
      in_sleep :
          (start current : Timespec) (c : Bar S) (sleep : Sleep S) (more : List (Sleep S))
          → r.start ≡ some start
          → r.current ≡ some current
          → r.sleeps ≡ sleep ∷ more
          → counted args r.screen (apply r.dispatched b) ≡ next c
          → leb_ℤ (pos 0) (wait_of start current).tv_sec ≡ true
          → Raises (meanwhile sleep c.comp c.world).1
          → Stopped r b
