-- ===== src/Bar/Loop/Exit.antt =====
-- How `main` ends: what the teardown has made of the components' state.
use mathlib.Core.Path.{subst}
use slstatus.Prelude.{
  ℕ, ◌≡◌, Bool, true, false, ◌||◌, not, ◌==◌, List, [], ◌∷◌, Option, none, some, if◌then◌else◌,
}
use slstatus.Prelude.Int.{ℤ}
use slstatus.Prelude.Text.{Text}
use slstatus.Util.{World}
use slstatus.Bar.{
  Arg, Effect, Bar, Outcome, next, exited, waiting, Screen, and_then, die, update, show_status,
  printstatus,
}
use slstatus.Bar.Clock.{Timespec, difftimespec, intspec}
use slstatus.Bar.Output.{bar_of}
use slstatus.Bar.Loop.{
  Sleep, slept, interrupted, failed, Round, apply, sleep_loop, rest_of_round, counted, round_from,
  round, finish, main_loop, run,
}

-- An outcome that is an exit with the code 0 only where `R` holds of the components' state.
pub data ExitsIn {S : Type 0} (R : S → Type 0) : Outcome S → Type 0 where
  goes_on : {b : Bar S} → ExitsIn R (next b)
  waits : {b : Bar S} → ExitsIn R (waiting b)
  died : {b : Bar S} → ExitsIn R (exited 1 b)
  ended : {b : Bar S} → R b.comp → ExitsIn R (exited 0 b)

module _ {S : Type 0} (R : S → Type 0) where
  ExitsIn-if :
      (t : Bool) (o o' : Outcome S) → ExitsIn R o → ExitsIn R o' → ExitsIn R (if t then o else o')
  ExitsIn-if true o o' h h' = h
  ExitsIn-if false o o' h h' = h'

  ExitsIn-and_then :
      {o : Outcome S} {f : Bar S → Outcome S}
      → ExitsIn R o
      → ((b : Bar S) → ExitsIn R (f b))
      → ExitsIn R (and_then o f)
  ExitsIn-and_then (goes_on {b}) k = k b
  ExitsIn-and_then waits k = waits
  ExitsIn-and_then died k = died
  ExitsIn-and_then (ended h) k = ended h

  ExitsIn-die : (msg : Text) (b : Bar S) → ExitsIn R (die msg b)
  unfolding die
  ExitsIn-die msg b = died

  module _ (args : List (Arg S)) where
    show_status-ExitsIn : (screen : Screen) (b : Bar S) → ExitsIn R (show_status screen b)
    unfolding show_status
    show_status-ExitsIn screen b =
        ExitsIn-if b.sflag _ _ (ExitsIn-if screen.ferror _ _ (ExitsIn-die _ _) goes_on)
          (ExitsIn-if _ _ _ (ExitsIn-die _ _) goes_on)

    printstatus-ExitsIn :
        (screen : Screen) (iter : ℕ) (b : Bar S) → ExitsIn R (printstatus args screen iter b)
    unfolding printstatus
    printstatus-ExitsIn screen iter b =
        let (ts, b') = update iter args b.statuses b in
        let c = record b' { statuses = ts; upsigno = 0 } in
        ExitsIn-if (b.every || not (iter == 0)) (show_status screen c) (next c)
          (show_status-ExitsIn screen c) goes_on

    sleep_loop-ExitsIn :
        (wait : Timespec) (sleeps : List (Sleep S)) (b : Bar S)
        → ExitsIn R (sleep_loop args wait sleeps b)
    unfolding sleep_loop
    sleep_loop-ExitsIn wait [] b = ExitsIn-if _ _ _ waits goes_on
    sleep_loop-ExitsIn wait (failed ∷ sleeps) b = ExitsIn-if _ _ _ (ExitsIn-die _ _) goes_on
    sleep_loop-ExitsIn wait (slept f ∷ sleeps) b = ExitsIn-if _ _ _ goes_on goes_on
    sleep_loop-ExitsIn wait (interrupted f remaining screen ∷ sleeps) b =
        ExitsIn-if _ _ _
          (ExitsIn-if _ _ _ goes_on (
            ExitsIn-and_then (printstatus-ExitsIn screen 0 (apply f b)) λ c.
              ExitsIn-if _ _ _ (sleep_loop-ExitsIn remaining sleeps (record c { upsigno = 0 }))
                (ExitsIn-die _ _)))
          goes_on

    rest_of_round-ExitsIn :
        (start : Timespec) (current : Option Timespec) (sleeps : List (Sleep S)) (b : Bar S)
        → ExitsIn R (rest_of_round args start current sleeps b)
    unfolding rest_of_round
    rest_of_round-ExitsIn start none sleeps b = ExitsIn-if _ _ _ goes_on (ExitsIn-die _ _)
    rest_of_round-ExitsIn start (some current) sleeps b =
        ExitsIn-if _ _ _ goes_on
          (sleep_loop-ExitsIn (difftimespec intspec (difftimespec current start)) sleeps b)

    round_from-ExitsIn :
        (r : Round S) (start : Option Timespec) (b : Bar S) → ExitsIn R (round_from args r start b)
    unfolding round_from counted
    round_from-ExitsIn r none b = ExitsIn-die _ b
    round_from-ExitsIn r (some start) b =
        ExitsIn-and_then (printstatus-ExitsIn r.screen b.iter _)
          (rest_of_round-ExitsIn start r.current r.sleeps)

    module _ (teardown : Effect S) (closed : ℤ)
        (releases : (s : S) (w : World) → R (teardown s w).0) where
      finish-ExitsIn : (b : Bar S) → ExitsIn R (finish teardown closed b)
      unfolding finish
      finish-ExitsIn b =
          ExitsIn-if _ _ _ (ended (releases b.comp b.world))
            (ExitsIn-if _ _ _ (ExitsIn-die _ _) (ended (releases b.comp b.world)))

      main_loop-ExitsIn :
          (rounds : List (Round S)) (b : Bar S)
          → ExitsIn R (main_loop args teardown closed rounds b)
      unfolding main_loop round
      main_loop-ExitsIn [] b = waits
      main_loop-ExitsIn (r ∷ rounds) b =
          ExitsIn-and_then (round_from-ExitsIn r r.start (apply r.dispatched b))
            λ c. ExitsIn-if _ _ _ (finish-ExitsIn c) (main_loop-ExitsIn rounds c)

      pub run-ExitsIn :
          (setup : Effect S) (opened : Bool) (rounds : List (Round S)) (b : Bar S)
          → ExitsIn R (run args setup teardown opened closed rounds b)
      unfolding run
      run-ExitsIn setup opened rounds b =
          ExitsIn-if _ _ _ (ExitsIn-die _ b) (main_loop-ExitsIn rounds (apply setup b))

pub released :
    {S : Type 0} {R : S → Type 0} {o : Outcome S} {b : Bar S}
    → ExitsIn R o
    → o ≡ exited 0 b
    → R b.comp
released goes_on e = cc
released waits e = cc
released died e = cc
released {R = R} (ended h) e = subst (λ o. R (bar_of o).comp) e h
