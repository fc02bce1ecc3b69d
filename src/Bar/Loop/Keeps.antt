-- ===== src/Bar/Loop/Keeps.antt =====
-- Invariants of the bar through `main`.
use slstatus.Prelude.{
  ℕ, ◌+◌, ◌%◌, ◌^◌, refl, Bool, true, false, List, [], ◌∷◌, ◌++◌, Option, none, some, if◌then◌else◌,
}
use slstatus.Prelude.Int.{ℤ}
use slstatus.Prelude.Text.{Text}
use slstatus.Util.{World}
use slstatus.Bar.{
  Arg, Effect, Bar, Outcome, next, exited, waiting, Screen, and_then, die, printstatus, no_name,
}
use slstatus.Bar.Clock.{Timespec, difftimespec, intspec}
use slstatus.Bar.Frame.{Frame, Frame-deliver}
use slstatus.Bar.Output.{bar_of}
use slstatus.Bar.Loop.{
  Sleep, slept, interrupted, failed, Round, apply, sleep_loop, rest_of_round, counted, round_from,
  round, finish, main_loop, run,
}

module _ {S : Type 0} where
  pub Frame-die : (msg : Text) (b : Bar S) → Frame b (bar_of (die msg b))
  unfolding die
  Frame-die msg b = record {
    statuses = refl;
    iter = refl;
    sflag = refl;
    every = refl;
    out = refl;
    done = λ h. h;
  }

  pub Frame-apply : (f : Effect S) (b : Bar S) → Frame b (apply f b)
  unfolding apply
  Frame-apply f b = let (comp', w) = f b.comp b.world in Frame-deliver b comp' w

  Frame-no_signal : (b : Bar S) → Frame b (record b { upsigno = 0 })
  Frame-no_signal b = record {
    statuses = refl;
    iter = refl;
    sflag = refl;
    every = refl;
    out = refl;
    done = λ h. h;
  }

  pub Frame-world :
      (b : Bar S) (comp : S) (w : World) → Frame b (record b { comp = comp; world = w })
  Frame-world b comp w = record {
    statuses = refl;
    iter = refl;
    sflag = refl;
    every = refl;
    out = refl;
    done = λ h. h;
  }

-- `P` holds of the bar of an outcome, however the program goes on.
pub data Holds {S : Type 0} (P : Bar S → Type 0) : Outcome S → Type 0 where
  goes_on : {b : Bar S} → P b → Holds P (next b)
  left : {code : ℕ} {b : Bar S} → P b → Holds P (exited code b)
  waits : {b : Bar S} → P b → Holds P (waiting b)

pub Holds-bar_of : {S : Type 0} {P : Bar S → Type 0} {o : Outcome S} → Holds P o → P (bar_of o)
Holds-bar_of (goes_on h) = h
Holds-bar_of (left h) = h
Holds-bar_of (waits h) = h

pub Holds-of : {S : Type 0} {P : Bar S → Type 0} (o : Outcome S) → P (bar_of o) → Holds P o
Holds-of (next b) h = goes_on h
Holds-of (exited code b) h = left h
Holds-of (waiting b) h = waits h

module _ {S : Type 0} (P : Bar S → Type 0) (frame : (b c : Bar S) → Frame b c → P b → P c) where
  pub Holds-and_then :
      {o : Outcome S} {f : Bar S → Outcome S}
      → Holds P o
      → ((b : Bar S) → P b → Holds P (f b))
      → Holds P (and_then o f)
  Holds-and_then (goes_on {b} h) k = k b h
  Holds-and_then (left h) k = left h
  Holds-and_then (waits h) k = waits h

  pub Holds-die : (msg : Text) (b : Bar S) → P b → Holds P (die msg b)
  unfolding die
  Holds-die msg b h = left (frame b _ (Frame-die msg b) h)

  pub apply-keeps : (f : Effect S) (b : Bar S) → P b → P (apply f b)
  apply-keeps f b h = frame b _ (Frame-apply f b) h

  Holds-if : (t : Bool) (o o' : Outcome S) → Holds P o → Holds P o' → Holds P (if t then o else o')
  Holds-if true o o' h h' = h
  Holds-if false o o' h h' = h'

  module _ (args : List (Arg S))
      (again : (screen : Screen) (b : Bar S) → P b → Holds P (printstatus args screen 0 b)) where
    pub sleep_loop-keeps :
        (wait : Timespec) (sleeps : List (Sleep S)) (b : Bar S)
        → P b
        → Holds P (sleep_loop args wait sleeps b)
    unfolding sleep_loop
    sleep_loop-keeps wait [] b h = Holds-if _ _ _ (waits h) (goes_on h)
    sleep_loop-keeps wait (failed ∷ sleeps) b h = Holds-if _ _ _ (Holds-die _ b h) (goes_on h)
    sleep_loop-keeps wait (slept f ∷ sleeps) b h =
        Holds-if _ _ _ (goes_on (apply-keeps f b h)) (goes_on h)
    sleep_loop-keeps wait (interrupted f remaining screen ∷ sleeps) b h =
        let h' = apply-keeps f b h in
        Holds-if _ _ _
          (Holds-if _ _ _ (goes_on h') (
            Holds-and_then (again screen (apply f b) h') λ c hc.
              let hc' = frame c _ (Frame-no_signal c) hc in
              Holds-if _ _ _ (sleep_loop-keeps remaining sleeps (record c { upsigno = 0 }) hc')
                (Holds-die _ _ hc')))
          (goes_on h)

    pub rest_of_round-keeps :
        (start : Timespec) (current : Option Timespec) (sleeps : List (Sleep S)) (b : Bar S)
        → P b
        → Holds P (rest_of_round args start current sleeps b)
    unfolding rest_of_round
    rest_of_round-keeps start none sleeps b h = Holds-if _ _ _ (goes_on h) (Holds-die _ b h)
    rest_of_round-keeps start (some current) sleeps b h =
        Holds-if _ _ _ (goes_on h)
          (sleep_loop-keeps (difftimespec intspec (difftimespec current start)) sleeps b h)

  module _ (args : List (Arg S)) (teardown : Effect S) (closed : ℤ)
      (pass : (screen : Screen) (iter : ℕ) (b : Bar S)
        → P b
        → Holds P (printstatus args screen iter b))
      (tick : (n : ℕ) (b : Bar S) → P b → P (record b { iter = n }))
      (end : (b : Bar S) → P b → P (record b { out = b.out ++ no_name ∷ [] })) where
    round_from-keeps :
        (r : Round S) (start : Option Timespec) (b : Bar S)
        → P b
        → Holds P (round_from args r start b)
    unfolding round_from counted
    round_from-keeps r none b h = Holds-die _ b h
    round_from-keeps r (some start) b h =
        Holds-and_then (pass r.screen b.iter _ (tick ((b.iter + 1) % 2 ^ 32) b h))
          (rest_of_round-keeps args (λ screen c. pass screen 0 c) start r.current r.sleeps)

    pub round-keeps : (r : Round S) (b : Bar S) → P b → Holds P (round args r b)
    unfolding round
    round-keeps r b h =
        round_from-keeps r r.start (apply r.dispatched b) (apply-keeps r.dispatched b h)

    finish-keeps : (b : Bar S) → P b → Holds P (finish teardown closed b)
    unfolding finish
    finish-keeps b h =
        let (comp', w) = teardown b.comp b.world in
        let c : Bar S = record b { comp = comp'; world = w } in
        let hc = frame b c (Frame-world b comp' w) h in
        Holds-if _ _ _ (left hc) (Holds-if _ _ _ (Holds-die _ _ (end c hc)) (left (end c hc)))

    pub main_loop-keeps :
        (rounds : List (Round S)) (b : Bar S)
        → P b
        → Holds P (main_loop args teardown closed rounds b)
    unfolding main_loop
    main_loop-keeps [] b h = waits h
    main_loop-keeps (r ∷ rounds) b h =
        Holds-and_then (round-keeps r b h)
          λ c hc. Holds-if _ _ _ (finish-keeps c hc) (main_loop-keeps rounds c hc)

    pub run-keeps :
        (setup : Effect S) (opened : Bool) (rounds : List (Round S)) (b : Bar S)
        → P b
        → Holds P (run args setup teardown opened closed rounds b)
    unfolding run
    run-keeps setup opened rounds b h =
        Holds-if _ _ _ (Holds-die _ b h)
          (main_loop-keeps rounds (apply setup b) (apply-keeps setup b h))
