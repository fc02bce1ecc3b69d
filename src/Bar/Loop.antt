-- ===== src/Bar/Loop.antt =====
-- `main` of slstatus.c behind the options: set-up, the rounds of the main loop, teardown. What the
-- outside does (clocks, callbacks, the ends of nanosleep, the X server) is a script, a list of
-- rounds; a script that ends leaves the bar waiting.
pub mod Ends
pub mod Exit
pub mod Keeps
pub mod Safe
pub mod State
pub mod Silent
use slstatus.Prelude.{
  ℕ, ◌+◌, ◌%◌, ◌^◌, Bool, true, false, not, ◌&&◌, List, [], ◌∷◌, ◌++◌, map, Option, none, some,
  if◌then◌else◌,
}
use slstatus.Prelude.Int.{ℤ, pos, ltb_ℤ, leb_ℤ}
use slstatus.Prelude.Text.{Text, lit}
use slstatus.Bar.{
  Effect, Arg, no_name, Bar, Outcome, next, exited, waiting, Screen, and_then, die, deliver,
  printstatus,
}
use slstatus.Bar.Clock.{Timespec, difftimespec, intspec}
use slstatus.Bar.Options.{Flags, Parsed, flags, version, usage}
use slstatus.Stdio.Format.{str}
use slstatus.Util.{World, warn}

-- How one nanosleep ends: after its time, by a signal with the time that remains, or by an error.
-- `meanwhile` is what other threads and the outside did, the signals they raised included.
pub data Sleep (S : Type 0) : Type 0 where
  slept : (meanwhile : Effect S) → Sleep S
  interrupted : (meanwhile : Effect S) (remaining : Timespec) (screen : Screen) → Sleep S
  failed : Sleep S

-- One round: what `tick` dispatches, the two clock readings (`none` where clock_gettime fails), the
-- writes of `printstatus`, and the sleeps.
pub record Round (S : Type 0) : Type 0 where
  pub dispatched : Effect S
  pub start : Option Timespec
  pub current : Option Timespec
  pub screen : Screen
  pub sleeps : List (Sleep S)

module _ {S : Type 0} where
  -- An effect and then the handler for the signals that it raised.
  unfoldable pub apply : Effect S → Bar S → Bar S
  apply f b = let (comp', w) = f b.comp b.world in deliver (record b { comp = comp'; world = w })

  -- The `while` round nanosleep, and the test behind it: with `ret` below 0 and the errno 0 of the
  -- loop's body it ends the program. At the start of a round `ret` is 0, since every round that
  -- leaves it below 0 is the last one.
  unfoldable pub sleep_loop : List (Arg S) → Timespec → List (Sleep S) → Bar S → Outcome S
  unfolding apply
  sleep_loop args wait [] b = if leb_ℤ (pos 0) wait.tv_sec then waiting b else next b
  sleep_loop args wait (failed ∷ sleeps) b =
      if leb_ℤ (pos 0) wait.tv_sec then die (lit "nanosleep:") b else next b
  sleep_loop args wait (slept meanwhile ∷ sleeps) b =
      if leb_ℤ (pos 0) wait.tv_sec then next (apply meanwhile b) else next b
  sleep_loop args wait (interrupted meanwhile remaining screen ∷ sleeps) b =
      let b' = apply meanwhile b in
      let again = and_then (printstatus args screen 0 b') λ b''.
        let c = record b'' { upsigno = 0 } in
        let rest = sleep_loop args remaining sleeps c in
        if leb_ℤ (pos 0) remaining.tv_sec then rest else die (lit "nanosleep:") c in
      if leb_ℤ (pos 0) wait.tv_sec then (if b'.done then next b' else again) else next b

  -- What stands behind `printstatus` in a round, but for the sleep itself.
  unfoldable pub rest_of_round :
      List (Arg S) → Timespec → Option Timespec → List (Sleep S) → Bar S → Outcome S
  unfolding sleep_loop
  rest_of_round args start none sleeps b = if b.done then next b else die (lit "clock_gettime:") b
  rest_of_round args start (some current) sleeps b =
      let wait = difftimespec intspec (difftimespec current start) in
      if b.done then next b else sleep_loop args wait sleeps b

  -- `printstatus(iter++)`
  unfoldable pub counted : List (Arg S) → Screen → Bar S → Outcome S
  counted args screen b = printstatus args screen b.iter (record b { iter = (b.iter + 1) % 2 ^ 32 })

  unfoldable pub round_from : List (Arg S) → Round S → Option Timespec → Bar S → Outcome S
  unfolding counted rest_of_round
  round_from args r none b = die (lit "clock_gettime:") b
  round_from args r (some start) b =
      and_then (counted args r.screen b) (rest_of_round args start r.current r.sleeps)

  -- The body of the `do … while (!done)`.
  unfoldable pub round : List (Arg S) → Round S → Bar S → Outcome S
  unfolding round_from apply
  round args r b = round_from args r r.start (apply r.dispatched b)

  -- Behind the loop. `closed` is what XCloseDisplay returns.
  unfoldable pub finish : Effect S → ℤ → Bar S → Outcome S
  finish teardown closed b =
      let (comp', w) = teardown b.comp b.world in
      let b' = record b { comp = comp'; world = w } in
      let b'' = record b' { out = b'.out ++ no_name ∷ [] } in
      if b.sflag
      then exited 0 b'
      else if ltb_ℤ closed (pos 0)
      then die (lit "XCloseDisplay: Failed to close display") b''
      else exited 0 b''

  unfoldable pub main_loop : List (Arg S) → Effect S → ℤ → List (Round S) → Bar S → Outcome S
  unfolding round finish
  main_loop args teardown closed [] b = waiting b
  main_loop args teardown closed (r ∷ rounds) b = and_then (round args r b) λ b'.
      let more = main_loop args teardown closed rounds b' in
      if b'.done then finish teardown closed b' else more

  -- `main` from the flags: the display is opened unless the output is stdout.
  unfoldable pub run :
      List (Arg S)
      → (setup teardown : Effect S) → (opened : Bool) → ℤ
      → List (Round S)
      → Bar S
      → Outcome S
  unfolding main_loop
  run args setup teardown opened closed rounds b =
      if not b.sflag && not opened
      then die (lit "XOpenDisplay: Failed to open display") b
      else main_loop args teardown closed rounds (apply setup b)

  -- The file-scope variables as the options leave them: `statuses` is all zero bytes.
  unfoldable pub started : List (Arg S) → Flags → S → World → Bar S
  started args f comp w = record {
    statuses = map (λ a. []) args;
    iter = 0;
    sflag = f.sflag;
    every = f.every;
    done = f.done;
    upsigno = 0;
    comp = comp;
    world = w;
    out = [];
  }

  -- `main`: `argv0` is the program's name, `argv` what stands behind it.
  unfoldable pub main :
      List (Arg S)
      → (setup teardown : Effect S) → (opened : Bool) → ℤ
      → List (Round S)
      → (argv0 : Text) → Parsed
      → S
      → World
      → Outcome S
  unfolding run started
  main args setup teardown opened closed rounds argv0 (flags f) comp w =
      run args setup teardown opened closed rounds (started args f comp w)
  main args setup teardown opened closed rounds argv0 version comp w =
      die (lit "slstatus-1.1")
        (started args (record { done = false; sflag = false; every = false }) comp w)
  main args setup teardown opened closed rounds argv0 usage comp w =
      let b = started args (record { done = false; sflag = false; every = false }) comp w in
      exited 1 (record b {
        world = warn (lit "usage: %s [-v] [-s] [-S] [-1]") (str (some argv0) ∷ []) b.world;
      })
