-- ===== src/Tests/BarRuns.antt =====
-- Runs of the bar with one entry that always prints the same text.
use slstatus.Prelude.{
  ℕ, ◌+◌, ◌≤◌, ◌<◌, ◌≡◌, ◌≢◌, ◌↔◌, refl, true, false, [], ◌∷◌, none, some, arith, length, leb,
}
use slstatus.Prelude.Int.{pos}
use slstatus.Prelude.Text.{lit}
use slstatus.Util.Human.{scale, prefix_1000, prefix_1024}
use slstatus.Util.Human.Range.{scale_in_table}
use slstatus.Bar.{Arg, Bar, Effect, Screen, due}
use slstatus.Bar.Clock.{Timespec, IsNormal, wait_valid, difftimespec, intspec, plus, minus, giga}
use slstatus.Bar.Due.{due_iff, IsDue}
use slstatus.Bar.Loop.{slept, interrupted, Round, run, started, sleep_loop}
use slstatus.Bar.Loop.Safe.{run-IsSafe, IsSafe}
use slstatus.Bar.Loop.Silent.{run-once_silent, out-sleep_loop, has_exited}
use slstatus.Bar.Options.{Flags}
use slstatus.Bar.Output.{bar_of}
use slstatus.Tests.{whole_numbers, quiet_world}

abbrev clock : Arg Unit
clock = record {
  func = λ a s w. (some (lit "12:30"), s, w);
  fmt = lit "[%s]";
  args = none;
  turn = 1;
  signal = pos 2;
}

abbrev screen : Screen
screen = record { ferror = false; store_name = pos 1 }

abbrev nothing : Effect Unit
nothing s w = (s, w)

-- The outside raises SIGTERM.
abbrev terminate : Effect Unit
terminate s w = (s, record w { raised = 15 ∷ [] })

abbrev second : ℕ → Timespec
second n = record { tv_sec = pos n; tv_nsec = pos 5 }

abbrev first_round : Round Unit
first_round = record {
  dispatched = nothing;
  start = some (second 10);
  current = some (second 10);
  screen = screen;
  sleeps = interrupted nothing (second 0) screen ∷ slept nothing ∷ [];
}

abbrev last_round : Round Unit
last_round = record first_round { dispatched = terminate }

abbrev on_stdout : Flags
on_stdout = record { done = false; sflag = true; every = true }

abbrev only_once : Flags
only_once = record { done = true; sflag = true; every = false }

abbrev bar : Bar Unit
bar = started (clock ∷ []) on_stdout tt quiet_world

one_entry-ne : clock ∷ [] ≢ []
one_entry-ne h = cc

run-IsSafe_example : IsSafe (clock ∷ []) (
    bar_of (
      run
        (clock ∷ [])
        nothing
        nothing
        true
        (pos 0)
        (first_round ∷ last_round ∷ [])
        (started (clock ∷ []) on_stdout tt quiet_world)))
run-IsSafe_example =
    run-IsSafe (clock ∷ []) one_entry-ne nothing nothing true (pos 0)
      (first_round ∷ last_round ∷ []) on_stdout tt quiet_world

due_iff_example : (due 7 36 clock ≡ true) ↔ IsDue 7 36 clock
due_iff_example = due_iff 7 36 clock

run-once_silent_example :
    let o =
      run
        (clock ∷ [])
        nothing
        nothing
        true
        (pos 0)
        (first_round ∷ [])
        (started (clock ∷ []) only_once tt quiet_world) in
    (has_exited o ≡ true) × ((bar_of o).out ≡ [])
run-once_silent_example =
    run-once_silent (clock ∷ []) nothing nothing true (pos 0) first_round [] only_once tt
      quiet_world refl refl refl

wait_valid_example :
    let wait = difftimespec intspec (difftimespec (second 12) (second 10)) in
    IsNormal wait × (plus wait ≤ giga + minus wait)
wait_valid_example =
    wait_valid (second 10) (second 12) (record { low = omega arith; high = omega arith })
      (record { low = omega arith; high = omega arith }) (omega arith)

out-sleep_loop_example :
    (bar_of (
      sleep_loop
        (clock ∷ [])
        (second 0)
        first_round.sleeps
        (started (clock ∷ []) only_once tt quiet_world))).out
    ≡ []
unfolding started
out-sleep_loop_example =
    out-sleep_loop (clock ∷ []) (second 0) first_round.sleeps
      (started (clock ∷ []) only_once tt quiet_world) refl

scale_in_table_example :
    (let (scaled, i) = scale whole_numbers 1000 (length prefix_1000) 0 123456789 in
      (i ≤ 6) × (i < length prefix_1000) × (leb 1000 scaled ≡ false))
    × (let (scaled, i) = scale whole_numbers 1024 (length prefix_1024) 0 123456789 in
        (i ≤ 6) × (i < length prefix_1024) × (leb 1024 scaled ≡ false))
scale_in_table_example = scale_in_table whole_numbers 123456789 (omega arith)
