-- ===== src/Tests/Signals.antt =====
-- Inputs for signals, and for the command line.
use slstatus.Prelude.{◌≡◌, refl, true, false, [], ◌∷◌, none, some}
use slstatus.Prelude.Int.{pos}
use slstatus.Prelude.Text.{lit}
use slstatus.Util.{kill}
use slstatus.Bar.{Arg, Bar, Effect, Screen, printstatus, update, due}
use slstatus.Bar.Loop.{Round, started}
use slstatus.Bar.Lost.{printstatus-lost}
use slstatus.Bar.Options.{Flags}
use slstatus.Bar.Output.{bar_of}
use slstatus.Tests.{quiet_world}

-- An entry that shows a text when its signal arrives.
abbrev volume : Arg Unit
volume = record {
  func = λ a s w. (some (lit "50%"), s, w);
  fmt = lit "[%s]";
  args = none;
  turn = 0;
  signal = pos 4;
}

-- An entry during whose refresh the signal of the other one is raised.
abbrev slow : Arg Unit
slow = record volume {
  func = λ a s w. (some (lit "12:30"), s, kill 38 w);
  turn = 1;
  signal = pos 2;
}

abbrev screen : Screen
screen = record { ferror = false; store_name = pos 1 }

abbrev on_stdout : Flags
on_stdout = record { done = false; sflag = true; every = true }

abbrev bar : Bar Unit
bar = record (started (volume ∷ slow ∷ []) on_stdout tt quiet_world) {
  statuses = lit "[40%]" ∷ lit "[12:29]" ∷ [];
  iter = 3;
}

volume_waits : due 3 0 volume ≡ false
unfolding due
volume_waits = refl

printstatus-lost_example :
    let b' = bar_of (printstatus (volume ∷ slow ∷ []) screen 3 bar) in
    (b'.statuses ≡ lit "[40%]" ∷ (update 3 (slow ∷ []) (lit "[12:29]" ∷ []) bar).0)
    × (b'.upsigno ≡ 0)
unfolding started
printstatus-lost_example =
    printstatus-lost 3 screen (volume ∷ []) (slow ∷ []) (lit "[40%]" ∷ []) (lit "[12:29]" ∷ []) bar
      refl refl (volume_waits, tt)

abbrev terminate : Effect Unit
terminate s w = (s, kill 15 w)

abbrev nothing : Effect Unit
nothing s w = (s, w)

abbrev last_round : Round Unit
last_round = record {
  dispatched = terminate;
  start = some (record { tv_sec = pos 10; tv_nsec = pos 0 });
  current = some (record { tv_sec = pos 10; tv_nsec = pos 0 });
  screen = screen;
  sleeps = [];
}
