-- ===== src/Program/Teardown.antt =====
-- What is left of the components when `main` of slstatus.c returns.
use slstatus.Prelude.{ℕ, ◌≡◌, refl, Bool, false, List, [], none}
use slstatus.Prelude.Int.{ℤ}
use slstatus.Util.{World}
use slstatus.Util.Float.{Float}
use slstatus.Pool.{TailQueue}
use slstatus.Pool.Drain.{drain_all-entries}
use slstatus.Bar.{Arg, Bar, exited}
use slstatus.Bar.Options.{Flags}
use slstatus.Bar.Loop.{Round, run, started}
use slstatus.Bar.Loop.Exit.{released, run-ExitsIn}
use slstatus.Mm
use slstatus.Nm
use slstatus.Nm.Lines
use slstatus.Pa.Init
use slstatus.Program.{Components, Libraries, setup, teardown}

module _ (F : Float) (T : TailQueue) (new_id : List Nm.Call → ℕ) where
  -- What `teardown` empties and gives up: four of the five queues, and four pointers. The queue of
  -- backlights keeps its entries.
  pub record IsReleased (s : Components F T new_id) : Type 0 where
    pub modems : TailQueue.entries T s.mm.pool.queue ≡ []
    pub networks : TailQueue.entries T s.nm.pool.queue ≡ []
    pub sinks : TailQueue.entries T s.connection.pa.pool.queue ≡ []
    pub batteries : TailQueue.entries T s.upower.pool.queue ≡ []
    pub default_sink : s.connection.pa.default_sink ≡ none
    pub client : s.upower.client ≡ none
    pub udev : s.backlight.udev ≡ none
    pub proxy : s.ppd.proxy ≡ false

  teardown-IsReleased :
      (s : Components F T new_id) (w : World) → IsReleased (teardown F T new_id s w).0
  unfolding teardown Mm.mm_free Lines.nm_free Init.pa_free slstatus.Upower.upower_free
      slstatus.Backlight.backlight_free slstatus.Ppd.ppd_free
  teardown-IsReleased s w = record {
    modems = drain_all-entries T _ s.mm.pool;
    networks = drain_all-entries T _ s.nm.pool;
    sinks = drain_all-entries T _ s.connection.pa.pool;
    batteries = drain_all-entries T _ s.upower.pool;
    default_sink = refl;
    client = refl;
    udev = refl;
    proxy = refl;
  }

  -- Where the program returns 0, after any setup, whatever the rounds brought and whatever the
  -- entries of `args` did, the queues of modems, networks, sinks and batteries are empty, the default
  -- sink is forgotten, and the pointers to the UPower client, udev and the proxy of the profiles are
  -- NULL. The backlights stay in their queue.
  pub main-IsReleased :
      (args : List (Arg (Components F T new_id))) (libraries : Libraries F T new_id) (opened : Bool)
      (closed : ℤ) (rounds : List (Round (Components F T new_id))) (f : Flags)
      (s : Components F T new_id) (w : World) (b : Bar (Components F T new_id))
      → run args
          (setup F T new_id libraries)
          (teardown F T new_id)
          opened
          closed
          rounds
          (started args f s w)
        ≡ exited 0 b
      → IsReleased b.comp
  main-IsReleased args libraries opened closed rounds f s w b e =
      released
        (run-ExitsIn IsReleased args (teardown F T new_id) closed teardown-IsReleased
          (setup F T new_id libraries) opened rounds (started args f s w))
        e
