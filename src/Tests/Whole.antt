-- ===== src/Tests/Whole.antt =====
-- A run of the whole program with one battery.
use slstatus.Prelude.{ℕ, ◌≡◌, refl, true, false, List, [], ◌∷◌, none, some}
use slstatus.Prelude.Int.{pos}
use slstatus.Prelude.Text.{lit}
use slstatus.Util.{World}
use slstatus.Bar.{Arg, exited, Effect, Screen}
use slstatus.Bar.Loop.{Round, slept, interrupted, run, started}
use slstatus.Bar.Options.{Flags}
use slstatus.Bar.Output.{bar_of}
use slstatus.Nm
use slstatus.Upower
use slstatus.Upower.Texts.{upower_perc}
use slstatus.Pa.Init
use slstatus.Pool.{empty}
use slstatus.Program.{Components, Libraries, setup, teardown, tick, battery, brightness, handle}
use slstatus.Program.Links.{callback}
use slstatus.Program.Config.{args, call_pa_line}
use slstatus.Program.Config.Crash.{setup-pa_line}
use slstatus.Program.Teardown.{IsReleased, main-IsReleased}
use slstatus.Tests.{whole_numbers, list_queue, quiet_world}

abbrev ids : List Nm.Call → ℕ
ids calls = 1

abbrev Whole : Type 0
Whole = Components whole_numbers list_queue ids

abbrev laptop : Upower.Device whole_numbers
laptop = record { native_path = lit "BAT0"; kind = 2; model = none; percentage = 73; state = 2 }

abbrev libraries : Libraries whole_numbers list_queue ids
libraries = record {
  udev = none;
  bus = false;
  manager = false;
  pulse = record {
    loop_new = true;
    context_new = true;
    connect = pos 0;
    start = pos 0;
    ready = true;
  };
  states = Init.ready ∷ [];
  proxy = true;
  profile = some (lit "balanced");
  client = some (laptop ∷ []);
}

abbrev nothing_yet : Whole
nothing_yet = record {
  backlight = record { pool = empty list_queue; udev = none };
  mm = record { pool = empty list_queue; manager = false; notified = [] };
  nm = record { pool = empty list_queue; calls = [] };
  connection = record {
    state_callback_signal = false;
    subscribed = false;
    pa = record { pool = empty list_queue; default_sink = none; requests = []; accepts = false };
  };
  audio = record {
    pa_loop = false;
    pa_ctx = false;
    loops = 0;
    contexts = 0;
    locked = false;
    running = false;
  };
  ppd = record { proxy = false; profile = none; callback = false; fresh = 0 };
  upower = record { pool = empty list_queue; client = none; connected = [] };
  outside = record {
    net = record {
      by_iface = λ _. none;
      device = λ _. record {
        kind = Nm.Kind.other;
        state = 30;
        ip4 = none;
        ip6 = none;
        active = none;
        hw_address = none;
      };
      access_point = λ _. record { strength = 0; ssid = none };
    };
    xlib = record {
      opens = true;
      allocates = true;
      gets_names = true;
      group = some 0;
      symbols = some (lit "pc_pl_us_2_inet_evdev");
      closes = true;
    };
    strftime = λ _. (0, []);
  };
  crashed = false;
}

abbrev battery_entry : Arg Whole
battery_entry = record {
  func = λ o s w.
      let (res, upower, w') = upower_perc whole_numbers list_queue (lit "BAT0") s.upower w in
      (res, record s { upower = upower }, w');
  fmt = lit "%s%%";
  args = some (lit "BAT0");
  turn = 1;
  signal = pos 6;
}

abbrev once : Round Whole
once = record {
  dispatched = tick whole_numbers list_queue ids (battery laptop (lit "state") none ∷ []);
  start = some (record { tv_sec = pos 10; tv_nsec = pos 0 });
  current = some (record { tv_sec = pos 10; tv_nsec = pos 0 });
  screen = record { ferror = false; store_name = pos 1 };
  sleeps = [];
}

abbrev for_ever : Flags
for_ever = record { done = false; sflag = false; every = true }

abbrev on_stdout_once : Flags
on_stdout_once = record { done = true; sflag = true; every = true }

abbrev end : slstatus.Bar.Outcome Whole
end =
    run (battery_entry ∷ []) (setup whole_numbers list_queue ids libraries)
      (teardown whole_numbers list_queue ids) true (pos 0) (once ∷ [])
      (started (battery_entry ∷ []) on_stdout_once nothing_yet quiet_world)

end_exits : end ≡ exited 0 (bar_of end)
unfolding run slstatus.Bar.Loop.main_loop slstatus.Bar.Loop.round slstatus.Bar.Loop.round_from
    slstatus.Bar.Loop.counted slstatus.Bar.Loop.rest_of_round slstatus.Bar.Loop.finish
    slstatus.Bar.printstatus slstatus.Bar.update slstatus.Bar.show_status slstatus.Bar.refresh
    slstatus.Bar.due slstatus.Bar.call slstatus.Bar.deliver slstatus.Bar.Loop.apply
    slstatus.Util.esnprintf slstatus.Util.evsnprintf slstatus.Stdio.Format.vsnprintf
    slstatus.Stdio.Format.format started tick Upower.upower_device_callback setup
    slstatus.Ppd.ppd_init slstatus.Util.kill upower_perc Upower.upower_init slstatus.Pool.find_by
    empty slstatus.Pool.insert slstatus.Util.bprintf slstatus.Stdio.Decimal.show_int
end_exits = refl

main-IsReleased_example : IsReleased whole_numbers list_queue ids (bar_of end).comp
main-IsReleased_example =
    main-IsReleased whole_numbers list_queue ids (battery_entry ∷ []) libraries true (pos 0)
      (once ∷ []) on_stdout_once nothing_yet quiet_world (bar_of end) end_exits

abbrev set_up_state : Whole
set_up_state = (setup whole_numbers list_queue ids libraries nothing_yet quiet_world).0

-- The battery is looked up, and then its charge changes.
abbrev charged_state : Whole
charged_state =
    (handle whole_numbers list_queue ids
      (battery (record laptop { percentage = 80 }) (lit "percentage") (some 0))
      (record set_up_state {
        upower =
            (Upower.upower_find whole_numbers list_queue (lit "BAT0") set_up_state.upower
              quiet_world).1;
      })
      quiet_world).0

-- A round in which the charge changes, and in whose sleep the brightness does.
abbrev charging : Round Whole
charging = record {
  dispatched = tick whole_numbers list_queue ids (battery laptop (lit "state") (some 0) ∷ []);
  start = some (record { tv_sec = pos 11; tv_nsec = pos 0 });
  current = some (record { tv_sec = pos 11; tv_nsec = pos 5 });
  screen = record { ferror = false; store_name = pos 1 };
  sleeps =
      interrupted (tick whole_numbers list_queue ids (brightness none ∷ []))
        (record { tv_sec = pos 0; tv_nsec = pos 7 }) (record { ferror = false; store_name = pos 1 })
      ∷ slept (tick whole_numbers list_queue ids [])
      ∷ [];
}

-- PulseAudio's context does not become ready.
abbrev without_sound : Libraries whole_numbers list_queue ids
without_sound = record libraries {
  pulse = record libraries.pulse { ready = false };
  states = Init.failed ∷ [];
}

not_ready : (Init.pa_init without_sound.pulse).pa_ctx ≡ false
unfolding Init.pa_init
not_ready = refl

setup-pa_line_example :
    (call_pa_line whole_numbers list_queue ids none
      (setup whole_numbers list_queue ids without_sound nothing_yet quiet_world).0
      quiet_world).1.crashed
    ≡ true
setup-pa_line_example =
    setup-pa_line whole_numbers list_queue ids without_sound nothing_yet quiet_world quiet_world
      not_ready
