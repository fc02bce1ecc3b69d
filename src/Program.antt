-- ===== src/Program.antt =====
-- The parts of slstatus.c that join the components: `setup`, `tick` and `teardown`, over the state
-- of all components, and the callbacks that libraries dispatch into them meanwhile.

pub mod Config
pub mod Linked
pub mod Links
pub mod Run
pub mod Teardown
use slstatus.Prelude.{ℕ, Bool, true, List, [], ◌∷◌, ◌++◌, Option, none, some}
use slstatus.Prelude.Int.{ℤ}
use slstatus.Prelude.Text.{Text}
use slstatus.Util.{World}
use slstatus.Util.Float.{Float}
use slstatus.Pool.{TailQueue}
use slstatus.Bar.{Effect}
use slstatus.Backlight
use slstatus.Keymap
use slstatus.Mm
use slstatus.Nm
use slstatus.Nm.Lines
use slstatus.Pa
use slstatus.Pa.Init
use slstatus.Ppd
use slstatus.Upower

module _ (F : Float) (T : TailQueue) (new_id : List Nm.Call → ℕ) where
  -- What the libraries and the system show at a moment to the functions of the components.
  pub record Outside : Type 0 where
    pub net : Nm.Net
    pub xlib : Keymap.Xlib
    pub strftime : Text → ℕ × Text

  -- The state of the components, and what is around them. `crashed`: a function has read at NULL, or
  -- libpulse has aborted.
  pub record Components : Type 0 where
    pub outside : Outside
    pub crashed : Bool
    pub backlight : Backlight.Backlight F T
    pub mm : Mm.Mm T
    pub nm : Nm.Nm T new_id
    pub connection : Init.Connection T
    pub audio : Init.Audio
    pub ppd : Ppd.Ppd
    pub upower : Upower.Upower F T

  -- What the libraries answer while the components are set up. `states` are those of the context
  -- for which the callback ran until `pa_init` went on.
  pub record Libraries : Type 0 where
    pub udev : Option (Text → Option Backlight.Device)
    pub bus : Bool
    pub manager : Bool
    pub pulse : Init.Answers
    pub states : List Init.ContextState
    pub proxy : Bool
    pub profile : Option Text
    pub client : Option (List (Upower.Device F))

  connect : List Init.ContextState → Init.Connection T → Init.Connection T
  connect [] c = c
  connect (state ∷ states) c = connect states (Init.pa_state_callback T state c)

  -- Whether `pa_init` has left a context that is ready.
  abbrev accepting : Bool → Init.Connection T → Init.Connection T
  accepting ready c = record c { pa = record c.pa { accepts = ready } }

  unfoldable pub setup : Libraries → Effect Components
  unfolding connect
  setup l s w =
      let (ppd, w') = Ppd.ppd_init l.proxy l.profile s.ppd w in
      (
        record {
          outside = s.outside;
          crashed = s.crashed;
          backlight = Backlight.backlight_init F T l.udev s.backlight;
          mm = Mm.mm_init T l.bus l.manager;
          nm = Nm.nm_init T new_id;
          connection = accepting (Init.pa_init l.pulse).pa_ctx (
              connect l.states (record s.connection {
                pa = record s.connection.pa { pool = slstatus.Pool.empty T };
              }));
          audio = Init.pa_init l.pulse;
          ppd = ppd;
          upower = Upower.upower_init F T l.client;
        },
        w',
      )

  unfoldable pub teardown : Effect Components
  teardown s w =
      let (pa, audio) = Init.pa_free T s.connection.pa s.audio in
      (
        record {
          outside = s.outside;
          crashed = s.crashed;
          backlight = Backlight.backlight_free F T s.backlight;
          mm = Mm.mm_free T s.mm;
          nm = Lines.nm_free T new_id s.nm;
          connection = record s.connection { pa = pa };
          audio = audio;
          ppd = Ppd.ppd_free s.ppd;
          upower = Upower.upower_free F T s.upower;
        },
        w,
      )

  -- A callback of a library, with what the library shows at that moment; or only that it shows
  -- something else.
  pub data Event : Type 0 where
    modem : Mm.Modem → (name : Text) → (entry : ℕ) → Event
    network_state : Nm.Net → (entry : ℕ) → Event
    access_point : Nm.Net → (device entry : ℕ) → Event
    strength : Nm.AccessPoint → (entry : ℕ) → Event
    profile : Option Text → Event
    battery : Upower.Device F → (name : Text) → (entry : Option ℕ) → Event
    brightness : Option Backlight.Device → Event
    sink : Option Pa.SinkInfo → (eol : ℤ) → (entry : ℕ) → Event
    sink_changed : (type index : ℕ) → Event
    default_sink : (name : Text) → Event
    context : Init.ContextState → Event
    shows : Outside → Event

  -- A callback of libpulse that has crashed, or what it leaves.
  pub heard : Option (Pa.Pa T) → Components → Components
  heard none s = record s { crashed = true }
  heard (some pa) s = record s { connection = record s.connection { pa = pa } }

  unfoldable pub handle : Event → Effect Components
  unfolding heard
  handle (modem m name entry) s w =
      let (mm, w') = Mm.mm_modem_callback T m name entry s.mm w in (record s { mm = mm }, w')
  handle (network_state net entry) s w =
      let (nm, w') = Nm.nm_state_callback T new_id net entry s.nm w in (record s { nm = nm }, w')
  handle (access_point net device entry) s w =
      let (nm, w') = Nm.nm_access_point_callback T new_id net device entry s.nm w in
      (record s { nm = nm }, w')
  handle (strength a entry) s w =
      let (nm, w') = Nm.nm_signal_strength_callback T new_id a entry s.nm w in
      (record s { nm = nm }, w')
  handle (profile reply) s w =
      let (ppd, w') = Ppd.ppd_callback reply s.ppd w in (record s { ppd = ppd }, w')
  handle (battery d name entry) s w =
      let (upower, w') = Upower.upower_device_callback F T d name entry s.upower w in
      (record s { upower = upower }, w')
  handle (brightness d) s w =
      let (backlight, w') = Backlight.backlight_loop F T d s.backlight w in
      (record s { backlight = backlight }, w')
  handle (sink info eol entry) s w =
      let (pa, w') = Pa.pa_sink_info_callback T F info eol entry s.connection.pa w in
      (record s { connection = record s.connection { pa = pa } }, w')
  handle (sink_changed type index) s w =
      (heard (Pa.pa_subscribe_callback T type index s.connection.pa) s, w)
  handle (default_sink name) s w = (heard (Pa.server_info_callback T name s.connection.pa) s, w)
  handle (context state) s w =
      (record s { connection = Init.pa_state_callback T state s.connection }, w)
  handle (shows outside) s w = (record s { outside = outside }, w)

  -- `while (g_main_context_iteration(NULL, FALSE));`, with the callbacks that are due. The other
  -- threads' callbacks run in the same way between the steps of the main loop.
  unfoldable pub dispatch : List Event → Effect Components
  unfolding handle
  dispatch [] s w = (s, w)
  dispatch (e ∷ events) s w = let (s', w') = handle e s w in dispatch events s' w'

  -- `nm_tick` runs the main context until nothing is due; `pa_tick` does nothing.
  unfoldable pub tick : (due : List Event) → Effect Components
  unfolding dispatch
  tick due s w = dispatch due s w
