-- ===== src/Program/Links.antt =====
-- The states that the components go through between `setup` and `teardown` of slstatus.c.
use slstatus.Prelude.{ℕ, ◌≡◌, refl, ◌∙◌, true, none, List, [], ◌∷◌, Bool, false, Option, some}
use slstatus.Prelude.Text.{Text}
use slstatus.Util.{World}
use slstatus.Util.Float.{Float}
use slstatus.Pool.{TailQueue}
use slstatus.Pool.Find.{IsLinked, IsLinked-empty}
use slstatus.Backlight
use slstatus.Backlight.Links.{backlight_init-IsLinked, backlight_loop-IsLinked}
use slstatus.Mm
use slstatus.Mm.Links.{mm_modem_callback-IsLinked}
use slstatus.Nm
use slstatus.Nm.Links.{
  nm_state_callback-IsLinked, nm_access_point_callback-IsLinked,
  nm_signal_strength_callback-IsLinked,
}
use slstatus.Pa
use slstatus.Pa.Init
use slstatus.Pa.Heard.{server_info_callback-HeardLinked}
use slstatus.Pa.Links.{
  HeardLinked, pa_sink_info_callback-IsLinked, pa_sink_info_callback-accepts,
  pa_subscribe_callback-IsLinked,
}
use slstatus.Upower
use slstatus.Upower.Links.{upower_device_callback-IsLinked}
use slstatus.Program.{
  Components, Libraries, setup, Event, modem, network_state, access_point, strength, profile,
  battery, brightness, sink, sink_changed, default_sink, heard, context, shows, handle, connect,
}
use slstatus.Program.Linked.{
  AreLinked, backlight-AreLinked, mm-AreLinked, nm-AreLinked, pa-AreLinked, upower-AreLinked,
  rest-AreLinked, crash-AreLinked,
}

module _ (F : Float) (T : TailQueue) (new_id : List Nm.Call → ℕ) where
  -- The state behind a lookup of a sink, which may have crashed.
  abbrev pub looked_up : Components F T new_id → Option (ℕ × Pa.Pa T) → Components F T new_id
  looked_up s none = record s { crashed = true }
  looked_up s (some (p, pa)) = record s { connection = record s.connection { pa = pa } }

  -- A callback of a library, or the lookup that the functions of a component begin with.
  pub data Step (s : Components F T new_id) : Components F T new_id → Type 0 where
    callback : (e : Event F T new_id) (w : World) → Step s (handle F T new_id e s w).0
    find_backlight :
        (name : Text) (create : Bool) (w : World)
        → Step s
            (record s { backlight = (Backlight.backlight_find F T name create s.backlight w).1 })
    find_modem :
        (iface : Text) (modems : List Mm.Modem)
        → Step s (record s { mm = (Mm.mm_find T iface modems s.mm).1 })
    find_network :
        (net : Nm.Net) (iface : Text) (w : World)
        → Step s (record s { nm = (Nm.nm_find T new_id net iface s.nm w).1 })
    find_battery :
        (name : Text) (w : World)
        → Step s (record s { upower = (Upower.upower_find F T name s.upower w).1 })
    find_default_sink : Step s (looked_up s (Pa.pa_find_by_sink T none s.connection.pa))

  -- Any number of steps after the setup.
  pub data Reaches (l : Libraries F T new_id) (s : Components F T new_id) (w : World)
      : Components F T new_id → Type 0 where
    set_up : Reaches l s w (setup F T new_id l s w).0
    then_step : (t u : Components F T new_id) → Reaches l s w t → Step t u → Reaches l s w u

  pa_state_callback-IsLinked :
      (state : Init.ContextState) (c : Init.Connection T)
      → IsLinked T c.pa.pool
      → IsLinked T (Init.pa_state_callback T state c).pa.pool
  unfolding Init.pa_state_callback
  pa_state_callback-IsLinked Init.ready c h = h
  pa_state_callback-IsLinked Init.terminated c h = h
  pa_state_callback-IsLinked Init.failed c h = h
  pa_state_callback-IsLinked Init.other c h = h

  -- A context that takes no requests never does so again.
  pa_state_callback-ended :
      (state : Init.ContextState) (c : Init.Connection T)
      → c.pa.accepts ≡ false
      → (Init.pa_state_callback T state c).pa.accepts ≡ false
  unfolding Init.pa_state_callback
  pa_state_callback-ended Init.ready c h = h
  pa_state_callback-ended Init.terminated c h = refl
  pa_state_callback-ended Init.failed c h = refl
  pa_state_callback-ended Init.other c h = h

  connect-IsLinked :
      (states : List Init.ContextState) (c : Init.Connection T)
      → IsLinked T c.pa.pool
      → IsLinked T (connect F T new_id states c).pa.pool
  unfolding connect
  connect-IsLinked [] c h = h
  connect-IsLinked (state ∷ states) c h =
      connect-IsLinked states (Init.pa_state_callback T state c)
        (pa_state_callback-IsLinked state c h)

  pub setup-AreLinked :
      (l : Libraries F T new_id) (s : Components F T new_id) (w : World)
      → s.crashed ≡ false
      → IsLinked T s.backlight.pool
      → AreLinked F T new_id (setup F T new_id l s w).0
  unfolding setup Mm.mm_init Nm.nm_init Upower.upower_init
  setup-AreLinked l s w alive none_yet = record {
    backlight = backlight_init-IsLinked F T l.udev s.backlight none_yet;
    mm = IsLinked-empty T;
    nm = IsLinked-empty T;
    pa = connect-IsLinked l.states _ (IsLinked-empty T);
    upower = IsLinked-empty T;
    alive = λ crashed. cc;
  }

  heard-AreLinked :
      (o : Option (Pa.Pa T)) (s : Components F T new_id)
      → AreLinked F T new_id s
      → HeardLinked T s.connection.pa o
      → AreLinked F T new_id (heard F T new_id o s)
  unfolding heard
  heard-AreLinked none s h refused = crash-AreLinked F T new_id h refused
  heard-AreLinked (some pa) s h (linked, same) = pa-AreLinked F T new_id h linked (λ e. same ∙ e)

  pub handle-AreLinked :
      (e : Event F T new_id) (s : Components F T new_id) (w : World)
      → AreLinked F T new_id s
      → AreLinked F T new_id (handle F T new_id e s w).0
  unfolding handle
  handle-AreLinked (modem m name p) s w h =
      mm-AreLinked F T new_id h (mm_modem_callback-IsLinked T m name p s.mm w h.mm)
  handle-AreLinked (network_state net p) s w h =
      nm-AreLinked F T new_id h (nm_state_callback-IsLinked T new_id net p s.nm w h.nm)
  handle-AreLinked (access_point net device p) s w h =
      nm-AreLinked F T new_id h
        (nm_access_point_callback-IsLinked T new_id net device p s.nm w h.nm)
  handle-AreLinked (strength a p) s w h =
      nm-AreLinked F T new_id h (nm_signal_strength_callback-IsLinked T new_id a p s.nm w h.nm)
  handle-AreLinked (profile reply) s w h = rest-AreLinked F T new_id h
  handle-AreLinked (battery d name o) s w h =
      upower-AreLinked F T new_id h
        (upower_device_callback-IsLinked F T d name o s.upower w h.upower)
  handle-AreLinked (brightness d) s w h =
      backlight-AreLinked F T new_id h (backlight_loop-IsLinked F T d s.backlight w h.backlight)
  handle-AreLinked (sink info eol p) s w h =
      pa-AreLinked F T new_id h
        (pa_sink_info_callback-IsLinked T F info eol p s.connection.pa w h.pa)
        (λ e. pa_sink_info_callback-accepts T F info eol p s.connection.pa w ∙ e)
  handle-AreLinked (sink_changed type index) s w h =
      heard-AreLinked _ s h (pa_subscribe_callback-IsLinked T type index s.connection.pa h.pa)
  handle-AreLinked (default_sink name) s w h =
      heard-AreLinked _ s h (server_info_callback-HeardLinked T name s.connection.pa h.pa)
  handle-AreLinked (context state) s w h =
      pa-AreLinked F T new_id h (pa_state_callback-IsLinked state s.connection h.pa)
        (pa_state_callback-ended state s.connection)
  handle-AreLinked (shows outside) s w h = rest-AreLinked F T new_id h
