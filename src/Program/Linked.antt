-- ===== src/Program/Linked.antt =====
-- What holds of the queues of all components, as one component's state changes.
use slstatus.Prelude.{true, ℕ, ◌≡◌, List, false}
use slstatus.Util.Float.{Float}
use slstatus.Pool.{TailQueue}
use slstatus.Pool.Find.{IsLinked}
use slstatus.Backlight
use slstatus.Mm
use slstatus.Nm
use slstatus.Pa.Init
use slstatus.Ppd
use slstatus.Upower
use slstatus.Program.{Components, Outside}

module _ (F : Float) (T : TailQueue) (new_id : List Nm.Call → ℕ) where
  -- In each queue, every pointer points to an entry; and only where PulseAudio takes no requests has
  -- anything crashed.
  pub record AreLinked (s : Components F T new_id) : Type 0 where
    pub backlight : IsLinked T s.backlight.pool
    pub mm : IsLinked T s.mm.pool
    pub nm : IsLinked T s.nm.pool
    pub pa : IsLinked T s.connection.pa.pool
    pub upower : IsLinked T s.upower.pool
    pub alive : s.crashed ≡ true → s.connection.pa.accepts ≡ false

  pub backlight-AreLinked :
      {s : Components F T new_id} {backlight : Backlight.Backlight F T}
      → AreLinked s
      → IsLinked T backlight.pool
      → AreLinked (record s { backlight = backlight })
  backlight-AreLinked h linked = record {
    backlight = linked;
    mm = h.mm;
    nm = h.nm;
    pa = h.pa;
    upower = h.upower;
    alive = h.alive;
  }

  pub mm-AreLinked :
      {s : Components F T new_id} {mm : Mm.Mm T}
      → AreLinked s
      → IsLinked T mm.pool
      → AreLinked (record s { mm = mm })
  mm-AreLinked h linked = record {
    backlight = h.backlight;
    mm = linked;
    nm = h.nm;
    pa = h.pa;
    upower = h.upower;
    alive = h.alive;
  }

  pub nm-AreLinked :
      {s : Components F T new_id} {nm : Nm.Nm T new_id}
      → AreLinked s
      → IsLinked T nm.pool
      → AreLinked (record s { nm = nm })
  nm-AreLinked h linked = record {
    backlight = h.backlight;
    mm = h.mm;
    nm = linked;
    pa = h.pa;
    upower = h.upower;
    alive = h.alive;
  }

  pub pa-AreLinked :
      {s : Components F T new_id} {connection : Init.Connection T}
      → AreLinked s
      → IsLinked T connection.pa.pool
      → (s.connection.pa.accepts ≡ false → connection.pa.accepts ≡ false)
      → AreLinked (record s { connection = connection })
  pa-AreLinked h linked ended = record {
    backlight = h.backlight;
    mm = h.mm;
    nm = h.nm;
    pa = linked;
    upower = h.upower;
    alive = λ c. ended (h.alive c);
  }

  pub upower-AreLinked :
      {s : Components F T new_id} {upower : Upower.Upower F T}
      → AreLinked s
      → IsLinked T upower.pool
      → AreLinked (record s { upower = upower })
  upower-AreLinked h linked = record {
    backlight = h.backlight;
    mm = h.mm;
    nm = h.nm;
    pa = h.pa;
    upower = linked;
    alive = h.alive;
  }

  -- A crash while PulseAudio takes no requests.
  pub crash-AreLinked :
      {s : Components F T new_id}
      → AreLinked s
      → s.connection.pa.accepts ≡ false
      → AreLinked (record s { crashed = true })
  crash-AreLinked h refused = record {
    backlight = h.backlight;
    mm = h.mm;
    nm = h.nm;
    pa = h.pa;
    upower = h.upower;
    alive = λ c. refused;
  }

  -- What stands in no queue may change.
  pub rest-AreLinked :
      {s : Components F T new_id} {outside : Outside F T new_id} {ppd : Ppd.Ppd}
      → AreLinked s
      → AreLinked (record s { outside = outside; ppd = ppd })
  rest-AreLinked h = record {
    backlight = h.backlight;
    mm = h.mm;
    nm = h.nm;
    pa = h.pa;
    upower = h.upower;
    alive = h.alive;
  }
