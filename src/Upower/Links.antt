-- ===== src/Upower/Links.antt =====
-- The callback of components/upower.c and the pointers of its queue.
use slstatus.Prelude.{ℕ, Option, none, some}
use slstatus.Prelude.Text.{Text, lit, text_eq}
use slstatus.Util.{World}
use slstatus.Util.Float.{Float}
use slstatus.Pool.{TailQueue}
use slstatus.Pool.Find.{IsLinked}
use slstatus.Pool.Links.{on_both, on_cell, IsLinked-modify}
use slstatus.Upower.{Device, Upower, upower_device_callback}

module _ (F : Float) (T : TailQueue) where
  abbrev Linked : Upower F T × World → Type 0
  Linked r = IsLinked T r.0.pool

  pub upower_device_callback-IsLinked :
      (d : Device F) (name : Text) (o : Option ℕ) (s : Upower F T) (w : World)
      → IsLinked T s.pool
      → IsLinked T (upower_device_callback F T d name o s w).0.pool
  unfolding upower_device_callback
  upower_device_callback-IsLinked d name none s w h = h
  upower_device_callback-IsLinked d name (some p) s w h = on_cell Linked (s.pool.cells p) h λ e.
      on_both Linked (text_eq name (lit "percentage"))
        (on_both Linked _ (IsLinked-modify T p _ s.pool h) h)
        (on_both Linked _ (on_both Linked _ (IsLinked-modify T p _ s.pool h) h) h)
