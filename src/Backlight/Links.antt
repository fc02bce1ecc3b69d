-- ===== src/Backlight/Links.antt =====
-- The pointers of the queue in components/backlight.c.
use slstatus.Prelude.{ℕ, Bool, true, false, Option, none, some}
use slstatus.Prelude.Text.{Text, text_eq}
use slstatus.Util.{World}
use slstatus.Util.Float.{Float}
use slstatus.Pool.{TailQueue, find_by}
use slstatus.Pool.Find.{IsLinked, IsLinked-empty, IsLinked-insert}
use slstatus.Pool.Links.{on_both, on_cell, IsLinked-modify}
use slstatus.Backlight.{
  Device, Backlight, device_at, make_entry, look_up, create_entry, find_entry, changed,
  backlight_find, backlight_loop, backlight_init,
}

module _ (F : Float) (T : TailQueue) where
  make_entry-IsLinked :
      (name : Text) (o : Option Device) (s : Backlight F T)
      → IsLinked T s.pool
      → IsLinked T (make_entry F T name o s).1.pool
  unfolding make_entry
  make_entry-IsLinked name none s h = h
  make_entry-IsLinked name (some d) s h = IsLinked-insert T _ s.pool h

  look_up-IsLinked :
      (name : Text) (path : Option Text) (s : Backlight F T)
      → IsLinked T s.pool
      → IsLinked T (look_up F T name path s).1.pool
  unfolding look_up
  look_up-IsLinked name none s h = h
  look_up-IsLinked name (some path) s h = make_entry-IsLinked name (device_at F T s.udev path) s h

  find_entry-IsLinked :
      (name : Text) (create : Bool) (o : Option ℕ) (s : Backlight F T) (w : World)
      → IsLinked T s.pool
      → IsLinked T (find_entry F T name create o s w).1.pool
  unfolding find_entry create_entry
  find_entry-IsLinked name create (some p) s w h = h
  find_entry-IsLinked name false none s w h = h
  find_entry-IsLinked name true none s w h = look_up-IsLinked name _ s h

  pub backlight_find-IsLinked :
      (name : Text) (create : Bool) (s : Backlight F T) (w : World)
      → IsLinked T s.pool
      → IsLinked T (backlight_find F T name create s w).1.pool
  unfolding backlight_find
  backlight_find-IsLinked name create s w h =
      find_entry-IsLinked name create (find_by T (λ e. text_eq e.name name) s.pool) s w h

  abbrev Linked : Backlight F T × World → Type 0
  Linked r = IsLinked T r.0.pool

  changed-IsLinked :
      (d : Device) (o : Option ℕ) (s : Backlight F T) (w : World)
      → IsLinked T s.pool
      → IsLinked T (changed F T d o s w).0.pool
  unfolding changed
  changed-IsLinked d none s w h = h
  changed-IsLinked d (some p) s w h =
      on_cell Linked (s.pool.cells p) h λ e. on_both Linked _ (IsLinked-modify T p _ s.pool h) h

  pub backlight_loop-IsLinked :
      (o : Option Device) (s : Backlight F T) (w : World)
      → IsLinked T s.pool
      → IsLinked T (backlight_loop F T o s w).0.pool
  unfolding backlight_loop
  backlight_loop-IsLinked none s w h = h
  backlight_loop-IsLinked (some d) s w h =
      let (p, s', w') = backlight_find F T d.sysname false s w in
      changed-IsLinked d p s' w' (backlight_find-IsLinked d.sysname false s w h)

  pub backlight_init-IsLinked :
      (udev : Option (Text → Option Device)) (s : Backlight F T)
      → IsLinked T s.pool
      → IsLinked T (backlight_init F T udev s).pool
  unfolding backlight_init
  backlight_init-IsLinked none s h = h
  backlight_init-IsLinked (some devices) s h = IsLinked-empty T
