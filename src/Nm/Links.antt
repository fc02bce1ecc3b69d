-- ===== src/Nm/Links.antt =====
-- The pointers of the queue in components/nm.c.
use slstatus.Prelude.{ℕ, List, Option, none, some}
use slstatus.Prelude.Text.{Text, text_eq}
use slstatus.Util.{World}
use slstatus.Pool.{TailQueue, find_by}
use slstatus.Pool.Find.{IsLinked, IsLinked-insert}
use slstatus.Pool.Links.{on_both, on_cell, IsLinked-modify}
use slstatus.Nm.{
  AccessPoint, Call, Entry, Net, Nm, join, leave, roam, make_entry, find_entry,
  nm_signal_strength_callback, nm_access_point_callback, nm_state_callback, nm_find,
}

module _ (T : TailQueue) (new_id : List Call → ℕ) where
  abbrev Linked : Nm T new_id × World → Type 0
  Linked r = IsLinked T r.0.pool

  pub nm_signal_strength_callback-IsLinked :
      (a : AccessPoint) (p : ℕ) (s : Nm T new_id) (w : World)
      → IsLinked T s.pool
      → IsLinked T (nm_signal_strength_callback T new_id a p s w).0.pool
  unfolding nm_signal_strength_callback
  nm_signal_strength_callback-IsLinked a p s w h =
      on_cell Linked (s.pool.cells p) h λ e. on_both Linked _ (IsLinked-modify T p _ s.pool h) h

  leave-IsLinked :
      (p : ℕ) (e : Entry) (o : Option ℕ) (s : Nm T new_id) (w : World)
      → IsLinked T s.pool
      → IsLinked T (leave T new_id p e o s w).0.pool
  unfolding leave
  leave-IsLinked p e none s w h = h
  leave-IsLinked p e (some old) s w h = IsLinked-modify T p _ s.pool h

  roam-IsLinked :
      (net : Net) (o : Option ℕ) (p : ℕ) (e : Entry) (s : Nm T new_id) (w : World)
      → IsLinked T s.pool
      → IsLinked T (roam T new_id net o p e s w).0.pool
  unfolding roam join
  roam-IsLinked net none p e s w h = leave-IsLinked p e e.ap s w h
  roam-IsLinked net (some ap) p e s w h = IsLinked-modify T p _ s.pool h

  pub nm_access_point_callback-IsLinked :
      (net : Net) (device p : ℕ) (s : Nm T new_id) (w : World)
      → IsLinked T s.pool
      → IsLinked T (nm_access_point_callback T new_id net device p s w).0.pool
  unfolding nm_access_point_callback
  nm_access_point_callback-IsLinked net device p s w h =
      on_cell Linked (s.pool.cells p) h λ e. roam-IsLinked net (net.device device).active p e s w h

  pub nm_state_callback-IsLinked :
      (net : Net) (p : ℕ) (s : Nm T new_id) (w : World)
      → IsLinked T s.pool
      → IsLinked T (nm_state_callback T new_id net p s w).0.pool
  unfolding nm_state_callback
  nm_state_callback-IsLinked net p s w h =
      on_cell Linked (s.pool.cells p) h λ e. IsLinked-modify T p _ s.pool h

  make_entry-IsLinked :
      (net : Net) (iface : Text) (o : Option ℕ) (s : Nm T new_id) (w : World)
      → IsLinked T s.pool
      → IsLinked T (make_entry T new_id net iface o s w).1.pool
  unfolding make_entry
  make_entry-IsLinked net iface none s w h = h
  make_entry-IsLinked net iface (some d) s w h = IsLinked-insert T _ s.pool h

  find_entry-IsLinked :
      (net : Net) (iface : Text) (o : Option ℕ) (s : Nm T new_id) (w : World)
      → IsLinked T s.pool
      → IsLinked T (find_entry T new_id net iface o s w).1.pool
  unfolding find_entry
  find_entry-IsLinked net iface (some p) s w h = h
  find_entry-IsLinked net iface none s w h =
      make_entry-IsLinked net iface (net.by_iface iface) s w h

  pub nm_find-IsLinked :
      (net : Net) (iface : Text) (s : Nm T new_id) (w : World)
      → IsLinked T s.pool
      → IsLinked T (nm_find T new_id net iface s w).1.pool
  unfolding nm_find
  nm_find-IsLinked net iface s w h =
      find_entry-IsLinked net iface (find_by T (λ e. text_eq e.iface iface) s.pool) s w h
