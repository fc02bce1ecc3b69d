-- ===== src/Mm/Links.antt =====
-- The pointers of the queue in components/mm.c.
use slstatus.Prelude.{ℕ, List, Option, none, some}
use slstatus.Prelude.Text.{Text, lit, text_eq}
use slstatus.Util.{World}
use slstatus.Pool.{TailQueue, find_by}
use slstatus.Pool.Find.{IsLinked, IsLinked-insert}
use slstatus.Pool.Links.{on_both, IsLinked-modify}
use slstatus.Mm.{
  Modem, Entry, Mm, callback_at, mm_modem_callback, make_entry, find_entry, modem_of, mm_find,
}

module _ (T : TailQueue) where
  abbrev Linked : Mm T × World → Type 0
  Linked r = IsLinked T r.0.pool

  callback_at-IsLinked :
      (m : Modem) (name : Text) (p : ℕ) (o : Option Entry) (s : Mm T) (w : World)
      → IsLinked T s.pool
      → IsLinked T (callback_at T m name p o s w).0.pool
  unfolding callback_at
  callback_at-IsLinked m name p none s w h = h
  callback_at-IsLinked m name p (some e) s w h =
      on_both Linked (text_eq name (lit "state"))
        (on_both Linked _ (IsLinked-modify T p _ s.pool h) h)
        (on_both Linked _ (on_both Linked _ (IsLinked-modify T p _ s.pool h) h) h)

  pub mm_modem_callback-IsLinked :
      (m : Modem) (name : Text) (p : ℕ) (s : Mm T) (w : World)
      → IsLinked T s.pool
      → IsLinked T (mm_modem_callback T m name p s w).0.pool
  unfolding mm_modem_callback
  mm_modem_callback-IsLinked m name p s w h = callback_at-IsLinked m name p (s.pool.cells p) s w h

  make_entry-IsLinked :
      (iface : Text) (o : Option Modem) (s : Mm T)
      → IsLinked T s.pool
      → IsLinked T (make_entry T iface o s).1.pool
  unfolding make_entry
  make_entry-IsLinked iface none s h = h
  make_entry-IsLinked iface (some m) s h = IsLinked-insert T _ s.pool h

  find_entry-IsLinked :
      (iface : Text) (modems : List Modem) (o : Option ℕ) (s : Mm T)
      → IsLinked T s.pool
      → IsLinked T (find_entry T iface modems o s).1.pool
  unfolding find_entry
  find_entry-IsLinked iface modems (some p) s h = h
  find_entry-IsLinked iface modems none s h = make_entry-IsLinked iface (modem_of iface modems) s h

  pub mm_find-IsLinked :
      (iface : Text) (modems : List Modem) (s : Mm T)
      → IsLinked T s.pool
      → IsLinked T (mm_find T iface modems s).1.pool
  unfolding mm_find
  mm_find-IsLinked iface modems s h =
      find_entry-IsLinked iface modems (find_by T (λ e. text_eq e.iface iface) s.pool) s h
