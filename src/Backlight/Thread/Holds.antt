-- ===== src/Backlight/Thread/Holds.antt =====
-- The pointer of an entry through the lookups of the main thread in components/backlight.c.
use slstatus.Prelude.{ℕ, ◌<◌, ◌≡◌, refl, ◌∙◌, Bool, true, false, Option, none, some, arith}
use slstatus.Prelude.Text.{Text, text_eq}
use slstatus.Util.{World}
use slstatus.Util.Float.{Float}
use slstatus.Pool.{TailQueue, find_by, modify}
use slstatus.Pool.Find.{cells-insert}
use slstatus.Backlight
use slstatus.Backlight.{
  Entry, Device, Backlight, brightness_of, backlight_find, device_at, make_entry, look_up,
  create_entry, find_entry,
}

module _ (F : Float) (T : TailQueue) where
  -- The pointer points to the entry of the device.
  abbrev pub Holds : Device → ℕ → Backlight F T → Type 0
  Holds d p b =
      (e : Entry) × (b.pool.cells p ≡ some e)
      × (text_eq e.name d.sysname ≡ true)
      × (p < b.pool.fresh)

  -- A lookup leaves every entry that is there.
  abbrev Keeps : ℕ → Backlight F T → Backlight F T → Type 0
  Keeps p b b' = (b'.pool.cells p ≡ b.pool.cells p) × (p < b'.pool.fresh)

  make_entry-Keeps :
      (name : Text) (o : Option Device) (p : ℕ) (b : Backlight F T)
      → p < b.pool.fresh
      → Keeps p b (make_entry F T name o b).1
  unfolding make_entry slstatus.Pool.insert
  make_entry-Keeps name none p b h = (refl, h)
  make_entry-Keeps name (some d) p b h = (cells-insert T _ b.pool p h, omega arith)

  look_up-Keeps :
      (name : Text) (path : Option Text) (p : ℕ) (b : Backlight F T)
      → p < b.pool.fresh
      → Keeps p b (Backlight.look_up F T name path b).1
  unfolding Backlight.look_up
  look_up-Keeps name none p b h = (refl, h)
  look_up-Keeps name (some path) p b h = make_entry-Keeps name (device_at F T b.udev path) p b h

  find_entry-Keeps :
      (name : Text) (create : Bool) (o : Option ℕ) (p : ℕ) (b : Backlight F T) (w : World)
      → p < b.pool.fresh
      → Keeps p b (find_entry F T name create o b w).1
  unfolding find_entry create_entry
  find_entry-Keeps name create (some q) p b w h = (refl, h)
  find_entry-Keeps name false none p b w h = (refl, h)
  find_entry-Keeps name true none p b w h = look_up-Keeps name _ p b h

  pub backlight_find-Keeps :
      (name : Text) (create : Bool) (p : ℕ) (b : Backlight F T) (w : World)
      → p < b.pool.fresh
      → Keeps p b (backlight_find F T name create b w).1
  unfolding backlight_find
  backlight_find-Keeps name create p b w h =
      find_entry-Keeps name create (find_by T (λ e. text_eq e.name name) b.pool) p b w h

  pub backlight_find-Holds :
      (name : Text) (create : Bool) (d : Device) (p : ℕ) (b : Backlight F T) (w : World)
      → Holds d p b
      → Holds d p (backlight_find F T name create b w).1
  backlight_find-Holds name create d p b w (e, at, named, old) =
      let (same, old') = backlight_find-Keeps name create p b w old in (e, same ∙ at, named, old')
