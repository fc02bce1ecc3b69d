-- ===== src/Backlight/Registry.antt =====
-- What `backlight_find` of components/backlight.c promises where it may make an entry.
use mathlib.Core.Option
use slstatus.Prelude.{ℕ, ◌≡◌, refl, Option, none, some, true, [], ◌∷◌}
use slstatus.Prelude.Text.{Text, lit}
use slstatus.Stdio.Format.{str}
use slstatus.Util.{World, esnprintf_all}
use slstatus.Util.Float.{Float}
use slstatus.Pool.{TailQueue, Pool}
use slstatus.Pool.Find.{IsLinked}
use slstatus.Pool.Registry.{Finds, Finds-registry, shown, get, registry, added}
use slstatus.Backlight
use slstatus.Backlight.{
  Device, Entry, Backlight, backlight_find, find_entry, create_entry, make_entry, device_at,
  brightness_of, path_max,
}

abbrev pub name_of : Entry → Text
name_of e = e.name

module _ (F : Float) (T : TailQueue) where
  -- The entry that a device gets.
  abbrev pub entry_of : Text → Device → Entry
  entry_of name d = record { name = name; brightness = brightness_of F d }

  -- The device at a path, unless the path has been cut off.
  abbrev pub device_under : Option Text → Backlight F T → Option Device
  device_under none s = none
  device_under (some path) s = device_at F T s.udev path

  abbrev pub device_of : Text → Backlight F T → World → Option Device
  device_of name s w =
      let (path, _) =
        esnprintf_all path_max (lit "/sys/class/backlight/%s") (str (some name) ∷ []) w in
      device_under path s

  abbrev pub left_by : Option ℕ × Backlight F T × World → Option ℕ × Pool T Entry
  left_by (p, s, w) = (p, s.pool)

  make_entry_lem :
      (name : Text) (o : Option Device) (s : Backlight F T)
      → (let (p, s') = make_entry F T name o s in (p, s'.pool))
        ≡ added name_of T (Option.map (entry_of name) o) s.pool
  unfolding make_entry
  make_entry_lem name none s = refl
  make_entry_lem name (some d) s = refl

  look_up_lem :
      (name : Text) (path : Option Text) (s : Backlight F T)
      → (let (p, s') = Backlight.look_up F T name path s in (p, s'.pool))
        ≡ added name_of T (Option.map (entry_of name) (device_under path s)) s.pool
  unfolding Backlight.look_up
  look_up_lem name none s = refl
  look_up_lem name (some path) s = make_entry_lem name (device_at F T s.udev path) s

  backlight_find-Finds :
      (name : Text) (s : Backlight F T) (w : World)
      → Finds name_of T name
          (Option.map (entry_of name) (device_of name s w))
          s.pool
          (left_by (backlight_find F T name true s w))
  unfolding backlight_find find_entry create_entry
  backlight_find-Finds name s w = record {
    found = λ p h. rw (h, backlight_find) refl;
    missing = λ h. rw (h, backlight_find) (look_up_lem name _ s);
  }

  -- Where every pointer of the queue points to an entry, `backlight_find` that may make an entry is
  -- the lookup of a registry from names to entries that makes a missing entry from the device of
  -- that name in sysfs.
  pub backlight_find-registry :
      (name : Text) (s : Backlight F T) (w : World)
      → IsLinked T s.pool
      → shown name_of T (left_by (backlight_find F T name true s w))
        ≡ get name_of name
            (Option.map (entry_of name) (device_of name s w))
            (registry name_of T s.pool)
  backlight_find-registry name s w h =
      Finds-registry name_of T name _ s.pool _ h (backlight_find-Finds name s w)
