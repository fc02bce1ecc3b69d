-- ===== src/Upower/Registry.antt =====
-- What `upower_find` of components/upower.c promises.
use mathlib.Core.Option
use slstatus.Prelude.{ℕ, ◌≡◌, refl, List, Option, none, some}
use slstatus.Prelude.Text.{Text, text_eq}
use slstatus.Util.{World}
use slstatus.Util.Float.{Float}
use slstatus.Pool.{TailQueue, Pool, find_by}
use slstatus.Pool.Find.{IsLinked}
use slstatus.Pool.Registry.{Registry, Finds, Finds-registry, shown, get, registry, added}
use slstatus.Upower.{
  Device, Entry, Upower, upower_find, find_with, find_entry, make_entry, add_device, device_named,
  update_from_device,
}

module _ (F : Float) where
  abbrev pub name_of : Entry F → Text
  name_of e = e.device

  -- The entry that a device gets.
  abbrev pub entry_of : Text → Device F → Entry F
  entry_of name d = record {
    device = name;
    model = d.model;
    percentage = d.percentage;
    kind = d.kind;
    state = d.state;
  }

  -- Without a client of UPower no entry is returned.
  abbrev pub answer :
      Text → Option (List (Device F)) → Registry name_of → Option (Entry F) × Registry name_of
  answer name none r = (none, r)
  answer name (some devices) r =
      get name_of name (Option.map (entry_of name) (device_named F name devices)) r

  module _ (T : TailQueue) where
    -- The pointer and the pool that a lookup leaves.
    abbrev pub left_by : Option ℕ × Upower F T × World → Option ℕ × Pool T (Entry F)
    left_by (p, s, w) = (p, s.pool)

    make_entry_lem :
        (name : Text) (o : Option (Device F)) (s : Upower F T) (w : World)
        → left_by (make_entry F T name o s w)
          ≡ added name_of T (Option.map (entry_of name) o) s.pool
    unfolding make_entry add_device update_from_device
    make_entry_lem name none s w = refl
    make_entry_lem name (some d) s w = refl

    find_entry-Finds :
        (name : Text) (devices : List (Device F)) (s : Upower F T) (w : World)
        → Finds name_of T name (Option.map (entry_of name) (device_named F name devices)) s.pool (
            left_by
              (find_entry F T name devices (find_by T (λ e. text_eq e.device name) s.pool) s w))
    unfolding find_entry
    find_entry-Finds name devices s w = record {
      found = λ p h. rw h refl;
      missing = λ h. rw h (make_entry_lem name (device_named F name devices) s w);
    }

    find_with-registry :
        (name : Text) (o : Option (List (Device F))) (s : Upower F T) (w : World)
        → IsLinked T s.pool
        → shown name_of T (left_by (find_with F T name o s w))
          ≡ answer name o (registry name_of T s.pool)
    unfolding find_with
    find_with-registry name none s w h = refl
    find_with-registry name (some devices) s w h =
        Finds-registry name_of T name _ s.pool _ h (find_entry-Finds name devices s w)

    -- Where every pointer of the queue points to an entry, `upower_find` is the lookup of a registry
    -- from names to entries that makes a missing entry from the device of that name: the entry
    -- behind the pointer it returns and the entries found under all names afterwards are those of
    -- the registry, whatever the queue and the addresses are.
    pub upower_find-registry :
        (name : Text) (s : Upower F T) (w : World)
        → IsLinked T s.pool
        → shown name_of T (left_by (upower_find F T name s w))
          ≡ answer name s.client (registry name_of T s.pool)
    unfolding upower_find
    upower_find-registry name s w h = find_with-registry name s.client s w h
