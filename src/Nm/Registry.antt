-- ===== src/Nm/Registry.antt =====
-- What `nm_find` of components/nm.c promises.
use mathlib.Core.Option
use slstatus.Prelude.{ℕ, ◌≡◌, refl, List, Option, none, some}
use slstatus.Prelude.Text.{Text}
use slstatus.Util.{World}
use slstatus.Pool.{TailQueue, Pool}
use slstatus.Pool.Find.{IsLinked}
use slstatus.Pool.Registry.{Finds, Finds-registry, shown, get, registry, added}
use slstatus.Nm.{
  Net, Entry, Call, Nm, nm_find, find_entry, make_entry, nm_update, blank, watch_state, watch_wifi,
}

abbrev pub name_of : Entry → Text
name_of e = e.iface

module _ (T : TailQueue) (new_id : List Call → ℕ) where
  -- The entry that a device gets, with the ids of the connections made for it.
  pub entry_of : Net → Text → Nm T new_id → World → ℕ → Entry
  entry_of net iface s w device =
      let (e, _) = nm_update net (blank T new_id iface device net) w in
      (watch_state T new_id s.pool.fresh
        (watch_wifi T new_id net (net.device device).kind s.pool.fresh (e, s.calls))).0

  abbrev pub left_by : Option ℕ × Nm T new_id × World → Option ℕ × Pool T Entry
  left_by (p, s, w) = (p, s.pool)

  make_entry_lem :
      (net : Net) (iface : Text) (o : Option ℕ) (s : Nm T new_id) (w : World)
      → left_by (make_entry T new_id net iface o s w)
        ≡ added name_of T (Option.map (entry_of net iface s w) o) s.pool
  unfolding make_entry entry_of
  make_entry_lem net iface none s w = refl
  make_entry_lem net iface (some device) s w = refl

  nm_find-Finds :
      (net : Net) (iface : Text) (s : Nm T new_id) (w : World)
      → Finds name_of T iface
          (Option.map (entry_of net iface s w) (net.by_iface iface))
          s.pool
          (left_by (nm_find T new_id net iface s w))
  unfolding nm_find find_entry
  nm_find-Finds net iface s w = record {
    found = λ p h. rw (h, nm_find) refl;
    missing = λ h. rw (h, nm_find) (make_entry_lem net iface (net.by_iface iface) s w);
  }

  -- Where every pointer of the queue points to an entry, `nm_find` is the lookup of a registry from
  -- interfaces to entries that makes a missing entry from the device of that interface.
  pub nm_find-registry :
      (net : Net) (iface : Text) (s : Nm T new_id) (w : World)
      → IsLinked T s.pool
      → shown name_of T (left_by (nm_find T new_id net iface s w))
        ≡ get name_of iface
            (Option.map (entry_of net iface s w) (net.by_iface iface))
            (registry name_of T s.pool)
  nm_find-registry net iface s w h =
      Finds-registry name_of T iface _ s.pool _ h (nm_find-Finds net iface s w)
