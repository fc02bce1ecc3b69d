-- ===== src/Mm/Registry.antt =====
-- What `mm_find` of components/mm.c promises.
use mathlib.Core.Option
use slstatus.Prelude.{ℕ, ◌≡◌, refl, List, Option, none, some}
use slstatus.Prelude.Text.{Text}
use slstatus.Pool.{TailQueue, Pool}
use slstatus.Pool.Find.{IsLinked}
use slstatus.Pool.Registry.{Finds, Finds-registry, shown, get, registry, added}
use slstatus.Mm.{Modem, Entry, Mm, mm_find, find_entry, make_entry, modem_of}

-- The entry that a modem gets.
abbrev pub entry_of : Text → Modem → Entry
entry_of iface m = record { iface = iface; modem = m.id; state = m.state; sq = m.signal_quality }

module _ (T : TailQueue) where
  -- The pointer and the pool that a lookup leaves.
  abbrev pub looked_up : Text → List Modem → Mm T → Option ℕ × Pool T Entry
  looked_up iface modems s = let (p, s') = mm_find T iface modems s in (p, s'.pool)

  make_entry_lem :
      (iface : Text) (o : Option Modem) (s : Mm T)
      → (let (p, s') = make_entry T iface o s in (p, s'.pool))
        ≡ added (λ e. e.iface) T (Option.map (entry_of iface) o) s.pool
  unfolding make_entry
  make_entry_lem iface none s = refl
  make_entry_lem iface (some m) s = refl

  mm_find-Finds :
      (iface : Text) (modems : List Modem) (s : Mm T)
      → Finds
          (λ e. e.iface)
          T
          iface
          (Option.map (entry_of iface) (modem_of iface modems))
          s.pool
          (looked_up iface modems s)
  unfolding mm_find find_entry
  mm_find-Finds iface modems s = record {
    found = λ p h. rw (h, mm_find) refl;
    missing = λ h. rw (h, mm_find) (make_entry_lem iface (modem_of iface modems) s);
  }

  -- Where every pointer of the queue points to an entry, `mm_find` is the lookup of a registry from
  -- interfaces to entries that makes a missing entry from the first modem with that port.
  pub mm_find-registry :
      (iface : Text) (modems : List Modem) (s : Mm T)
      → IsLinked T s.pool
      → shown (λ e. e.iface) T (looked_up iface modems s)
        ≡ get
            (λ e. e.iface)
            iface
            (Option.map (entry_of iface) (modem_of iface modems))
            (registry (λ e. e.iface) T s.pool)
  mm_find-registry iface modems s h =
      Finds-registry (λ e. e.iface) T iface _ s.pool (looked_up iface modems s) h
        (mm_find-Finds iface modems s)
