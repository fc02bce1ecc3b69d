-- ===== src/Nm/Find.antt =====
-- `nm_find` of components/nm.c.
use slstatus.Prelude.{ℕ, ◌≡◌, refl, ap, ◌∙◌, Bool, true, List, Option, none, some}
use slstatus.Prelude.Text.{Text, text_eq, text_eq_refl}
use slstatus.Util.{World}
use slstatus.Pool.{TailQueue, find_by}
use slstatus.Pool.Find.{IsLinked, find_by-insert}
use slstatus.Nm.{
  Net, Kind, ethernet, wifi, other, Entry, Call, Nm, nm_update, nm_find, find_entry, make_entry,
  watch_wifi, watch_state, watch_strength, blank,
}
use slstatus.Nm.Update.{nm_update_lem}

abbrev is_named : Text → Entry → Bool
is_named iface e = text_eq e.iface iface

module _ (T : TailQueue) (new_id : List Call → ℕ) (net : Net) where
  watch_strength-iface :
      (ap : Option ℕ) (p : ℕ) (x : Entry × List Call)
      → (watch_strength T new_id net ap p x).0.iface ≡ x.0.iface
  unfolding watch_strength
  watch_strength-iface none p (e, calls) = refl
  watch_strength-iface (some ap) p (e, calls) = refl

  watch_wifi-iface :
      (k : Kind) (p : ℕ) (x : Entry × List Call)
      → (watch_wifi T new_id net k p x).0.iface ≡ x.0.iface
  unfolding watch_wifi
  watch_wifi-iface ethernet p (e, calls) = refl
  watch_wifi-iface other p (e, calls) = refl
  watch_wifi-iface wifi p (e, calls) = watch_strength-iface (net.device e.device).active p _

  module _ (iface : Text) where
    -- The entry that is made for a device.
    abbrev made_entry : ℕ → Nm T new_id → World → Entry
    made_entry device s w =
        (watch_state T new_id s.pool.fresh (
          watch_wifi T new_id net (net.device device).kind s.pool.fresh
            ((nm_update net (blank T new_id iface device net) w).0, s.calls))).0

    made_entry-iface :
        (device : ℕ) (s : Nm T new_id) (w : World) → is_named iface (made_entry device s w) ≡ true
    unfolding watch_state
    made_entry-iface device s w =
        ap (λ t. text_eq t iface)
          (watch_wifi-iface (net.device device).kind s.pool.fresh _
            ∙ (nm_update_lem net (blank T new_id iface device net) w).iface)
        ∙ text_eq_refl iface

    -- The three ends of `nm_find`.
    data Ends (s : Nm T new_id) (w : World) : Option ℕ × Nm T new_id × World → Type 0 where
      missed : Ends s w (none, s, w)
      hit : (p : ℕ) → find_by T (is_named iface) s.pool ≡ some p → Ends s w (some p, s, w)
      made :
          (device : ℕ)
          → find_by T (is_named iface) s.pool ≡ none
          → Ends s w (make_entry T new_id net iface (some device) s w)

    module _ (s : Nm T new_id) (w : World) where
      make_entry-Ends :
          (o : Option ℕ)
          → find_by T (is_named iface) s.pool ≡ none
          → Ends s w (make_entry T new_id net iface o s w)
      unfolding make_entry
      make_entry-Ends none f = missed
      make_entry-Ends (some device) f = made device f

      find_entry-Ends :
          (o : Option ℕ)
          → find_by T (is_named iface) s.pool ≡ o
          → Ends s w (find_entry T new_id net iface o s w)
      unfolding find_entry
      find_entry-Ends (some p) f = hit p f
      find_entry-Ends none f = make_entry-Ends (net.by_iface iface) f

      nm_find-Ends : Ends s w (nm_find T new_id net iface s w)
      unfolding nm_find
      nm_find-Ends = find_entry-Ends _ refl

    find_hit :
        (later : Net) (s : Nm T new_id) (w : World) (p : ℕ)
        → find_by T (is_named iface) s.pool ≡ some p
        → nm_find T new_id later iface s w ≡ (some p, s, w)
    unfolding nm_find find_entry
    find_hit later s w p f = ap (λ o. find_entry T new_id later iface o s w) f

    again :
        (later : Net) (s : Nm T new_id) (w w' : World) {r : Option ℕ × Nm T new_id × World} {p : ℕ}
        → IsLinked T s.pool
        → Ends s w r
        → r.0 ≡ some p
        → nm_find T new_id later iface r.1 w' ≡ (some p, r.1, w')
    unfolding make_entry
    again later s w w' linked missed e = cc
    again later s w w' linked (hit p f) e = find_hit later s w' _ (f ∙ e)
    again later s w w' linked (made device f) e =
        find_hit later _ w' _
          (find_by-insert T (is_named iface) _ s.pool linked f (made_entry-iface device s w) ∙ e)

    -- After `nm_find` has returned an entry for an interface, it returns the same pointer for that
    -- interface again, whatever NetworkManager shows by then: it makes no second entry, connects no
    -- second callback and raises no signal.
    nm_find-nm_find :
        (later : Net) (s : Nm T new_id) (w w' : World) (p : ℕ)
        → IsLinked T s.pool
        → (nm_find T new_id net iface s w).0 ≡ some p
        → nm_find T new_id later iface (nm_find T new_id net iface s w).1 w'
          ≡ (some p, (nm_find T new_id net iface s w).1, w')
    nm_find-nm_find later s w w' p linked e = again later s w w' linked (nm_find-Ends s w) e
