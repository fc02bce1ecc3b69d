-- ===== src/Upower/Find.antt =====
-- `upower_find` of components/upower.c.
use slstatus.Prelude.{ℕ, ◌≡◌, refl, ap, ◌∙◌, Bool, List, Option, none, some}
use slstatus.Prelude.Text.{Text, text_eq, text_eq_refl}
use slstatus.Util.{World}
use slstatus.Util.Float.{Float}
use slstatus.Pool.{TailQueue, find_by}
use slstatus.Pool.Find.{IsLinked, IsLinked-insert, find_by-insert}
use slstatus.Upower.{
  Device, Entry, Upower, upower_find, find_with, find_entry, make_entry, add_device, device_named,
}

module _ (F : Float) (T : TailQueue) where
  -- The test of the walk.
  abbrev is_named : Text → Entry F → Bool
  is_named name e = text_eq e.device name

  -- The three ends of `upower_find`.
  data Ends (name : Text) (s : Upower F T) (w : World)
      : Option ℕ × Upower F T × World → Type 0 where
    missed : Ends name s w (none, s, w)
    hit :
        (devices : List (Device F)) (p : ℕ)
        → s.client ≡ some devices
        → find_by T (is_named name) s.pool ≡ some p
        → Ends name s w (some p, s, w)
    made :
        (devices : List (Device F)) (d : Device F)
        → s.client ≡ some devices
        → find_by T (is_named name) s.pool ≡ none
        → Ends name s w (add_device F T name d s w)

  module _ (name : Text) (s : Upower F T) (w : World) where
    make_entry-Ends :
        (devices : List (Device F)) (o : Option (Device F))
        → s.client ≡ some devices
        → find_by T (is_named name) s.pool ≡ none
        → Ends name s w (make_entry F T name o s w)
    unfolding make_entry
    make_entry-Ends devices none c f = missed
    make_entry-Ends devices (some d) c f = made devices d c f

    find_entry-Ends :
        (devices : List (Device F)) (o : Option ℕ)
        → s.client ≡ some devices
        → find_by T (is_named name) s.pool ≡ o
        → Ends name s w (find_entry F T name devices o s w)
    unfolding find_entry
    find_entry-Ends devices (some p) c f = hit devices p c f
    find_entry-Ends devices none c f = make_entry-Ends devices (device_named F name devices) c f

    find_with-Ends :
        (o : Option (List (Device F))) → s.client ≡ o → Ends name s w (find_with F T name o s w)
    unfolding find_with
    find_with-Ends none c = missed
    find_with-Ends (some devices) c = find_entry-Ends devices _ c refl

    upower_find-Ends : Ends name s w (upower_find F T name s w)
    unfolding upower_find
    upower_find-Ends = find_with-Ends s.client refl

  find_with-hit :
      (name : Text) (s : Upower F T) (w : World) (devices : List (Device F)) (p : ℕ)
      (o : Option (List (Device F)))
      → o ≡ some devices
      → find_by T (is_named name) s.pool ≡ some p
      → find_with F T name o s w ≡ (some p, s, w)
  unfolding find_with find_entry
  find_with-hit name s w devices p none c f = cc
  find_with-hit name s w devices p (some ds) c f = ap (λ t. find_entry F T name ds t s w) f

  -- A search that hits the queue returns the pointer and changes nothing.
  find_hit :
      (name : Text) (s : Upower F T) (w : World) (devices : List (Device F)) (p : ℕ)
      → s.client ≡ some devices
      → find_by T (is_named name) s.pool ≡ some p
      → upower_find F T name s w ≡ (some p, s, w)
  unfolding upower_find
  find_hit name s w devices p c f = find_with-hit name s w devices p s.client c f

  again :
      (name : Text) (s : Upower F T) (w w' : World) {r : Option ℕ × Upower F T × World} {p : ℕ}
      → IsLinked T s.pool
      → Ends name s w r
      → r.0 ≡ some p
      → upower_find F T name r.1 w' ≡ (some p, r.1, w')
  unfolding add_device
  again name s w w' linked missed e = cc
  again name s w w' linked (hit devices p c f) e = find_hit name s w' devices _ c (f ∙ e)
  again name s w w' linked (made devices d c f) e =
      find_hit name _ w' devices _ c
        (find_by-insert T (is_named name) _ s.pool linked f (text_eq_refl name) ∙ e)

  IsLinked-after :
      (name : Text) (s : Upower F T) (w : World) {r : Option ℕ × Upower F T × World}
      → IsLinked T s.pool
      → Ends name s w r
      → IsLinked T r.1.pool
  unfolding add_device
  IsLinked-after name s w linked missed = linked
  IsLinked-after name s w linked (hit devices p c f) = linked
  IsLinked-after name s w linked (made devices d c f) = IsLinked-insert T _ s.pool linked

  -- After `upower_find` has returned an entry for a name, it returns the same pointer for that name
  -- again, makes no second entry, connects no second callback and raises no signal.
  pub upower_find-upower_find :
      (name : Text) (s : Upower F T) (w w' : World) (p : ℕ)
      → IsLinked T s.pool
      → (upower_find F T name s w).0 ≡ some p
      → upower_find F T name (upower_find F T name s w).1 w'
        ≡ (some p, (upower_find F T name s w).1, w')
  upower_find-upower_find name s w w' p linked e =
      again name s w w' linked (upower_find-Ends name s w) e

  -- `upower_find` keeps every pointer of the queue pointing to an entry.
  pub upower_find-IsLinked :
      (name : Text) (s : Upower F T) (w : World)
      → IsLinked T s.pool
      → IsLinked T (upower_find F T name s w).1.pool
  upower_find-IsLinked name s w linked = IsLinked-after name s w linked (upower_find-Ends name s w)
