-- ===== src/Backlight/Thread/Alive.antt =====
-- What the two threads of components/backlight.c can rely on: the entry behind the pointer that the
-- second one holds, and the monitor that it uses.
use slstatus.Prelude.{
  ℕ, ◌≡◌, refl, sym, ap, ◌∙◌, Bool, true, false, Option, none, some, arith, if◌then◌else◌,
}
use mathlib.Core.Path.{subst}
use slstatus.Prelude.Text.{Text, text_eq}
use slstatus.Util.{World}
use slstatus.Util.Float.{Float}
use slstatus.Pool.{TailQueue, find_by}
use slstatus.Pool.Find.{IsLinked, IsLinked-empty, find_by_sound, find_by-lt}
use slstatus.Pool.Links.{on_both, on_cell, IsLinked-modify}
use slstatus.Backlight
use slstatus.Backlight.{
  Entry, Device, Backlight, brightness_of, backlight_find, device_at, make_entry, look_up,
  create_entry, find_entry,
}
use slstatus.Backlight.Find.{find_hit}
use slstatus.Backlight.Links.{backlight_init-IsLinked, backlight_find-IsLinked}
use slstatus.Backlight.Thread.{
  Pc, absent, created, filter_add, enable_receiving, get_fd, receive_device, receiving, received,
  comparing, signalling, Answer, System, statics, backlight_init, new_monitor, after_receive,
  after_find, compare_with, step_at, backlight_loop, find, unref, free_from, backlight_free, Step,
  watch, look, elsewhere, Reaches, initialised, then_step,
}
use slstatus.Backlight.Thread.Holds.{Holds, backlight_find-Holds}
use slstatus.Backlight.Thread

module _ (F : Float) (T : TailQueue) where
  -- What the local variables of a place stand for.
  abbrev pub Stands : Pc → System F T → Type 0
  Stands (receiving m) s = m ≡ s.udev_monitor
  Stands (comparing d p) s = Holds F T d p s.backlight
  Stands _ s = Unit {0}

  pub record IsSound (s : System F T) : Type 0 where
    pub linked : IsLinked T s.backlight.pool
    pub alive : (m : ℕ) → s.udev_monitor ≡ some m → s.references m ≡ 1
    pub place : Stands s.thread s

  find-Stands :
      (name : Text) (create : Bool) (pc : Pc) (s : System F T)
      → Stands pc s
      → Stands pc (find F T name create s)
  unfolding find
  find-Stands name create (receiving m) s h = h
  find-Stands name create (comparing d p) s h =
      backlight_find-Holds F T name create d p s.backlight s.world h
  find-Stands name create absent s h = tt
  find-Stands name create created s h = tt
  find-Stands name create filter_add s h = tt
  find-Stands name create enable_receiving s h = tt
  find-Stands name create get_fd s h = tt
  find-Stands name create receive_device s h = tt
  find-Stands name create (received d) s h = tt
  find-Stands name create signalling s h = tt

  pub find-IsSound :
      (name : Text) (create : Bool) (s : System F T) → IsSound s → IsSound (find F T name create s)
  unfolding find
  find-IsSound name create s h = record {
    linked = backlight_find-IsLinked F T name create s.backlight s.world h.linked;
    alive = h.alive;
    place = find-Stands name create s.thread s h.place;
  }

  elsewhere-Stands :
      (pc : Pc) (s : System F T) (w : World) → Stands pc s → Stands pc (record s { world = w })
  elsewhere-Stands (receiving m) s w h = h
  elsewhere-Stands (comparing d p) s w h = h
  elsewhere-Stands absent s w h = tt
  elsewhere-Stands created s w h = tt
  elsewhere-Stands filter_add s w h = tt
  elsewhere-Stands enable_receiving s w h = tt
  elsewhere-Stands get_fd s w h = tt
  elsewhere-Stands receive_device s w h = tt
  elsewhere-Stands (received d) s w h = tt
  elsewhere-Stands signalling s w h = tt

  -- A place with nothing to stand for.
  moved :
      (pc : Pc) (s : System F T)
      → IsSound s
      → Stands pc (record s { thread = pc })
      → IsSound (record s { thread = pc })
  moved pc s h place = record { linked = h.linked; alive = h.alive; place = place }

  new_monitor-IsSound : (b : Bool) (s : System F T) → IsSound s → IsSound (new_monitor F T b s)
  unfolding new_monitor
  new_monitor-IsSound false s h = record { linked = h.linked; alive = λ m e. cc; place = tt }
  new_monitor-IsSound true s h = record {
    linked = h.linked;
    alive = λ m e. ground arith;
    place = tt;
  }

  looked_up :
      (d : Device) (o : Option ℕ) (s : System F T)
      → IsSound s
      → find_by T (λ e. text_eq e.name d.sysname) s.backlight.pool ≡ o
      → IsSound (record s { thread = after_find F T d o })
  unfolding after_find
  looked_up d none s h f = moved _ s h tt
  looked_up d (some p) s h f =
      let (e, at, named) = find_by_sound T _ s.backlight.pool p f in
      moved _ s h (e, at, named, find_by-lt T _ s.backlight.pool p h.linked f)

  look_up-IsSound : (d : Device) (s : System F T) → IsSound s → IsSound (Thread.look_up F T d s)
  unfolding Thread.look_up
  look_up-IsSound d s h =
      let o = find_by T (λ e. text_eq e.name d.sysname) s.backlight.pool in
      subst
        (λ (r : Option ℕ × Backlight F T × World).
          IsSound (record s { backlight = r.1; world = r.2; thread = after_find F T d r.0 }))
        (sym (find_hit F T d s.backlight s.world o refl)) (looked_up d o s h refl)

  compare_with-IsSound :
      (d : Device) (p : ℕ) (s : System F T) → IsSound s → IsSound (compare_with F T d p s)
  unfolding compare_with
  compare_with-IsSound d p s h = on_cell IsSound (s.backlight.pool.cells p) (moved _ s h tt) λ e.
      on_both IsSound _
        (record {
          linked = IsLinked-modify T p _ s.backlight.pool h.linked;
          alive = h.alive;
          place = tt;
        })
        (moved _ s h tt)

  after_receive-IsSound :
      (o : Option Device) (s : System F T)
      → IsSound s
      → IsSound (record s { thread = after_receive F T o })
  unfolding after_receive
  after_receive-IsSound none s h = moved _ s h tt
  after_receive-IsSound (some d) s h = moved _ s h tt

  step_at-IsSound :
      (pc : Pc) (a : Answer) (s : System F T) → IsSound s → IsSound (step_at F T pc a s)
  unfolding step_at
  step_at-IsSound absent a s h = h
  step_at-IsSound created a s h = new_monitor-IsSound a.monitor s h
  step_at-IsSound filter_add a s h = moved _ s h tt
  step_at-IsSound enable_receiving a s h = moved _ s h tt
  step_at-IsSound get_fd a s h = moved _ s h tt
  step_at-IsSound receive_device a s h = moved _ s h refl
  step_at-IsSound (receiving m) a s h = after_receive-IsSound a.device s h
  step_at-IsSound (received d) a s h = look_up-IsSound d s h
  step_at-IsSound (comparing d p) a s h = compare_with-IsSound d p s h
  step_at-IsSound signalling a s h = record { linked = h.linked; alive = h.alive; place = tt }

  Step-IsSound : {s t : System F T} → IsSound s → Step F T s t → IsSound t
  unfolding backlight_loop
  Step-IsSound {s} h (watch a) = step_at-IsSound s.thread a s h
  Step-IsSound {s} h (look name create) = find-IsSound name create s h
  Step-IsSound {s} h (elsewhere w) = record {
    linked = h.linked;
    alive = h.alive;
    place = elsewhere-Stands s.thread s w h.place;
  }

  initial-Stands : (b : Bool) (s : System F T) → Stands (if b then created else absent) s
  initial-Stands true s = tt
  initial-Stands false s = tt

  -- After `backlight_init`, as long as `backlight_free` is not called, whatever the threads do and in
  -- whatever order their steps come: every pointer of the queue points to an entry; the pointer that
  -- the second thread holds between its lookup and its comparison points to the entry of the device
  -- received; the monitor in `udev_monitor`, if there is one, is referenced once; and it is the one
  -- that the thread waits for.
  pub Reaches-IsSound :
      (udev : Option (Text → Option Device)) (w : World) (s : System F T)
      → Reaches F T udev w s
      → IsSound s
  unfolding backlight_init Backlight.backlight_init
  Reaches-IsSound udev w _ initialised = record {
    linked = backlight_init-IsLinked F T udev _ (IsLinked-empty T);
    alive = λ m e. cc;
    place = initial-Stands _ _;
  }
  Reaches-IsSound udev w t (then_step s _ before step) =
      Step-IsSound (Reaches-IsSound udev w s before) step

  abbrev unreferenced : Option ℕ → System F T → System F T
  unfolding unref Backlight.backlight_free
  unreferenced o s = record (unref F T o s) {
    backlight = Backlight.backlight_free F T (unref F T o s).backlight;
  }

  -- In every state that the two threads reach behind `backlight_init` and in which the second one
  -- waits for a device on a monitor, `backlight_free` leaves it waiting on that monitor, which
  -- nothing references any more.
  pub free-receiving :
      (udev : Option (Text → Option Device)) (w : World) (s : System F T) (m : ℕ)
      → Reaches F T udev w s
      → s.thread ≡ receiving (some m)
      → (t : System F T) × (backlight_free F T s ≡ some t)
        × (t.thread ≡ receiving (some m))
        × (t.references m ≡ 0)
  unfolding backlight_free free_from unref
  free-receiving udev w s m before e =
      let h = Reaches-IsSound udev w s before in
      let place : some m ≡ s.udev_monitor = subst (λ pc. Stands pc s) e h.place in
      let one = h.alive m (sym place) in
      (
        unreferenced (some m) s,
        ap (λ pc. free_from F T pc s) e ∙ ap (λ o. some (unreferenced o s)) (sym place),
        e,
        ground arith,
      )
