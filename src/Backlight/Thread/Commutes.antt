-- ===== src/Backlight/Thread/Commutes.antt =====
-- A lookup of the main thread beside the steps of a round of `backlight_loop` in
-- components/backlight.c.
use slstatus.Prelude.{
  ℕ, ◌+◌, ◌<◌, ◌≡◌, refl, ap, ◌∙◌, Bool, true, false, Option, none, some, Bool-cases, inl, inr, [],
  ◌∷◌,
}
use slstatus.Prelude.Int.{eqb_ℤ}
use slstatus.Prelude.Text.{Text, lit, text_eq}
use slstatus.Stdio.Format.{str}
use slstatus.Util.{World, kill, esnprintf_all}
use slstatus.Util.Raised.{esnprintf_all-kill}
use slstatus.Util.Float.{Float}
use slstatus.Bar.{sigrtmin}
use slstatus.Pool.{TailQueue, find_by, modify}
use slstatus.Pool.Modify.{find_by-modify, insert-modify}
use slstatus.Backlight
use slstatus.Backlight.{
  Entry, Device, Backlight, brightness_of, backlight_find, device_at, make_entry, create_entry,
  find_entry, backlight_signal, path_max,
}
use slstatus.Backlight.Thread.{receive_device, signalling, System, compare_with, find}
use slstatus.Backlight.Thread.Holds.{Holds, backlight_find-Keeps}

module _ (F : Float) (T : TailQueue) where
  abbrev Found : Type 0
  Found = Option ℕ × Backlight F T × World

  -- What a lookup returns, with a signal raised behind it.
  abbrev raised : ℕ → Found → Found
  raised signo r = (r.0, r.1, kill signo r.2)

  create_entry-kill :
      (name : Text) (signo : ℕ) (b : Backlight F T) (w : World)
      → create_entry F T name b (kill signo w) ≡ raised signo (create_entry F T name b w)
  unfolding create_entry
  create_entry-kill name signo b w =
      ap
        (λ (r : Option Text × World).
          let (p, b') = Backlight.look_up F T name r.0 b in (p, b', r.1))
        (esnprintf_all-kill path_max (lit "/sys/class/backlight/%s") (str (some name) ∷ []) signo w)

  find_entry-kill :
      (name : Text) (create : Bool) (o : Option ℕ) (signo : ℕ) (b : Backlight F T) (w : World)
      → find_entry F T name create o b (kill signo w)
        ≡ raised signo (find_entry F T name create o b w)
  unfolding find_entry
  find_entry-kill name create (some p) signo b w = refl
  find_entry-kill name false none signo b w = refl
  find_entry-kill name true none signo b w = create_entry-kill name signo b w

  backlight_find-kill :
      (name : Text) (create : Bool) (signo : ℕ) (b : Backlight F T) (w : World)
      → backlight_find F T name create b (kill signo w)
        ≡ raised signo (backlight_find F T name create b w)
  unfolding backlight_find
  backlight_find-kill name create signo b w =
      find_entry-kill name create (find_by T (λ e. text_eq e.name name) b.pool) signo b w

  module _ (p : ℕ) (e : Entry) where
    abbrev written : Backlight F T → Backlight F T
    written b = record b { pool = modify T p e b.pool }

    abbrev wrote : Found → Found
    wrote r = (r.0, written r.1, r.2)

    make_entry-written :
        (name : Text) (o : Option Device) (b : Backlight F T)
        → p < b.pool.fresh
        → make_entry F T name o (written b)
          ≡ (let (q, b') = make_entry F T name o b in (q, written b'))
    unfolding make_entry modify
    make_entry-written name none b h = refl
    make_entry-written name (some d) b h =
        ap
          (λ (pool : slstatus.Pool.Pool T Entry).
            let o : Option ℕ = some b.pool.fresh in
            let b' : Backlight F T = record b { pool = pool } in (o, b'))
          (insert-modify T b.pool p e (record { name = name; brightness = brightness_of F d }) h)

    look_up-written :
        (name : Text) (path : Option Text) (b : Backlight F T)
        → p < b.pool.fresh
        → Backlight.look_up F T name path (written b)
          ≡ (let (q, b') = Backlight.look_up F T name path b in (q, written b'))
    unfolding Backlight.look_up
    look_up-written name none b h = refl
    look_up-written name (some path) b h = make_entry-written name (device_at F T b.udev path) b h

    find_entry-written :
        (name : Text) (create : Bool) (o : Option ℕ) (b : Backlight F T) (w : World)
        → p < b.pool.fresh
        → find_entry F T name create o (written b) w ≡ wrote (find_entry F T name create o b w)
    unfolding find_entry create_entry
    find_entry-written name create (some q) b w h = refl
    find_entry-written name false none b w h = refl
    find_entry-written name true none b w h =
        let (path, w') =
          esnprintf_all path_max (lit "/sys/class/backlight/%s") (str (some name) ∷ []) w in
        ap (λ (r : Option ℕ × Backlight F T). (r.0, r.1, w')) (look_up-written name path b h)

    backlight_find-written :
        (name : Text) (create : Bool) (old : Entry) (b : Backlight F T) (w : World)
        → b.pool.cells p ≡ some old
        → e.name ≡ old.name
        → p < b.pool.fresh
        → backlight_find F T name create (written b) w ≡ wrote (backlight_find F T name create b w)
    unfolding backlight_find
    backlight_find-written name create old b w at same h =
        ap (λ o. find_entry F T name create o (written b) w)
          (find_by-modify T (λ e. text_eq e.name name) b.pool p old e at
            (ap (λ n. text_eq n name) same))
        ∙ find_entry-written name create (find_by T (λ e. text_eq e.name name) b.pool) b w h

  -- The step that raises the signal, and a lookup.
  pub find-signalled :
      (name : Text) (create : Bool) (s : System F T)
      → find F T name create
          (record s { world = kill (sigrtmin + backlight_signal) s.world; thread = receive_device })
        ≡ (let s' = find F T name create s in
            record s' {
              world = kill (sigrtmin + backlight_signal) s'.world;
              thread = receive_device;
            })
  unfolding find
  find-signalled name create s =
      ap (λ (r : Found). record s { backlight = r.1; world = r.2; thread = receive_device })
        (backlight_find-kill name create (sigrtmin + backlight_signal) s.backlight s.world)

  -- The comparison with its assignment, and a lookup.
  pub find-compare_with :
      (name : Text) (create : Bool) (d : Device) (p : ℕ) (s : System F T)
      → Holds F T d p s.backlight
      → find F T name create (compare_with F T d p s)
        ≡ compare_with F T d p (find F T name create s)
  unfolding find compare_with
  find-compare_with name create d p s (e, at, named, old) =
      let b' = (backlight_find F T name create s.backlight s.world).1 in
      let at' : b'.pool.cells p ≡ some e =
        (backlight_find-Keeps F T name create p s.backlight s.world old).0 ∙ at in
      elim (Bool-cases (eqb_ℤ (brightness_of F d) e.brightness)) [
        | inl t ↦ rw (at, at', compare_with, t) refl
        | inr t ↦
            rw (at, at', compare_with, t)
              (ap (λ (r : Found). record s { backlight = r.1; world = r.2; thread = signalling })
                (backlight_find-written p (record e { brightness = brightness_of F d }) name create
                  e s.backlight s.world at refl old))
      ]
